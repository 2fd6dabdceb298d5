-- ===== src/Loader/Phases/Creation.antt =====
-- The effects of the creation of the objects.
use capdl.Base.{ℕ, zero, suc, ◌+◌, List, [], ◌∷◌}
use capdl.Spec.{Object, UntypedDerivation}
use capdl.Platform.{Platform, BootInfo, UntypedDesc}
use capdl.Exec.Emits.{Emits-modify}
use capdl.Loader.Untyped.{sort_untypeds}
use capdl.Loader.Device.{
  object_address, allocate_until, search_untypeds, find_device_object, retype_untyped,
}
use capdl.Loader.Create.{
  create_io_ports, create_sid, create_cb, create_device, create_object, create_asid_pools,
  finish_creation, create_loop, create_objects_dynamic, create_children, derive_untypeds,
  create_objects_static, create_objects,
}
use capdl.Loader.Phases.Basics.{Setup, basic_rules}

module _ (p : Platform) where
  Setup-sort_untypeds : (bi : BootInfo) → Setup (sort_untypeds p bi)
  unfolding sort_untypeds
  Setup-sort_untypeds bi = search (basic_rules, Emits-modify)

  Setup-object_address : (t s : ℕ) → Setup (object_address p t s)
  unfolding object_address
  Setup-object_address t s = search (basic_rules, tt) depth 9

  Setup-allocate_until : (fuel u a t b s h : ℕ) → Setup (allocate_until p fuel u a t b s h)
  unfolding allocate_until
  Setup-allocate_until zero u a t b s h = search basic_rules
  Setup-allocate_until (suc fuel) u a t b s h =
      search (basic_rules, Setup-object_address, Setup-allocate_until fuel u a t b s, tt) depth 12

  Setup-search_untypeds :
      (fuel rounds u : ℕ) (us : List UntypedDesc) (a t b s : ℕ)
      → Setup (search_untypeds p fuel rounds u us a t b s)
  unfolding search_untypeds
  Setup-search_untypeds fuel zero u us a t b s = search basic_rules
  Setup-search_untypeds fuel (suc rounds) u [] a t b s = search basic_rules
  Setup-search_untypeds fuel (suc rounds) u (d ∷ us) a t b s =
      let further : (v : ℕ) → Setup (search_untypeds p fuel rounds v us a t b s) =
        λ v. Setup-search_untypeds fuel rounds v us a t b s in
      search (basic_rules, Setup-allocate_until, further)

  Setup-find_device_object :
      (fuel a t b s i : ℕ) (bi : BootInfo) → Setup (find_device_object p fuel a t b s i bi)
  unfolding find_device_object
  Setup-find_device_object fuel a t b s i bi =
      search (basic_rules, Setup-search_untypeds, tt) depth 9

  Setup-retype_untyped : (s u t b : ℕ) → Setup (retype_untyped p s u t b)
  unfolding retype_untyped
  Setup-retype_untyped s u t b = search basic_rules

  Setup-create_object :
      (fuel : ℕ) (o : Object) (i : ℕ) (bi : BootInfo) (u s : ℕ)
      → Setup (create_object p fuel o i bi u s)
  unfolding create_object create_io_ports create_sid create_cb create_device
  Setup-create_object fuel o i bi u s =
      search (basic_rules, Emits-modify, Setup-find_device_object, Setup-retype_untyped, tt) depth
        12

  Setup-create_asid_pools : (ids : List ℕ) (n : ℕ) → Setup (create_asid_pools p ids n)
  unfolding create_asid_pools
  Setup-create_asid_pools [] n = search basic_rules
  Setup-create_asid_pools (i ∷ ids) n =
      search (basic_rules, Setup-create_asid_pools ids, tt) depth 9

  Setup-finish_creation : (n : ℕ) → Setup (finish_creation p n)
  unfolding finish_creation
  Setup-finish_creation n = search (basic_rules, Emits-modify, Setup-create_asid_pools) depth 9

  Setup-create_loop :
      (fuel dev : ℕ) (bi : BootInfo) (num nu i s u : ℕ)
      → Setup (create_loop p fuel dev bi num nu i s u)
  unfolding create_loop
  Setup-create_loop zero dev bi num nu i s u = search basic_rules
  Setup-create_loop (suc fuel) dev bi num nu i s u =
      search (basic_rules, Setup-create_object, Setup-create_loop fuel dev bi num nu) depth 14

  Setup-create_objects_dynamic : (dev : ℕ) (bi : BootInfo) → Setup (create_objects_dynamic p dev bi)
  unfolding create_objects_dynamic
  Setup-create_objects_dynamic dev bi =
      search (basic_rules, Setup-sort_untypeds, Setup-create_loop, Setup-finish_creation) depth 9

  Setup-create_children :
      (bi : BootInfo) (u : ℕ) (ids : List ℕ) (n : ℕ) → Setup (create_children p bi u ids n)
  unfolding create_children
  Setup-create_children bi u [] n = search basic_rules
  Setup-create_children bi u (i ∷ ids) n =
      search (basic_rules, Setup-create_object, Setup-create_children bi u ids) depth 12

  Setup-derive_untypeds :
      (bi : BootInfo) (i : ℕ) (us : List UntypedDerivation) (n : ℕ)
      → Setup (derive_untypeds p bi i us n)
  unfolding derive_untypeds
  Setup-derive_untypeds bi i [] n = search basic_rules
  Setup-derive_untypeds bi i (u ∷ us) n =
      search (basic_rules, Setup-create_children, Setup-derive_untypeds bi (i + 1) us)

  Setup-create_objects_static : (bi : BootInfo) → Setup (create_objects_static p bi)
  unfolding create_objects_static
  Setup-create_objects_static bi =
      search (basic_rules, Setup-derive_untypeds, Setup-finish_creation)

  pub Setup-create_objects : (dev : ℕ) (bi : BootInfo) → Setup (create_objects p dev bi)
  unfolding create_objects
  Setup-create_objects dev bi =
      search (basic_rules, Setup-create_objects_static, Setup-create_objects_dynamic)
