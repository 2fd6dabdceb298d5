-- ===== src/Loader/Create/Rounds.antt =====
-- The loop of the dynamic `create_objects` of main.c: how many rounds it takes.
use capdl.Base.{ℕ, zero, suc, ◌+◌, ◌-◌, ◌<◌, ◌^◌, ◌≡◌, ◌&&◌, arith, ltb}
use capdl.Base.Words.{u32, u32_small, wrap_sub}
use capdl.Spec.{Object}
use capdl.Platform.{Platform, BootInfo}
use capdl.Exec.Ends.{Ends, Ends-pure, Ends-if, ends_rules}
use capdl.Loader.Slots.{add_sel4_cap, get_spec_object, CapTable}
use capdl.Loader.Device.{find_device_object, retype_untyped}
use capdl.Loader.Create.{
  create_io_ports, create_sid, create_cb, create_device, create_object, create_loop,
}

-- the search for a device object does not run out of rounds
pub record DevicesEnd (p : Platform) (dev : ℕ) (bi : BootInfo) : Type 0 where
  pub ends :
      (paddr type size slot id : ℕ) → Ends (find_device_object p dev paddr type size slot id bi)

Ends-get_spec_object : (i : ℕ) → Ends (get_spec_object i)
unfolding get_spec_object
Ends-get_spec_object i = search ends_rules

-- the index counted down and up again, which wraps around at 0
down_and_up : (i : ℕ) → i < 2 ^ 32 → u32 (wrap_sub 32 i 1 + 1) ≡ i
down_and_up i h = ground arith

module _ (p : Platform) (dev : ℕ) (bi : BootInfo) (devices : DevicesEnd p dev bi) where
  Ends-add_sel4_cap : (i : ℕ) (t : CapTable) (v : ℕ) → Ends (add_sel4_cap p i t v)
  unfolding add_sel4_cap
  Ends-add_sel4_cap i t v = search ends_rules

  Ends-create_object : (o : Object) (i u s : ℕ) → Ends (create_object p dev o i bi u s)
  unfolding create_object create_io_ports create_sid create_cb create_device retype_untyped
  Ends-create_object o i u s = let device = devices.ends in search (ends_rules, device) depth 12

  -- The rounds that `create_objects` is given are enough. Where the numbers of objects and untypeds are
  -- below 2 ^ 32 and the search for a device object does not run out of rounds, the loop, from whatever
  -- state, does not run out of its own, if they are more than the objects and the untypeds left.
  pub Ends-create_loop :
      (num num_untypes : ℕ)
      → num < 2 ^ 32
      → num_untypes < 2 ^ 32
      → (fuel obj_id slots ut : ℕ) → (num - obj_id) + (num_untypes - ut) < fuel
      → Ends (create_loop p fuel dev bi num num_untypes obj_id slots ut)
  unfolding create_loop
  Ends-create_loop num nu hn hu zero i s u h = absurd (omega arith)
  Ends-create_loop num nu hn hu (suc fuel) i s u h =
      Ends-if (ltb i num && ltb u nu) _ _
        (λ more.
          let here : i < num = ground arith in
          let within : u < nu = ground arith in
          let after : u32 (i + 1) ≡ i + 1 = u32_small (i + 1) (omega arith) in
          let after_ut : u32 (u + 1) ≡ u + 1 = u32_small (u + 1) (omega arith) in
          let again : u32 (wrap_sub 32 i 1 + 1) ≡ i = down_and_up i (omega arith) in
          let next : (t : ℕ) → Ends (create_loop p fuel dev bi num nu (u32 (i + 1)) t u) =
            λ t. rw after (Ends-create_loop num nu hn hu fuel (i + 1) t u (omega arith)) in
          let next_ut : (t : ℕ)
              → Ends
                  (create_loop p fuel dev bi num nu (u32 (wrap_sub 32 i 1 + 1)) t (u32 (u + 1))) =
            λ t.
              rw (again, after_ut) (Ends-create_loop num nu hn hu fuel i t (u + 1) (omega arith)) in
          search
            (ends_rules, Ends-get_spec_object, Ends-create_object, Ends-add_sel4_cap, next, next_ut)
            depth 16)
        (λ _. Ends-pure (i, s))
