-- ===== src/Examples/Runs.antt =====
-- What the loader does on the small system.
use capdl.Base.{◌≡◌, refl, [], ◌∷◌}
use capdl.Platform.{word_size_of}
use capdl.Platform.Calls.{Invocation, call}
use capdl.Exec.{for_range, invoke_checked, world}
use capdl.Loader.Caps.{duplicate_caps, for_objects, is_duplicated, duplicate_cap}
use capdl.Spec.Types.{is_type}
use capdl.Loader.Slots.{
  get_spec_object, orig_caps, get_free_slot, add_sel4_cap, next_free_slot, update,
}
use capdl.Loader.Irq.{start_threads}
use capdl.Loader.Untyped.{count_sizes, start_indices, place_untypeds, sort_untypeds}
use capdl.Examples.{machine, bootinfo, start}

started : (world (start_threads machine start)).trace ≡ call (Invocation.tcb_resume 40) ∷ []
unfolding start_threads for_objects for_range get_spec_object is_type orig_caps invoke_checked
started = refl

duplicated_tcb : (world (duplicate_caps machine start)).capdl_to_sel4_copy 3 ≡ 52
unfolding duplicate_caps word_size_of for_objects for_range get_spec_object is_duplicated is_type
    get_free_slot duplicate_cap orig_caps invoke_checked add_sel4_cap next_free_slot update
duplicated_tcb = refl

largest_first : (world (sort_untypeds machine bootinfo start)).untyped_cptrs 0 ≡ 22
unfolding sort_untypeds word_size_of count_sizes start_indices place_untypeds update
largest_first = refl
