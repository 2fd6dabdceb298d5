-- ===== src/Loader/Vspace/Legacy.antt =====
-- The two passes over page directories and page tables in 32-bit ARM and x86 configurations, and
-- `init_vspace` of main.c, which chooses between them and the recursion.
use capdl.Base.{ℕ, ◌+◌, ◌*◌, ◌^◌, Bool, true, false, ◌==◌, if◌then◌else◌}
use capdl.Base.Words.{wrap}
use capdl.Spec.Types.{CapType, ObjectType, is_cap_type, is_type}
use capdl.Spec.Access.{cap_rights, num_slots}
use capdl.Platform.{Platform, Arch, word_size, pt_num_levels}
use capdl.Exec.{Stop, Exec, ◌>>=◌, ◌>>◌, stop, when, for_range}
use capdl.Loader.Slots.{get_spec_object}
use capdl.Loader.Caps.{for_objects}
use capdl.Loader.Irq.{top_level_pd}
use capdl.Loader.Vspace.{
  cap_ptr, read_slot, map_page, slot_address, init_level_0, init_level_1, init_level_2,
}

module _ (p : Platform) where
  -- the distance between the slots of a page directory
  abbrev pub pd_shift : ℕ
  pd_shift = p.page_table_index_bits + p.page_bits

  unfoldable pub map_page_directory_slot : (pd_id index : ℕ) → Exec (Unit {0})
  map_page_directory_slot pd_id index = do
    slot ← read_slot (cap_ptr pd_id index)
    map_page p (cap_ptr pd_id index) pd_id (cap_rights slot.cap)
        (wrap (word_size p) (slot.slot * 2 ^ pd_shift))

  unfoldable pub map_page_directory : (pd_id : ℕ) → Exec (Unit {0})
  unfolding map_page_directory_slot
  map_page_directory pd_id = do
    cdl_pd ← get_spec_object pd_id
    for_range (num_slots cdl_pd) 0 (map_page_directory_slot pd_id)

  unfoldable pub map_page_table_slot : (pd pt pt_vaddr index : ℕ) → Exec (Unit {0})
  map_page_table_slot pd pt pt_vaddr index = do
    slot ← read_slot (cap_ptr pt index)
    map_page p (cap_ptr pt index) pd (cap_rights slot.cap)
        (slot_address p pt_vaddr slot.slot p.page_bits)

  unfoldable pub map_page_table_slots : (pd index : ℕ) → Exec (Unit {0})
  unfolding map_page_table_slot
  map_page_table_slots pd index = do
    slot ← read_slot (cap_ptr pd index)
    let vaddr = wrap (word_size p) (slot.slot * 2 ^ pd_shift)
    when (is_cap_type slot.cap.type CapType.pt_cap) (do
      obj ← get_spec_object slot.cap.obj_id
      for_range (num_slots obj) 0 (map_page_table_slot pd slot.cap.obj_id vaddr))

  unfoldable pub map_page_directory_page_tables : (pd : ℕ) → Exec (Unit {0})
  unfolding map_page_table_slots
  map_page_directory_page_tables pd = do
    cdl_pd ← get_spec_object pd
    for_range (num_slots cdl_pd) 0 (map_page_table_slots pd)

  unfoldable pub init_top_level : (obj_id : ℕ) → Exec (Unit {0})
  init_top_level obj_id =
      let levels = pt_num_levels p.config in
      if levels == 4
      then init_level_0 p obj_id 0
      else if levels == 3
      then init_level_1 p obj_id 0 obj_id
      else if levels == 2
      then init_level_2 p obj_id 0 obj_id
      else stop Stop.fatal

  -- the configurations with the recursion
  unfoldable pub is_recursive : Arch → Bool
  is_recursive Arch.ia32 = false
  is_recursive Arch.aarch32 = false
  is_recursive _ = true

  unfoldable pub init_vspace : Exec (Unit {0})
  unfolding init_top_level map_page_directory map_page_directory_page_tables
  init_vspace =
      if is_recursive p.arch
      then for_objects p
          (λ obj_id obj. when (is_type obj.type (top_level_pd p)) (init_top_level obj_id))
      else (do
        for_objects p
            (λ obj_id obj. when (is_type obj.type ObjectType.pd) (map_page_directory obj_id))
        for_objects p (λ obj_id obj.
            when (is_type obj.type ObjectType.pd) (map_page_directory_page_tables obj_id)))
