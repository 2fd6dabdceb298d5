-- ===== src/Loader/Device.antt =====
-- Device objects: `find_device_object` of main.c, and the call that makes an object from an untyped.
use capdl.Base.{
  ℕ, zero, suc, ◌+◌, ◌-◌, ◌^◌, Bool, not, ◌&&◌, ◌||◌, List, [], ◌∷◌, ltb, leb, ◌==◌, if◌then◌else◌,
}
use capdl.Base.Words.{wrap, wrap_sub, through_int}
use capdl.Spec.{Object}
use capdl.Spec.Types.{ObjectType, is_type, object_type_value}
use capdl.Spec.Access.{obj_paddr}
use capdl.Platform.{Platform, BootInfo, UntypedDesc, word_size}
use capdl.Platform.Calls.{Invocation}
use capdl.Exec.{
  Stop, Exec, pure, ◌>>=◌, ◌>>◌, stop, when, fatal_if, fatal_iferr, invoke, invoke_checked,
}
use capdl.Loader.Slots.{orig_caps, get_spec_object}

module _ (p : Platform) where
  -- the number that the kernel knows an object type by
  abbrev pub type_value : ObjectType → ℕ
  type_value t = object_type_value p.types p.kernel_mcs t

  -- the cap in slot `src` of the loader's CNode, copied to slot `dest` of it
  abbrev pub copy_within : (dest src : ℕ) → Invocation
  copy_within dest src =
      let root = p.cap_init_thread_cnode in
      Invocation.cnode_copy root dest (word_size p) root src (word_size p) p.all_rights

  abbrev pub delete_slot : ℕ → Invocation
  delete_slot slot = Invocation.cnode_delete p.cap_init_thread_cnode slot (word_size p)

  -- one object, into one slot of the loader's CNode
  abbrev pub retype_into : (untyped type size slot : ℕ) → Invocation
  retype_into untyped type size slot =
      Invocation.untyped_retype untyped type size p.cap_init_thread_cnode 0 0 slot 1

  -- the address of the object just made in `free_slot`; an untyped is asked through a frame in it
  unfoldable pub object_address : (type free_slot : ℕ) → Exec ℕ
  object_address type free_slot = do
    let probe = wrap (word_size p) (free_slot + 2)
    let from_frame = (do
      invoke_checked p (retype_into free_slot (p.frame_type p.page_bits) p.page_bits probe)
      addr ← invoke p (Invocation.page_get_address probe)
      invoke_checked p (delete_slot probe)
      pure addr)
    addr ←
        if type == p.types.untyped_object
        then from_frame
        else invoke p (Invocation.page_get_address free_slot)
    fatal_iferr addr.error
    pure addr.paddr

  -- while (1), with the slot that holds the first allocation, or 0
  unfoldable pub allocate_until :
      (fuel : ℕ) → (untyped paddr type size_bits free_slot hold_slot : ℕ) → Exec ℕ
  unfolding object_address
  allocate_until zero untyped paddr type size_bits free_slot hold_slot = stop Stop.out_of_fuel
  allocate_until (suc fuel) untyped paddr type size_bits free_slot hold_slot = do
    invoke_checked p (retype_into untyped type size_bits free_slot)
    addr ← object_address type free_slot
    let holding = not (hold_slot == 0)
    if addr == paddr
        then (do when holding (invoke_checked p (delete_slot hold_slot)); pure 0)
        else (do
          fatal_if (ltb paddr addr)
          if holding
              then (do
                invoke_checked p (delete_slot free_slot)
                allocate_until fuel untyped paddr type size_bits free_slot hold_slot)
              else (do
                let root = p.cap_init_thread_cnode
                let new_hold = wrap (word_size p) (free_slot + 1)
                invoke_checked p
                    (Invocation.cnode_move root new_hold (word_size p) root free_slot (word_size p))
                allocate_until fuel untyped paddr type size_bits free_slot new_hold))

  -- the untyped `d` holds the whole object
  unfoldable pub covers : UntypedDesc → (paddr size_bits : ℕ) → Bool
  covers d paddr size_bits =
      let w = word_size p in
      leb d.paddr paddr
      && leb (wrap_sub w (paddr + 2 ^ size_bits) 1) (wrap_sub w (d.paddr + 2 ^ d.size_bits) 1)

  -- the linear search, over the list from untyped `i` on; -1 is not found
  unfoldable pub search_untypeds :
      (fuel rounds untyped : ℕ) → List UntypedDesc → (paddr type size_bits free_slot : ℕ) → Exec ℕ
  unfolding allocate_until covers
  search_untypeds fuel zero untyped untypeds paddr type size_bits free_slot =
      pure (2 ^ word_size p - 1)
  search_untypeds fuel (suc rounds) untyped [] paddr type size_bits free_slot = stop Stop.undefined
  search_untypeds fuel (suc rounds) untyped (d ∷ rest) paddr type size_bits free_slot =
      let further =
        search_untypeds fuel rounds (wrap (word_size p) (untyped + 1)) rest paddr type size_bits
          free_slot in
      if covers d paddr size_bits
      then allocate_until fuel untyped paddr type size_bits free_slot 0
      else further

  unfoldable pub find_device_object :
      (fuel : ℕ) → (paddr type size_bits free_slot obj_id : ℕ) → BootInfo → Exec ℕ
  unfolding search_untypeds
  find_device_object fuel paddr type size_bits free_slot obj_id bootinfo = do
    let regions = wrap_sub (word_size p) bootinfo.untyped.end bootinfo.untyped.start
    let look =
        search_untypeds fuel regions bootinfo.untyped.start bootinfo.untyped_list paddr type
          size_bits free_slot
    if type == p.types.untyped_object || obj_id == 0 then look else do
      let prev = obj_id - 1
      obj ← get_spec_object prev
      let same =
          is_type obj.type ObjectType.frame
          && obj.frame_extra.paddr == paddr
          && obj.size_bits == size_bits
      if same
          then (do src ← orig_caps p prev; invoke_checked p (copy_within free_slot src); pure 0)
          else look

  unfoldable pub is_device_object : Object → Bool
  is_device_object obj = not (obj_paddr obj == 0)

  unfoldable pub retype_untyped : (free_slot free_untyped object_type object_size : ℕ) → Exec ℕ
  retype_untyped free_slot free_untyped object_type object_size = do
    fatal_if (leb p.types.object_type_count object_type)
    r ←
        invoke p
          (retype_into free_untyped object_type object_size (through_int (word_size p) free_slot))
    pure r.error

  -- the type and the size that `create_object` asks the kernel for
  unfoldable pub kernel_type : Object → ℕ
  kernel_type obj =
      if is_type obj.type ObjectType.frame
      then p.frame_type (through_int (word_size p) obj.size_bits)
      else if is_type obj.type ObjectType.asid_pool
      then type_value ObjectType.untyped
      else type_value obj.type

  unfoldable pub kernel_size : Object → ℕ
  kernel_size obj =
      if is_type obj.type ObjectType.asid_pool
      then p.asid_pool_bits
      else if p.kernel_mcs && is_type obj.type ObjectType.sched_context
      then p.sched_context_size (through_int (word_size p) obj.size_bits)
      else through_int (word_size p) obj.size_bits
