-- ===== src/Loader/Cspace.antt =====
-- Filling the CNodes: `init_cnode_slot`, `init_cnode` and `init_cspace` of main.c.
pub mod Source
pub mod Once
pub mod Moved
use capdl.Base.{ℕ, ◌+◌, Bool, true, false, not, ◌&&◌, ◌||◌, ◌==◌, if◌then◌else◌}
use capdl.Base.Words.{wrap, u8, through_int}
use capdl.Spec.{Cap, CapSlot}
use capdl.Spec.Types.{CapType, ObjectType, is_cap_type, is_type}
use capdl.Spec.Access.{CapRights, cap_rights, num_slots}
use capdl.Platform.{Platform, word_size, is_x86, is_arm}
use capdl.Platform.Calls.{Invocation}
use capdl.Exec.{Exec, pure, ◌>>=◌, ◌>>◌, gets, when, assert, invoke_checked, for_range}
use capdl.Loader.Slots.{
  orig_caps, dup_caps, irq_caps, sched_ctrl_caps, get_spec_object, get_cap_data,
}
use capdl.Loader.Lookup.{get_cap_at, or_fatal}
use capdl.Loader.Caps.{for_objects, invalid_obj_id}
use capdl.Loader.Vspace.{cap_ptr, read_slot}

pub data CnodeMode : Type 0 where
  move copy : CnodeMode

unfoldable pub ep_related_cap : CapType → Bool
ep_related_cap CapType.ep_cap = true
ep_related_cap CapType.notification_cap = true
ep_related_cap CapType.reply_cap = true
ep_related_cap _ = false

-- the variables of `init_cnode_slot` after its switch over the type of the cap
pub record CnodeSource : Type 0 where
  pub src_index : ℕ
  pub target_cap_data : ℕ
  pub move_cap : Bool
  pub is_irq_handler_cap : Bool

-- where the cap goes: the CNode, by its duplicate, the slot in it, and the depth
pub record Dest : Type 0 where
  pub root : ℕ
  pub index : ℕ
  pub depth : ℕ

abbrev pub dest_at : (root index depth : ℕ) → Dest
dest_at r i d = record { root = r; index = i; depth = d }

module _ (p : Platform) where
  abbrev source : (src_index cap_data : ℕ) → CnodeSource
  source src_index cap_data = record {
    src_index = src_index;
    target_cap_data = cap_data;
    move_cap = false;
    is_irq_handler_cap = false;
  }

  -- the default case of the switch
  unfoldable pub orig_source : Cap → (cap_data : ℕ) → Exec CnodeSource
  orig_source cap cap_data = do src ← orig_caps p cap.obj_id; pure (source src cap_data)

  unfoldable pub cnode_source : CapType → Cap → (cap_data : ℕ) → Exec CnodeSource
  unfolding orig_source
  cnode_source CapType.io_space_cap cap cap_data =
      if is_x86 p.arch then pure (source p.cap_io_space cap_data) else orig_source cap cap_data
  cnode_source CapType.arm_io_space_cap cap cap_data =
      let iospace = (do
        first ← gets (λ w. w.first_arm_iospace)
        pure (source (wrap (word_size p) (first + cap_data)) 0)) in
      if is_arm p.arch then iospace else orig_source cap cap_data
  cnode_source CapType.irq_handler_cap cap cap_data = do
    src ← irq_caps p cap.irq
    pure (record (source src cap_data) { is_irq_handler_cap = true })
  cnode_source CapType.irq_control_cap cap cap_data = pure (record {
    src_index = p.cap_irq_control;
    target_cap_data = cap_data;
    move_cap = true;
    is_irq_handler_cap = true;
  })
  cnode_source CapType.sched_control_cap cap cap_data = do
    src ← sched_ctrl_caps p cap.obj_id
    pure (source src cap_data)
  cnode_source CapType.domain_cap cap cap_data = pure (source p.cap_domain cap_data)
  cnode_source CapType.asid_control_cap cap cap_data = pure (source p.cap_asid_control cap_data)
  cnode_source _ cap cap_data = orig_source cap cap_data

  -- the slot of the cap with which the frame was mapped in its container
  unfoldable pub mapped_frame_slot : Cap → Exec ℕ
  mapped_frame_slot cap = do
    container ← get_spec_object cap.mapping_container_id
    frame_cap ← or_fatal (get_cap_at container cap.mapping_slot)
    assert (is_cap_type frame_cap.type CapType.frame_cap)
    pure frame_cap.mapped_frame_cap

  abbrev pub move_to : Dest → (src_index : ℕ) → Invocation
  move_to d src_index =
      Invocation.cnode_move d.root d.index d.depth p.cap_init_thread_cnode src_index (word_size p)

  abbrev pub mutate_to : Dest → (src_index cap_data : ℕ) → Invocation
  mutate_to d src_index cap_data =
      Invocation.cnode_mutate d.root d.index d.depth p.cap_init_thread_cnode src_index (word_size p)
        cap_data

  abbrev pub mint_to : Dest → (src_index : ℕ) → CapRights → (cap_data : ℕ) → Invocation
  mint_to d src_index rights cap_data =
      Invocation.cnode_mint d.root d.index d.depth p.cap_init_thread_cnode src_index (word_size p)
        rights cap_data

  unfoldable pub move_slot : Dest → Cap → CnodeSource → Exec (Unit {0})
  move_slot d cap s =
      if ep_related_cap cap.type || s.is_irq_handler_cap
      then invoke_checked p (move_to d s.src_index)
      else invoke_checked p (mutate_to d s.src_index s.target_cap_data)

  unfoldable pub copy_slot : Dest → Cap → CnodeSource → Exec (Unit {0})
  copy_slot d cap s =
      let mapped = (do slot ← mapped_frame_slot cap; invoke_checked p (move_to d slot)) in
      if is_cap_type cap.type CapType.frame_cap
        && not (cap.mapping_container_id == invalid_obj_id p)
      then mapped
      else invoke_checked p (mint_to d s.src_index (cap_rights cap) s.target_cap_data)

  -- the moves and copies, by the mode and by what the switch decided
  unfoldable pub install : CnodeMode → Dest → Cap → CnodeSource → Exec (Unit {0})
  unfolding move_slot copy_slot
  install CnodeMode.move d cap s = if s.move_cap then move_slot d cap s else pure tt
  install CnodeMode.copy d cap s = if s.move_cap then pure tt else copy_slot d cap s

  unfoldable pub init_cnode_slot : CnodeMode → (cnode_id : ℕ) → CapSlot → Exec (Unit {0})
  unfolding cnode_source install
  init_cnode_slot mode cnode_id cnode_slot = do
    let target_cap = cnode_slot.cap
    target_cap_data ← get_cap_data p target_cap.cap_data
    dest_obj ← get_spec_object cnode_id
    dest_root ← dup_caps p cnode_id
    s ← cnode_source target_cap.type target_cap target_cap_data
    let index = through_int (word_size p) cnode_slot.slot
    install mode (dest_at dest_root index (u8 dest_obj.size_bits)) target_cap
        (record s { src_index = through_int (word_size p) s.src_index })

  unfoldable pub init_cnode : CnodeMode → (cnode : ℕ) → Exec (Unit {0})
  unfolding init_cnode_slot
  init_cnode mode cnode = do
    cdl_cnode ← get_spec_object cnode
    for_range (num_slots cdl_cnode) 0
        (λ i. do slot ← read_slot (cap_ptr cnode i); init_cnode_slot mode cnode slot)

  unfoldable pub init_cspace : Exec (Unit {0})
  unfolding init_cnode
  init_cspace = do
    for_objects p
        (λ obj_id obj. when (is_type obj.type ObjectType.cnode) (init_cnode CnodeMode.copy obj_id))
    for_objects p
        (λ obj_id obj. when (is_type obj.type ObjectType.cnode) (init_cnode CnodeMode.move obj_id))
