-- ===== src/Loader/Cspace/Source.antt =====
-- What `init_cnode_slot` decides in its switch over the type of the cap.
use capdl.Loader.Lookup.{or_fatal}
use capdl.Base.{Option, none, some, ℕ, ◌≡◌, true, refl, get_elem?}
use capdl.Exec.{World, deref}
use capdl.Spec.{Cap, CapData}
use capdl.Spec.Types.{CapType, is_cap_type}
use capdl.Platform.{Platform}
use capdl.Exec.Reads.{Reads, ReadsAt, Any, reads_rules}
use capdl.Loader.Slots.{
  get_spec_object, get_cap_data, dup_caps, orig_caps, irq_caps, sched_ctrl_caps,
}
use capdl.Loader.Cspace.{CnodeSource, cnode_source, orig_source, mapped_frame_slot}

pub Reads-get_spec_object : (i : ℕ) → Reads Any (get_spec_object i)
unfolding get_spec_object
Reads-get_spec_object i = search (reads_rules, tt)

deref_found : {A : Type 0} (w : World) (o : Option A) → ReadsAt (λ _ a. o ≡ some a) w (deref o w)
deref_found w none = refl
deref_found w (some a) = (refl, refl)

pub Reads-get_spec_object_found :
    (i : ℕ) → Reads (λ w obj. get_elem? w.spec.objects i ≡ some obj) (get_spec_object i)
unfolding get_spec_object
Reads-get_spec_object_found i = record { at = λ w. deref_found w (get_elem? w.spec.objects i) }

-- The cap to IRQ control, and no other, is moved, and counts as a cap to a handler.
abbrev pub IsSource : CapType → CnodeSource → Type 0
IsSource t s =
    (s.move_cap ≡ is_cap_type t CapType.irq_control_cap)
    × (s.move_cap ≡ true → s.is_irq_handler_cap ≡ true)

module _ (p : Platform) where
  pub Reads-get_cap_data : (d : CapData) → Reads Any (get_cap_data p d)
  unfolding get_cap_data
  Reads-get_cap_data d = search (reads_rules, tt)

  pub Reads-dup_caps : (i : ℕ) → Reads (λ w n. n ≡ w.capdl_to_sel4_copy i) (dup_caps p i)
  unfolding dup_caps
  Reads-dup_caps i = search reads_rules

  Reads-orig_caps : (i : ℕ) → Reads Any (orig_caps p i)
  unfolding orig_caps
  Reads-orig_caps i = search reads_rules

  Reads-irq_caps : (i : ℕ) → Reads Any (irq_caps p i)
  unfolding irq_caps
  Reads-irq_caps i = search reads_rules

  Reads-sched_ctrl_caps : (i : ℕ) → Reads Any (sched_ctrl_caps p i)
  unfolding sched_ctrl_caps
  Reads-sched_ctrl_caps i = search reads_rules

  Reads-or_fatal : (c : Option Cap) → Reads Any (or_fatal c)
  unfolding or_fatal
  Reads-or_fatal none = search reads_rules
  Reads-or_fatal (some c) = search (reads_rules, tt)

  pub Reads-mapped_frame_slot : (cap : Cap) → Reads Any (mapped_frame_slot p cap)
  unfolding mapped_frame_slot
  Reads-mapped_frame_slot cap = search (reads_rules, Reads-get_spec_object, Reads-or_fatal) depth 9

  ruleset source_rules = (reads_rules, Reads-orig_caps, Reads-irq_caps, Reads-sched_ctrl_caps)

  pub Reads-cnode_source :
      (t : CapType) (cap : Cap) (d : ℕ) → Reads (λ _ s. IsSource t s) (cnode_source p t cap d)
  unfolding cnode_source orig_source is_cap_type
  Reads-cnode_source CapType.null_cap cap d = search source_rules depth 9
  Reads-cnode_source CapType.untyped_cap cap d = search source_rules depth 9
  Reads-cnode_source CapType.ep_cap cap d = search source_rules depth 9
  Reads-cnode_source CapType.notification_cap cap d = search source_rules depth 9
  Reads-cnode_source CapType.reply_cap cap d = search source_rules depth 9
  Reads-cnode_source CapType.master_reply_cap cap d = search source_rules depth 9
  Reads-cnode_source CapType.cnode_cap cap d = search source_rules depth 9
  Reads-cnode_source CapType.tcb_cap cap d = search source_rules depth 9
  Reads-cnode_source CapType.irq_control_cap cap d = search source_rules depth 9
  Reads-cnode_source CapType.irq_handler_cap cap d = search source_rules depth 9
  Reads-cnode_source CapType.frame_cap cap d = search source_rules depth 9
  Reads-cnode_source CapType.pt_cap cap d = search source_rules depth 9
  Reads-cnode_source CapType.pd_cap cap d = search source_rules depth 9
  Reads-cnode_source CapType.pml4_cap cap d = search source_rules depth 9
  Reads-cnode_source CapType.pdpt_cap cap d = search source_rules depth 9
  Reads-cnode_source CapType.pud_cap cap d = search source_rules depth 9
  Reads-cnode_source CapType.pgd_cap cap d = search source_rules depth 9
  Reads-cnode_source CapType.asid_control_cap cap d = search source_rules depth 9
  Reads-cnode_source CapType.asid_pool_cap cap d = search source_rules depth 9
  Reads-cnode_source CapType.io_ports_cap cap d = search source_rules depth 9
  Reads-cnode_source CapType.io_space_cap cap d = search source_rules depth 9
  Reads-cnode_source CapType.arm_io_space_cap cap d = search source_rules depth 9
  Reads-cnode_source CapType.sid_cap cap d = search source_rules depth 9
  Reads-cnode_source CapType.cb_cap cap d = search source_rules depth 9
  Reads-cnode_source CapType.vcpu_cap cap d = search source_rules depth 9
  Reads-cnode_source CapType.sc_cap cap d = search source_rules depth 9
  Reads-cnode_source CapType.sched_control_cap cap d = search source_rules depth 9
  Reads-cnode_source CapType.rt_reply_cap cap d = search source_rules depth 9
  Reads-cnode_source CapType.domain_cap cap d = search source_rules depth 9
