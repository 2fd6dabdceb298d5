-- ===== src/Loader/Phases/Threads.antt =====
-- The effects of setting up the interrupts, the frames, the scheduling contexts and the threads.
use capdl.Base.{ℕ, zero, suc, List, [], ◌∷◌, Option, none, some}
use capdl.Spec.{Cap, Object, FrameFillElement, TcbExtraInfo}
use capdl.Spec.Types.{FillType}
use capdl.Platform.{Header, Platform, Arch}
use capdl.Exec.{◌>>◌, pure}
use capdl.Exec.Emits.{Emits-bind, Emits-if, Emits-pure, Emits-modify}
use capdl.Loader.Lookup.{
  get_cdl_frame_pt_on, or_fatal, cap_in, get_cdl_frame_pdpt, get_cdl_frame_pd_x86_64,
  get_cdl_frame_pud, get_cdl_frame_pd_aarch64, pt_recurse, get_cdl_frame_pt_recurse,
  get_cdl_frame_pt, get_cdl_frame_cap, get_frame_cap,
}
use capdl.Loader.Irq.{notification_slot, init_irq, init_irqs, set_asid, init_pd_asids}
use capdl.Loader.Frames.{
  copy_block, fill_by_type, is_no_fill, fill_frame_with_bootinfo, fill_frame_with_filedata,
  map_for_filling, fill_frame, init_frame, fill_loop, init_frames,
}
use capdl.Loader.Tcb.{
  TcbCaps, init_sc, init_scs, slot_or_null, data_or_nil, mcs_fault_ep, fault_endpoints,
  look_up_tcb_caps, configure_spaces, set_sched_params, configure_sc, init_tcb,
}
use capdl.Loader.Registers.{
  four_args, register_args_on, write_args, write_stack_args, arg_or_zero, register_args,
  configure_tcb, init_tcbs,
}
use capdl.Loader.System.{mark_vspace_roots}
use capdl.Loader.Phases.Basics.{
  Setup, Setup-for_objects, Setup-for_irqs, Setup-irq_object, Setup-mint_cap, basic_rules,
}

module _ (p : Platform) where
  Setup-notification_slot : (c : Cap) → Setup (notification_slot p c)
  unfolding notification_slot
  Setup-notification_slot c = search (basic_rules, Setup-mint_cap) depth 9

  Setup-init_irq : (i : ℕ) → Setup (init_irq p i)
  unfolding init_irq
  Setup-init_irq i = search (basic_rules, Setup-irq_object, Setup-notification_slot) depth 12

  pub Setup-init_irqs : Setup (init_irqs p)
  unfolding init_irqs
  Setup-init_irqs = search (Setup-for_irqs, Setup-init_irq)

  pub Setup-init_pd_asids : Setup (init_pd_asids p)
  unfolding init_pd_asids set_asid
  Setup-init_pd_asids = search (basic_rules, Setup-for_objects, tt) depth 9

  Setup-copy_block :
      (o : Option (ℕ × Header)) (b : ℕ) (f : FrameFillElement) → Setup (copy_block p o b f)
  unfolding copy_block
  Setup-copy_block none b f = search basic_rules
  Setup-copy_block (some (a, h)) b f = search basic_rules

  Setup-fill_frame_with_bootinfo :
      (b : ℕ) (f : FrameFillElement) → Setup (fill_frame_with_bootinfo p b f)
  unfolding fill_frame_with_bootinfo
  Setup-fill_frame_with_bootinfo b f = search (basic_rules, Setup-copy_block)

  Setup-fill_frame_with_filedata :
      (b : ℕ) (f : FrameFillElement) → Setup (fill_frame_with_filedata p b f)
  unfolding fill_frame_with_filedata
  Setup-fill_frame_with_filedata b f = search (basic_rules, tt)

  Setup-fill_by_type : (t : FillType) (b : ℕ) (f : FrameFillElement) → Setup (fill_by_type p t b f)
  unfolding fill_by_type
  Setup-fill_by_type FillType.boot_info b f = Setup-fill_frame_with_bootinfo b f
  Setup-fill_by_type FillType.file_data b f = Setup-fill_frame_with_filedata b f
  Setup-fill_by_type FillType.none_fill b f = search basic_rules

  Setup-fill_frame : (b : ℕ) (f : FrameFillElement) → Setup (fill_frame p b f)
  unfolding fill_frame
  Setup-fill_frame b f = Setup-fill_by_type f.type b f

  Setup-init_frame : (o : ℕ) (f : FrameFillElement) → Setup (init_frame p o f)
  unfolding init_frame map_for_filling
  Setup-init_frame o f = search (basic_rules, Setup-fill_frame, tt) depth 14

  Setup-fill_loop : (n o : ℕ) (fs : List FrameFillElement) → Setup (fill_loop p n o fs)
  unfolding fill_loop
  Setup-fill_loop zero o fs = search basic_rules
  Setup-fill_loop (suc n) o [] = search basic_rules
  Setup-fill_loop (suc n) o (f ∷ fs) =
      Emits-if (is_no_fill p f.type) (pure tt) (init_frame p o f >> fill_loop p n o fs)
        (λ _. Emits-pure tt)
        (λ _.
          Emits-bind (init_frame p o f) (λ _. fill_loop p n o fs) (Setup-init_frame o f)
            λ _. Setup-fill_loop n o fs)

  pub Setup-init_frames : Setup (init_frames p)
  unfolding init_frames
  Setup-init_frames = search (basic_rules, Setup-for_objects, Setup-fill_loop) depth 9

  Setup-init_sc : (s a : ℕ) → Setup (init_sc p s a)
  unfolding init_sc
  Setup-init_sc s a = search (basic_rules, tt) depth 9

  pub Setup-init_scs : Setup (init_scs p)
  unfolding init_scs
  Setup-init_scs = search (basic_rules, Setup-for_objects, Setup-init_sc) depth 9

  Setup-slot_or_null : (c : Option Cap) → Setup (slot_or_null p c)
  unfolding slot_or_null
  Setup-slot_or_null none = search basic_rules
  Setup-slot_or_null (some c) = search basic_rules

  Setup-data_or_nil : (c : Option Cap) → Setup (data_or_nil p c)
  unfolding data_or_nil
  Setup-data_or_nil none = search basic_rules
  Setup-data_or_nil (some c) = search basic_rules

  Setup-mcs_fault_ep : (c : Option Cap) (f : ℕ) → Setup (mcs_fault_ep p c f)
  unfolding mcs_fault_ep
  Setup-mcs_fault_ep none f = search basic_rules
  Setup-mcs_fault_ep (some c) f = search (basic_rules, Setup-mint_cap) depth 12

  Setup-fault_endpoints : (o : Object) → Setup (fault_endpoints p o)
  unfolding fault_endpoints
  Setup-fault_endpoints o = search (basic_rules, Setup-slot_or_null, Setup-mcs_fault_ep) depth 9

  Setup-look_up_tcb_caps : (t : ℕ) (o : Object) → Setup (look_up_tcb_caps p t o)
  unfolding look_up_tcb_caps
  Setup-look_up_tcb_caps t o =
      search (basic_rules, Setup-slot_or_null, Setup-data_or_nil, Setup-fault_endpoints) depth 16

  Setup-configure_spaces : (c : TcbCaps) (a : ℕ) → Setup (configure_spaces p c a)
  unfolding configure_spaces
  Setup-configure_spaces c a = search (basic_rules, tt) depth 9

  Setup-set_sched_params : (c : TcbCaps) (e : TcbExtraInfo) → Setup (set_sched_params p c e)
  unfolding set_sched_params
  Setup-set_sched_params c e = search (basic_rules, tt) depth 9

  Setup-init_tcb : (t : ℕ) → Setup (init_tcb p t)
  unfolding init_tcb configure_sc
  Setup-init_tcb t =
      search
        (
          basic_rules, Setup-init_sc, Setup-look_up_tcb_caps, Setup-configure_spaces,
          Setup-set_sched_params,
        )
        depth 16

  Setup-write_args :
      (argc : ℕ) (argv : List ℕ) (left sp : ℕ) → Setup (write_args p argc argv left sp)
  unfolding write_args
  Setup-write_args argc argv zero sp = search basic_rules
  Setup-write_args argc argv (suc left) sp =
      search (basic_rules, Setup-write_args argc argv left) depth 9

  Setup-or_fatal : (c : Option Cap) → Setup (or_fatal c)
  unfolding or_fatal
  Setup-or_fatal none = search basic_rules
  Setup-or_fatal (some c) = search basic_rules

  Setup-cap_in : (o s : ℕ) → Setup (cap_in o s)
  unfolding cap_in
  Setup-cap_in o s = search (basic_rules, Setup-or_fatal)

  Setup-pt_recurse : (v a r l : ℕ) → Setup (pt_recurse p v a r l)
  unfolding pt_recurse
  Setup-pt_recurse v zero r l = search Setup-cap_in
  Setup-pt_recurse v (suc a) r l = search (basic_rules, Setup-cap_in, Setup-pt_recurse v a)

  Setup-get_cdl_frame_pt_on : (a : Arch) (v d : ℕ) → Setup (get_cdl_frame_pt_on p v a d)
  unfolding get_cdl_frame_pt_on get_cdl_frame_pt_recurse get_cdl_frame_pd_x86_64 get_cdl_frame_pdpt
      get_cdl_frame_pd_aarch64 get_cdl_frame_pud
  Setup-get_cdl_frame_pt_on Arch.aarch64 v d = search (basic_rules, Setup-cap_in) depth 9
  Setup-get_cdl_frame_pt_on Arch.ia32 v d = search (basic_rules, Setup-cap_in) depth 9
  Setup-get_cdl_frame_pt_on Arch.aarch32 v d = search (basic_rules, Setup-cap_in) depth 9
  Setup-get_cdl_frame_pt_on Arch.x86_64 v d = search (basic_rules, Setup-cap_in) depth 9
  Setup-get_cdl_frame_pt_on Arch.riscv32 v d = search Setup-pt_recurse
  Setup-get_cdl_frame_pt_on Arch.riscv64 v d = search Setup-pt_recurse

  Setup-get_cdl_frame_pt : (v d : ℕ) → Setup (get_cdl_frame_pt p v d)
  unfolding get_cdl_frame_pt
  Setup-get_cdl_frame_pt v d = Setup-get_cdl_frame_pt_on p.arch v d

  Setup-get_frame_cap : (v d : ℕ) → Setup (get_frame_cap p v d)
  unfolding get_frame_cap get_cdl_frame_cap
  Setup-get_frame_cap v d = search (basic_rules, Setup-cap_in, Setup-get_cdl_frame_pt) depth 9

  Setup-write_stack_args : (o : Object) (argc sp : ℕ) → Setup (write_stack_args p o argc sp)
  unfolding write_stack_args
  Setup-write_stack_args o argc sp =
      search (basic_rules, Setup-get_frame_cap, Setup-write_args, tt) depth 14

  Setup-arg_or_zero : (argc : ℕ) (argv : List ℕ) (k : ℕ) → Setup (arg_or_zero p argc argv k)
  unfolding arg_or_zero
  Setup-arg_or_zero argc argv k = search basic_rules depth 9

  Setup-four_args : (n : ℕ) (v : List ℕ) (a b c d : ℕ) → Setup (four_args p n v a b c d)
  unfolding four_args
  Setup-four_args n v a b c d = search (basic_rules, Setup-arg_or_zero) depth 9

  Setup-register_args_on : (a : Arch) (n : ℕ) (v : List ℕ) → Setup (register_args_on p a n v)
  unfolding register_args_on
  Setup-register_args_on Arch.aarch64 n v = Setup-four_args n v 0 1 2 3
  Setup-register_args_on Arch.ia32 n v = search (basic_rules, Setup-four_args)
  Setup-register_args_on Arch.aarch32 n v = Setup-four_args n v 0 1 2 3
  Setup-register_args_on Arch.x86_64 n v = Setup-four_args n v 0 1 2 3
  Setup-register_args_on Arch.riscv32 n v = Setup-four_args n v 0 1 2 3
  Setup-register_args_on Arch.riscv64 n v = Setup-four_args n v 0 1 2 3

  Setup-register_args : (n : ℕ) (v : List ℕ) → Setup (register_args p n v)
  unfolding register_args
  Setup-register_args n v = Setup-register_args_on p.arch n v

  Setup-configure_tcb : (t : ℕ) → Setup (configure_tcb p t)
  unfolding configure_tcb
  Setup-configure_tcb t = search (basic_rules, Setup-write_stack_args, Setup-register_args) depth 14

  pub Setup-init_tcbs : Setup (init_tcbs p)
  unfolding init_tcbs
  Setup-init_tcbs =
      search (basic_rules, Setup-for_objects, Setup-init_tcb, Setup-configure_tcb) depth 9

  pub Setup-mark_vspace_roots : Setup (mark_vspace_roots p)
  unfolding mark_vspace_roots
  Setup-mark_vspace_roots = search (basic_rules, Setup-for_objects, Emits-modify) depth 12
