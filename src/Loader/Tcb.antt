-- ===== src/Loader/Tcb.antt =====
-- Scheduling contexts and `init_tcb` of main.c.
use capdl.Base.{
  ℕ, ◌-◌, ◌*◌, Bool, true, false, not, ◌&&◌, ◌||◌, Option, none, some, List, [], ◌∷◌, take, ltb,
  ◌==◌, if◌then◌else◌,
}
use capdl.Base.Words.{through_int}
use capdl.Spec.{Cap, TcbExtraInfo, Object}
use capdl.Spec.Types.{ObjectType, is_type}
use capdl.Spec.Access.{
  tcb_ctable_slot, tcb_vtable_slot, tcb_ipcbuffer_slot, tcb_fault_ep_slot, tcb_sc_slot,
  tcb_temporal_fault_ep_slot, tcb_vcpu_slot,
}
use capdl.Platform.{Platform, word_size, word_bytes}
use capdl.Platform.Calls.{Invocation}
use capdl.Exec.{Exec, pure, ◌>>=◌, ◌>>◌, when, deref, invoke, invoke_checked}
use capdl.Loader.Slots.{
  get_free_slot, next_free_slot, orig_caps, sched_ctrl_caps, get_spec_object, get_cap_data,
}
use capdl.Loader.Lookup.{get_cap_at}
use capdl.Loader.Caps.{for_objects, mint_cap}

unfoldable pub is_some : {A : Type 0} → Option A → Bool
is_some none = false
is_some (some _) = true

-- What `init_tcb` looks up before it configures the thread.
pub record TcbCaps : Type 0 where
  pub tcb : ℕ
  pub has_cspace : Bool
  pub has_vspace : Bool
  pub cspace_root : ℕ
  pub cspace_data : ℕ
  pub vspace_root : ℕ
  pub vspace_data : ℕ
  pub ipcbuffer : ℕ
  pub cdl_sc : Option Cap
  pub sc : ℕ
  pub vcpu : ℕ
  pub fault_ep : ℕ
  pub tempfault_ep : ℕ

module _ (p : Platform) where
  unfoldable pub init_sc : (sc affinity : ℕ) → Exec (Unit {0})
  init_sc sc affinity = do
    cdl_sc ← get_spec_object sc
    seL4_sc ← orig_caps p sc
    sched_control ← sched_ctrl_caps p affinity
    when p.kernel_mcs (
        invoke_checked p (
          Invocation.sched_control_configure sched_control seL4_sc cdl_sc.sc_extra.budget
            cdl_sc.sc_extra.period 0 cdl_sc.sc_extra.sc_data))

  unfoldable pub init_scs : Exec (Unit {0})
  unfolding init_sc
  init_scs =
      for_objects p
        (λ obj_id obj. when (is_type obj.type ObjectType.sched_context) (init_sc obj_id 0))

  -- the slot of the object that a cap names, or 0 where there is no cap
  unfoldable pub slot_or_null : Option Cap → Exec ℕ
  slot_or_null none = pure 0
  slot_or_null (some cap) = orig_caps p cap.obj_id

  unfoldable pub data_or_nil : Option Cap → Exec ℕ
  data_or_nil none = pure 0
  data_or_nil (some cap) = get_cap_data p cap.cap_data

  -- the fault endpoint under CONFIG_KERNEL_MCS, in a badged copy if the cap has a badge
  unfoldable pub mcs_fault_ep : Option Cap → (fault_ep : ℕ) → Exec ℕ
  mcs_fault_ep none fault_ep = pure fault_ep
  mcs_fault_ep (some cap) fault_ep = do
    let badged = (do
      badge ← get_cap_data p cap.cap_data
      let mint = (do
        slot ← get_free_slot
        mint_cap p cap.obj_id (through_int (word_size p) slot) badge
        next_free_slot p
        pure slot)
      if badge == 0 then pure fault_ep else mint)
    if fault_ep == 0 then pure fault_ep else badged

  abbrev pub has_vcpu : Bool
  has_vcpu = p.arm_hypervisor_support || p.vtx

  -- both fault endpoints: (fault_ep, tempfault_ep)
  unfoldable pub fault_endpoints : Object → Exec (ℕ × ℕ)
  unfolding mcs_fault_ep
  fault_endpoints cdl_tcb = do
    let mcs = (do
      let cdl_fault_ep = get_cap_at cdl_tcb tcb_fault_ep_slot
      fault_ep ← slot_or_null cdl_fault_ep
      tempfault_ep ← slot_or_null (get_cap_at cdl_tcb tcb_temporal_fault_ep_slot)
      fault_ep' ← mcs_fault_ep cdl_fault_ep fault_ep
      pure (fault_ep', tempfault_ep))
    if p.kernel_mcs then mcs else pure (cdl_tcb.tcb_extra.fault_ep, 0)

  unfoldable pub look_up_tcb_caps : (tcb : ℕ) → Object → Exec TcbCaps
  unfolding slot_or_null data_or_nil fault_endpoints
  look_up_tcb_caps tcb cdl_tcb = do
    let cdl_cspace_root = get_cap_at cdl_tcb tcb_ctable_slot
    let cdl_vspace_root = get_cap_at cdl_tcb tcb_vtable_slot
    let cdl_sc = get_cap_at cdl_tcb tcb_sc_slot
    sel4_tcb ← orig_caps p tcb
    cspace_root ← slot_or_null cdl_cspace_root
    vspace_root ← slot_or_null cdl_vspace_root
    ipcbuffer ← slot_or_null (get_cap_at cdl_tcb tcb_ipcbuffer_slot)
    sc ← slot_or_null cdl_sc
    vcpu ← slot_or_null (if has_vcpu then get_cap_at cdl_tcb tcb_vcpu_slot else none)
    (fault_ep, tempfault_ep) ← fault_endpoints cdl_tcb
    cspace_data ← data_or_nil cdl_cspace_root
    vspace_data ← data_or_nil cdl_vspace_root
    pure (record {
      tcb = sel4_tcb;
      has_cspace = is_some cdl_cspace_root;
      has_vspace = is_some cdl_vspace_root;
      cspace_root = cspace_root;
      cspace_data = cspace_data;
      vspace_root = vspace_root;
      vspace_data = vspace_data;
      ipcbuffer = ipcbuffer;
      cdl_sc = cdl_sc;
      sc = sc;
      vcpu = vcpu;
      fault_ep = fault_ep;
      tempfault_ep = tempfault_ep;
    })

  -- seL4_TCB_Configure where CSpace, VSpace and IPC buffer are all there, or else the buffer alone
  unfoldable pub configure_spaces : TcbCaps → (ipcbuffer_addr : ℕ) → Exec (Unit {0})
  configure_spaces c addr =
      if c.has_cspace && c.has_vspace && not (c.ipcbuffer == 0)
      then (if p.kernel_mcs
          then invoke_checked p (
              Invocation.tcb_configure_mcs c.tcb c.cspace_root c.cspace_data c.vspace_root
                c.vspace_data addr c.ipcbuffer)
          else invoke_checked p (
              Invocation.tcb_configure c.tcb c.fault_ep c.cspace_root c.cspace_data c.vspace_root
                c.vspace_data addr c.ipcbuffer))
      else when (not (c.ipcbuffer == 0))
          (invoke_checked p (Invocation.tcb_set_ipc_buffer c.tcb addr c.ipcbuffer))

  unfoldable pub set_sched_params : TcbCaps → TcbExtraInfo → Exec (Unit {0})
  set_sched_params c extra =
      if p.kernel_mcs
      then (do
        invoke_checked p (
            Invocation.tcb_set_sched_params_mcs c.tcb p.cap_init_thread_tcb extra.max_priority
              extra.priority c.sc c.fault_ep)
        invoke_checked p (Invocation.tcb_set_timeout_endpoint c.tcb c.tempfault_ep))
      else invoke_checked p (
          Invocation.tcb_set_sched_params c.tcb p.cap_init_thread_tcb extra.max_priority
            extra.priority)

  -- CDL_Obj_Name of a debug build, cut to what the message buffer holds
  unfoldable pub debug_name : Object → List ℕ
  debug_name obj = elim obj.name [
    | none ↦ 60 ∷ 117 ∷ 110 ∷ 110 ∷ 97 ∷ 109 ∷ 101 ∷ 100 ∷ 62 ∷ []
    | some name ↦ take (p.msg_max_length * word_bytes p - 1) name
  ]

  -- init_sc where the cap to the scheduling context is there and its slot is not 0
  unfoldable pub configure_sc : TcbCaps → (affinity : ℕ) → Exec (Unit {0})
  configure_sc c affinity =
      when (p.kernel_mcs && not (c.sc == 0)) (do cap ← deref c.cdl_sc; init_sc cap.obj_id affinity)

  unfoldable pub init_tcb : (tcb : ℕ) → Exec (Unit {0})
  unfolding look_up_tcb_caps configure_spaces set_sched_params configure_sc
  init_tcb tcb = do
    cdl_tcb ← get_spec_object tcb
    c ← look_up_tcb_caps tcb cdl_tcb
    configure_sc c cdl_tcb.tcb_extra.affinity
    configure_spaces c cdl_tcb.tcb_extra.ipcbuffer_addr
    set_sched_params c cdl_tcb.tcb_extra
    when (ltb 1 p.max_num_nodes)
        (invoke_checked p (Invocation.tcb_set_affinity c.tcb cdl_tcb.tcb_extra.affinity))
    when (not (c.vcpu == 0)) (invoke_checked p (Invocation.vcpu_set_tcb c.vcpu c.tcb))
    when p.debug_build
        (do invoke p (Invocation.debug_name_thread c.tcb (debug_name cdl_tcb)); pure tt)
