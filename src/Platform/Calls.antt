-- ===== src/Platform/Calls.antt =====
-- The system calls that the loader makes, with the arguments that it passes, and what it does to
-- memory. Where a call also has a fixed architecture prefix (seL4_ARCH_, seL4_ARM_), it is left off.
use capdl.Base.{ℕ, Bool, List}
use capdl.Spec.Access.{CapRights}

-- The registers that the loader sets in a new thread: the program counter, the stack pointer, and
-- those that carry arguments, in the order in which the initialiser names them.
pub record UserContext : Type 0 where
  pub pc : ℕ
  pub sp : ℕ
  pub args : List ℕ

pub data Invocation : Type 0 where
  -- service, type, size, root, node index and depth, offset, number of objects
  untyped_retype :
      (untyped type size_bits root node_index node_depth node_offset num : ℕ) → Invocation
  -- destination root, index and depth, source root, index and depth
  cnode_copy :
      (dest_root dest_index dest_depth src_root src_index src_depth : ℕ) → CapRights → Invocation
  cnode_mint :
      (dest_root dest_index dest_depth src_root src_index src_depth : ℕ)
      → CapRights
      → (badge : ℕ) → Invocation
  cnode_move : (dest_root dest_index dest_depth src_root src_index src_depth : ℕ) → Invocation
  cnode_mutate :
      (dest_root dest_index dest_depth src_root src_index src_depth badge : ℕ) → Invocation
  cnode_delete : (root index depth : ℕ) → Invocation
  page_map : (page vspace vaddr : ℕ) → CapRights → (attribs : ℕ) → Invocation
  page_unmap : (page : ℕ) → Invocation
  page_get_address : (page : ℕ) → Invocation
  page_clean_invalidate_data : (page from to : ℕ) → Invocation
  page_unify_instruction : (page from to : ℕ) → Invocation
  page_table_map : (table vspace vaddr attribs : ℕ) → Invocation
  -- CDL_PT_LEVEL_1_MAP to CDL_PT_LEVEL_3_MAP
  level_map : (level table vspace vaddr attribs : ℕ) → Invocation
  asid_pool_assign : (pool vspace : ℕ) → Invocation
  asid_control_make_pool : (control untyped root index depth : ℕ) → Invocation
  irq_control_get : (control irq root index depth : ℕ) → Invocation
  irq_control_get_ioapic : (control root index depth ioapic pin level polarity irq : ℕ) → Invocation
  irq_control_get_msi :
      (control root index depth pci_bus pci_dev pci_fun handle irq : ℕ) → Invocation
  irq_control_get_trigger : (control irq trigger root index depth : ℕ) → Invocation
  irq_control_get_trigger_core : (control irq trigger root index depth target : ℕ) → Invocation
  irq_handler_set_notification : (handler notification : ℕ) → Invocation
  sched_control_configure : (control sc budget period extra_refills badge : ℕ) → Invocation
  tcb_configure :
      (tcb fault_ep cspace cspace_data vspace vspace_data buffer_addr buffer : ℕ) → Invocation
  tcb_configure_mcs :
      (tcb cspace cspace_data vspace vspace_data buffer_addr buffer : ℕ) → Invocation
  tcb_set_ipc_buffer : (tcb buffer_addr buffer : ℕ) → Invocation
  tcb_set_sched_params : (tcb authority mcp priority : ℕ) → Invocation
  tcb_set_sched_params_mcs : (tcb authority mcp priority sc fault_ep : ℕ) → Invocation
  tcb_set_timeout_endpoint : (tcb timeout_ep : ℕ) → Invocation
  tcb_set_affinity : (tcb affinity : ℕ) → Invocation
  vcpu_set_tcb : (vcpu tcb : ℕ) → Invocation
  debug_name_thread : (tcb : ℕ) → (name : List ℕ) → Invocation
  tcb_write_registers : (tcb : ℕ) → (resume : Bool) → (flags count : ℕ) → UserContext → Invocation
  domain_set : (control domain tcb : ℕ) → Invocation
  tcb_resume : (tcb : ℕ) → Invocation
  tcb_suspend : (tcb : ℕ) → Invocation
  io_port_control_issue : (control first last root index depth : ℕ) → Invocation
  sid_control_get_sid : (control sid root index depth : ℕ) → Invocation
  cb_control_get_cb : (control bank root index depth : ℕ) → Invocation

-- An error code, 0 for seL4_NoError, and the address that Page_GetAddress returns.
pub record Reply : Type 0 where
  pub error : ℕ
  pub paddr : ℕ

-- What the loader does to the world outside its variables.
pub data Effect : Type 0 where
  call : Invocation → Effect
  -- a word written to memory
  store : (address value : ℕ) → Effect
  -- memcpy(dest, src, len)
  copy : (dest src len : ℕ) → Effect
  -- memcpy of an empty boot information header
  copy_empty_header : (dest len : ℕ) → Effect
