-- ===== src/Examples.antt =====
-- A small 64-bit system for the tests and the instances: a machine with two untypeds, and a
-- specification with a thread and a CNode.
mod Runs
mod Instances
use capdl.Base.{ℕ, ◌+◌, Bool, true, false, Option, none, some, List, [], ◌∷◌}
use capdl.Spec.{
  CapData, Cap, CapSlot, FrameFillElement, FrameExtraInfo, TcbExtraInfo, ScExtraInfo, CbExtraInfo,
  IoapicIrqExtraInfo, MsiIrqExtraInfo, ArmIrqExtraInfo, Object, Model,
}
use capdl.Spec.Types.{KernelTypes, ObjectType, CapType, FillType}
use capdl.Spec.Access.{CapRights}
use capdl.Platform.{Arch, Config, Constants, Image, UntypedDesc, SlotRegion, BootInfo, Platform}
use capdl.Exec.{World}

abbrev types : KernelTypes
types = record {
  endpoint_object = 0;
  notification_object = 1;
  tcb_object = 2;
  cap_table_object = 3;
  untyped_object = 4;
  page_table_object = 5;
  page_directory_object = 6;
  small_page_object = 7;
  page_upper_directory_object = 8;
  page_global_directory_object = 9;
  vcpu_object = 10;
  pml4_object = 11;
  pdpt_object = 12;
  sched_context_object = 13;
  reply_object = 14;
  object_type_count = 15;
}

abbrev config : Config
config = record {
  arch = Arch.riscv64;
  kernel_mcs = true;
  arm_hypervisor_support = false;
  arm_pa_size_bits_40 = false;
  arm_smmu = false;
  vtx = false;
  debug_build = false;
  static_alloc = false;
  writeable_pages = false;
  cc_registers = false;
  max_objects = 8;
  max_num_nodes = 2;
  max_untyped_caps = 4;
  fills_per_frame = 1;
  pt_levels = 3;
}

abbrev rights : CapRights
rights = record { grant_reply = false; grant = false; read = false; write = false }

abbrev constants : Constants
constants = record {
  types = types;
  cap_init_thread_tcb = 1;
  cap_init_thread_cnode = 2;
  cap_init_thread_pd = 0;
  cap_init_thread_asid_pool = 0;
  cap_irq_control = 0;
  cap_asid_control = 0;
  cap_io_port_control = 0;
  cap_io_space = 0;
  cap_domain = 0;
  cap_smmu_sid_control = 0;
  cap_smmu_cb_control = 0;
  not_enough_memory = 10;
  failed_lookup = 6;
  asid_pool_bits = 0;
  page_bits = 12;
  page_table_index_bits = 0;
  page_dir_index_bits = 0;
  pdpt_index_bits = 0;
  pml4_index_bits = 0;
  pud_index_bits = 0;
  pgd_index_bits = 0;
  default_vm_attributes = 0;
  execute_never = 0;
  page_cacheable = 0;
  all_rights = rights;
  read_write = rights;
  header_num = 5;
  header_x86_vbe = 1;
  header_x86_tsc_freq = 4;
  header_fdt = 3;
  sizeof_header = 16;
  msg_max_length = 0;
  user_context_words = 0;
  round_up = λ a _. a;
  frame_type = λ _. 0;
  sched_context_size = λ _. 0;
  cnode_cap_data = λ _ _. 0;
}

abbrev image : Image
image = record {
  executable_start = 0;
  image_end = 0;
  copy_addr_with_pt = 0;
  memory_region_start = 0;
  memory_region_end = 0;
  cpio_get_file = λ _. none;
}

-- a kernel that makes everything that it is asked for
abbrev pub machine : Platform
machine = record {
  config = config;
  constants = constants;
  image = image;
  kernel = λ _ _. record { error = 0; paddr = 0 };
}

abbrev pub region : ℕ → ℕ → SlotRegion
region a b = record { start = a; end = b }

abbrev pub untyped : ℕ → Bool → UntypedDesc
untyped bits device = record { paddr = 0; size_bits = bits; is_device = device }

-- three untypeds from slot 20 on, of which the second is device memory, and one scheduling control cap
abbrev pub bootinfo : BootInfo
bootinfo = record {
  address = 0;
  extra_len = 0;
  empty = region 30 90;
  untyped = region 20 23;
  untyped_list = untyped 4 false ∷ untyped 9 true ∷ untyped 12 false ∷ [];
  user_image_frames = region 0 0;
  io_space_caps = region 0 0;
  schedcontrol = region 25 26;
  header_at = λ _. none;
}

abbrev tcb_extra : Bool → TcbExtraInfo
tcb_extra started = record {
  priority = 0;
  max_priority = 0;
  affinity = 0;
  domain = 0;
  pc = 0;
  sp = 0;
  elf_name = "";
  init = [];
  init_sz = 0;
  fault_ep = 0;
  ipcbuffer_addr = 0;
  resume = started;
}

abbrev pub object : ObjectType → Bool → Object
object type started = record {
  name = none;
  slots = [];
  tcb_extra = tcb_extra started;
  sc_extra = record { period = 0; budget = 0; sc_data = 0 };
  cb_extra = record { bank = 0 };
  ioapicirq_extra = record { ioapic = 0; ioapic_pin = 0; level = 0; polarity = 0 };
  msiirq_extra = record { handle = 0; pci_bus = 0; pci_dev = 0; pci_fun = 0 };
  armirq_extra = record { trigger = 0; target = 0 };
  frame_extra = record { fill = []; paddr = 0 };
  paddr = 0;
  asid_high = 0;
  start = 0;
  end = 0;
  type = type;
  size_bits = 0;
}

abbrev pub model : Model
model = record {
  objects =
      object ObjectType.tcb true
      ∷ object ObjectType.endpoint false
      ∷ object ObjectType.cnode false
      ∷ object ObjectType.tcb false
      ∷ [];
  irqs = [];
  untyped = [];
  asid_slots = [];
}

-- the objects are in the slots from 40 on, and 50 is the next slot that is free
abbrev pub start : World
start = record {
  spec = model;
  capdl_to_sel4_orig = λ i. i + 40;
  capdl_to_sel4_copy = λ _. 0;
  capdl_to_sel4_irq = λ _. 0;
  capdl_to_sched_ctrl = λ _. 0;
  untyped_cptrs = λ _. 0;
  free_slot_start = 50;
  free_slot_end = 90;
  first_arm_iospace = 0;
  copy_addr = 0;
  sid_number = 0;
  extended_bootinfo_table = λ _. none;
  trace = [];
}

-- a fill of `len` bytes at `offset`
abbrev pub fill_at : ℕ → ℕ → FrameFillElement
fill_at offset len = record {
  type = FillType.boot_info;
  dest_offset = offset;
  dest_len = len;
  bi_type = 3;
  src_offset = 0;
  filename = "";
  file_offset = 0;
}

-- a cap to object 1 in slot 1
abbrev pub vspace_slot : CapSlot
vspace_slot = record {
  slot = 1;
  cap = record {
    obj_id = 1;
    cap_data = record { word = 0; tag = 0 };
    irq = 0;
    mapping_container_id = 0;
    mapping_slot = 0;
    mapped_frame_cap = 0;
    type = CapType.ep_cap;
    vm_attribs = 0;
    is_orig = true;
    rights = 0;
  };
}

abbrev pub thread_with_vspace : Object
thread_with_vspace = record (object ObjectType.tcb true) { slots = vspace_slot ∷ [] }

abbrev pub no_untypeds : BootInfo
no_untypeds = record bootinfo { untyped = region 20 20; untyped_list = [] }

abbrev pub one_thread : World
one_thread = record start { spec = record model { objects = thread_with_vspace ∷ [] } }

-- A page directory with a cap to the frame in slot 3, the frame, and a CNode that is to get the cap that
-- the frame is mapped with in its slot 5.
abbrev pub frame_slot : CapSlot
frame_slot = record vspace_slot {
  slot = 3;
  cap = record vspace_slot.cap { type = CapType.frame_cap };
}

abbrev pub mapped_slot : CapSlot
mapped_slot = record frame_slot { slot = 5; cap = record frame_slot.cap { mapping_slot = 3 } }

abbrev pub one_frame : World
one_frame = record start {
  spec = record model {
    objects =
        record (object ObjectType.pd false) { slots = frame_slot ∷ [] }
        ∷ object ObjectType.frame false
        ∷ record (object ObjectType.cnode false) { slots = mapped_slot ∷ []; size_bits = 4 }
        ∷ [];
  };
}
