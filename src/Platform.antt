-- ===== src/Platform.antt =====
-- What the loader is compiled against and runs on: the build configuration, the constants of the
-- kernel's headers, the invocations that the kernel offers, the boot information that it passes, and
-- the kernel itself. None of that is code of the loader, so it is all one parameter, `Platform`: the
-- kernel is any function from what the loader has done so far, and what it now asks, to a reply.
pub mod Calls
use Prim.Native.String.{String}
use capdl.Base.{◌/◌, ℕ, Bool, true, false, ◌&&◌, Option, List, if◌then◌else◌}
use capdl.Spec.Types.{KernelTypes}
use capdl.Spec.Access.{CapRights}
use Calls.{Invocation, Reply, Effect}

pub data Arch : Type 0 where
  ia32 x86_64 aarch32 aarch64 riscv32 riscv64 : Arch

-- the symbols of autoconf.h and gen_config.h that the loader tests
pub record Config : Type 0 where
  pub arch : Arch
  pub kernel_mcs : Bool
  pub arm_hypervisor_support : Bool
  pub arm_pa_size_bits_40 : Bool
  pub arm_smmu : Bool
  pub vtx : Bool
  pub debug_build : Bool
  pub static_alloc : Bool
  pub writeable_pages : Bool
  pub cc_registers : Bool
  pub max_objects : ℕ
  pub max_num_nodes : ℕ
  pub max_untyped_caps : ℕ
  pub fills_per_frame : ℕ
  pub pt_levels : ℕ

-- constants of the kernel's headers, and pure functions of the libraries
pub record Constants : Type 0 where
  pub types : KernelTypes
  pub cap_init_thread_tcb : ℕ
  pub cap_init_thread_cnode : ℕ
  pub cap_init_thread_pd : ℕ
  pub cap_init_thread_asid_pool : ℕ
  pub cap_irq_control : ℕ
  pub cap_asid_control : ℕ
  pub cap_io_port_control : ℕ
  pub cap_io_space : ℕ
  pub cap_domain : ℕ
  pub cap_smmu_sid_control : ℕ
  pub cap_smmu_cb_control : ℕ
  pub not_enough_memory : ℕ
  pub failed_lookup : ℕ
  pub asid_pool_bits : ℕ
  pub page_bits : ℕ
  pub page_table_index_bits : ℕ
  pub page_dir_index_bits : ℕ
  pub pdpt_index_bits : ℕ
  pub pml4_index_bits : ℕ
  pub pud_index_bits : ℕ
  pub pgd_index_bits : ℕ
  pub default_vm_attributes : ℕ
  pub execute_never : ℕ
  pub page_cacheable : ℕ
  pub all_rights : CapRights
  pub read_write : CapRights
  pub header_num : ℕ
  pub header_x86_vbe : ℕ
  pub header_x86_tsc_freq : ℕ
  pub header_fdt : ℕ
  pub sizeof_header : ℕ
  pub msg_max_length : ℕ
  -- sizeof(seL4_UserContext) / sizeof(seL4_Word)
  pub user_context_words : ℕ
  -- ROUND_UP of the utility library
  pub round_up : ℕ → ℕ → ℕ
  -- kobject_get_type(KOBJECT_FRAME, size), and KOBJECT_SCHED_CONTEXT's kobject_get_size
  pub frame_type : ℕ → ℕ
  pub sched_context_size : ℕ → ℕ
  -- seL4_CNode_CapData_new(guard, guard_size).words[0]
  pub cnode_cap_data : ℕ → ℕ → ℕ

-- addresses that the linker and the platform fix, and the archive of files
pub record Image : Type 0 where
  pub executable_start : ℕ
  pub image_end : ℕ
  pub copy_addr_with_pt : ℕ
  pub memory_region_start : ℕ
  pub memory_region_end : ℕ
  -- cpio_get_file, as the address of the file's contents
  pub cpio_get_file : String → Option ℕ

-- seL4_UntypedDesc
pub record UntypedDesc : Type 0 where
  pub paddr : ℕ
  pub size_bits : ℕ
  pub is_device : Bool

-- seL4_SlotRegion: the slots from `start` up to `end`, which is left out
pub record SlotRegion : Type 0 where
  pub start : ℕ
  pub end : ℕ

pub record Header : Type 0 where
  pub id : ℕ
  pub len : ℕ

-- seL4_BootInfo, at its address, with the memory of the extended boot information behind it
pub record BootInfo : Type 0 where
  pub address : ℕ
  pub extra_len : ℕ
  pub empty : SlotRegion
  pub untyped : SlotRegion
  pub untyped_list : List UntypedDesc
  pub user_image_frames : SlotRegion
  pub io_space_caps : SlotRegion
  pub schedcontrol : SlotRegion
  pub header_at : ℕ → Option Header

pub record Platform : Type 0 where
  pub config : Config
  pub open config use *
  pub constants : Constants
  pub open constants use *
  pub image : Image
  pub open image use *
  pub kernel : List Effect → Invocation → Reply

-- CONFIG_WORD_SIZE
unfoldable pub word_size_of : Arch → ℕ
word_size_of Arch.ia32 = 32
word_size_of Arch.x86_64 = 64
word_size_of Arch.aarch32 = 32
word_size_of Arch.aarch64 = 64
word_size_of Arch.riscv32 = 32
word_size_of Arch.riscv64 = 64

abbrev pub word_size : Platform → ℕ
word_size p = word_size_of p.arch

-- sizeof(seL4_Word), which is sizeof(uintptr_t)
abbrev pub word_bytes : Platform → ℕ
word_bytes p = word_size p / 8

-- CONFIG_ARCH_X86, CONFIG_ARCH_ARM and CONFIG_ARCH_RISCV
unfoldable pub is_x86 : Arch → Bool
is_x86 Arch.ia32 = true
is_x86 Arch.x86_64 = true
is_x86 _ = false

unfoldable pub is_arm : Arch → Bool
is_arm Arch.aarch32 = true
is_arm Arch.aarch64 = true
is_arm _ = false

unfoldable pub is_riscv : Arch → Bool
is_riscv Arch.riscv32 = true
is_riscv Arch.riscv64 = true
is_riscv _ = false

-- CDL_PT_NUM_LEVELS
unfoldable pub pt_num_levels : Config → ℕ
pt_num_levels c = elim c.arch [
  | Arch.aarch64 ↦ if c.arm_hypervisor_support && c.arm_pa_size_bits_40 then 3 else 4
  | Arch.x86_64 ↦ 4
  | Arch.riscv32 ↦ c.pt_levels
  | Arch.riscv64 ↦ c.pt_levels
  | _ ↦ 2
]
