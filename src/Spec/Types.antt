-- ===== src/Spec/Types.antt =====
-- The enumerations of capdl.h. Enumerators that only some configurations have are listed for all.
use capdl.Base.{ℕ, ◌+◌, Bool, ◌==◌, if◌then◌else◌}

pub data CapType : Type 0 where
  null_cap untyped_cap ep_cap notification_cap reply_cap master_reply_cap cnode_cap tcb_cap
        irq_control_cap irq_handler_cap frame_cap pt_cap pd_cap pml4_cap pdpt_cap pud_cap pgd_cap
        asid_control_cap asid_pool_cap io_ports_cap io_space_cap arm_io_space_cap sid_cap cb_cap
        vcpu_cap sc_cap sched_control_cap rt_reply_cap domain_cap :
      CapType

pub data ObjectType : Type 0 where
  endpoint notification tcb cnode untyped pt pd frame pud pgd vcpu pml4 pdpt asid_pool interrupt
        io_ports io_device sched_context rt_reply ioapic_interrupt msi_interrupt arm_io_device
        arm_interrupt sid cb pt_root_alias :
      ObjectType

-- the numbers of the kernel's own object types, which the kernel's headers define
pub record KernelTypes : Type 0 where
  pub endpoint_object : ℕ
  pub notification_object : ℕ
  pub tcb_object : ℕ
  pub cap_table_object : ℕ
  pub untyped_object : ℕ
  pub page_table_object : ℕ
  pub page_directory_object : ℕ
  pub small_page_object : ℕ
  pub page_upper_directory_object : ℕ
  pub page_global_directory_object : ℕ
  pub vcpu_object : ℕ
  pub pml4_object : ℕ
  pub pdpt_object : ℕ
  pub sched_context_object : ℕ
  pub reply_object : ℕ
  pub object_type_count : ℕ

-- the number that each enumerator of `CDL_ObjectType` has, with and without `CONFIG_KERNEL_MCS`
unfoldable pub object_type_value : KernelTypes → Bool → ObjectType → ℕ
object_type_value k mcs ObjectType.endpoint = k.endpoint_object
object_type_value k mcs ObjectType.notification = k.notification_object
object_type_value k mcs ObjectType.tcb = k.tcb_object
object_type_value k mcs ObjectType.cnode = k.cap_table_object
object_type_value k mcs ObjectType.untyped = k.untyped_object
object_type_value k mcs ObjectType.pt = k.page_table_object
object_type_value k mcs ObjectType.pd = k.page_directory_object
object_type_value k mcs ObjectType.frame = k.small_page_object
object_type_value k mcs ObjectType.pud = k.page_upper_directory_object
object_type_value k mcs ObjectType.pgd = k.page_global_directory_object
object_type_value k mcs ObjectType.vcpu = k.vcpu_object
object_type_value k mcs ObjectType.pml4 = k.pml4_object
object_type_value k mcs ObjectType.pdpt = k.pdpt_object
object_type_value k mcs ObjectType.asid_pool = k.object_type_count + 1
object_type_value k mcs ObjectType.interrupt = k.object_type_count + 2
object_type_value k mcs ObjectType.io_ports = k.object_type_count + 3
object_type_value k mcs ObjectType.io_device = k.object_type_count + 4
object_type_value k mcs ObjectType.sched_context =
    if mcs then k.sched_context_object else k.object_type_count + 5
object_type_value k mcs ObjectType.rt_reply =
    if mcs then k.reply_object else k.object_type_count + 6
object_type_value k mcs ObjectType.ioapic_interrupt = k.object_type_count + 7
object_type_value k mcs ObjectType.msi_interrupt = k.object_type_count + 8
object_type_value k mcs ObjectType.arm_io_device = k.object_type_count + 9
object_type_value k mcs ObjectType.arm_interrupt = k.object_type_count + 11
object_type_value k mcs ObjectType.sid = k.object_type_count + 12
object_type_value k mcs ObjectType.cb = k.object_type_count + 13
object_type_value k mcs ObjectType.pt_root_alias = k.object_type_count + 10

pub data FillType : Type 0 where
  none_fill boot_info file_data : FillType

-- A number for each constructor, by which two enumerators are compared.
cap_type_tag : CapType → ℕ
cap_type_tag CapType.null_cap = 0
cap_type_tag CapType.untyped_cap = 1
cap_type_tag CapType.ep_cap = 2
cap_type_tag CapType.notification_cap = 3
cap_type_tag CapType.reply_cap = 4
cap_type_tag CapType.master_reply_cap = 5
cap_type_tag CapType.cnode_cap = 6
cap_type_tag CapType.tcb_cap = 7
cap_type_tag CapType.irq_control_cap = 8
cap_type_tag CapType.irq_handler_cap = 9
cap_type_tag CapType.frame_cap = 10
cap_type_tag CapType.pt_cap = 11
cap_type_tag CapType.pd_cap = 12
cap_type_tag CapType.pml4_cap = 13
cap_type_tag CapType.pdpt_cap = 14
cap_type_tag CapType.pud_cap = 15
cap_type_tag CapType.pgd_cap = 16
cap_type_tag CapType.asid_control_cap = 17
cap_type_tag CapType.asid_pool_cap = 18
cap_type_tag CapType.io_ports_cap = 19
cap_type_tag CapType.io_space_cap = 20
cap_type_tag CapType.arm_io_space_cap = 21
cap_type_tag CapType.sid_cap = 22
cap_type_tag CapType.cb_cap = 23
cap_type_tag CapType.vcpu_cap = 24
cap_type_tag CapType.sc_cap = 25
cap_type_tag CapType.sched_control_cap = 26
cap_type_tag CapType.rt_reply_cap = 27
cap_type_tag CapType.domain_cap = 28

object_type_tag : ObjectType → ℕ
object_type_tag ObjectType.endpoint = 0
object_type_tag ObjectType.notification = 1
object_type_tag ObjectType.tcb = 2
object_type_tag ObjectType.cnode = 3
object_type_tag ObjectType.untyped = 4
object_type_tag ObjectType.pt = 5
object_type_tag ObjectType.pd = 6
object_type_tag ObjectType.frame = 7
object_type_tag ObjectType.pud = 8
object_type_tag ObjectType.pgd = 9
object_type_tag ObjectType.vcpu = 10
object_type_tag ObjectType.pml4 = 11
object_type_tag ObjectType.pdpt = 12
object_type_tag ObjectType.asid_pool = 13
object_type_tag ObjectType.interrupt = 14
object_type_tag ObjectType.io_ports = 15
object_type_tag ObjectType.io_device = 16
object_type_tag ObjectType.sched_context = 17
object_type_tag ObjectType.rt_reply = 18
object_type_tag ObjectType.ioapic_interrupt = 19
object_type_tag ObjectType.msi_interrupt = 20
object_type_tag ObjectType.arm_io_device = 21
object_type_tag ObjectType.arm_interrupt = 22
object_type_tag ObjectType.sid = 23
object_type_tag ObjectType.cb = 24
object_type_tag ObjectType.pt_root_alias = 25

-- `cap->type == t`
unfoldable pub is_cap_type : CapType → CapType → Bool
unfolding cap_type_tag
is_cap_type a b = cap_type_tag a == cap_type_tag b

-- `obj->type == t`
unfoldable pub is_type : ObjectType → ObjectType → Bool
unfolding object_type_tag
is_type a b = object_type_tag a == object_type_tag b
