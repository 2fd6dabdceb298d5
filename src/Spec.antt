-- ===== src/Spec.antt =====
-- capdl-loader-app/include/capdl.h: the binary representation of a capDL specification. The
-- enumerations stand in Types, the structs here, the inline helper functions in Access.
pub mod Types
pub mod Access
use Prim.Native.String.{String}
use capdl.Base.{ℕ, Bool, Option, List}
use Types.{CapType, ObjectType, FillType}

-- A tagged union of one word: a badge, raw data, or a guard in two bit fields (see Access).
pub record CapData : Type 0 where
  pub word : ℕ
  pub tag : ℕ

pub record Cap : Type 0 where
  pub obj_id : ℕ
  pub cap_data : CapData
  pub irq : ℕ
  pub mapping_container_id : ℕ
  pub mapping_slot : ℕ
  pub mapped_frame_cap : ℕ
  pub type : CapType
  pub vm_attribs : ℕ
  pub is_orig : Bool
  pub rights : ℕ

pub record CapSlot : Type 0 where
  pub slot : ℕ
  pub cap : Cap

pub record TcbExtraInfo : Type 0 where
  pub priority : ℕ
  pub max_priority : ℕ
  pub affinity : ℕ
  pub domain : ℕ
  pub pc : ℕ
  pub sp : ℕ
  pub elf_name : String
  -- `init` and `init_sz`
  pub init : List ℕ
  pub init_sz : ℕ
  pub fault_ep : ℕ
  pub ipcbuffer_addr : ℕ
  pub resume : Bool

pub record ScExtraInfo : Type 0 where
  pub period : ℕ
  pub budget : ℕ
  pub sc_data : ℕ

pub record CbExtraInfo : Type 0 where
  pub bank : ℕ

pub record IoapicIrqExtraInfo : Type 0 where
  pub ioapic : ℕ
  pub ioapic_pin : ℕ
  pub level : ℕ
  pub polarity : ℕ

pub record MsiIrqExtraInfo : Type 0 where
  pub handle : ℕ
  pub pci_bus : ℕ
  pub pci_dev : ℕ
  pub pci_fun : ℕ

pub record ArmIrqExtraInfo : Type 0 where
  pub trigger : ℕ
  pub target : ℕ

-- The source of a fill: a boot information block, by the number of its header, or a file of the
-- archive. The two members of the union stand side by side, as those of `Object` do.
pub record FrameFillElement : Type 0 where
  pub type : FillType
  pub dest_offset : ℕ
  pub dest_len : ℕ
  pub bi_type : ℕ
  pub src_offset : ℕ
  pub filename : String
  pub file_offset : ℕ

pub record FrameExtraInfo : Type 0 where
  pub fill : List FrameFillElement
  pub paddr : ℕ

-- The members of the union stand side by side: nothing writes them, and a member that the tool did
-- not set reads as whatever the bytes of another are, here as any value.
pub record Object : Type 0 where
  -- bytes; NULL only where the tool gave no name
  pub name : Option (List ℕ)
  pub slots : List CapSlot
  pub tcb_extra : TcbExtraInfo
  pub sc_extra : ScExtraInfo
  pub cb_extra : CbExtraInfo
  pub ioapicirq_extra : IoapicIrqExtraInfo
  pub msiirq_extra : MsiIrqExtraInfo
  pub armirq_extra : ArmIrqExtraInfo
  pub frame_extra : FrameExtraInfo
  pub paddr : ℕ
  pub asid_high : ℕ
  pub start : ℕ
  pub end : ℕ
  pub type : ObjectType
  pub size_bits : ℕ

pub record UntypedDerivation : Type 0 where
  pub untyped : ℕ
  pub children : List ℕ

-- The arrays are lists, so `num`, `num_irqs`, `num_untyped` and `num_asid_slots` are their lengths.
pub record Model : Type 0 where
  pub objects : List Object
  pub irqs : List ℕ
  pub untyped : List UntypedDerivation
  pub asid_slots : List ℕ
