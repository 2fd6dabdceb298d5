-- ===== src/Spec/Access.antt =====
-- The inline helper functions of capdl.h.
use capdl.Base.{ℕ, ◌+◌, ◌-◌, ◌*◌, ◌/◌, ◌%◌, ◌^◌, Bool, Option, length, get_elem?}
use capdl.Base.Words.{has_bit}
use capdl.Spec.{CapData, Cap, CapSlot, Object}
use capdl.Spec.Types.{ObjectType}

-- the tags of `CDL_CapData`
abbrev pub tag_badge : ℕ
tag_badge = 0

abbrev pub tag_guard : ℕ
tag_guard = 1

abbrev pub tag_raw : ℕ
tag_raw = 2

-- The bit fields of a guard: 18 bits from the least significant one, then the rest of the word.
unfoldable pub guard_bits : CapData → ℕ
guard_bits d = d.word % 2 ^ 18

unfoldable pub guard_size : CapData → ℕ
guard_size d = d.word / 2 ^ 18

-- `CDL_CapData_MakeGuard(x, y)` in a word of `w` bits
unfoldable pub make_guard : ℕ → ℕ → ℕ → CapData
make_guard w x y = record { word = y % 2 ^ 18 + (x % 2 ^ (w - 18)) * 2 ^ 18; tag = tag_guard }

-- the slots of a TCB
abbrev pub tcb_ctable_slot : ℕ
tcb_ctable_slot = 0

abbrev pub tcb_vtable_slot : ℕ
tcb_vtable_slot = 1

abbrev pub tcb_ipcbuffer_slot : ℕ
tcb_ipcbuffer_slot = 4

abbrev pub tcb_fault_ep_slot : ℕ
tcb_fault_ep_slot = 5

abbrev pub tcb_sc_slot : ℕ
tcb_sc_slot = 6

abbrev pub tcb_temporal_fault_ep_slot : ℕ
tcb_temporal_fault_ep_slot = 7

abbrev pub tcb_vcpu_slot : ℕ
tcb_vcpu_slot = 8

-- `seL4_CapRights_t`, by its four flags
pub record CapRights : Type 0 where
  pub grant_reply : Bool
  pub grant : Bool
  pub read : Bool
  pub write : Bool

-- `CDL_seL4_Cap_Rights`: write, read, grant and grant-reply are bits 0, 1, 2 and 3
unfoldable pub cap_rights : Cap → CapRights
cap_rights cap = record {
  grant_reply = has_bit cap.rights 3;
  grant = has_bit cap.rights 2;
  read = has_bit cap.rights 1;
  write = has_bit cap.rights 0;
}

-- `CDL_Obj_Paddr`
unfoldable pub obj_paddr : Object → ℕ
obj_paddr obj = elim obj.type [
  | ObjectType.frame ↦ obj.frame_extra.paddr
  | ObjectType.untyped ↦ obj.paddr
  | _ ↦ 0
]

-- `CDL_Obj_NumSlots`
abbrev pub num_slots : Object → ℕ
num_slots obj = length obj.slots

-- `CDL_Obj_GetSlot`
abbrev pub get_slot : Object → ℕ → Option CapSlot
get_slot obj i = get_elem? obj.slots i
