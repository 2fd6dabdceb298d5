-- ===== src/Loader/Lookup.antt =====
-- Reading the specification: the cap in a slot of an object, and the walk from the top of an address
-- space down to the frame at an address.
pub mod Find
use capdl.Base.{
  ℕ, zero, suc, ◌+◌, ◌-◌, ◌*◌, ◌/◌, ◌%◌, ◌^◌, Option, none, some, List, [], ◌∷◌, ◌==◌,
  if◌then◌else◌,
}
use capdl.Base.Words.{u32}
use capdl.Spec.{Cap, CapSlot, Object}
use capdl.Spec.Types.{CapType, is_cap_type}
use capdl.Platform.{Platform, Arch, is_riscv, pt_num_levels}
use capdl.Exec.{Stop, Exec, pure, ◌>>=◌, stop}
use capdl.Loader.Slots.{get_spec_object, orig_caps}

-- the loop of `get_cap_at` from one slot on
unfoldable pub find_slot : List CapSlot → ℕ → Option Cap
find_slot [] slot = none
find_slot (s ∷ rest) slot = if s.slot == slot then some s.cap else find_slot rest slot

-- the parameter `slot` is an `unsigned int`
unfoldable pub get_cap_at : Object → ℕ → Option Cap
unfolding find_slot
get_cap_at obj slot = find_slot obj.slots (u32 slot)

-- (vaddr >> shift) & MASK(bits)
unfoldable pub slot_of : ℕ → ℕ → ℕ → ℕ
slot_of shift bits vaddr = vaddr / 2 ^ shift % 2 ^ bits

-- ZF_LOGF where a cap is missing
unfoldable pub or_fatal : Option Cap → Exec Cap
or_fatal none = stop Stop.fatal
or_fatal (some cap) = pure cap

module _ (p : Platform) where
  -- On RISC-V, page directories are page tables.
  unfoldable pub pd_index_bits : ℕ
  pd_index_bits = if is_riscv p.arch then p.page_table_index_bits else p.page_dir_index_bits

  unfoldable pub pt_slot : ℕ → ℕ
  pt_slot = slot_of p.page_bits p.page_table_index_bits

  unfoldable pub pd_slot : ℕ → ℕ
  unfolding pd_index_bits
  pd_slot = slot_of (p.page_table_index_bits + p.page_bits) pd_index_bits

  unfoldable pub pdpt_slot : ℕ → ℕ
  unfolding pd_index_bits
  pdpt_slot = slot_of (pd_index_bits + p.page_table_index_bits + p.page_bits) p.pdpt_index_bits

  unfoldable pub pml4_slot : ℕ → ℕ
  unfolding pd_index_bits
  pml4_slot =
      slot_of (p.pdpt_index_bits + pd_index_bits + p.page_table_index_bits + p.page_bits)
        p.pml4_index_bits

  unfoldable pub pud_slot : ℕ → ℕ
  unfolding pd_index_bits
  pud_slot = slot_of (pd_index_bits + p.page_table_index_bits + p.page_bits) p.pud_index_bits

  unfoldable pub pgd_slot : ℕ → ℕ
  unfolding pd_index_bits
  pgd_slot =
      slot_of (p.pud_index_bits + pd_index_bits + p.page_table_index_bits + p.page_bits)
        p.pgd_index_bits

  unfoldable pub pt_level_slot : ℕ → ℕ → ℕ
  pt_level_slot vaddr level =
      slot_of (p.page_table_index_bits * (level - 1) + p.page_bits) p.page_table_index_bits vaddr

-- the cap in one slot of a paging structure, which has to be there
unfoldable pub cap_in : ℕ → ℕ → Exec Cap
cap_in object_id slot = do obj ← get_spec_object object_id; or_fatal (get_cap_at obj slot)

module _ (p : Platform) (vaddr : ℕ) where
  unfoldable pub get_cdl_frame_pdpt : ℕ → Exec Cap
  get_cdl_frame_pdpt root = cap_in root (pml4_slot p vaddr)

  unfoldable pub get_cdl_frame_pd_x86_64 : ℕ → Exec Cap
  unfolding get_cdl_frame_pdpt
  get_cdl_frame_pd_x86_64 root = do
    pdpt_cap ← get_cdl_frame_pdpt root
    cap_in pdpt_cap.obj_id (pdpt_slot p vaddr)

  unfoldable pub get_cdl_frame_pud : ℕ → Exec Cap
  get_cdl_frame_pud root = cap_in root (pgd_slot p vaddr)

  unfoldable pub get_cdl_frame_pd_aarch64 : ℕ → Exec Cap
  unfolding get_cdl_frame_pud
  get_cdl_frame_pd_aarch64 root =
      if pt_num_levels p.config == 3
      then cap_in root (pud_slot p vaddr)
      else do pud_cap ← get_cdl_frame_pud root; cap_in pud_cap.obj_id (pud_slot p vaddr)

  -- `above` is CONFIG_PT_LEVELS - level, the calls that are still made.
  unfoldable pub pt_recurse : (above : ℕ) → (root level : ℕ) → Exec Cap
  pt_recurse zero root level = cap_in root (pt_level_slot p vaddr level)
  pt_recurse (suc above) root level = do
    pt_cap ← pt_recurse above root (level + 1)
    cap_in pt_cap.obj_id (pt_level_slot p vaddr level)

  unfoldable pub get_cdl_frame_pt_recurse : (root level : ℕ) → Exec Cap
  unfolding pt_recurse
  get_cdl_frame_pt_recurse root level = pt_recurse (p.pt_levels - level) root level

  unfoldable pub get_cdl_frame_pt_on : Arch → (pd : ℕ) → Exec Cap
  unfolding get_cdl_frame_pt_recurse get_cdl_frame_pd_x86_64 get_cdl_frame_pd_aarch64
  get_cdl_frame_pt_on Arch.x86_64 pd = do
    pd_cap ← get_cdl_frame_pd_x86_64 pd
    cap_in pd_cap.obj_id (pd_slot p vaddr)
  get_cdl_frame_pt_on Arch.aarch64 pd = do
    pd_cap ← get_cdl_frame_pd_aarch64 pd
    cap_in pd_cap.obj_id (pd_slot p vaddr)
  get_cdl_frame_pt_on Arch.riscv32 pd = get_cdl_frame_pt_recurse pd 2
  get_cdl_frame_pt_on Arch.riscv64 pd = get_cdl_frame_pt_recurse pd 2
  get_cdl_frame_pt_on _ pd = cap_in pd (pd_slot p vaddr)

  unfoldable pub get_cdl_frame_pt : (pd : ℕ) → Exec Cap
  unfolding get_cdl_frame_pt_on
  get_cdl_frame_pt = get_cdl_frame_pt_on p.arch

  unfoldable pub get_cdl_frame_cap : ℕ → Exec Cap
  unfolding get_cdl_frame_pt
  get_cdl_frame_cap pd = do
    pt_cap ← get_cdl_frame_pt pd
    if is_cap_type pt_cap.type CapType.frame_cap
        then pure pt_cap
        else cap_in pt_cap.obj_id (pt_slot p vaddr)

  unfoldable pub get_frame_cap : ℕ → Exec ℕ
  unfolding get_cdl_frame_cap
  get_frame_cap pd = do frame_cap ← get_cdl_frame_cap pd; orig_caps p frame_cap.obj_id
