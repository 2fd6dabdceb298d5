-- ===== src/Loader/Slots/Tables.antt =====
-- `add_sel4_cap` against the lookups in the four tables.
use capdl.Base.{
  ℕ, ◌<◌, ◌≤◌, ◌≡◌, refl, Bool, true, false, ◌&&◌, ◌==◌, if◌then◌else◌, lt→ltb, ge→ltb,
}
use capdl.Platform.{Platform}
use capdl.Exec.{World, Exec, Stop, ok, halt, ◌>>◌}
use capdl.Loader.Slots.{
  orig_caps, dup_caps, irq_caps, sched_ctrl_caps, CapTable, update, table_size, write_table,
  add_sel4_cap,
}

-- the array behind each table, and the function that looks an entry up
unfoldable pub entry_of : CapTable → World → ℕ → ℕ
entry_of CapTable.orig w = w.capdl_to_sel4_orig
entry_of CapTable.dup w = w.capdl_to_sel4_copy
entry_of CapTable.irq w = w.capdl_to_sel4_irq
entry_of CapTable.sched_ctrl w = w.capdl_to_sched_ctrl

unfoldable pub lookup : Platform → CapTable → ℕ → Exec ℕ
lookup p CapTable.orig = orig_caps p
lookup p CapTable.dup = dup_caps p
lookup p CapTable.irq = irq_caps p
lookup p CapTable.sched_ctrl = sched_ctrl_caps p

unfoldable pub same_table : CapTable → CapTable → Bool
same_table CapTable.orig CapTable.orig = true
same_table CapTable.dup CapTable.dup = true
same_table CapTable.irq CapTable.irq = true
same_table CapTable.sched_ctrl CapTable.sched_ctrl = true
same_table _ _ = false

module _ (p : Platform) where
  lookup_within :
      (u : CapTable) (j : ℕ) (w : World)
      → j < table_size p u
      → lookup p u j w ≡ ok (entry_of u w j) w
  unfolding lookup entry_of table_size orig_caps dup_caps irq_caps sched_ctrl_caps
  lookup_within CapTable.orig j w h = simp (lt→ltb j _ h)
  lookup_within CapTable.dup j w h = simp (lt→ltb j _ h)
  lookup_within CapTable.irq j w h = simp (lt→ltb j _ h)
  lookup_within CapTable.sched_ctrl j w h = simp (lt→ltb j _ h)

  entry_of-write_table :
      (t u : CapTable) (i j v : ℕ) (w : World)
      → entry_of u (write_table t i v w) j
        ≡ (if same_table t u && (i == j) then v else entry_of u w j)
  unfolding entry_of write_table same_table update
  entry_of-write_table CapTable.orig CapTable.orig i j v w = refl
  entry_of-write_table CapTable.orig CapTable.dup i j v w = refl
  entry_of-write_table CapTable.orig CapTable.irq i j v w = refl
  entry_of-write_table CapTable.orig CapTable.sched_ctrl i j v w = refl
  entry_of-write_table CapTable.dup CapTable.orig i j v w = refl
  entry_of-write_table CapTable.dup CapTable.dup i j v w = refl
  entry_of-write_table CapTable.dup CapTable.irq i j v w = refl
  entry_of-write_table CapTable.dup CapTable.sched_ctrl i j v w = refl
  entry_of-write_table CapTable.irq CapTable.orig i j v w = refl
  entry_of-write_table CapTable.irq CapTable.dup i j v w = refl
  entry_of-write_table CapTable.irq CapTable.irq i j v w = refl
  entry_of-write_table CapTable.irq CapTable.sched_ctrl i j v w = refl
  entry_of-write_table CapTable.sched_ctrl CapTable.orig i j v w = refl
  entry_of-write_table CapTable.sched_ctrl CapTable.dup i j v w = refl
  entry_of-write_table CapTable.sched_ctrl CapTable.irq i j v w = refl
  entry_of-write_table CapTable.sched_ctrl CapTable.sched_ctrl i j v w = refl

-- Within the tables: after `add_sel4_cap` has written entry `i` of one table, a lookup of entry `j` in
-- any table gives what was written where it is that entry of that table, and what was there before
-- otherwise. Where the index is past the end of the table, the write is undefined.
pub add_sel4_cap-lookup :
    (p : Platform) (t u : CapTable) (i j v : ℕ) (w : World)
    → j < table_size p u
    → (i < table_size p t
        → (add_sel4_cap p i t v >> lookup p u j) w
          ≡ ok (if same_table t u && (i == j) then v else entry_of u w j) (write_table t i v w))
      × (table_size p t ≤ i → add_sel4_cap p i t v w ≡ halt Stop.undefined w)
unfolding add_sel4_cap
add_sel4_cap-lookup p t u i j v w inside = (
  λ within. simp (
    lt→ltb i (table_size p t) within,
    lookup_within p u j (write_table t i v w) inside,
    entry_of-write_table p t u i j v w,
  ),
  λ past. simp (ge→ltb i (table_size p t) past),
)
