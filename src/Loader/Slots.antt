-- ===== src/Loader/Slots.antt =====
-- The helper functions of main.c: the free slots of the loader's own CNode, and the tables from
-- object numbers to slots.
pub mod Tables
use capdl.Base.{ℕ, ◌+◌, get_elem?, ltb, leb, ◌==◌, if◌then◌else◌}
use capdl.Base.Words.{wrap}
use capdl.Spec.{CapData, Object}
use capdl.Spec.Access.{tag_badge, tag_guard, tag_raw, guard_bits, guard_size}
use capdl.Platform.{Platform, word_size}
use capdl.Exec.{World, Stop, Exec, pure, ◌>>=◌, ◌>>◌, stop, gets, modify, fatal_if, assert, deref}

unfoldable pub get_free_slot : Exec ℕ
get_free_slot = gets (λ w. w.free_slot_start)

module _ (p : Platform) where
  unfoldable pub next_free_slot : Exec (Unit {0})
  next_free_slot = do
    modify (λ w. record w { free_slot_start = wrap (word_size p) (w.free_slot_start + 1) })
    start ← gets (λ w. w.free_slot_start)
    end ← gets (λ w. w.free_slot_end)
    fatal_if (leb end start)

  unfoldable pub orig_caps : ℕ → Exec ℕ
  orig_caps object_id = do
    assert (ltb object_id p.max_objects)
    gets (λ w. w.capdl_to_sel4_orig object_id)

  unfoldable pub dup_caps : ℕ → Exec ℕ
  dup_caps object_id = do
    assert (ltb object_id p.max_objects)
    gets (λ w. w.capdl_to_sel4_copy object_id)

  unfoldable pub irq_caps : ℕ → Exec ℕ
  irq_caps irq = do assert (ltb irq p.max_objects); gets (λ w. w.capdl_to_sel4_irq irq)

  unfoldable pub sched_ctrl_caps : ℕ → Exec ℕ
  sched_ctrl_caps id = do assert (ltb id p.max_num_nodes); gets (λ w. w.capdl_to_sched_ctrl id)

pub data CapTable : Type 0 where
  orig dup irq sched_ctrl : CapTable

-- a write to an array, seen as a function from its indices
unfoldable pub update : (ℕ → ℕ) → ℕ → ℕ → ℕ → ℕ
update f i v j = if i == j then v else f j

-- the size of the array behind each table
unfoldable pub table_size : Platform → CapTable → ℕ
table_size p CapTable.sched_ctrl = p.max_num_nodes
table_size p _ = p.max_objects

unfoldable pub write_table : CapTable → ℕ → ℕ → World → World
write_table CapTable.orig i v w = record w { capdl_to_sel4_orig = update w.capdl_to_sel4_orig i v }
write_table CapTable.dup i v w = record w { capdl_to_sel4_copy = update w.capdl_to_sel4_copy i v }
write_table CapTable.irq i v w = record w { capdl_to_sel4_irq = update w.capdl_to_sel4_irq i v }
write_table CapTable.sched_ctrl i v w = record w {
  capdl_to_sched_ctrl = update w.capdl_to_sched_ctrl i v;
}

-- The code does not test the index: past the end of the array the write is undefined.
unfoldable pub add_sel4_cap : Platform → ℕ → CapTable → ℕ → Exec (Unit {0})
unfolding write_table table_size
add_sel4_cap p object_id type slot =
    if ltb object_id (table_size p type)
    then modify (write_table type object_id slot)
    else stop Stop.undefined

-- Every caller goes on to read through the pointer.
unfoldable pub get_spec_object : ℕ → Exec Object
get_spec_object object_id = do
  objects ← gets (λ w. w.spec.objects)
  deref (get_elem? objects object_id)

-- The tag is two bits wide: 3 is the case that the switch calls invalid.
unfoldable pub get_cap_data : Platform → CapData → Exec ℕ
get_cap_data p d =
    if d.tag == tag_badge
    then pure d.word
    else if d.tag == tag_guard
    then pure (p.cnode_cap_data (guard_bits d) (guard_size d))
    else if d.tag == tag_raw
    then pure d.word
    else stop Stop.fatal
