-- ===== src/Loader/Caps/SchedCtrl.antt =====
-- `create_sched_ctrl_caps` of main.c: how far its loop goes.
use capdl.Base.{
  ℕ, zero, suc, ◌+◌, ◌≤◌, ◌<◌, ◌≡◌, refl, true, ◌&&◌, arith, ltb, leb, if◌then◌else◌, lt→ltb,
  ge→ltb,
}
use native.Mathlib.Decide.{dec_lt}
use capdl.Base.Words.{wrap, wrap_sub}
use capdl.Platform.{Platform, BootInfo, word_size}
use capdl.Exec.{World, Stop, ok, halt, for_range}
use capdl.Loader.Slots.{CapTable, add_sel4_cap, update}
use capdl.Loader.Caps.{create_sched_ctrl_caps}

-- how many slots the boot information gives to scheduling control caps
abbrev pub sched_ctrl_count : Platform → BootInfo → ℕ
sched_ctrl_count p bi = wrap_sub (word_size p) bi.schedcontrol.end bi.schedcontrol.start

module _ (p : Platform) (bi : BootInfo) where
  abbrev slot_at : ℕ → ℕ
  slot_at i = wrap (word_size p) (i + bi.schedcontrol.start)

  fill_ok :
      (rounds i : ℕ) (w : World)
      → i + rounds ≤ p.max_num_nodes
      → (t : ℕ → ℕ) × (for_range rounds i (λ i. add_sel4_cap p i CapTable.sched_ctrl (slot_at i)) w
          ≡ ok tt (record w { capdl_to_sched_ctrl = t }))
        × ((j : ℕ)
            → t j ≡ (if leb i j && ltb j (i + rounds) then slot_at j else w.capdl_to_sched_ctrl j))
  unfolding for_range add_sel4_cap update
  fill_ok zero i w h = (w.capdl_to_sched_ctrl, refl, λ j. ground arith)
  fill_ok (suc rounds) i w h =
      let w' : World = record w {
        capdl_to_sched_ctrl = update w.capdl_to_sched_ctrl i (slot_at i);
      } in
      let (t, run, entries) = fill_ok rounds (i + 1) w' (omega arith) in
      (t, rw (lt→ltb i p.max_num_nodes (omega arith)) run, λ j. ground (arith, entries j))

  fill_undefined :
      (rounds i : ℕ) (w : World)
      → i ≤ p.max_num_nodes
      → p.max_num_nodes < i + rounds
      → (v : World) × (for_range rounds i (λ i. add_sel4_cap p i CapTable.sched_ctrl (slot_at i)) w
          ≡ halt Stop.undefined v)
  unfolding for_range add_sel4_cap update
  fill_undefined zero i w a b = absurd (omega arith)
  fill_undefined (suc rounds) i w a b = elim (dec_lt i p.max_num_nodes) [
    | yes in_array ↦
        let w' : World = record w {
          capdl_to_sched_ctrl = update w.capdl_to_sched_ctrl i (slot_at i);
        } in
        let (v, run) = fill_undefined rounds (i + 1) w' (omega arith) (omega arith) in
        (v, rw (lt→ltb i p.max_num_nodes in_array) run)
    | no past ↦ (w, rw (ge→ltb i p.max_num_nodes (omega arith)))
  ]

-- On an MCS kernel: where the boot information has fewer scheduling control caps than the table has
-- entries, the table gets the slot of each of them, and one entry more; where it has as many or more,
-- the loop writes past the end of the table.
pub create_sched_ctrl_caps_lem :
    (p : Platform) (bi : BootInfo) (w : World)
    → p.kernel_mcs ≡ true
    → (sched_ctrl_count p bi < p.max_num_nodes
        → (t : ℕ → ℕ) × (create_sched_ctrl_caps p bi w
            ≡ ok tt (record w { capdl_to_sched_ctrl = t }))
          × ((j : ℕ)
              → t j ≡ (
                  if leb j (sched_ctrl_count p bi)
                  then wrap (word_size p) (j + bi.schedcontrol.start)
                  else w.capdl_to_sched_ctrl j)))
      × (p.max_num_nodes ≤ sched_ctrl_count p bi
          → (v : World) × (create_sched_ctrl_caps p bi w ≡ halt Stop.undefined v))
unfolding create_sched_ctrl_caps
create_sched_ctrl_caps_lem p bi w mcs = (
  λ fewer.
      let (t, run, entries) = fill_ok p bi (sched_ctrl_count p bi + 1) 0 w (omega arith) in
      (t, simp mcs run, λ j. ground (arith, entries j)),
  λ many.
      let (v, run) =
        fill_undefined p bi (sched_ctrl_count p bi + 1) 0 w (omega arith) (omega arith) in
      (v, simp mcs run),
)
