-- ===== src/Loader/Cspace/Moved.antt =====
-- `map_page` and the cap that `init_cnode_slot` moves afterwards: the one that the frame is mapped with.
use capdl.Base.{ℕ, ◌≡◌, List}
use capdl.Base.Words.{u8, through_int}
use capdl.Spec.{CapSlot, Object}
use capdl.Platform.{Platform, word_size}
use capdl.Platform.Calls.{Invocation, Effect, call}

-- the kernel makes the moves that it is asked for
pub record AcceptsMoves (p : Platform) : Type 0 where
  pub moves :
      (t : List Effect) (root index depth from src src_depth : ℕ)
      → (p.kernel t (Invocation.cnode_move root index depth from src src_depth)).error ≡ 0

-- the call that `init_cnode_slot` makes for a mapped frame
abbrev pub moved : Platform → (root : ℕ) → CapSlot → (cnode : Object) → (cap : ℕ) → Effect
moved p root slot cnode cap = call (
    Invocation.cnode_move root (through_int (word_size p) slot.slot) (u8 cnode.size_bits)
      p.cap_init_thread_cnode cap (word_size p))
