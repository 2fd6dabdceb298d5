-- ===== src/Loader/Frames/Blocks.antt =====
-- Where `fill_frame` writes.
use capdl.Base.{ℕ, ◌+◌, ◌≤◌, ◌<◌, ◌^◌, ◌≡◌, false, Option, none, some, arith, min}
use capdl.Base.Words.{wrap, wrap_small}
use capdl.Spec.{Object, FrameFillElement}
use capdl.Spec.Types.{FillType}
use capdl.Platform.{Platform, Header, word_size}
use capdl.Platform.Calls.{Effect, copy, copy_empty_header}
use capdl.Exec.Emits.{Emits, Emits-effect, emits_rules}
use capdl.Loader.Frames.{
  copy_block, fill_frame_with_bootinfo, fill_frame_with_filedata, is_fill_too_long, fill_by_type,
  fill_frame,
}
use capdl.Loader.Frames.Bounds.{block_copy_len_bounds, is_fill_too_long_iff}

-- a write to memory from `base` on, of at most `size` bytes
abbrev pub WritesWithin : (base size : ℕ) → Effect → Type 0
WritesWithin base size (copy dest src len) = (base ≤ dest) × (dest + len ≤ base + size)
WritesWithin base size (copy_empty_header dest len) = (base ≤ dest) × (dest + len ≤ base + size)
WritesWithin base size _ = ⊥

module _ (p : Platform) (base size : ℕ) (fill : FrameFillElement)
    (in_space : base + size < 2 ^ word_size p)
    (ends : fill.dest_offset + fill.dest_len ≤ size) where
  at_dest :
      (len : ℕ)
      → len ≤ fill.dest_len
      → (base ≤ wrap (word_size p) (base + fill.dest_offset))
        × (wrap (word_size p) (base + fill.dest_offset) + len ≤ base + size)
  at_dest len h =
      let same = wrap_small (2 ^ word_size p) (base + fill.dest_offset) (omega arith) in
      (omega (arith, same), omega (arith, same))

  copy_block-Emits :
      (o : Option (ℕ × Header)) → Emits (WritesWithin base size) (copy_block p o base fill)
  unfolding copy_block
  copy_block-Emits none =
      let at_base : (base ≤ base) × (base + min p.sizeof_header fill.dest_len ≤ base + size) =
        (omega arith, omega arith) in
      search (emits_rules, at_base)
  copy_block-Emits (some (a, h)) =
      Emits-effect _ (at_dest _ (block_copy_len_bounds p h.len fill.src_offset fill.dest_len).0)

  fill_frame_with_bootinfo-Emits :
      Emits (WritesWithin base size) (fill_frame_with_bootinfo p base fill)
  unfolding fill_frame_with_bootinfo
  fill_frame_with_bootinfo-Emits = search (emits_rules, copy_block-Emits)

  fill_frame_with_filedata-Emits :
      Emits (WritesWithin base size) (fill_frame_with_filedata p base fill)
  unfolding fill_frame_with_filedata
  fill_frame_with_filedata-Emits =
      let within = at_dest fill.dest_len (omega arith) in search (emits_rules, within)

  fill_by_type-Emits : (t : FillType) → Emits (WritesWithin base size) (fill_by_type p t base fill)
  unfolding fill_by_type
  fill_by_type-Emits FillType.boot_info = fill_frame_with_bootinfo-Emits
  fill_by_type-Emits FillType.file_data = fill_frame_with_filedata-Emits
  fill_by_type-Emits FillType.none_fill = search emits_rules

-- After the test of `init_frame`, for an offset within the frame and a frame mapped where it does not
-- reach the end of the address space: whatever the kind of the fill, all that `fill_frame` does is to
-- write within the frame, whether or not it gets to the end.
pub fill_frame-Emits-WritesWithin :
    (p : Platform) (obj : Object) (base : ℕ) (fill : FrameFillElement)
    → base + 2 ^ obj.size_bits < 2 ^ word_size p
    → fill.dest_offset ≤ 2 ^ obj.size_bits
    → is_fill_too_long p obj fill ≡ false
    → Emits (WritesWithin base (2 ^ obj.size_bits)) (fill_frame p base fill)
unfolding fill_frame
fill_frame-Emits-WritesWithin p obj base fill space inside passes =
    fill_by_type-Emits p base (2 ^ obj.size_bits) fill space
      ((is_fill_too_long_iff p obj fill (omega arith) inside).0 passes) fill.type
