-- ===== src/Loader/Frames/Bounds.antt =====
-- What filling a frame writes, and where.
use capdl.Base.{◌-◌, ℕ, ◌+◌, ◌≤◌, ◌<◌, ◌^◌, ◌≡◌, false, arith, ltb-ge, ge→ltb}
use capdl.Base.Words.{wrap_small, wrap_sub_ge, wrap_sub_lt}
use capdl.Spec.{Object, FrameFillElement}
use capdl.Platform.{Platform, word_size}
use capdl.Loader.Frames.{block_copy_len, is_fill_too_long}

-- The length that is copied from a block of boot information is within the frame's part that the
-- fill names, and what is read lies within the block; where the block has more than the frame takes,
-- that part is filled.
pub block_copy_len_bounds :
    (p : Platform) (len block_offset max_len : ℕ)
    → (block_copy_len p len block_offset max_len ≤ max_len)
      × (block_offset ≤ len → block_offset + block_copy_len p len block_offset max_len ≤ len)
      × (len < block_offset → block_copy_len p len block_offset max_len ≡ 0)
      × (block_offset + max_len ≤ len → block_copy_len p len block_offset max_len ≡ max_len)
unfolding block_copy_len
block_copy_len_bounds p len off max = ground arith

module _ (p : Platform) (obj : Object) (fill : FrameFillElement) where
  -- The test of `init_frame` on the length of a fill, for a frame of less than 2 ^ (word size) bytes:
  -- where the offset is within the frame, the test passes exactly the fills that end within it.
  pub is_fill_too_long_iff :
      2 ^ obj.size_bits < 2 ^ word_size p
      → fill.dest_offset ≤ 2 ^ obj.size_bits
      → (is_fill_too_long p obj fill ≡ false → fill.dest_offset + fill.dest_len ≤ 2 ^ obj.size_bits)
        × (fill.dest_offset + fill.dest_len ≤ 2 ^ obj.size_bits
            → is_fill_too_long p obj fill ≡ false)
  unfolding is_fill_too_long
  is_fill_too_long_iff small inside = rw (wrap_small (2 ^ word_size p) (2 ^ obj.size_bits) small) (
      rw (wrap_sub_ge (word_size p) (2 ^ obj.size_bits) fill.dest_offset inside small)
        (λ passes. omega (arith, ltb-ge _ _ passes), λ ends. ge→ltb _ _ (omega arith)))

  -- Where the offset is past the end of the frame, the difference wraps around, and the test passes
  -- exactly the fills that are no longer than the address space less the excess of the offset.
  pub is_fill_too_long_past_end :
      2 ^ obj.size_bits < fill.dest_offset
      → fill.dest_offset < 2 ^ word_size p
      → (is_fill_too_long p obj fill ≡ false
          → fill.dest_len ≤ 2 ^ word_size p - (fill.dest_offset - 2 ^ obj.size_bits))
        × (fill.dest_len ≤ 2 ^ word_size p - (fill.dest_offset - 2 ^ obj.size_bits)
            → is_fill_too_long p obj fill ≡ false)
  unfolding is_fill_too_long
  is_fill_too_long_past_end past word =
      rw (wrap_small (2 ^ word_size p) (2 ^ obj.size_bits) (omega arith)) (
        rw (wrap_sub_lt (word_size p) (2 ^ obj.size_bits) fill.dest_offset past word)
          (λ passes. omega (arith, ltb-ge _ _ passes), λ short. ge→ltb _ _ (omega arith)))
