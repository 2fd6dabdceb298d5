-- ===== src/Loader/Frames.antt =====
-- Filling frames with boot information and with files: `init_frames` of main.c and what it calls.
pub mod Blocks
pub mod Bounds
use capdl.Base.{
  Option, ℕ, zero, suc, ◌+◌, ◌-◌, ◌^◌, min, Bool, true, false, not, ◌||◌, none, some, List, [], ◌∷◌,
  ltb, ◌==◌, if◌then◌else◌,
}
use capdl.Base.Words.{wrap, wrap_sub}
use capdl.Spec.{FrameFillElement, Object}
use capdl.Spec.Types.{ObjectType, FillType, is_type}
use capdl.Platform.{Platform, Header, word_size}
use capdl.Platform.Calls.{Invocation, Effect}
use capdl.Exec.{
  Stop, Exec, pure, ◌>>=◌, ◌>>◌, stop, gets, when, fatal_if, fatal_iferr, deref, effect, invoke,
  invoke_checked,
}
use capdl.Loader.Slots.{orig_caps, get_spec_object}
use capdl.Loader.Caps.{for_objects}

module _ (p : Platform) where
  -- the blocks of boot information that a frame can be filled with
  unfoldable pub is_known_block : ℕ → Bool
  is_known_block t = t == p.header_x86_vbe || t == p.header_x86_tsc_freq || t == p.header_fdt

  -- how many bytes are copied from a block of `len` bytes
  unfoldable pub block_copy_len : (len block_offset max_len : ℕ) → ℕ
  block_copy_len len block_offset max_len =
      min (if ltb len block_offset then 0 else len - block_offset) max_len

  -- the copy, or where the block is missing, a header with all bits of `id` and `len` set
  unfoldable pub copy_block : Option (ℕ × Header) → (base : ℕ) → FrameFillElement → Exec (Unit {0})
  unfolding block_copy_len
  copy_block (some (address, header)) base fill = effect (
      Effect.copy (wrap (word_size p) (base + fill.dest_offset))
        (wrap (word_size p) (address + fill.src_offset))
        (block_copy_len header.len fill.src_offset fill.dest_len))
  copy_block none base fill =
      when (fill.src_offset == 0)
        (effect (Effect.copy_empty_header base (min p.sizeof_header fill.dest_len)))

  unfoldable pub fill_frame_with_bootinfo : (base : ℕ) → FrameFillElement → Exec (Unit {0})
  unfolding is_known_block copy_block
  fill_frame_with_bootinfo base fill = do
    fatal_if (not (is_known_block fill.bi_type))
    table ← gets (λ w. w.extended_bootinfo_table)
    copy_block (table fill.bi_type) base fill

  -- The size of the file is not looked at, nor whether there is one.
  unfoldable pub fill_frame_with_filedata : (base : ℕ) → FrameFillElement → Exec (Unit {0})
  fill_frame_with_filedata base fill = do
    file ← deref (p.cpio_get_file fill.filename)
    effect (
        Effect.copy (wrap (word_size p) (base + fill.dest_offset))
          (wrap (word_size p) (file + fill.file_offset)) fill.dest_len)

  -- `dest_len > max`, where `max` is BIT(size_bits) - dest_offset in an ssize_t and the comparison
  -- reads it as unsigned again
  unfoldable pub is_fill_too_long : Object → FrameFillElement → Bool
  is_fill_too_long obj fill =
      ltb (wrap_sub (word_size p) (wrap (word_size p) (2 ^ obj.size_bits)) fill.dest_offset)
        fill.dest_len

  unfoldable pub map_for_filling : (cap : ℕ) → Exec ℕ
  map_for_filling cap = do
    copy_addr ← gets (λ w. w.copy_addr)
    let mapping = λ (vaddr : ℕ).
        Invocation.page_map cap p.cap_init_thread_pd vaddr p.read_write p.default_vm_attributes
    r ← invoke p (mapping copy_addr)
    let small = (do invoke_checked p (mapping p.copy_addr_with_pt); pure p.copy_addr_with_pt)
    let large = (do fatal_iferr r.error; pure copy_addr)
    if r.error == p.failed_lookup then small else large

  -- the switch over the kind of the fill
  unfoldable pub fill_by_type : FillType → (base : ℕ) → FrameFillElement → Exec (Unit {0})
  unfolding fill_frame_with_bootinfo fill_frame_with_filedata
  fill_by_type FillType.boot_info base fill = fill_frame_with_bootinfo base fill
  fill_by_type FillType.file_data base fill = fill_frame_with_filedata base fill
  fill_by_type FillType.none_fill base fill = stop Stop.fatal

  unfoldable pub fill_frame : (base : ℕ) → FrameFillElement → Exec (Unit {0})
  unfolding fill_by_type
  fill_frame base fill = fill_by_type fill.type base fill

  unfoldable pub init_frame : (obj_id : ℕ) → FrameFillElement → Exec (Unit {0})
  unfolding map_for_filling fill_frame
  init_frame obj_id fill = do
    cap ← orig_caps p obj_id
    base ← map_for_filling cap
    obj ← get_spec_object obj_id
    fatal_if (is_fill_too_long obj fill)
    fill_frame base fill
    invoke_checked p (Invocation.page_unmap cap)

  unfoldable pub is_no_fill : FillType → Bool
  is_no_fill FillType.none_fill = true
  is_no_fill _ = false

  -- for (i = 0; i < FILLS_PER_FRAME && fill[i].type != None; i++), over the array from `i` on
  unfoldable pub fill_loop : (rounds obj_id : ℕ) → List FrameFillElement → Exec (Unit {0})
  unfolding is_no_fill
  fill_loop zero obj_id fills = pure tt
  fill_loop (suc rounds) obj_id [] = stop Stop.undefined
  fill_loop (suc rounds) obj_id (fill ∷ rest) =
      let next = (do init_frame obj_id fill; fill_loop rounds obj_id rest) in
      if is_no_fill fill.type then pure tt else next

  unfoldable pub init_frames : Exec (Unit {0})
  unfolding init_frame fill_loop
  init_frames = for_objects p (λ obj_id obj.
      when (is_type obj.type ObjectType.frame)
        (fill_loop p.fills_per_frame obj_id obj.frame_extra.fill))
