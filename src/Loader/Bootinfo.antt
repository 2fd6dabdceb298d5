-- ===== src/Loader/Bootinfo.antt =====
-- What main.c reads from the boot information: the free slots, the untypeds of a static allocation,
-- the extended headers, and the addresses at which frames are mapped while they are filled.
use capdl.Base.{
  ℕ, zero, suc, ◌+◌, ◌-◌, ◌*◌, ◌/◌, Bool, true, false, not, ◌||◌, some, List, [], ◌∷◌, length, drop,
  ltb, leb, ◌==◌, if◌then◌else◌,
}
use capdl.Base.Words.{wrap, wrap_sub, u8, u32}
use capdl.Spec.{Object, UntypedDerivation}
use capdl.Spec.Types.{ObjectType, is_type}
use capdl.Platform.{Platform, BootInfo, UntypedDesc, word_size}
use capdl.Platform.Calls.{Invocation}
use capdl.Exec.{
  Stop, Exec, pure, ◌>>=◌, ◌>>◌, stop, gets, modify, fatal_if, assert, deref, invoke_checked,
  for_range,
}
use capdl.Loader.Slots.{get_spec_object, update}

-- One round of the inner loop of `parse_bootinfo` reads one untyped; `bi_start` and `found` are the
-- variables that the rounds share.
pub record UntypedScan : Type 0 where
  pub bi_start : ℕ
  pub found : Bool

module _ (p : Platform) (bootinfo : BootInfo) where
  -- untyped_cptrs[u] = bootinfo->untyped.start + i
  unfoldable pub set_untyped_cptr : (u i : ℕ) → Exec (Unit {0})
  set_untyped_cptr u i =
      if ltb u p.max_untyped_caps
      then modify (λ w. record w {
        untyped_cptrs = update w.untyped_cptrs u (wrap (word_size p) (bootinfo.untyped.start + i));
      })
      else stop Stop.undefined

  -- for (i = bi_start; i < num_untyped; i++), over the list from `i` on
  unfoldable pub scan_untypeds :
      (u : ℕ) → Object → (rounds i : ℕ) → List UntypedDesc → UntypedScan → Exec UntypedScan
  unfolding set_untyped_cptr
  scan_untypeds u ut zero i untypeds s = pure s
  scan_untypeds u ut (suc rounds) i [] s = stop Stop.undefined
  scan_untypeds u ut (suc rounds) i (d ∷ rest) s =
      let miss = scan_untypeds u ut rounds (i + 1) rest s in
      if d.paddr == ut.paddr
      then (do
        fatal_if (not (u8 d.size_bits == ut.size_bits))
        set_untyped_cptr u i
        scan_untypeds u ut rounds (i + 1) rest (record {
          bi_start = if i == s.bi_start then s.bi_start + 1 else s.bi_start;
          found = true;
        }))
      else miss

  unfoldable pub match_untypeds : (u bi_start : ℕ) → List UntypedDerivation → Exec (Unit {0})
  unfolding scan_untypeds
  match_untypeds u bi_start [] = pure tt
  match_untypeds u bi_start (ud ∷ rest) = do
    let num_untyped = bootinfo.untyped.end - bootinfo.untyped.start
    ut ← get_spec_object ud.untyped
    assert (is_type ut.type ObjectType.untyped)
    s ←
        scan_untypeds u ut (num_untyped - bi_start) bi_start (drop bi_start bootinfo.untyped_list)
          (record { bi_start = bi_start; found = false })
    fatal_if (not s.found)
    match_untypeds (u + 1) s.bi_start rest

  unfoldable pub parse_bootinfo : Exec (Unit {0})
  unfolding match_untypeds
  parse_bootinfo = do
    modify (λ w. record w {
      free_slot_start = bootinfo.empty.start;
      free_slot_end = bootinfo.empty.end;
    })
    modify (λ w. record w { free_slot_start = wrap (word_size p) (w.free_slot_start + 16) })
    start ← gets (λ w. w.free_slot_start)
    end ← gets (λ w. w.free_slot_end)
    assert (leb p.max_objects (wrap_sub (word_size p) end start))
    untyped ← gets (λ w. w.spec.untyped)
    if p.static_alloc then match_untypeds 0 0 untyped else fatal_if (not (length untyped == 0))
    modify (λ w. record w { first_arm_iospace = bootinfo.io_space_caps.start })

  unfoldable pub init_copy_addr : Exec (Unit {0})
  init_copy_addr = modify (λ w. record w {
    copy_addr =
        p.round_up (wrap (word_size p) (bootinfo.address + 4096 + bootinfo.extra_len)) 0x1000000;
  })

  -- while (cur < end). A header of length 0 would be read for ever.
  unfoldable pub cache_headers : (fuel cur end : ℕ) → Exec (Unit {0})
  cache_headers zero cur end = stop Stop.out_of_fuel
  cache_headers (suc fuel) cur end =
      if ltb cur end
      then (do
        header ← deref (bootinfo.header_at cur)
        if ltb header.id p.header_num then pure tt else stop Stop.undefined
        modify (λ w. record w {
          extended_bootinfo_table =
              λ id. if header.id == id then some (cur, header) else w.extended_bootinfo_table id;
        })
        cache_headers fuel (wrap (word_size p) (cur + header.len)) end)
      else pure tt

  unfoldable pub cache_extended_bootinfo_headers : (fuel : ℕ) → Exec (Unit {0})
  unfolding cache_headers
  cache_extended_bootinfo_headers fuel =
      let cur = wrap (word_size p) (bootinfo.address + 4096) in
      cache_headers fuel cur (wrap (word_size p) (cur + bootinfo.extra_len))

  -- The slot of the page table at `copy_addr` is computed there too, and not used.
  unfoldable pub init_copy_frame : Exec (Unit {0})
  init_copy_frame =
      let w = word_size p in
      let reported =
        u32 (wrap_sub w bootinfo.user_image_frames.end bootinfo.user_image_frames.start) in
      let measured = u32 (wrap_sub w (p.round_up p.image_end 4096) p.executable_start / 4096) in
      let additional = wrap w (u32 (reported - measured) * 4096) in
      let lowest = p.executable_start - additional in
      let frame =
        wrap_sub w (bootinfo.user_image_frames.start + p.copy_addr_with_pt / 4096)
          (lowest / 4096) in
      if ltb reported measured || ltb p.executable_start additional
      then pure tt
      else for_range 16 0 (λ i. invoke_checked p (Invocation.page_unmap (wrap w (frame + i))))
