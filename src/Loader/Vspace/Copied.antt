-- ===== src/Loader/Vspace/Copied.antt =====
-- The branch of `map_page` for a frame: which cap is mapped and how, and what is noted of it.
use mathlib.Core.List.{append_assoc}
use capdl.Base.{
  ℕ, ◌+◌, ◌-◌, ◌<◌, ◌^◌, ◌≡◌, Bool, true, false, ◌&&◌, ◌||◌, some, List, [], ◌∷◌, ◌++◌, get_elem?,
  leb, arith, lt→leb, ◌==◌, Bool-cases, inl, inr,
}
use mathlib.Core.Bool.{or-true, or-false, and-false}
use Prim.Native.Nat.{bit_or}
use capdl.Base.Words.{wrap_small, through_int_small}
use capdl.Spec.{Object}
use capdl.Spec.Access.{CapRights, obj_paddr}
use capdl.Platform.{Platform, word_size, is_arm}
use capdl.Platform.Calls.{Invocation, Effect, call}
use capdl.Exec.{World, ok, when, invoke, invoke_checked}
use capdl.Loader.Slots.{get_free_slot, next_free_slot}
use capdl.Loader.Caps.Dups.{word_size_of_wide}
use capdl.Loader.Vspace.{
  cap_ptr, writeable_rights, readable_rights, frame_attribs, set_mapped_in, write_mapped_frame_cap,
  clean_frame, map_frame,
}
use capdl.Loader.Vspace.Mapped.{IsNoted, mapped_object, get_elem?-set_mapped_in}
use capdl.Loader.Vspace.Upkeep.{AcceptsUpkeep, upkeep, clean_frame-upkeep}

-- the copy of a frame's cap
abbrev pub copy_of : Platform → (dest src : ℕ) → Invocation
copy_of p dest src =
    let root = p.cap_init_thread_cnode in
    Invocation.cnode_copy root dest (word_size p) root src (word_size p) p.all_rights

-- the kernel makes the copies and the mappings that it is asked for
pub record AcceptsMaps (p : Platform) : Type 0 where
  pub copies : (t : List Effect) (dest src : ℕ) → (p.kernel t (copy_of p dest src)).error ≡ 0
  pub maps :
      (t : List Effect) (cap pd vaddr : ℕ) (rights : CapRights) (attribs : ℕ)
      → (p.kernel t (Invocation.page_map cap pd vaddr rights attribs)).error ≡ 0
  pub tables :
      (t : List Effect) (table pd vaddr attribs : ℕ)
      → (p.kernel t (Invocation.page_table_map table pd vaddr attribs)).error ≡ 0
  pub keeps : AcceptsUpkeep p

-- The rights that a frame is mapped with, of those asked for: also to write what may be executed, where
-- the pages are to be writeable, and also to read what may be written.
pub record IsGiven (p : Platform) (asked given : CapRights) : Type 0 where
  pub same_grant : given.grant ≡ asked.grant
  pub same_grant_reply : given.grant_reply ≡ asked.grant_reply
  pub can_write : given.write ≡ (asked.write || (p.writeable_pages && asked.grant))
  pub can_read : given.read ≡ (asked.read || given.write)

-- The attributes that a frame is mapped with: never to be executed on ARM, unless it may be granted.
pub record IsWith (p : Platform) (grant : Bool) (attribs given : ℕ) : Type 0 where
  pub never : is_arm p.arch ≡ true → grant ≡ false → given ≡ bit_or attribs p.execute_never
  pub granted : grant ≡ true → given ≡ attribs
  pub others : is_arm p.arch ≡ false → given ≡ attribs

module _ (p : Platform) where
  pub readable_rights-IsGiven :
      (asked : CapRights) → IsGiven p asked (readable_rights p (writeable_rights p asked))
  unfolding readable_rights writeable_rights
  readable_rights-IsGiven asked = elim (Bool-cases (p.writeable_pages && asked.grant)) [
    | inl more ↦ record {
      same_grant = simp more;
      same_grant_reply = simp more;
      can_write = simp (more, or-true);
      can_read = simp (more, or-true);
    }
    | inr less ↦ elim (Bool-cases asked.write) [
      | inl writes ↦ record {
        same_grant = simp (less, writes);
        same_grant_reply = simp (less, writes);
        can_write = simp (less, writes);
        can_read = simp (less, writes, or-true);
      }
      | inr reads ↦ record {
        same_grant = simp (less, reads);
        same_grant_reply = simp (less, reads);
        can_write = simp (less, reads);
        can_read = simp (less, reads, or-false);
      }
    ]
  ]

  pub frame_attribs-IsWith :
      (rights : CapRights) (attribs : ℕ) (grant : Bool)
      → rights.grant ≡ grant
      → IsWith p grant attribs (frame_attribs p rights attribs)
  unfolding frame_attribs
  frame_attribs-IsWith rights attribs grant same = record {
    never = λ arm denied. simp (arm, same, denied);
    granted = λ may. simp (same, may, and-false);
    others = λ other. simp other;
  }

-- What mapping a frame does, from `w` to `v`, for a cap to the object `page` that stands in entry `i` of
-- object `o`; the original cap to the frame is in slot `src`. The original is copied to the next free slot
-- and that copy is mapped, at the address asked for, and kept coherent on ARM; the slot of the copy is
-- noted in that entry, the next slot is free next, and nothing else changes.
pub record MapsCopy (p : Platform) (o i src pd : ℕ) (page : Object) (asked : CapRights)
    (vm_attribs vaddr : ℕ) (w v : World) : Type 0 where
  pub rights : CapRights
  pub attribs : ℕ
  pub rights_given : IsGiven p asked rights
  pub attribs_given : IsWith p asked.grant vm_attribs attribs
  pub calls : List Effect
  pub is_calls :
      calls
      ≡ call (copy_of p w.free_slot_start src)
        ∷ call (Invocation.page_map w.free_slot_start pd vaddr rights attribs)
        ∷ []
  pub trace_arm :
      is_arm p.arch ≡ true
      → v.trace
        ≡ (w.trace ++ calls)
          ++ upkeep p page w.free_slot_start asked.grant attribs
              (record w { trace = w.trace ++ calls })
  pub trace_others : is_arm p.arch ≡ false → v.trace ≡ w.trace ++ calls
  pub noted : IsNoted o i w.free_slot_start w.spec.objects v.spec.objects
  pub rest : v ≡ record w {
    spec = record w.spec { objects = v.spec.objects };
    free_slot_start = w.free_slot_start + 1;
    trace = v.trace;
  }

module _ (p : Platform) (o i page src pd : ℕ) (asked : CapRights) (attribs vaddr : ℕ)
    (w : World) where
  abbrev pub given : CapRights
  given = readable_rights p asked

  abbrev pub mapped : World
  mapped = record w {
    spec = record w.spec { objects = set_mapped_in w.spec.objects o i w.free_slot_start };
    free_slot_start = w.free_slot_start + 1;
    trace =
        w.trace
        ++ call (copy_of p w.free_slot_start src)
          ∷ call
              (Invocation.page_map w.free_slot_start pd vaddr given (frame_attribs p given attribs))
          ∷ [];
  }

  pub map_frame_runs :
      AcceptsMaps p
      → w.free_slot_start + 1 < w.free_slot_end
      → w.free_slot_end < 2 ^ 31
      → map_frame p (cap_ptr o i) page src pd asked attribs vaddr w
        ≡ when
            (is_arm p.arch)
            (clean_frame p page w.free_slot_start given (frame_attribs p given attribs))
            mapped
  unfolding map_frame get_free_slot next_free_slot invoke_checked invoke write_mapped_frame_cap
  map_frame_runs accepts room small =
      let s = w.free_slot_start in
      let once = through_int_small (word_size p) s (omega arith) in
      let wide : s + 1 < 2 ^ word_size p = omega (arith, word_size_of_wide p.arch) in
      simp (
        once,
        accepts.copies w.trace s src,
        wrap_small (2 ^ word_size p) (s + 1) wide,
        lt→leb w.free_slot_end (s + 1) room,
        accepts.maps,
        append_assoc,
      )

  pub page_upkeep :
      (obj : Object) (m : ℕ)
      → AcceptsMaps p
      → get_elem? w.spec.objects page ≡ some obj
      → leb obj.size_bits (word_size p - 1) ≡ true
      → clean_frame p page w.free_slot_start given m mapped
        ≡ ok tt (record mapped {
          trace = mapped.trace ++ upkeep p obj w.free_slot_start given.grant m mapped;
        })
  unfolding obj_paddr
  page_upkeep obj m accepts here fits =
      let s = w.free_slot_start in
      let found = get_elem?-set_mapped_in w.spec.objects o page i s in
      elim (Bool-cases (o == page)) [
        | inl same ↦
            clean_frame-upkeep p page s given m (mapped_object i s obj) mapped accepts.keeps
              (simp (here, same) at found) fits
        | inr other ↦
            clean_frame-upkeep p page s given m obj mapped accepts.keeps
              (simp (here, other) at found) fits
      ]
