-- ===== src/Loader/Vspace/Maps.antt =====
-- `map_page` of main.c by the type of the cap that it maps.
use capdl.Base.{
  ℕ, ◌+◌, ◌-◌, ◌<◌, ◌^◌, ◌≡◌, refl, ap, ◌∙◌, true, false, some, [], ◌∷◌, ◌++◌, get_elem?, leb,
  arith, Bool-cases, inl, inr, lt→ltb,
}
use capdl.Spec.{CapSlot, Object}
use capdl.Spec.Types.{CapType, is_cap_type}
use capdl.Spec.Access.{CapRights}
use capdl.Platform.{Platform, word_size, is_arm}
use capdl.Platform.Calls.{Invocation, call}
use capdl.Exec.{World, Stop, ok, halt, invoke, invoke_checked}
use capdl.Loader.Slots.{get_spec_object, orig_caps}
use capdl.Loader.Vspace.{cap_ptr, writeable_rights, frame_attribs, map_frame, map_page, read_slot}
use capdl.Loader.Vspace.Mapped.{set_mapped_in-IsNoted}
use capdl.Loader.Vspace.Upkeep.{upkeep}
use capdl.Loader.Vspace.Copied.{
  AcceptsMaps, MapsCopy, given, mapped, readable_rights-IsGiven, frame_attribs-IsWith,
  map_frame_runs, page_upkeep,
}

module _ (p : Platform) (o i page src pd : ℕ) (asked : CapRights) (attribs vaddr : ℕ)
    (w : World) where
  abbrev rights : CapRights
  rights = given p o i page src pd (writeable_rights p asked) attribs vaddr w

  abbrev with_attribs : ℕ
  with_attribs = frame_attribs p rights attribs

  abbrev noted : World
  noted = mapped p o i page src pd (writeable_rights p asked) attribs vaddr w

  map_frame-MapsCopy :
      (obj : Object)
      → AcceptsMaps p
      → get_elem? w.spec.objects page ≡ some obj
      → leb obj.size_bits (word_size p - 1) ≡ true
      → w.free_slot_start + 1 < w.free_slot_end
      → w.free_slot_end < 2 ^ 31
      → (v : World) × (map_frame p
            (cap_ptr o i)
            page
            src
            pd
            (writeable_rights p asked)
            attribs
            vaddr
            w
          ≡ ok tt v)
        × MapsCopy p o i src pd obj asked attribs vaddr w v
  map_frame-MapsCopy obj accepts here fits room small =
      let runs =
        map_frame_runs p o i page src pd (writeable_rights p asked) attribs vaddr w accepts room
          small in
      let kept =
        page_upkeep p o i page src pd (writeable_rights p asked) attribs vaddr w obj with_attribs
          accepts here fits in
      let is_given = readable_rights-IsGiven p asked in
      let is_with = frame_attribs-IsWith p rights attribs asked.grant is_given.same_grant in
      elim (Bool-cases (is_arm p.arch)) [
        | inl arm ↦ (
          record noted {
            trace = noted.trace ++ upkeep p obj w.free_slot_start rights.grant with_attribs noted;
          },
          runs ∙ simp arm kept,
          record {
            rights = rights;
            attribs = with_attribs;
            rights_given = is_given;
            attribs_given = is_with;
            calls = _;
            is_calls = refl;
            trace_arm = λ _.
                ap (λ g. noted.trace ++ upkeep p obj w.free_slot_start g with_attribs noted)
                  is_given.same_grant;
            trace_others = λ other. cc;
            noted = set_mapped_in-IsNoted w.spec.objects o i w.free_slot_start;
            rest = refl;
          },
        )
        | inr other ↦ (
          noted,
          runs ∙ simp other,
          record {
            rights = rights;
            attribs = with_attribs;
            rights_given = is_given;
            attribs_given = is_with;
            calls = _;
            is_calls = refl;
            trace_arm = λ arm. cc;
            trace_others = λ _. refl;
            noted = set_mapped_in-IsNoted w.spec.objects o i w.free_slot_start;
            rest = refl;
          },
        )
      ]

frame-table_apart :
    (t : CapType) → is_cap_type t CapType.frame_cap ≡ true → is_cap_type t CapType.pt_cap ≡ false
unfolding is_cap_type
frame-table_apart t h = ground arith

-- What `map_page` does with the cap in entry `i` of object `o`, where the kernel accepts the calls, the
-- tables have entries for the object of the cap and for the address space, the size of that object is
-- within the word, another slot is free and the slots are below 2 ^ 31. It succeeds for a frame, which
-- it maps by a copy of the cap of its own, as `MapsCopy` says; it succeeds for a page table, which it maps
-- by the original cap and nothing else; a cap to anything else stops the loader before it has any effect.
pub map_page_lem :
    (p : Platform) (o i pd_id : ℕ) (asked : CapRights) (vaddr : ℕ) (w : World)
    (holder page : Object) (s : CapSlot)
    → AcceptsMaps p
    → get_elem? w.spec.objects o ≡ some holder
    → get_elem? holder.slots i ≡ some s
    → s.cap.obj_id < p.max_objects
    → pd_id < p.max_objects
    → get_elem? w.spec.objects s.cap.obj_id ≡ some page
    → leb page.size_bits (word_size p - 1) ≡ true
    → w.free_slot_start + 1 < w.free_slot_end
    → w.free_slot_end < 2 ^ 31
    → (is_cap_type s.cap.type CapType.frame_cap ≡ true
        → (v : World) × (map_page p (cap_ptr o i) pd_id asked vaddr w ≡ ok tt v)
          × MapsCopy p o i
              (w.capdl_to_sel4_orig s.cap.obj_id)
              (w.capdl_to_sel4_orig pd_id)
              page
              asked
              s.cap.vm_attribs
              vaddr
              w
              v)
      × (is_cap_type s.cap.type CapType.pt_cap ≡ true
          → map_page p (cap_ptr o i) pd_id asked vaddr w
            ≡ ok tt (record w {
              trace =
                  w.trace
                  ++ call (
                      Invocation.page_table_map
                        (w.capdl_to_sel4_orig s.cap.obj_id)
                        (w.capdl_to_sel4_orig pd_id)
                        vaddr
                        s.cap.vm_attribs)
                    ∷ [];
            }))
      × (is_cap_type s.cap.type CapType.frame_cap ≡ false
          → is_cap_type s.cap.type CapType.pt_cap ≡ false
          → map_page p (cap_ptr o i) pd_id asked vaddr w ≡ halt Stop.fatal w)
unfolding map_page read_slot get_spec_object orig_caps invoke_checked invoke
map_page_lem p o i pd_id asked vaddr w holder page s accepts held at obj_small pd_small here fits
      room small =
    let src = w.capdl_to_sel4_orig s.cap.obj_id in
    let pd = w.capdl_to_sel4_orig pd_id in
    let one = lt→ltb s.cap.obj_id p.max_objects obj_small in
    let two = lt→ltb pd_id p.max_objects pd_small in
    let mapping =
      map_frame-MapsCopy p o i s.cap.obj_id src pd asked s.cap.vm_attribs vaddr w page accepts here
        fits room small in
    (
      λ frame. (
        mapping.0,
        simp (held, at, one, two, frame, frame-table_apart s.cap.type frame) mapping.1,
        mapping.2,
      ),
      λ table. simp (held, at, one, two, table, accepts.tables),
      λ no_frame no_table. simp (held, at, one, two, no_frame, no_table),
    )
