-- ===== src/Loader/Phases/Spaces.antt =====
-- The effects of setting up the address spaces and the CNodes.
use mathlib.Core.Bool.{or-true}
use capdl.Base.{ℕ, ◌≡◌, true}
use capdl.Base.Words.{through_int}
use capdl.Spec.{Cap, CapSlot}
use capdl.Spec.Access.{CapRights}
use capdl.Platform.{Platform, word_size}
use capdl.Exec.{Exec, ◌>>=◌}
use capdl.Exec.Reads.{Emits-Reads, Returns-Reads}
use capdl.Loader.Cspace.Source.{Reads-cnode_source, Reads-mapped_frame_slot}
use capdl.Exec.Emits.{Emits-bind-Returns, Emits-modify, Emits-if, Emits-pure, Emits-invoke_checked}
use capdl.Loader.Vspace.{
  CapPtr, read_slot, write_mapped_frame_cap, clean_frame, map_frame, map_page, init_level_3,
  init_slot, init_level_2, init_level_1, init_level_0,
}
use capdl.Loader.Vspace.Legacy.{
  map_page_directory_slot, map_page_directory, map_page_table_slot, map_page_table_slots,
  map_page_directory_page_tables, init_top_level, init_vspace,
}
use capdl.Loader.Cspace.{
  move_to, CnodeMode, CnodeSource, Dest, dest_at, cnode_source, mapped_frame_slot, move_slot,
  copy_slot, install, init_cnode_slot, init_cnode, init_cspace,
}
use capdl.Loader.Phases.Basics.{Setup, Setup-for_objects, basic_rules}

Setup-read_slot : (c : CapPtr) → Setup (read_slot c)
unfolding read_slot
Setup-read_slot c = search basic_rules

Setup-write_mapped_frame_cap : (c : CapPtr) (v : ℕ) → Setup (write_mapped_frame_cap c v)
unfolding write_mapped_frame_cap
Setup-write_mapped_frame_cap c v = search Emits-modify

module _ (p : Platform) where
  Setup-clean_frame : (o s : ℕ) (r : CapRights) (a : ℕ) → Setup (clean_frame p o s r a)
  unfolding clean_frame
  Setup-clean_frame o s r a = search basic_rules depth 12

  Setup-map_frame :
      (c : CapPtr) (o s d : ℕ) (r : CapRights) (a v : ℕ) → Setup (map_frame p c o s d r a v)
  unfolding map_frame
  Setup-map_frame c o s d r a v =
      search (basic_rules, Setup-clean_frame, Setup-write_mapped_frame_cap, tt) depth 16

  Setup-map_page : (c : CapPtr) (d : ℕ) (r : CapRights) (v : ℕ) → Setup (map_page p c d r v)
  unfolding map_page
  Setup-map_page c d r v = search (basic_rules, Setup-read_slot, Setup-map_frame, tt) depth 12

  Setup-init_level_3 : (top base o : ℕ) → Setup (init_level_3 p top base o)
  unfolding init_level_3
  Setup-init_level_3 top base o = search (basic_rules, Setup-read_slot, Setup-map_page) depth 9

  Setup-init_slot :
      (l top : ℕ) (c : CapPtr) (cap : Cap) (base : ℕ) (next : ℕ → ℕ → ℕ → Exec (Unit {0}))
      → ((a b o : ℕ) → Setup (next a b o))
      → Setup (init_slot p l top c cap base next)
  unfolding init_slot
  Setup-init_slot l top c cap base next h = search (basic_rules, Setup-map_page, h, tt) depth 12

  Setup-init_level_2 : (top base o : ℕ) → Setup (init_level_2 p top base o)
  unfolding init_level_2
  Setup-init_level_2 top base o =
      search (basic_rules, Setup-read_slot, Setup-init_slot, Setup-init_level_3) depth 9

  Setup-init_level_1 : (top base o : ℕ) → Setup (init_level_1 p top base o)
  unfolding init_level_1
  Setup-init_level_1 top base o =
      search (basic_rules, Setup-read_slot, Setup-init_slot, Setup-init_level_2) depth 9

  Setup-init_level_0 : (top base : ℕ) → Setup (init_level_0 p top base)
  unfolding init_level_0
  Setup-init_level_0 top base = search (basic_rules, Setup-read_slot, Setup-init_level_1) depth 14

  Setup-map_page_directory : (d : ℕ) → Setup (map_page_directory p d)
  unfolding map_page_directory map_page_directory_slot
  Setup-map_page_directory d = search (basic_rules, Setup-read_slot, Setup-map_page) depth 12

  Setup-map_page_table_slot : (d t v i : ℕ) → Setup (map_page_table_slot p d t v i)
  unfolding map_page_table_slot
  Setup-map_page_table_slot d t v i = search (basic_rules, Setup-read_slot, Setup-map_page)

  Setup-map_page_directory_page_tables : (d : ℕ) → Setup (map_page_directory_page_tables p d)
  unfolding map_page_directory_page_tables map_page_table_slots
  Setup-map_page_directory_page_tables d =
      search (basic_rules, Setup-read_slot, Setup-map_page_table_slot) depth 14

  Setup-init_top_level : (o : ℕ) → Setup (init_top_level p o)
  unfolding init_top_level
  Setup-init_top_level o =
      search (basic_rules, Setup-init_level_0, Setup-init_level_1, Setup-init_level_2) depth 9

  pub Setup-init_vspace : Setup (init_vspace p)
  unfolding init_vspace
  Setup-init_vspace =
      search
        (
          basic_rules, Setup-for_objects, Setup-init_top_level, Setup-map_page_directory,
          Setup-map_page_directory_page_tables,
        )
        depth 9

module _ (p : Platform) where
  Setup-move_slot :
      (d : Dest) (cap : Cap) (s : CnodeSource)
      → s.is_irq_handler_cap ≡ true
      → Setup (move_slot p d cap s)
  unfolding move_slot
  Setup-move_slot d cap s irq =
      simp (irq, or-true) (Emits-invoke_checked p (move_to p d s.src_index) tt)

  Setup-copy_slot : (d : Dest) (cap : Cap) (s : CnodeSource) → Setup (copy_slot p d cap s)
  unfolding copy_slot
  Setup-copy_slot d cap s =
      let from_reads : Setup (mapped_frame_slot p cap) =
        Emits-Reads (mapped_frame_slot p cap) (Reads-mapped_frame_slot p cap) in
      search (basic_rules, from_reads) depth 9

  Setup-install :
      (m : CnodeMode) (d : Dest) (cap : Cap) (s : CnodeSource)
      → (s.move_cap ≡ true → s.is_irq_handler_cap ≡ true)
      → Setup (install p m d cap s)
  unfolding install
  Setup-install CnodeMode.move d cap s irq =
      Emits-if _ _ _ (λ e. Setup-move_slot d cap s (irq e)) (λ _. Emits-pure tt)
  Setup-install CnodeMode.copy d cap s irq =
      Emits-if _ _ _ (λ _. Emits-pure tt) (λ _. Setup-copy_slot d cap s)

  Setup-init_cnode_slot : (m : CnodeMode) (c : ℕ) (s : CapSlot) → Setup (init_cnode_slot p m c s)
  unfolding init_cnode_slot
  Setup-init_cnode_slot m c s =
      let index = through_int (word_size p) s.slot in
      let installing : (given root depth : ℕ)
          → Setup (
              cnode_source p s.cap.type s.cap given >>= λ a.
              install p m (dest_at root index depth) s.cap
                (record a { src_index = through_int (word_size p) a.src_index })) =
        λ given root depth.
          Emits-bind-Returns (cnode_source p s.cap.type s.cap given) _
            (Emits-Reads _ (Reads-cnode_source p s.cap.type s.cap given))
            (Returns-Reads _ (Reads-cnode_source p s.cap.type s.cap given))
            λ a q. Setup-install m (dest_at root index depth) s.cap _ q.1 in
      search (basic_rules, installing)

  Setup-init_cnode : (m : CnodeMode) (c : ℕ) → Setup (init_cnode p m c)
  unfolding init_cnode
  Setup-init_cnode m c = search (basic_rules, Setup-read_slot, Setup-init_cnode_slot)

  pub Setup-init_cspace : Setup (init_cspace p)
  unfolding init_cspace
  Setup-init_cspace = search (basic_rules, Setup-for_objects, Setup-init_cnode) depth 9
