-- ===== src/Loader/Phases/Basics.antt =====
-- The effects that setting up may have, and of the helpers, the boot information and the loader's own caps.
use capdl.Base.{ℕ, zero, suc, ◌+◌, ◌≡◌, refl, Bool, true, false, List, [], ◌∷◌, if◌then◌else◌}
use capdl.Spec.{CapData, Object, UntypedDerivation}
use capdl.Platform.{Platform, BootInfo, UntypedDesc}
use capdl.Platform.Calls.{Invocation, Effect, call}
use capdl.Exec.{World, Exec, when}
use capdl.Exec.Emits.{
  Emits, Emits-pure, Emits-if, Emits-modify, Emits-bind, Emits-stop, emits_rules,
}
use capdl.Loader.Slots.{
  get_free_slot, next_free_slot, orig_caps, dup_caps, irq_caps, sched_ctrl_caps, CapTable,
  write_table, add_sel4_cap, get_spec_object, get_cap_data,
}
use capdl.Loader.Bootinfo.{
  UntypedScan, set_untyped_cptr, scan_untypeds, match_untypeds, parse_bootinfo, init_copy_addr,
  cache_headers, cache_extended_bootinfo_headers, init_copy_frame,
}
use capdl.Loader.Caps.{
  irq_control_call, create_irq_cap, for_irqs, irq_object, create_irq_caps, mint_cap, duplicate_call,
  duplicate_cap, for_objects, duplicate_caps, create_sched_ctrl_caps,
}

-- An effect that setting up the system may have. Registers are written with a flag that says whether the
-- thread is resumed then and there.
abbrev pub IsSetup : Effect → Type 0
IsSetup (call (Invocation.tcb_resume _)) = ⊥
IsSetup (call (Invocation.tcb_suspend _)) = ⊥
IsSetup (call (Invocation.tcb_write_registers _ true _ _ _)) = ⊥
IsSetup (call (Invocation.cnode_mutate _ _ _ _ _ _ _)) = ⊥
IsSetup _ = Unit

abbrev pub Setup : {A : Type 0} → Exec A → Type 0
Setup m = Emits IsSetup m

pub Setup-when : (b : Bool) (m : Exec (Unit {0})) → Setup m → Setup (when b m)
Setup-when true m h = h
Setup-when false m h = Emits-pure tt

trace-write_table : (t : CapTable) (i v : ℕ) (w : World) → (write_table t i v w).trace ≡ w.trace
unfolding write_table
trace-write_table CapTable.orig i v w = refl
trace-write_table CapTable.dup i v w = refl
trace-write_table CapTable.irq i v w = refl
trace-write_table CapTable.sched_ctrl i v w = refl

IsSetup-if :
    (b : Bool) (x y : Invocation)
    → IsSetup (call x)
    → IsSetup (call y)
    → IsSetup (call (if b then x else y))
IsSetup-if true x y hx hy = hx
IsSetup-if false x y hx hy = hy

pub Setup-get_free_slot : Setup get_free_slot
unfolding get_free_slot
Setup-get_free_slot = search emits_rules

module _ (p : Platform) where
  pub Setup-next_free_slot : Setup (next_free_slot p)
  unfolding next_free_slot
  Setup-next_free_slot = search (emits_rules, Emits-modify)

  pub Setup-orig_caps : (i : ℕ) → Setup (orig_caps p i)
  unfolding orig_caps
  Setup-orig_caps i = search emits_rules

  pub Setup-dup_caps : (i : ℕ) → Setup (dup_caps p i)
  unfolding dup_caps
  Setup-dup_caps i = search emits_rules

  pub Setup-irq_caps : (i : ℕ) → Setup (irq_caps p i)
  unfolding irq_caps
  Setup-irq_caps i = search emits_rules

  pub Setup-sched_ctrl_caps : (i : ℕ) → Setup (sched_ctrl_caps p i)
  unfolding sched_ctrl_caps
  Setup-sched_ctrl_caps i = search emits_rules

  pub Setup-get_cap_data : (d : CapData) → Setup (get_cap_data p d)
  unfolding get_cap_data
  Setup-get_cap_data d = search emits_rules depth 8

  pub Setup-add_sel4_cap : (i : ℕ) (t : CapTable) (v : ℕ) → Setup (add_sel4_cap p i t v)
  unfolding add_sel4_cap
  Setup-add_sel4_cap i t v = search (emits_rules, Emits-modify, trace-write_table)

pub Setup-get_spec_object : (i : ℕ) → Setup (get_spec_object i)
unfolding get_spec_object
Setup-get_spec_object i = search emits_rules

pub ruleset basic_rules = (
  emits_rules, Setup-when, Setup-get_free_slot, Setup-next_free_slot, Setup-orig_caps,
  Setup-dup_caps, Setup-irq_caps, Setup-sched_ctrl_caps, Setup-get_cap_data, Setup-add_sel4_cap,
  Setup-get_spec_object,
)

module _ (p : Platform) where
  pub Setup-mint_cap : (o f b : ℕ) → Setup (mint_cap p o f b)
  unfolding mint_cap
  Setup-mint_cap o f b = search (basic_rules, tt)

  pub Setup-duplicate_cap : (o f : ℕ) → Setup (duplicate_cap p o f)
  unfolding duplicate_cap duplicate_call
  Setup-duplicate_cap o f = search (basic_rules, tt)

  pub Setup-for_objects :
      (body : ℕ → Object → Exec (Unit {0}))
      → ((i : ℕ) (o : Object) → Setup (body i o))
      → Setup (for_objects p body)
  unfolding for_objects
  Setup-for_objects body h = search (basic_rules, h)

  pub Setup-for_irqs :
      (body : ℕ → Exec (Unit {0})) → ((i : ℕ) → Setup (body i)) → Setup (for_irqs p body)
  unfolding for_irqs
  Setup-for_irqs body h = search (basic_rules, h) depth 9

  pub Setup-irq_object : (i : ℕ) → Setup (irq_object p i)
  unfolding irq_object
  Setup-irq_object i = search basic_rules

  IsSetup-irq_control_call : (o : Object) (i j : ℕ) → IsSetup (call (irq_control_call p o i j))
  unfolding irq_control_call
  IsSetup-irq_control_call o i j = search (IsSetup-if, tt)

  Setup-create_irq_cap : (i : ℕ) (o : Object) (f : ℕ) → Setup (create_irq_cap p i o f)
  unfolding create_irq_cap
  Setup-create_irq_cap i o f = search (basic_rules, IsSetup-irq_control_call)

  pub Setup-create_irq_caps : Setup (create_irq_caps p)
  unfolding create_irq_caps
  Setup-create_irq_caps =
      search (basic_rules, Setup-for_irqs, Setup-irq_object, Setup-create_irq_cap)

  pub Setup-duplicate_caps : Setup (duplicate_caps p)
  unfolding duplicate_caps
  Setup-duplicate_caps = search (basic_rules, Setup-for_objects, Setup-duplicate_cap)

  pub Setup-create_sched_ctrl_caps : (bi : BootInfo) → Setup (create_sched_ctrl_caps p bi)
  unfolding create_sched_ctrl_caps
  Setup-create_sched_ctrl_caps bi = search basic_rules

module _ (p : Platform) (bi : BootInfo) where
  Setup-set_untyped_cptr : (u i : ℕ) → Setup (set_untyped_cptr p bi u i)
  unfolding set_untyped_cptr
  Setup-set_untyped_cptr u i = search (basic_rules, Emits-modify)

  Setup-scan_untypeds :
      (u : ℕ) (o : Object) (rounds i : ℕ) (us : List UntypedDesc) (s : UntypedScan)
      → Setup (scan_untypeds p bi u o rounds i us s)
  unfolding scan_untypeds
  Setup-scan_untypeds u o zero i us s = search basic_rules
  Setup-scan_untypeds u o (suc rounds) i [] s = search basic_rules
  Setup-scan_untypeds u o (suc rounds) i (d ∷ rest) s =
      search (basic_rules, Setup-set_untyped_cptr, Setup-scan_untypeds u o rounds (i + 1) rest)
        depth 9

  Setup-match_untypeds :
      (u start : ℕ) (us : List UntypedDerivation) → Setup (match_untypeds p bi u start us)
  unfolding match_untypeds
  Setup-match_untypeds u start [] = search basic_rules
  Setup-match_untypeds u start (d ∷ rest) =
      let again : (n : ℕ) → Setup (match_untypeds p bi (u + 1) n rest) =
        λ n. Setup-match_untypeds (u + 1) n rest in
      search (basic_rules, Setup-scan_untypeds, again) depth 9

  pub Setup-parse_bootinfo : Setup (parse_bootinfo p bi)
  unfolding parse_bootinfo
  Setup-parse_bootinfo = search (basic_rules, Emits-modify, Setup-match_untypeds) depth 12

  pub Setup-init_copy_addr : Setup (init_copy_addr p bi)
  unfolding init_copy_addr
  Setup-init_copy_addr = search (basic_rules, Emits-modify)

  Setup-cache_headers : (fuel cur end : ℕ) → Setup (cache_headers p bi fuel cur end)
  unfolding cache_headers
  Setup-cache_headers zero cur end = search basic_rules
  Setup-cache_headers (suc fuel) cur end =
      let again : (c : ℕ) → Setup (cache_headers p bi fuel c end) =
        λ c. Setup-cache_headers fuel c end in
      search (basic_rules, Emits-modify, again) depth 9

  pub Setup-cache_extended_bootinfo_headers :
      (fuel : ℕ) → Setup (cache_extended_bootinfo_headers p bi fuel)
  unfolding cache_extended_bootinfo_headers
  Setup-cache_extended_bootinfo_headers fuel = search (basic_rules, Setup-cache_headers)

  pub Setup-init_copy_frame : Setup (init_copy_frame p bi)
  unfolding init_copy_frame
  Setup-init_copy_frame = search (basic_rules, tt)
