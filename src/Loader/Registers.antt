-- ===== src/Loader/Registers.antt =====
-- `configure_tcb` and `init_tcbs` of main.c: the arguments of a new thread, on its stack and in its
-- registers.
pub mod Stack
use capdl.Base.{
  ℕ, zero, suc, ◌+◌, ◌-◌, ◌*◌, ◌/◌, ◌%◌, ◌^◌, false, not, ◌&&◌, List, [], ◌∷◌, get_elem?, ltb, ◌==◌,
  if◌then◌else◌,
}
use capdl.Base.Words.{wrap_sub, u32}
use capdl.Spec.{TcbExtraInfo, Object}
use capdl.Spec.Types.{ObjectType, is_type}
use capdl.Spec.Access.{tcb_vtable_slot}
use capdl.Platform.{Platform, Arch, word_size, word_bytes, is_arm}
use capdl.Platform.Calls.{Invocation, Effect}
use capdl.Exec.{Stop, Exec, pure, ◌>>=◌, ◌>>◌, stop, when, fatal_if, deref, effect, invoke_checked}
use capdl.Loader.Slots.{dup_caps, get_spec_object}
use Prim.Native.Nat.{bit_or}
use capdl.Loader.Lookup.{get_cap_at, get_frame_cap}
use capdl.Loader.Caps.{for_objects}
use capdl.Loader.Tcb.{init_tcb}

-- STACK_ALIGNMENT_BYTES
abbrev pub stack_alignment_bytes : ℕ
stack_alignment_bytes = 16

module _ (p : Platform) where
  -- the number of arguments that the architecture passes in registers
  unfoldable pub reg_args : ℕ
  reg_args = elim p.arch [ Arch.ia32 ↦ if p.cc_registers then 4 else 0 | _ ↦ 4 ]

  -- init_sz as an `int`; every use treats a negative number as it does 0
  unfoldable pub arg_count : TcbExtraInfo → ℕ
  arg_count extra = let n = u32 extra.init_sz in if ltb n (2 ^ 31) then n else 0

  -- the stack pointer after the padding that goes before the stack arguments
  unfoldable pub pad_stack : (num_stack_args sp : ℕ) → ℕ
  pad_stack num_stack_args sp =
      let args_per_alignment = stack_alignment_bytes / word_bytes p in
      let num_unaligned_args = num_stack_args % args_per_alignment in
      let num_padding_args = args_per_alignment - num_unaligned_args in
      if num_unaligned_args == 0
      then sp
      else wrap_sub (word_size p) sp (num_padding_args * word_bytes p)

  -- for (i = argc - 1; i >= reg_args; i--): `left` is i + 1 - reg_args
  unfoldable pub write_args : (argc : ℕ) → List ℕ → (left sp : ℕ) → Exec ℕ
  write_args argc argv zero sp = pure sp
  write_args argc argv (suc left) sp = do
    let i = reg_args + left
    fatal_if (not (i == argc - 1) && sp % 4096 == 0)
    let sp' = wrap_sub (word_size p) sp (word_bytes p)
    arg ← deref (get_elem? argv i)
    effect (Effect.store (p.copy_addr_with_pt + sp' % 4096) arg)
    write_args argc argv left sp'

  -- the stack arguments, through a mapping of the stack's frame in the loader
  unfoldable pub write_stack_args : Object → (argc sp : ℕ) → Exec ℕ
  unfolding pad_stack write_args
  write_stack_args cdl_tcb argc sp = do
    cdl_vspace_root ← deref (get_cap_at cdl_tcb tcb_vtable_slot)
    let padded = pad_stack (argc - reg_args) sp
    frame ← get_frame_cap p (wrap_sub (word_size p) padded (word_bytes p)) cdl_vspace_root.obj_id
    let attribs =
        if is_arm p.arch
        then bit_or p.default_vm_attributes p.execute_never
        else p.default_vm_attributes
    invoke_checked p
        (Invocation.page_map frame p.cap_init_thread_pd p.copy_addr_with_pt p.read_write attribs)
    sp' ← write_args argc cdl_tcb.tcb_extra.init (argc - reg_args) padded
    when (is_arm p.arch) (invoke_checked p (Invocation.page_unify_instruction frame 0 4096))
    invoke_checked p (Invocation.page_unmap frame)
    pure sp'

  -- argc > k ? argv[k] : 0
  unfoldable pub arg_or_zero : (argc : ℕ) → List ℕ → (k : ℕ) → Exec ℕ
  arg_or_zero argc argv k = if ltb k argc then deref (get_elem? argv k) else pure 0

  unfoldable pub four_args : (argc : ℕ) → List ℕ → (a b c d : ℕ) → Exec (List ℕ)
  unfolding arg_or_zero
  four_args argc argv a b c d = do
    x ← arg_or_zero argc argv a
    y ← arg_or_zero argc argv b
    z ← arg_or_zero argc argv c
    u ← arg_or_zero argc argv d
    pure (x ∷ y ∷ z ∷ u ∷ [])

  -- the argument registers, in the order of the initialiser: eax, ebx, ecx and edx on ia32
  unfoldable pub register_args_on : Arch → (argc : ℕ) → List ℕ → Exec (List ℕ)
  unfolding four_args
  register_args_on Arch.ia32 argc argv =
      if p.cc_registers then four_args argc argv 2 3 0 1 else pure []
  register_args_on _ argc argv = four_args argc argv 0 1 2 3

  unfoldable pub register_args : (argc : ℕ) → List ℕ → Exec (List ℕ)
  unfolding register_args_on
  register_args = register_args_on p.arch

  unfoldable pub configure_tcb : (tcb : ℕ) → Exec (Unit {0})
  unfolding write_stack_args register_args
  configure_tcb tcb = do
    sel4_tcb ← dup_caps p tcb
    cdl_tcb ← get_spec_object tcb
    let extra = cdl_tcb.tcb_extra
    let argc = arg_count extra
    fatal_if (not (extra.sp % (word_bytes p * 2) == 0))
    let stacked = if p.cc_registers then stop Stop.fatal else write_stack_args cdl_tcb argc extra.sp
    sp ← if ltb reg_args argc then stacked else pure extra.sp
    args ← register_args argc extra.init
    invoke_checked p (
        Invocation.tcb_write_registers sel4_tcb false 0 p.user_context_words
          (record { pc = extra.pc; sp = sp; args = args }))
    invoke_checked p (Invocation.domain_set p.cap_domain extra.domain sel4_tcb)

  unfoldable pub init_tcbs : Exec (Unit {0})
  unfolding configure_tcb
  init_tcbs = for_objects p (λ obj_id obj.
      when (is_type obj.type ObjectType.tcb) (do init_tcb p obj_id; configure_tcb obj_id))
