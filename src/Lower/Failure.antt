-- ===== src/Lower/Failure.antt =====
-- The failures of the lowering (src/l0_core/ir/lower_to_chunk.cpp).
use niki.Prelude.{
  leb, ℕ, zero, suc, ◌+◌, ◌-◌, ◌<◌, ◌≤◌, ◌≡◌, ◌≢◌, refl, sym, ap, ◌∙◌, ◌⊎◌, inl, inr, true, false,
  List, [], ◌∷◌, ◌++◌, none, some, arith, ltb, length, get_elem?, if◌then◌else◌,
}
use niki.Linker.Link.{Chunk}
use niki.Pool.Mapped.{lookup}
use niki.Semantic.Namespace.{module_ids}
use niki.Opcode.Code.{to_int, op_jnz}
use niki.Ir.Module.{ModuleIr}
use niki.Object.Value.{Heap, ObjFunction}
use niki.Bytecode.Stream.{try_read_byte}
use niki.Vm.Fetch.{jump_from, read_and_jump, try_jump_forward}
use niki.Lower.Writer.{LowerError, Result, ok, err, ◌>>=◌, PendingJumpPatch}
use niki.Lower.Function.{
  backward_opcode, write_patch, apply_patch, lower_function_to_chunk, lower_functions,
  lower_module_to_chunk, in_function,
}
use niki.Lower.Emit.{Ensures-ok}
use niki.Lower.Patch.{IsRewritten, write_patch-IsRewritten}

-- The first failure: the functions before it were lowered, and the result is its error with its number.
-- Behaviour that is undefined has no error: it stays undefined, without a number.
pub record FailsAt (unit : ModuleIr) (heap : Heap) (first rounds : ℕ) (functions : List ObjFunction)
    (e : LowerError) : Type 0 where
  pub before : ℕ
  pub inside : before < rounds
  pub reached : Heap
  pub lowered : List ObjFunction
  pub prefix : lower_functions before first unit heap functions ≡ ok (reached, lowered)
  pub number : ℕ
  pub numbered : number ≡ first + before
  pub cause : LowerError
  pub fails : lower_function_to_chunk unit number reached ≡ err cause
  pub reported :
      ((cause ≡ LowerError.undefined) × (e ≡ LowerError.undefined))
      ⊎ ((cause ≢ LowerError.undefined) × (e ≡ LowerError.function_failed number cause))

Result-cases :
    {A : Type 0} (m : Result A) → ((a : A) × (m ≡ ok a)) ⊎ ((e : LowerError) × (m ≡ err e))
Result-cases (ok a) = inl (a, refl)
Result-cases (err e) = inr (e, refl)

jnz_stays : backward_opcode op_jnz ≡ op_jnz
unfolding backward_opcode
jnz_stays = refl

error_of :
    {A B : Type 0} (i : ℕ) (cause : LowerError) (f : A → Result B) (e : LowerError)
    → (in_function i (err cause) >>= f) ≡ err e
    → ((cause ≡ LowerError.undefined) × (e ≡ LowerError.undefined))
      ⊎ ((cause ≢ LowerError.undefined) × (e ≡ LowerError.function_failed i cause))
error_of i LowerError.undefined f e h = inl (refl, cc)
error_of i (LowerError.message m) f e h = inr (λ w. cc, cc)
error_of i (LowerError.not_runnable m) f e h = inr (λ w. cc, cc)
error_of i (LowerError.function_failed j m) f e h = inr (λ w. cc, cc)

lower_functions-FailsAt :
    (rounds i : ℕ) (unit : ModuleIr) (heap : Heap) (functions : List ObjFunction) (e : LowerError)
    → lower_functions rounds i unit heap functions ≡ err e
    → FailsAt unit heap i rounds functions e
unfolding lower_functions
lower_functions-FailsAt zero i unit heap functions e h = cc
lower_functions-FailsAt (suc rounds) i unit heap functions e h =
    elim (Result-cases (lower_function_to_chunk unit i heap)) [
      | inl ((next, function), p) ↦
          let r =
            lower_functions-FailsAt rounds (i + 1) unit next (functions ++ function ∷ []) e
              (rw p at h) in
          record {
            before = suc r.before;
            inside = omega (arith, r.inside);
            reached = r.reached;
            lowered = r.lowered;
            prefix = rw p r.prefix;
            number = r.number;
            numbered = omega (arith, r.numbered);
            cause = r.cause;
            fails = r.fails;
            reported = r.reported;
          }
      | inr (cause, p) ↦ record {
        before = 0;
        inside = omega arith;
        reached = heap;
        lowered = functions;
        prefix = refl;
        number = i;
        numbered = omega arith;
        cause = cause;
        fails = p;
        reported = error_of i cause _ e (rw p at h);
      }
    ]

-- If a module fails, then the functions before some index were lowered, the function at that index fails,
-- and the failure of the module is that failure with the index; where the behaviour of that function is
-- undefined, that of the module is.
pub lower_module_to_chunk-FailsAt :
    (unit : ModuleIr) (heap : Heap) (e : LowerError)
    → lower_module_to_chunk unit heap ≡ err e
    → FailsAt unit heap 0 (length unit.funcs) [] e
unfolding lower_module_to_chunk
lower_module_to_chunk-FailsAt unit heap e h =
    lower_functions-FailsAt (length unit.funcs) 0 unit heap [] e h

-- The patch of a conditional jump to an earlier place keeps the opcode.
back_patch :
    {V : Type 0} (entries : List (ℕ × ℕ)) (patch : PendingJumpPatch) (chunk : Chunk V) (target : ℕ)
    → patch.original_opcode ≡ op_jnz
    → lookup patch.target_block_id entries ≡ some target
    → target < patch.offset_base_code_index
    → apply_patch entries patch chunk
      ≡ write_patch patch op_jnz (patch.offset_base_code_index - target) chunk
unfolding apply_patch
back_patch entries patch chunk target jnz found before =
    let test : ltb target patch.offset_base_code_index ≡ true = ground arith in
    let stays : backward_opcode patch.original_opcode ≡ op_jnz =
      ap backward_opcode jnz ∙ jnz_stays in
    rw (apply_patch, found, test, stays) refl

forward_misses :
    {V : Type 0} (chunk next : Chunk V) (site offset target : ℕ)
    → IsRewritten chunk site 2 op_jnz offset next
    → site + 4 ≤ length chunk.code
    → target < site + 4 + offset
    → jump_from op_jnz next.code (site + 1) ≢ some target
unfolding jump_from try_jump_forward try_read_byte read_and_jump
forward_misses chunk next site offset target s room far e =
    let present : leb (length next.code) (site + 1) ≡ false = ground (arith, s.size) in
    let behind : site + 1 + 1 ≡ site + 2 = omega arith in
    let jump : (if ltb (length next.code) (site + 2 + 2 + offset)
          then none
          else some (site + 2 + 2 + offset))
        ≡ some target =
      sym (rw (jump_from, present, behind) (rw (s.operand, read_and_jump) refl)) ∙ e in
    ground (arith, jump)

-- The patch of a conditional jump at `site`, inside the code, whose block is at an earlier place keeps the
-- opcode `OP_JNZ`, and a jump of the machine from there does not land on that block.
pub backward_branch :
    {V : Type 0} (site target : ℕ) (entries : List (ℕ × ℕ)) (patch : PendingJumpPatch)
    (chunk next : Chunk V)
    → patch.original_opcode ≡ op_jnz
    → patch.opcode_off_back ≡ 2
    → patch.offset_u16_code_index ≡ site + 2
    → patch.offset_base_code_index ≡ site + 4
    → site + 4 ≤ length chunk.code
    → lookup patch.target_block_id entries ≡ some target
    → target < site + 4
    → apply_patch entries patch chunk ≡ ok next
    → (get_elem? next.code site ≡ some (to_int op_jnz))
      × (jump_from op_jnz next.code (site + 1) ≢ some target)
backward_branch site target entries patch chunk next jnz two place base room found back done =
    let offset = patch.offset_base_code_index - target in
    let s =
      Ensures-ok (IsRewritten chunk site 2 op_jnz offset) (write_patch patch op_jnz offset chunk)
        next (sym (back_patch entries patch chunk target jnz found (omega arith)) ∙ done)
        (write_patch-IsRewritten site 2 patch op_jnz offset chunk two place (omega arith)
          (omega arith)) in
    (s.opcode, λ e. forward_misses chunk next site offset target s room (omega arith) e)
