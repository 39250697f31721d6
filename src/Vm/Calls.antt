-- ===== src/Vm/Calls.antt =====
-- A call and the return from it (`OP_CALL` and `OP_RETURN` of src/l0_core/vm/vm.cpp).
use mathlib.Core.Path.{subst}
use niki.Prelude.{
  ℕ, ◌+◌, ◌<◌, ◌≤◌, ◌≡◌, sym, ap, ◌∙◌, ◌⊎◌, inl, inr, not, List, ◌∷◌, Option, some, arith, leb, ltb,
  ◌==◌, length, get_elem?, set, Bool-cases,
}
use niki.Bytecode.Stream.{try_read_byte}
use niki.Object.Value.{Value, Obj, ObjFunction}
use niki.Vm.State.{
  Vm, CallFrame, ok, ◌>>=◌, ◌>>◌, guard, or_fail, read_state, read_byte, get_register, set_register,
  object_of, stack_capacity,
}
use niki.Vm.Control.{
  as_function, callee_slots, depth, push_frame, enter_function, op_call, return_to, pop_frame,
  op_return,
}
use niki.Vm.Sequence.{
  bind-Went, read_byte-moves, get_register-stays, object_of-stays, or_fail-stays, guard-passed,
}

-- What a call leaves: the frame of the caller below that of the callee, and the rest of the state.
record Entered (f : ObjFunction) (base out_reg : ℕ) (vm next : Vm) : Type 0 where
  few : length vm.callers + 1 < 256 ⊎ 256 < length vm.callers + 1
  fits : base + callee_slots f ≤ stack_capacity
  same : next ≡ record vm {
    callers = vm.frame ∷ vm.callers;
    frame = record { function = f; ip = 0; base_register = base; out_register = out_reg };
  }

enter_function-Entered :
    (f : ObjFunction) (out_reg arg_start argc : ℕ) (vm next : Vm)
    → enter_function f out_reg arg_start argc vm ≡ ok tt next
    → Entered f (vm.frame.base_register + arg_start) out_reg vm next
unfolding enter_function push_frame read_state ◌>>=◌
enter_function-Entered f out_reg arg_start argc vm next h =
    let base = vm.frame.base_register + arg_start in
    let (few, h₁) = guard-passed (not (depth vm == 256)) "Stack overflow." _ vm next tt h in
    let (inside, h₂) =
      guard-passed (leb (base + argc) stack_capacity) "Call argument registers out of stack range."
        _ vm next tt h₁ in
    let (fits, h₃) =
      guard-passed (leb (base + callee_slots f) stack_capacity)
        "Callee register window exceeds physical stack." _ vm next tt h₂ in
    record { few = ground arith; fits = ground arith; same = cc }

abbrev with_ip : Vm → ℕ → Vm
with_ip vm ip = record vm { frame = record vm.frame { ip = ip } }

abbrev next_byte : Vm → Vm
next_byte vm = with_ip vm (vm.frame.ip + 1)

-- A call: the byte at its first operand is the register of the result, the frame of the caller stands
-- behind the four operands, and the callee begins at its first byte, with its window in the stack.
record IsCall (vm next : Vm) : Type 0 where
  out_reg : ℕ
  operand : try_read_byte vm.frame.function.chunk.code vm.frame.ip ≡ some (out_reg, vm.frame.ip + 1)
  callers : next.callers ≡ (record vm.frame { ip = vm.frame.ip + 4 }) ∷ vm.callers
  out : next.frame.out_register ≡ out_reg
  begins : next.frame.ip ≡ 0
  fits : next.frame.base_register + callee_slots next.frame.function ≤ stack_capacity
  stack : next.stack ≡ vm.stack

entered-IsCall :
    (vm mid next : Vm) (f : ObjFunction) (base out_reg : ℕ)
    → try_read_byte vm.frame.function.chunk.code vm.frame.ip ≡ some (out_reg, vm.frame.ip + 1)
    → Entered f base out_reg mid next
    → mid ≡ with_ip vm (vm.frame.ip + 4)
    → IsCall vm next
entered-IsCall vm mid next f base out_reg operand e moved = record {
  out_reg = out_reg;
  operand = operand;
  callers = ap (λ v. v.callers) e.same ∙ ap (λ v. v.frame ∷ v.callers) moved;
  out = ap (λ v. v.frame.out_register) e.same;
  begins = ap (λ v. v.frame.ip) e.same;
  fits =
      subst (λ v. v.frame.base_register + callee_slots v.frame.function ≤ stack_capacity)
        (sym e.same) e.fits;
  stack = ap (λ v. v.stack) e.same ∙ ap (λ v. v.stack) moved;
}

-- Four bytes that are read one after the other.
read_byte_four :
    (vm v₁ v₂ v₃ v₄ : Vm) (a b c d : ℕ)
    → read_byte vm ≡ ok a v₁
    → read_byte v₁ ≡ ok b v₂
    → read_byte v₂ ≡ ok c v₃
    → read_byte v₃ ≡ ok d v₄
    → v₄ ≡ with_ip vm (vm.frame.ip + 4)
read_byte_four vm v₁ v₂ v₃ v₄ a b c d e₁ e₂ e₃ e₄ =
    let m₁ = (read_byte-moves vm v₁ a e₁).0 in
    let m₂ = (read_byte-moves v₁ v₂ b e₂).0 in
    let m₃ = (read_byte-moves v₂ v₃ c e₃).0 in
    let m₄ = (read_byte-moves v₃ v₄ d e₄).0 in
    let ip : vm.frame.ip + 1 + 1 + 1 + 1 ≡ vm.frame.ip + 4 = omega arith in
    m₄ ∙ ap next_byte (m₃ ∙ ap next_byte (m₂ ∙ ap next_byte m₁)) ∙ ap (with_ip vm) ip

-- The steps of a call behind its operands.
record EndsCall (vm : Vm) (out_reg arg_start argc : ℕ) (value : Value) (next : Vm) : Type 0 where
  f : ObjFunction
  base : ℕ
  entered : Entered f base out_reg vm next

callee-EndsCall :
    (vm last next : Vm) (out_reg arg_start argc : ℕ) (value : Value) (o : Option Obj)
    → object_of value vm ≡ ok o last
    → (or_fail (as_function o) "Can only call functions" >>= λ f.
          guard (argc == f.arity) "Expected %u arguments, got %u."
          >> enter_function f out_reg arg_start argc)
        last
      ≡ ok tt next
    → EndsCall vm out_reg arg_start argc value next
callee-EndsCall vm last next out_reg arg_start argc value o read h =
    let w = bind-Went (or_fail (as_function o) "Can only call functions") _ last tt next h in
    let g =
      guard-passed (argc == w.value.arity) "Expected %u arguments, got %u." _ w.mid next tt
        w.rest in
    let m = or_fail-stays (as_function o) "Can only call functions" last w.mid w.value w.first in
    let e = enter_function-Entered w.value out_reg arg_start argc w.mid next g.1 in
    let stays = m.0 ∙ object_of-stays value vm last o read in
    record {
      f = w.value;
      base = _;
      entered =
          subst (λ v. Entered w.value (w.mid.frame.base_register + arg_start) out_reg v next) stays
            e;
    }

op_call-IsCall : (vm next : Vm) → op_call vm ≡ ok tt next → IsCall vm next
unfolding op_call
op_call-IsCall vm next h =
    let w₁ = bind-Went read_byte _ vm tt next h in
    let w₂ = bind-Went read_byte _ w₁.mid tt next w₁.rest in
    let w₃ = bind-Went read_byte _ w₂.mid tt next w₂.rest in
    let w₄ = bind-Went read_byte _ w₃.mid tt next w₃.rest in
    let w₅ = bind-Went (get_register w₂.value) _ w₄.mid tt next w₄.rest in
    let w₆ = bind-Went (object_of w₅.value) _ w₅.mid tt next w₅.rest in
    let m₅ = get_register-stays w₂.value w₄.mid w₅.mid w₅.value w₅.first in
    let t =
      callee-EndsCall w₅.mid w₆.mid next w₁.value w₃.value w₄.value w₅.value w₆.value w₆.first
        w₆.rest in
    let moved =
      m₅.0
      ∙ read_byte_four vm w₁.mid w₂.mid w₃.mid w₄.mid w₁.value w₂.value w₃.value w₄.value w₁.first
          w₂.first w₃.first w₄.first in
    entered-IsCall vm w₅.mid next t.f t.base w₁.value
      (read_byte-moves vm w₁.mid w₁.value w₁.first).1 t.entered moved

-- A return to a caller: its frame and those below it are back, and its register has the value of
-- register 0.
record IsReturn (later next : Vm) (caller : CallFrame) (callers : List CallFrame) : Type 0 where
  frame : next.frame ≡ caller
  below : next.callers ≡ callers
  value : Value
  result : get_elem? later.stack (later.frame.base_register + 0) ≡ some value
  stack : next.stack ≡ set later.stack (caller.base_register + later.frame.out_register) value

op_return-IsReturn :
    (later next : Vm) (caller : CallFrame) (callers : List CallFrame)
    → later.callers ≡ caller ∷ callers
    → op_return later ≡ ok tt next
    → IsReturn later next caller callers
unfolding op_return pop_frame return_to set_register
op_return-IsReturn later next caller callers below h =
    let w = bind-Went (get_register 0) _ later tt next h in
    let m = get_register-stays 0 later w.mid w.value w.first in
    let r : return_to later.callers w.value later ≡ ok tt next =
      ap (λ v. return_to v.callers w.value v) (sym m.0) ∙ w.rest in
    let s : return_to (caller ∷ callers) w.value later ≡ ok tt next =
      ap (λ c. return_to c w.value later) (sym below) ∙ r in
    elim (Bool-cases (ltb (caller.base_register + later.frame.out_register) (length later.stack))) [
      | inl inside ↦ record {
        frame = ground (arith, s);
        below = ground (arith, s);
        value = w.value;
        result = m.1;
        stack = ground (arith, s);
      }
      | inr outside ↦ absurd (ground (arith, s))
    ]

-- A call that goes through and a return, later, from the frame that it made: the caller continues
-- behind the operands of its call, above the frames that it had, and the register that the call names
-- gets what the callee left in its register 0.
pub op_return-op_call :
    (vm entered later next : Vm)
    → op_call vm ≡ ok tt entered
    → later.callers ≡ entered.callers
    → later.frame.out_register ≡ entered.frame.out_register
    → op_return later ≡ ok tt next
    → (next.frame ≡ record vm.frame { ip = vm.frame.ip + 4 })
      × (next.callers ≡ vm.callers)
      × (value : Value) × (out_reg : ℕ) × (get_elem? later.stack (later.frame.base_register + 0)
          ≡ some value)
      × (try_read_byte vm.frame.function.chunk.code vm.frame.ip ≡ some (out_reg, vm.frame.ip + 1))
      × (next.stack ≡ set later.stack (vm.frame.base_register + out_reg) value)
op_return-op_call vm entered later next call below out back =
    let c = op_call-IsCall vm entered call in
    let r =
      op_return-IsReturn later next (with_ip vm (vm.frame.ip + 4)).frame vm.callers
        (below ∙ c.callers) back in
    let reg : later.frame.out_register ≡ c.out_reg = out ∙ c.out in
    (
      r.frame,
      r.below,
      r.value,
      c.out_reg,
      r.result,
      c.operand,
      r.stack ∙ ap (λ n. set later.stack (vm.frame.base_register + n) r.value) reg,
    )
