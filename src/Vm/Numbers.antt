-- ===== src/Vm/Numbers.antt =====
-- The cases of `VM::run` on numbers and truth values (src/l0_core/vm/vm.cpp).
use Prim.Native.String.{String}
use niki.Prelude.{
  ℕ, zero, suc, ◌+◌, ◌%◌, ◌^◌, Bool, true, false, not, ◌||◌, Option, none, some, ltb, ◌==◌,
  if◌then◌else◌,
}
use niki.Object.Value.{Value, nil, bool, int, float}
use niki.Vm.State.{
  read_state, M, ok, ◌>>=◌, ◌>>◌, pure, fail, guard, or_fail, or_undefined, read_byte, get_register,
  set_register,
}
use niki.Vm.Int64.{is_negative}

-- What the hardware and the C library give: the operations on floats, as bit patterns, and the
-- successive numbers of `std::rand`.
pub record Host : Type 0 where
  pub float_add : ℕ → ℕ → ℕ
  pub float_sub : ℕ → ℕ → ℕ
  pub float_mul : ℕ → ℕ → ℕ
  pub float_div : ℕ → ℕ → ℕ
  pub float_neg : ℕ → ℕ
  pub float_eq : ℕ → ℕ → Bool
  pub float_lt : ℕ → ℕ → Bool
  pub float_le : ℕ → ℕ → Bool
  pub rand : ℕ → ℕ

-- `requireInt64` and `requireFloat64`.
unfoldable pub require_int64 : Value → Value → M (ℕ × ℕ)
require_int64 (int a) (int b) = pure (a, b)
require_int64 _ _ = fail "Operands must be integers."

unfoldable pub require_float64 : Value → Value → M (ℕ × ℕ)
require_float64 (float a) (float b) = pure (a, b)
require_float64 _ _ = fail "Operands must be floats."

-- The three registers of a binary instruction: its target, and the values of the other two.
unfoldable pub read_operands : M (ℕ × Value × Value)
read_operands = do
  target ← read_byte
  left_reg ← read_byte
  right_reg ← read_byte
  left ← get_register left_reg
  right ← get_register right_reg
  pure (target, left, right)

-- The two registers of a unary instruction: its target, and the value of the other.
unfoldable pub read_operand : M (ℕ × Value)
read_operand = do
  target ← read_byte
  src_reg ← read_byte
  value ← get_register src_reg
  pure (target, value)

-- `OP_IADD`, `OP_ISUB`, `OP_IMUL` and the operations on bits.
unfoldable pub int_binary : (ℕ → ℕ → Option ℕ) → M (Unit {0})
int_binary operation = do
  (target, left, right) ← read_operands
  (a, b) ← require_int64 left right
  result ← or_undefined (operation a b)
  set_register target (int result)

-- `OP_IDIV` and `OP_IMOD`.
unfoldable pub int_division : (ℕ → ℕ → Option ℕ) → String → M (Unit {0})
int_division operation message = do
  (target, left, right) ← read_operands
  (a, b) ← require_int64 left right
  guard (not (b == 0)) message
  result ← or_undefined (operation a b)
  set_register target (int result)

-- The comparisons of integers.
unfoldable pub int_compare : (ℕ → ℕ → Bool) → M (Unit {0})
int_compare test = do
  (target, left, right) ← read_operands
  (a, b) ← require_int64 left right
  set_register target (bool (test a b))

-- `OP_FADD`, `OP_FSUB`, `OP_FMUL`.
unfoldable pub float_binary : (ℕ → ℕ → ℕ) → M (Unit {0})
float_binary operation = do
  (target, left, right) ← read_operands
  (a, b) ← require_float64 left right
  set_register target (float (operation a b))

-- `OP_FDIV`: the pattern 0 is 0.0.
unfoldable pub float_division : Host → M (Unit {0})
float_division host = do
  (target, left, right) ← read_operands
  (a, b) ← require_float64 left right
  guard (not (host.float_eq b 0)) "Division by zero."
  set_register target (float (host.float_div a b))

-- The comparisons of floats.
unfoldable pub float_compare : (ℕ → ℕ → Bool) → M (Unit {0})
float_compare test = do
  (target, left, right) ← read_operands
  (a, b) ← require_float64 left right
  set_register target (bool (test a b))

-- The sum of the rolls, and the numbers drawn after them.
unfoldable pub rolls : (ℕ → ℕ) → ℕ → ℕ → ℕ → ℕ → ℕ × ℕ
rolls rand zero sides drawn total = (total, drawn)
rolls rand (suc count) sides drawn total =
    rolls rand count sides (drawn + 1) (total + (rand drawn % sides + 1))

unfoldable pub set_drawn : ℕ → M (Unit {0})
set_drawn drawn vm = ok tt (record vm { drawn = drawn })

-- `OP_DICE`.
unfoldable pub dice : Host → M (Unit {0})
dice host = do
  (target, left, right) ← read_operands
  (count, sides) ←
      or_fail (elim left [ int a ↦ elim right [ int b ↦ some (a, b) | _ ↦ none ] | _ ↦ none ])
        "DIce operands must be integers."
  guard (not (is_negative count || is_negative sides)) "Dice operands must be >=0."
  guard (not (sides == 0)) "Dice sides must be > 0."
  (total, drawn) ← read_state (λ vm. rolls host.rand count sides vm.drawn 0)
  result ← or_undefined (if ltb total (2 ^ 63) then some total else none)
  set_drawn drawn
  set_register target (int result)

-- `OP_NEG` and `OP_BIT_NOT`.
unfoldable pub int_unary : (ℕ → Option ℕ) → String → M (Unit {0})
int_unary operation message = do
  (target, value) ← read_operand
  a ← or_fail (elim value [ int a ↦ some a | _ ↦ none ]) message
  result ← or_undefined (operation a)
  set_register target (int result)

-- `OP_FNEG`.
unfoldable pub float_negate : Host → M (Unit {0})
float_negate host = do
  (target, value) ← read_operand
  a ← or_fail (elim value [ float a ↦ some a | _ ↦ none ]) "Operand must be a float."
  set_register target (float (host.float_neg a))

-- The test of `OP_NOT` and of `OP_JZ`.
unfoldable pub is_false : Value → Bool
is_false nil = true
is_false (bool b) = not b
is_false (int a) = a == 0
is_false _ = false

-- The test of `OP_JNZ`.
unfoldable pub is_true : Value → Bool
is_true (bool b) = b
is_true (int a) = not (a == 0)
is_true nil = false
is_true _ = true

-- The test of `OP_AND` and `OP_OR` on each operand.
unfoldable pub as_bool : Value → Bool
as_bool (bool b) = b
as_bool (int a) = not (a == 0)
as_bool _ = false

-- `OP_NOT`.
unfoldable pub logic_not : M (Unit {0})
logic_not = do (target, value) ← read_operand; set_register target (bool (is_false value))

-- `OP_AND` and `OP_OR`.
unfoldable pub logic_binary : (Bool → Bool → Bool) → M (Unit {0})
logic_binary operation = do
  (target, left, right) ← read_operands
  set_register target (bool (operation (as_bool left) (as_bool right)))
