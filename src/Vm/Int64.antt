-- ===== src/Vm/Int64.antt =====
-- `int64_t` in the cases of `VM::run` (src/l0_core/vm/vm.cpp): a bit pattern with its sign and its
-- magnitude. `none` is what C++ leaves undefined, such as a signed overflow.
use Prim.Native.Nat.{bit_and, bit_or, bit_xor}
use niki.Prelude.{
  ℕ, ◌+◌, ◌-◌, ◌*◌, ◌/◌, ◌%◌, ◌^◌, Bool, true, false, not, Option, none, some, ltb, leb,
  if◌then◌else◌,
}

unfoldable pub is_negative : ℕ → Bool
is_negative a = leb (2 ^ 63) a

unfoldable pub magnitude : ℕ → ℕ
unfolding is_negative
magnitude a = if is_negative a then 2 ^ 64 - a else a

-- The number with a sign and a magnitude, if 64 bits hold it.
unfoldable pub of_parts : Bool → ℕ → Option ℕ
of_parts true m = if leb m (2 ^ 63) then some ((2 ^ 64 - m) % 2 ^ 64) else none
of_parts false m = if ltb m (2 ^ 63) then some m else none

abbrev pub differ : Bool → Bool → Bool
differ true b = not b
differ false b = b

-- A sum by signs and magnitudes.
unfoldable pub sum_of : Bool → ℕ → Bool → ℕ → Option ℕ
unfolding of_parts
sum_of s m t n =
    if differ s t
    then if leb n m then of_parts s (m - n) else of_parts t (n - m)
    else of_parts s (m + n)

-- `a + b`, `a - b`, `a * b`, `-a`.
unfoldable pub add : ℕ → ℕ → Option ℕ
unfolding sum_of magnitude
add a b = sum_of (is_negative a) (magnitude a) (is_negative b) (magnitude b)

unfoldable pub sub : ℕ → ℕ → Option ℕ
unfolding sum_of magnitude
sub a b = sum_of (is_negative a) (magnitude a) (not (is_negative b)) (magnitude b)

unfoldable pub mul : ℕ → ℕ → Option ℕ
unfolding of_parts magnitude
mul a b = of_parts (differ (is_negative a) (is_negative b)) (magnitude a * magnitude b)

unfoldable pub neg : ℕ → Option ℕ
unfolding of_parts magnitude
neg a = of_parts (not (is_negative a)) (magnitude a)

-- `a / b` and `a % b` where `b` is not 0: towards zero, undefined where the quotient overflows.
unfoldable pub div : ℕ → ℕ → Option ℕ
unfolding of_parts magnitude
div a b = of_parts (differ (is_negative a) (is_negative b)) (magnitude a / magnitude b)

unfoldable pub rem : ℕ → ℕ → Option ℕ
unfolding div of_parts magnitude
rem a b = elim (div a b) [
  | none ↦ none
  | some quotient ↦ of_parts (is_negative a) (magnitude a % magnitude b)
]

-- `a < b` of the signed numbers: the other tests follow.
unfoldable pub lt : ℕ → ℕ → Bool
lt a b = ltb ((a + 2 ^ 63) % 2 ^ 64) ((b + 2 ^ 63) % 2 ^ 64)

-- `a & b`, `a | b`, `a ^ b`, `~a`.
unfoldable pub and_bits : ℕ → ℕ → Option ℕ
and_bits a b = some (bit_and a b)

unfoldable pub or_bits : ℕ → ℕ → Option ℕ
or_bits a b = some (bit_or a b)

unfoldable pub xor_bits : ℕ → ℕ → Option ℕ
xor_bits a b = some (bit_xor a b)

unfoldable pub not_bits : ℕ → Option ℕ
not_bits a = some (2 ^ 64 - 1 - a)

-- `a << b` and `a >> b`: undefined where `b` is negative or not below 64.
unfoldable pub shift_left : ℕ → ℕ → Option ℕ
shift_left a b = if ltb b 64 then some (a * 2 ^ b % 2 ^ 64) else none

unfoldable pub shift_right : ℕ → ℕ → Option ℕ
unfolding is_negative
shift_right a b =
    if ltb b 64
    then some (if is_negative a then a / 2 ^ b + (2 ^ 64 - 2 ^ (64 - b)) else a / 2 ^ b)
    else none
