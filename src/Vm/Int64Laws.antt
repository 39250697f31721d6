-- ===== src/Vm/Int64Laws.antt =====
-- Signed arithmetic on bit patterns (src/l0_core/vm/vm.cpp).
use niki.Prelude.{
  ℕ, ◌+◌, ◌-◌, ◌^◌, ◌<◌, ◌≤◌, ◌≡◌, refl, ◌⊎◌, inl, inr, Option, none, some, arith, leb,
  if◌then◌else◌, Option-cases,
}
use niki.Opcode.Code.{op_iadd, op_isub}
use niki.Object.Value.{int}
use niki.Vm.State.{Vm, ok, undefined, ◌>>=◌, or_undefined, pure}
use niki.Vm.Numbers.{Host, int_binary, require_int64}
use niki.Vm.Run.{execute}
use niki.Vm.Int64.{is_negative, magnitude, of_parts, sum_of, add, sub}
use niki.Vm.Operands.{HasOperands, written, read_operands_lem, set_register_lem}

-- The integer of a bit pattern, as a difference of two natural numbers.
abbrev pub above : ℕ → ℕ
above a = if leb (2 ^ 63) a then 0 else a

abbrev pub below : ℕ → ℕ
below a = if leb (2 ^ 63) a then 2 ^ 64 - a else 0

-- For patterns of 64 bits, a sum that is defined is the sum of the integers, and where it is undefined
-- the sum of the integers leaves the range of 64 bits.
add_lem :
    (a b : ℕ)
    → a < 2 ^ 64
    → b < 2 ^ 64
    → ((c : ℕ)
        → add a b ≡ some c
        → (c < 2 ^ 64) × (above c + below a + below b ≡ below c + above a + above b))
      × (add a b ≡ none
          → (2 ^ 63 + below a + below b ≤ above a + above b)
            ⊎ (2 ^ 63 + above a + above b < below a + below b))
unfolding add sum_of of_parts magnitude is_negative
add_lem a b small small' = (λ c h. ground arith, λ h. ground arith)

-- For patterns of 64 bits, a difference that is defined is the difference of the integers, and where it
-- is undefined the difference of the integers leaves the range of 64 bits.
sub_lem :
    (a b : ℕ)
    → a < 2 ^ 64
    → b < 2 ^ 64
    → ((c : ℕ)
        → sub a b ≡ some c
        → (c < 2 ^ 64) × (above c + below a + above b ≡ below c + above a + below b))
      × (sub a b ≡ none
          → (2 ^ 63 + below a + above b ≤ above a + below b)
            ⊎ (2 ^ 63 + above a + below b < below a + above b))
unfolding sub sum_of of_parts magnitude is_negative
sub_lem a b small small' = (λ c h. ground arith, λ h. ground arith)

module _ (operation : ℕ → ℕ → Option ℕ) (vm : Vm) (target a b : ℕ)
    (h : HasOperands vm target (int a) (int b)) where
  int_binary-some :
      (c : ℕ) → operation a b ≡ some c → int_binary operation vm ≡ ok tt (written vm target (int c))
  unfolding int_binary ◌>>=◌ require_int64 or_undefined pure
  int_binary-some c e =
      rw
        (
          int_binary,
          ◌>>=◌,
          read_operands_lem vm target (int a) (int b) h,
          e,
          set_register_lem vm target (int c) h.inside,
        )
        refl

  int_binary-none : operation a b ≡ none → int_binary operation vm ≡ undefined
  unfolding int_binary ◌>>=◌ require_int64 or_undefined pure
  int_binary-none e = rw (int_binary, ◌>>=◌, read_operands_lem vm target (int a) (int b) h, e) refl

-- On registers with the patterns `a` and `b` of 64 bits, the case `OP_IADD` either moves past its operands
-- and writes to the target register, alone of the stack, a pattern of 64 bits of the sum of the two
-- signed integers, or that sum leaves the range of 64 bits and the behaviour is undefined.
pub iadd_lem :
    (host : Host) (vm : Vm) (target a b : ℕ)
    → HasOperands vm target (int a) (int b)
    → a < 2 ^ 64
    → b < 2 ^ 64
    → ((c : ℕ) × (execute host op_iadd vm ≡ ok tt (written vm target (int c)))
        × (c < 2 ^ 64)
        × (above c + below a + below b ≡ below c + above a + above b))
      ⊎ ((execute host op_iadd vm ≡ undefined)
          × ((2 ^ 63 + below a + below b ≤ above a + above b)
              ⊎ (2 ^ 63 + above a + above b < below a + below b)))
unfolding execute
iadd_lem host vm target a b h small small' =
    let sum = add_lem a b small small' in
    elim (Option-cases (add a b)) [
      | inl e ↦ inr (int_binary-none add vm target a b h e, sum.1 e)
      | inr (c, e) ↦ let s = sum.0 c e in inl (c, int_binary-some add vm target a b h c e, s.0, s.1)
    ]

-- On registers with the patterns `a` and `b` of 64 bits, the case `OP_ISUB` either moves past its operands
-- and writes to the target register, alone of the stack, a pattern of 64 bits of the first signed
-- integer less the second, or that difference leaves the range of 64 bits and the behaviour is
-- undefined.
pub isub_lem :
    (host : Host) (vm : Vm) (target a b : ℕ)
    → HasOperands vm target (int a) (int b)
    → a < 2 ^ 64
    → b < 2 ^ 64
    → ((c : ℕ) × (execute host op_isub vm ≡ ok tt (written vm target (int c)))
        × (c < 2 ^ 64)
        × (above c + below a + above b ≡ below c + above a + below b))
      ⊎ ((execute host op_isub vm ≡ undefined)
          × ((2 ^ 63 + below a + above b ≤ above a + below b)
              ⊎ (2 ^ 63 + above a + below b < below a + above b)))
unfolding execute
isub_lem host vm target a b h small small' =
    let difference = sub_lem a b small small' in
    elim (Option-cases (sub a b)) [
      | inl e ↦ inr (int_binary-none sub vm target a b h e, difference.1 e)
      | inr (c, e) ↦
          let s = difference.0 c e in inl (c, int_binary-some sub vm target a b h c e, s.0, s.1)
    ]
