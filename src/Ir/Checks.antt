-- ===== src/Ir/Checks.antt =====
-- The bookkeeping of the verifiers (include/niki/l0_core/ir/verify.hpp): what a check appends to the
-- report, and the counted loops over it. `none` is a read outside of a table.
use niki.Prelude.{
  not, ◌&&◌, sym, if◌then◌else◌, ℕ, ◌-◌, zero, suc, ◌+◌, ◌%◌, ◌^◌, ◌≤◌, ◌<◌, ◌≡◌, ◌↔◌, refl, Bool,
  true, false, List, [], ◌∷◌, ◌++◌, Option, none, some, inl, inr, arith, ◌==◌, Bool-cases,
}
use niki.Ir.Kinds.{VerifyErrorCode}

-- `struct VerifyIssue`. The message depends on the error code and the check alone.
pub record VerifyIssue : Type 0 where
  pub error_code : VerifyErrorCode
  pub func_idx : ℕ
  pub rel_block_idx : ℕ
  pub inst_idx : ℕ

-- The issues that a check appends to `VerifyReport::issues`.
abbrev pub Checks : Type 0
Checks = Option (List VerifyIssue)

-- `UINT32_MAX`, the index of an unknown place.
abbrev pub unknown_index : ℕ
unknown_index = 2 ^ 32 - 1

-- A sum of two `uint32_t`.
abbrev pub add32 : ℕ → ℕ → ℕ
add32 a b = (a + b) % 2 ^ 32

-- Nothing to report.
abbrev pub clean : Checks
clean = some []

-- `report.add`.
abbrev pub add : VerifyErrorCode → ℕ → ℕ → ℕ → Checks
add code func block inst =
    some
      (record { error_code = code; func_idx = func; rel_block_idx = block; inst_idx = inst } ∷ [])

-- One check, then another.
unfoldable pub both : Checks → Checks → Checks
both none _ = none
both (some a) none = none
both (some a) (some b) = some (a ++ b)

-- `if (test) report.add(...)`.
unfoldable pub add_if : Bool → Checks → Checks
add_if true c = c
add_if false c = clean

-- `for (k = i; rounds; ++k) body(k)`.
unfoldable pub each : ℕ → ℕ → (ℕ → Checks) → Checks
each zero i body = clean
each (suc rounds) i body = both (body i) (each rounds (suc i) body)

-- A check that reads an entry of a table.
unfoldable pub with_entry {ℓ} : {A : Type ℓ} → Option A → (A → Checks) → Checks
with_entry none body = none
with_entry (some a) body = body a

pub both_iff : (a b : Checks) → (both a b ≡ clean) ↔ ((a ≡ clean) × (b ≡ clean))
unfolding both
both_iff none b = (λ h. cc, λ h. cc)
both_iff (some a) none = (λ h. cc, λ h. cc)
both_iff (some []) (some b) = (λ h. (refl, h), λ h. h.1)
both_iff (some (x ∷ a)) (some b) = (λ h. cc, λ h. cc)

pub add_if_iff :
    (t : Bool) (code : VerifyErrorCode) (f b i : ℕ)
    → (add_if t (add code f b i) ≡ clean) ↔ (t ≡ false)
unfolding add_if
add_if_iff true code f b i = (λ h. cc, λ h. cc)
add_if_iff false code f b i = (λ h. refl, λ h. refl)

pub each_iff :
    (rounds i : ℕ) (body : ℕ → Checks)
    → (each rounds i body ≡ clean) ↔ ((k : ℕ) → i ≤ k → k < i + rounds → body k ≡ clean)
unfolding each
each_iff zero i body = (λ h k lo hi. absurd (omega arith), λ h. refl)
each_iff (suc rounds) i body =
    let rest = each_iff rounds (suc i) body in
    let two = both_iff (body i) (each rounds (suc i) body) in
    (
      λ h k lo hi. elim (Bool-cases (i == k)) [
        | inl e ↦ rw (let q : k ≡ i = ground arith in q) (two.0 h).0
        | inr e ↦ rest.0 (two.0 h).1 k (ground arith) (omega arith)
      ],
      λ h.
          two.1
            (h i (omega arith) (omega arith), rest.1 (λ k lo hi. h k (omega arith) (omega arith))),
    )

pub iff_trans : {A B C : Type 0} → A ↔ B → B ↔ C → A ↔ C
iff_trans p q = (λ a. q.0 (p.0 a), λ c. p.1 (q.1 c))

-- Two checks are clean exactly if what each of them stands for holds.
pub both_says :
    (a b : Checks) {P Q : Type 0} → (a ≡ clean) ↔ P → (b ≡ clean) ↔ Q → (both a b ≡ clean) ↔ (P × Q)
both_says a b p q =
    let two = both_iff a b in
    (λ h. (p.0 (two.0 h).0, q.0 (two.0 h).1), λ h. two.1 (p.1 h.0, q.1 h.1))

pub with_entry_iff {ℓ} :
    {A : Type ℓ} (o : Option A) (a : A) (body : A → Checks)
    → o ≡ some a
    → (with_entry o body ≡ clean) ↔ (body a ≡ clean)
unfolding with_entry
with_entry_iff o a body e = rw e (λ h. h, λ h. h)

-- A test that reports and skips the rest.
pub guard_iff :
    (t : Bool) (code : VerifyErrorCode) (f b i : ℕ) (c : Checks)
    → ((if t then add code f b i else c) ≡ clean) ↔ ((t ≡ false) × (c ≡ clean))
guard_iff true code f b i c = (λ h. cc, λ h. cc)
guard_iff false code f b i c = (λ h. (refl, h), λ h. h.1)

pub implies_iff : (a b : Bool) → ((a && not b) ≡ false) ↔ (a ≡ true → b ≡ true)
implies_iff a true = (λ h e. refl, λ h. ground arith)
implies_iff true false = (λ h e. cc, λ h. sym (h refl))
implies_iff false false = (λ h e. cc, λ h. refl)
