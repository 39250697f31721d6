-- ===== src/Pool/Search.antt =====
-- The linear search of `ModuleIR::intern` (src/l0_core/ir/module_ir.cpp) and of the functions of
-- `TypeArena` (src/l0_core/semantic/type_arena.cpp), over any type with a sound test of equality.
use niki.Prelude.{
  ℕ, suc, ◌%◌, ◌^◌, ◌≡◌, ◌↔◌, Bool, true, List, [], ◌∷◌, ◌++◌, Option, none, some, if◌then◌else◌,
  length,
}

-- A type whose `==` decides equality.
pub record Eq {ℓ} (T : Type ℓ) : Type ℓ where
  pub equal : T → T → Bool
  pub equal_iff : (x y : T) → (equal x y ≡ true) ↔ (x ≡ y)

module _ {ℓ} {A : Type ℓ} ⦃eq : Eq A⦄ where
  -- `for (i = 0; i < pool.size(); ++i) if (pool[i] == a) return i;`, from the index `i`.
  unfoldable pub index_from : ℕ → A → List A → Option ℕ
  index_from i a [] = none
  index_from i a (x ∷ xs) = if eq.equal x a then some i else index_from (suc i) a xs

  -- The index of an entry, or the entry appended and its index, cast to 32 bits.
  unfoldable pub intern : A → List A → List A × ℕ
  intern a pool = elim (index_from 0 a pool) [
    | some i ↦ (pool, i)
    | none ↦ (pool ++ a ∷ [], length pool % 2 ^ 32)
  ]
