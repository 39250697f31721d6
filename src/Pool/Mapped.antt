-- ===== src/Pool/Mapped.antt =====
-- Interning tables with an index: `StringInterner` (src/l0_core/syntax/string_interner.cpp,
-- include/niki/l0_core/syntax/string_interner.hpp) and `ModuleIdAllocator`
-- (src/l0_core/semantic/module_id.cpp, include/niki/l0_core/semantic/module_id.hpp). Both keep the
-- entries in a sequence and the ids in a hash map, here an association list.
use native.Mathlib.Nat.{mod-eq_of_lt}
use niki.Prelude.{
  ◌≤◌, length-append, ℕ, ◌+◌, ◌%◌, ◌^◌, ◌<◌, ◌≡◌, refl, sym, List, [], ◌∷◌, ◌++◌, Option, none,
  some, inl, inr, arith, if◌then◌else◌, Bool-cases, Option-cases, length, get_elem?,
}
use niki.Pool.Search.{Eq}
use niki.Pool.Search
use niki.Pool.Ids.{
  IsDistinct, get_elem?-append, get_elem?-append_last, get_elem?-append_cases, intern-fresh,
  intern-known,
}

-- The two members: `pool` with `str_to_id`, or `paths_` with `path_to_id_`.
pub record Mapped {ℓ} (A : Type ℓ) : Type ℓ where
  pub pool : List A
  pub ids : List (A × ℕ)

module _ {ℓ} {A : Type ℓ} ⦃eq : Eq A⦄ where
  -- `map.find(a)`.
  unfoldable pub lookup {κ} : {B : Type κ} → A → List (A × B) → Option B
  lookup a [] = none
  lookup a ((x, i) ∷ ids) = if eq.equal x a then some i else lookup a ids

  -- `StringInterner::intern` and `ModuleIdAllocator::ensure`.
  unfoldable pub ensure : A → Mapped A → Mapped A × ℕ
  ensure a m = elim (lookup a m.ids) [
    | some i ↦ (m, i)
    | none ↦
        let id = length m.pool % 2 ^ 32 in
        (record { pool = m.pool ++ a ∷ []; ids = (a, id) ∷ m.ids }, id)
  ]

  -- `StringInterner::find`.
  unfoldable pub find : A → Mapped A → Option ℕ
  find a m = lookup a m.ids

  -- The map holds exactly the ids of the sequence.
  pub record IsSynced (m : Mapped A) : Type ℓ where
    pub sound : (a : A) (i : ℕ) → lookup a m.ids ≡ some i → get_elem? m.pool i ≡ some a
    pub complete : (a : A) (i : ℕ) → get_elem? m.pool i ≡ some a → lookup a m.ids ≡ some i

  pub IsSynced-IsDistinct : (m : Mapped A) → IsSynced m → IsDistinct m.pool
  IsSynced-IsDistinct m s i j a p q = ground (arith, s.complete a i p, s.complete a j q)

  ensure-found : (a : A) (m : Mapped A) (i : ℕ) → lookup a m.ids ≡ some i → ensure a m ≡ (m, i)
  unfolding ensure
  ensure-found a m i e = rw (e, ensure)

  ensure-new :
      (a : A) (m : Mapped A)
      → length m.pool < 2 ^ 32
      → lookup a m.ids ≡ none
      → ensure a m
        ≡ (record { pool = m.pool ++ a ∷ []; ids = (a, length m.pool) ∷ m.ids }, length m.pool)
  unfolding ensure
  ensure-new a m h e = rw (e, ensure, mod-eq_of_lt h)

  pub lookup-cons {κ} :
      {B : Type κ} (a b : A) (i : B) (ids : List (A × B))
      → lookup b ((a, i) ∷ ids) ≡ (if eq.equal a b then some i else lookup b ids)
  unfolding lookup
  lookup-cons a b i ids = refl

  new-IsSynced :
      (a : A) (m : Mapped A)
      → IsSynced m
      → lookup a m.ids ≡ none
      → IsSynced (record { pool = m.pool ++ a ∷ []; ids = (a, length m.pool) ∷ m.ids })
  new-IsSynced a m s fresh = record {
    sound = λ b i h. elim (Bool-cases (eq.equal a b)) [
      | inl e ↦ ground (
        arith,
        lookup-cons a b (length m.pool) m.ids,
        get_elem?-append_last m.pool a,
        (eq.equal_iff a b).0 e,
      )
      | inr e ↦
          get_elem?-append m.pool a i b
            (s.sound b i (ground (arith, lookup-cons a b (length m.pool) m.ids)))
    ];
    complete = λ b i h. elim (get_elem?-append_cases m.pool a i b h) [
      | inl p ↦
          ground
            (arith, lookup-cons a b (length m.pool) m.ids, s.complete b i p, (eq.equal_iff a b).0)
      | inr (e, f) ↦ ground (arith, lookup-cons a b (length m.pool) m.ids, (eq.equal_iff a b).1)
    ];
  }

  -- In a table below 2 ^ 32 entries `ensure` does to the sequence what the linear search of
  -- `ModuleIR::intern` does, gives the same id, and keeps the map in step.
  pub ensure-intern :
      (a : A) (m : Mapped A)
      → IsSynced m
      → length m.pool < 2 ^ 32
      → (((ensure a m).0.pool, (ensure a m).1) ≡ Search.intern a m.pool) × IsSynced (ensure a m).0
  ensure-intern a m s h = elim (Option-cases (lookup a m.ids)) [
    | inr (i, e) ↦
        rw (ensure-found a m i e)
          (sym (intern-known a m.pool i (IsSynced-IsDistinct m s) (s.sound a i e)), s)
    | inl e ↦ rw (ensure-new a m h e) (
      sym (intern-fresh a m.pool h (λ j k. ground (arith, s.complete a j k))),
      new-IsSynced a m s e,
    )
  ]

  pub ensure-IsSynced :
      (a : A) (m : Mapped A) → IsSynced m → length m.pool < 2 ^ 32 → IsSynced (ensure a m).0
  ensure-IsSynced a m s h = (ensure-intern a m s h).1

  pub empty-IsSynced : IsSynced (record { pool = []; ids = [] })
  unfolding lookup
  empty-IsSynced = record { sound = λ a i h. cc; complete = λ a i h. cc }

  -- An id that was given once is never given again, and stays.
  pub ensure-keeps :
      (a b : A) (i : ℕ) (m : Mapped A)
      → IsSynced m
      → length m.pool < 2 ^ 32
      → find b m ≡ some i
      → find b (ensure a m).0 ≡ some i
  unfolding find
  ensure-keeps a b i m s h e = elim (Option-cases (lookup a m.ids)) [
    | inr (j, f) ↦ rw (ensure-found a m j f) e
    | inl f ↦
        rw (ensure-new a m h f, lookup-cons a b (length m.pool) m.ids)
          (elim (Bool-cases (eq.equal a b)) [
            | inl g ↦ absurd (ground (arith, (eq.equal_iff a b).0 g))
            | inr g ↦ rw g e
          ])
  ]

  pub length-ensure : (a : A) (m : Mapped A) → length (ensure a m).0.pool ≤ length m.pool + 1
  unfolding ensure
  length-ensure a m = elim (Option-cases (lookup a m.ids)) [
    | inr (j, f) ↦ rw (f, ensure) (omega arith)
    | inl f ↦ rw (f, ensure) (omega (arith, length-append m.pool (a ∷ [])))
  ]
