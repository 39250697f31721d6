-- ===== src/Pool/Ids.antt =====
-- The ids that the linear search of `Search` gives (src/l0_core/ir/module_ir.cpp,
-- src/l0_core/semantic/type_arena.cpp).
use native.Mathlib.Nat.{mod-eq_of_lt}
use niki.Prelude.{
  ℕ, zero, suc, ◌+◌, ◌^◌, ◌<◌, ◌≡◌, ◌≢◌, ◌⊎◌, refl, sym, ap, ◌∙◌, List, [], ◌∷◌, ◌++◌, none, some,
  inl, inr, arith, Bool-cases, Option-cases, length, get_elem?,
}
use niki.Pool.Search.{Eq, index_from, intern}

module _ {ℓ} {A : Type ℓ} where
  -- No entry has two ids.
  abbrev pub IsDistinct : List A → Type ℓ
  IsDistinct pool =
      (i j : ℕ) (a : A) → get_elem? pool i ≡ some a → get_elem? pool j ≡ some a → i ≡ j

  pub get_elem?-append :
      (xs : List A) (a : A) (i : ℕ) (b : A)
      → get_elem? xs i ≡ some b
      → get_elem? (xs ++ a ∷ []) i ≡ some b
  get_elem?-append [] a i b h = cc
  get_elem?-append (x ∷ xs) a zero b h = h
  get_elem?-append (x ∷ xs) a (suc i) b h = get_elem?-append xs a i b h

  pub get_elem?-append_last : (xs : List A) (a : A) → get_elem? (xs ++ a ∷ []) (length xs) ≡ some a
  get_elem?-append_last [] a = refl
  get_elem?-append_last (x ∷ xs) a = get_elem?-append_last xs a

  -- An index of the longer list is one of the shorter or the last.
  pub get_elem?-append_cases :
      (xs : List A) (a : A) (i : ℕ) (b : A)
      → get_elem? (xs ++ a ∷ []) i ≡ some b
      → (get_elem? xs i ≡ some b) ⊎ ((i ≡ length xs) × (b ≡ a))
  get_elem?-append_cases [] a zero b h = inr (refl, cc)
  get_elem?-append_cases [] a (suc i) b h = cc
  get_elem?-append_cases (x ∷ xs) a zero b h = inl h
  get_elem?-append_cases (x ∷ xs) a (suc i) b h = elim (get_elem?-append_cases xs a i b h) [
    | inl e ↦ inl e
    | inr (e, f) ↦ inr (ap suc e, f)
  ]

  pub IsDistinct-cons :
      (x : A) (xs : List A)
      → ((j : ℕ) → get_elem? xs j ≢ some x)
      → IsDistinct xs
      → IsDistinct (x ∷ xs)
  IsDistinct-cons x xs n d zero zero a p q = refl
  IsDistinct-cons x xs n d zero (suc j) a p q = absurd (n j (ground arith))
  IsDistinct-cons x xs n d (suc i) zero a p q = absurd (n i (ground arith))
  IsDistinct-cons x xs n d (suc i) (suc j) a p q = ap suc (d i j a p q)

  pub IsDistinct-tail :
      (x : A) (xs : List A)
      → IsDistinct (x ∷ xs)
      → IsDistinct xs × ((j : ℕ) → get_elem? xs j ≢ some x)
  IsDistinct-tail x xs d = (
    λ i j a p q. let same : suc i ≡ suc j = d (suc i) (suc j) a p q in omega arith,
    λ j e. let same : 0 ≡ suc j = d 0 (suc j) x refl e in omega arith,
  )

module _ {ℓ} {A : Type ℓ} ⦃eq : Eq A⦄ where
  index_from-some :
      (k : ℕ) (a : A) (pool : List A) (i : ℕ)
      → index_from k a pool ≡ some i
      → (j : ℕ) × (i ≡ k + j) × (get_elem? pool j ≡ some a)
  unfolding index_from
  index_from-some k a [] i h = cc
  index_from-some k a (x ∷ xs) i h = elim (Bool-cases (eq.equal x a)) [
    | inl e ↦ (0, ground arith, ap some ((eq.equal_iff x a).0 e))
    | inr e ↦
        let (j, f, g) = index_from-some (suc k) a xs i (rw e at h) in (suc j, omega (arith, f), g)
  ]

  index_from-none :
      (k : ℕ) (a : A) (pool : List A)
      → index_from k a pool ≡ none
      → (j : ℕ) → get_elem? pool j ≢ some a
  unfolding index_from
  index_from-none k a [] h j e = cc
  index_from-none k a (x ∷ xs) h zero e = elim (Bool-cases (eq.equal x a)) [
    | inl f ↦ ground arith
    | inr f ↦ ground (arith, (eq.equal_iff x a).1)
  ]
  index_from-none k a (x ∷ xs) h (suc j) e = elim (Bool-cases (eq.equal x a)) [
    | inl f ↦ ground arith
    | inr f ↦ index_from-none (suc k) a xs (rw f at h) j e
  ]

  -- In a pool below 2 ^ 32 entries: the id leads to the entry, the ids in use keep their entries,
  -- and entries stay distinct.
  pub record Interned (a : A) (pool : List A) (r : List A × ℕ) : Type ℓ where
    pub found : get_elem? r.0 r.1 ≡ some a
    pub keeps : (i : ℕ) (b : A) → get_elem? pool i ≡ some b → get_elem? r.0 i ≡ some b
    pub distinct : IsDistinct pool → IsDistinct r.0

  intern-found :
      (a : A) (pool : List A) (i : ℕ)
      → index_from 0 a pool ≡ some i
      → (intern a pool ≡ (pool, i)) × (get_elem? pool i ≡ some a)
  unfolding intern
  intern-found a pool i e =
      let (j, f, g) = index_from-some 0 a pool i e in
      let same : i ≡ j = omega (arith, f) in (rw (e, intern), rw same g)

  intern-new :
      (a : A) (pool : List A)
      → length pool < 2 ^ 32
      → index_from 0 a pool ≡ none
      → intern a pool ≡ (pool ++ a ∷ [], length pool)
  unfolding intern
  intern-new a pool h e = rw (e, intern, mod-eq_of_lt h)

  -- Interning appends an entry at most.
  pub new-IsDistinct :
      (a : A) (pool : List A)
      → ((j : ℕ) → get_elem? pool j ≢ some a)
      → IsDistinct pool
      → IsDistinct (pool ++ a ∷ [])
  new-IsDistinct a pool fresh d i j b p q = elim (get_elem?-append_cases pool a i b p) [
    | inl pi ↦ elim (get_elem?-append_cases pool a j b q) [
      | inl pj ↦ d i j b pi pj
      | inr (_, f) ↦ absurd (fresh i (rw f at pi))
    ]
    | inr (e, f) ↦ elim (get_elem?-append_cases pool a j b q) [
      | inl pj ↦ absurd (fresh j (rw f at pj))
      | inr (g, _) ↦ e ∙ sym g
    ]
  ]

  pub intern-Interned :
      (a : A) (pool : List A) → length pool < 2 ^ 32 → Interned a pool (intern a pool)
  intern-Interned a pool h = elim (Option-cases (index_from 0 a pool)) [
    | inr (i, e) ↦
        let (step, found) = intern-found a pool i e in
        rw step (record { found = found; keeps = λ k b p. p; distinct = λ d. d })
    | inl e ↦ rw (intern-new a pool h e) (record {
      found = get_elem?-append_last pool a;
      keeps = get_elem?-append pool a;
      distinct = new-IsDistinct a pool (index_from-none 0 a pool e);
    })
  ]

  -- Where an entry stands in a pool of distinct entries, interning it gives its index.
  pub intern-known :
      (a : A) (pool : List A) (i : ℕ)
      → IsDistinct pool
      → get_elem? pool i ≡ some a
      → intern a pool ≡ (pool, i)
  intern-known a pool i d e = elim (Option-cases (index_from 0 a pool)) [
    | inl n ↦ absurd (index_from-none 0 a pool n i e)
    | inr (j, n) ↦
        let (step, found) = intern-found a pool j n in
        let same : j ≡ i = d j i a found e in step ∙ ap (λ (k : ℕ). (pool, k)) same
  ]

  -- Where an entry stands nowhere in a pool, interning it appends it.
  pub intern-fresh :
      (a : A) (pool : List A)
      → length pool < 2 ^ 32
      → ((j : ℕ) → get_elem? pool j ≢ some a)
      → intern a pool ≡ (pool ++ a ∷ [], length pool)
  intern-fresh a pool h fresh = elim (Option-cases (index_from 0 a pool)) [
    | inl n ↦ intern-new a pool h n
    | inr (j, n) ↦ absurd (fresh j (intern-found a pool j n).1)
  ]
