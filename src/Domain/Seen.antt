-- ===== src/Domain/Seen.antt =====
-- Counted loops that collect keys in a set and report a key that is already in it
-- (src/l1_domain/validator.cpp).
use niki.Prelude.{
  ℕ, zero, suc, ◌+◌, ◌≤◌, ◌<◌, ◌≡◌, ◌≢◌, ◌↔◌, ◌⊎◌, refl, sym, ap, ◌∙◌, Bool, false, ◌||◌, List, [],
  ◌∷◌, Option, none, some, inl, inr, arith, ◌==◌, Bool-cases,
}
use niki.Ir.Checks.{Checks, clean, both, both_iff}

-- `std::unordered_set<uint32_t>`: the keys that were inserted.
unfoldable pub member : ℕ → List ℕ → Bool
member k [] = false
member k (x ∷ seen) = x == k || member k seen

-- A loop whose rounds report something and hand the set on.
unfoldable pub each_seen : ℕ → ℕ → List ℕ → (ℕ → List ℕ → Checks × List ℕ) → Checks
each_seen zero i seen body = clean
each_seen (suc rounds) i seen body =
    let (report, next) = body i seen in both report (each_seen rounds (suc i) next body)

-- The set after a round that has a key or none.
unfoldable pub insert : Option ℕ → List ℕ → List ℕ
insert none seen = seen
insert (some k) seen = k ∷ seen

at_or_after : (i j : ℕ) → i ≤ j → (j ≡ i) ⊎ (suc i ≤ j)
at_or_after i j h = ground arith

module _ (body : ℕ → List ℕ → Checks × List ℕ) (key : ℕ → Option ℕ) (P : ℕ → Type 0) where
  -- A round inserts its key, and is clean exactly if `P` holds and the key is new.
  pub record IsRound (i : ℕ) : Type 0 where
    pub next : (seen : List ℕ) → (body i seen).1 ≡ insert (key i) seen
    pub says :
        (seen : List ℕ)
        → ((body i seen).0 ≡ clean) ↔ (P i × ((k : ℕ) → key i ≡ some k → member k seen ≡ false))

  -- Every round holds, and no key of the interval is in the set or occurs twice.
  pub record AreRounds (rounds i : ℕ) (seen : List ℕ) : Type 0 where
    pub holds : (j : ℕ) → i ≤ j → j < i + rounds → P j
    pub fresh : (j k : ℕ) → i ≤ j → j < i + rounds → key j ≡ some k → member k seen ≡ false
    pub distinct : (j l k : ℕ) → i ≤ j → j < l → l < i + rounds → key j ≡ some k → key l ≢ some k

  member-insert :
      (o : Option ℕ) (k : ℕ) (seen : List ℕ)
      → (member k (insert o seen) ≡ false) ↔ ((o ≢ some k) × (member k seen ≡ false))
  unfolding member insert
  member-insert none k seen = (λ h. (λ e. cc, h), λ h. h.1)
  member-insert (some x) k seen = (
    λ h. (λ e. let same : x ≡ k = cc in ground arith, ground arith),
    λ h. elim (Bool-cases (x == k)) [
      | inl e ↦ let same : x ≡ k = ground arith in absurd (h.0 (ap some same))
      | inr e ↦ ground (arith, h.1)
    ],
  )

  pub each_seen_iff :
      (rounds i : ℕ) (seen : List ℕ)
      → ((j : ℕ) → i ≤ j → j < i + rounds → IsRound j)
      → (each_seen rounds i seen body ≡ clean) ↔ AreRounds rounds i seen
  unfolding each_seen
  each_seen_iff zero i seen r = (
    λ h. record {
      holds = λ j lo hi. absurd (omega arith);
      fresh = λ j k lo hi e. absurd (omega arith);
      distinct = λ j l k lo mid hi e f. absurd (omega arith);
    },
    λ a. refl,
  )
  each_seen_iff (suc rounds) i seen r =
      let here = r i (omega arith) (omega arith) in
      let next = (body i seen).1 in
      let rest = each_seen_iff rounds (suc i) next (λ j lo hi. r j (omega arith) (omega arith)) in
      let two = both_iff (body i seen).0 (each_seen rounds (suc i) next body) in
      let clear = λ (j k : ℕ) (h : member k next ≡ false).
        (member-insert (key i) k seen).0 (ap (member k) (sym (here.next seen)) ∙ h) in
      (
        λ h.
            let parts = two.0 h in
            let one = (here.says seen).0 parts.0 in
            let tail = rest.0 parts.1 in
            record {
              holds = λ j lo hi. elim (at_or_after i j lo) [
                | inl q ↦ rw q one.0
                | inr l ↦ tail.holds j l (omega arith)
              ];
              fresh = λ j k lo hi e. elim (at_or_after i j lo) [
                | inl q ↦ one.1 k (ap key (sym q) ∙ e)
                | inr l ↦ (clear j k (tail.fresh j k l (omega arith) e)).1
              ];
              distinct = λ j l k lo mid hi e f. elim (at_or_after i j lo) [
                | inl q ↦
                    (clear l k (tail.fresh l k (omega arith) (omega arith) f)).0
                      (ap key (sym q) ∙ e)
                | inr m ↦ tail.distinct j l k m mid (omega arith) e f
              ];
            },
        λ a. two.1 (
          (here.says seen).1 (
            a.holds i (omega arith) (omega arith),
            λ k e. a.fresh i k (omega arith) (omega arith) e,
          ),
          rest.1 (record {
            holds = λ j lo hi. a.holds j (omega arith) (omega arith);
            fresh = λ j k lo hi e.
                ap (member k) (here.next seen)
                ∙ (member-insert (key i) k seen).1 (
                  λ f. a.distinct i j k (omega arith) lo (omega arith) f e,
                  a.fresh j k (omega arith) (omega arith) e,
                );
            distinct = λ j l k lo mid hi e f. a.distinct j l k (omega arith) mid (omega arith) e f;
          }),
        ),
      )
