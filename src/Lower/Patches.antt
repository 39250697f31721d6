-- ===== src/Lower/Patches.antt =====
-- The loop over the pending patches (src/l0_core/ir/lower_to_chunk.cpp).
use niki.Prelude.{
  ℕ, ◌+◌, ◌-◌, ◌<◌, ◌≤◌, ◌≡◌, ◌≢◌, sym, ap, ◌∙◌, ◌⊎◌, inl, inr, Bool, true, List, [], ◌∷◌, some,
  arith, ltb, get_elem?, get_elem?-some-lt, Bool-cases, All, All-map,
}
use niki.Linker.Link.{Chunk}
use niki.Semantic.Namespace.{module_ids}
use niki.Bytecode.Operand.{HasPlaces}
use niki.Opcode.Code.{to_int}
use niki.Lower.Writer.{Result, ok, err, PendingJumpPatch}
use niki.Lower.Function.{apply_patch, apply_patches}
use niki.Lower.Layout.{IsOrdered, operand_bytes, IsLayout, IsSite}
use niki.Lower.Emit.{Ensures, Ensures-bind}
use niki.Lower.Patch.{
  to_int_injective, start-width, elsewhere, IsRewritten-IsLayout, IsRewritten-IsSite,
  IsRewritten-HasPlaces,
}
use niki.Lower.Aim.{jump_from-cong}
use niki.Lower.Landing.{IsPatched, Lands, IsForward, apply_patch-IsPatched}

-- Two instructions that do not start in one another are apart.
disjoint :
    (s t v w : ℕ)
    → s ≢ t
    → (s < t → t ≤ s + v → ⊥)
    → (t < s → s ≤ t + w → ⊥)
    → (s + v < t) ⊎ (t + w < s)
disjoint s t v w ne f g = elim (Bool-cases (ltb s t)) [
  | inl before ↦ elim (Bool-cases (ltb (s + v) t)) [
    | inl clear ↦ inl (ground arith)
    | inr inside ↦ absurd (f (ground arith) (ground arith))
  ]
  | inr behind ↦ elim (Bool-cases (ltb (t + w) s)) [
    | inl clear ↦ inr (ground arith)
    | inr inside ↦ absurd (g (ground (arith, ne)) (ground arith))
  ]
]

module _ {V : Type 0} (starts : ℕ → Bool) (entries : List (ℕ × ℕ)) (chunk next : Chunk V)
    (patch p : PendingJumpPatch) (l : IsLayout starts chunk.code)
    (i : IsSite starts chunk.code patch) (q : IsSite starts chunk.code p)
    (d : IsPatched starts entries chunk patch i.site next) where
  -- Two patches at one instruction would have one place.
  site_ne : p.offset_u16_code_index < patch.offset_u16_code_index → q.site ≢ i.site
  site_ne h e =
      let there : some (to_int q.op) ≡ some (to_int i.op) =
        sym q.here ∙ ap (get_elem? chunk.code) e ∙ i.here in
      let same : q.op ≡ i.op = to_int_injective q.op i.op (cc) in
      omega (arith, ap operand_bytes same, q.width, i.width, q.offset_at, i.offset_at)

  -- A patch leaves the other jumps.
  Lands-keeps :
      p.offset_u16_code_index < patch.offset_u16_code_index
      → Lands entries chunk p
      → Lands entries next p
  Lands-keeps h g =
      let ne = site_ne h in
      let there : p.offset_u16_code_index - p.opcode_off_back ≡ q.site =
        omega (arith, q.offset_at) in
      let here : get_elem? chunk.code q.site ≡ some (to_int g.op) =
        ap (get_elem? chunk.code) (sym there) ∙ g.here in
      let equal : some (to_int g.op) ≡ some (to_int q.op) = sym here ∙ q.here in
      let same : g.op ≡ q.op = to_int_injective g.op q.op (cc) in
      let width : operand_bytes g.op ≡ p.opcode_off_back + 1 = ap operand_bytes same ∙ q.width in
      let mine = l.each q.site q.start (get_elem?-some-lt chunk.code q.site (to_int q.op) q.here) in
      let its = l.each i.site i.start (get_elem?-some-lt chunk.code i.site (to_int i.op) i.here) in
      let mine_width = start-width starts chunk.code p q mine in
      let its_width = start-width starts chunk.code patch i its in
      let apart : (q.site + operand_bytes mine.op < i.site)
          ⊎ (i.site + operand_bytes its.op < q.site) =
        disjoint q.site i.site (operand_bytes mine.op) (operand_bytes its.op) ne
          (λ a b. ground (arith, mine.apart i.site a b, i.start))
          (λ a b. ground (arith, its.apart q.site a b, q.start)) in
      record {
        op = g.op;
        target = g.target;
        found = g.found;
        here = rw there (
            elsewhere starts chunk next patch d.op d.offset l i d.runs d.width d.is_set q.site
              q.start ne
            ∙ here);
        jumps = rw there (
            jump_from-cong g.op chunk.code next.code (q.site + 1) d.is_set.size (λ j a b.
              d.is_set.others j (λ e. ground arith) (λ e. ground arith) (λ e. ground arith))
            ∙ (rw there at g.jumps));
      }

Ensures-both {ℓ κ} :
    {A : Type ℓ} (P Q R : A → Type κ) (m : Result A)
    → ((a : A) → P a → Q a → R a)
    → Ensures P m
    → Ensures Q m
    → Ensures R m
Ensures-both P Q R (ok a) f h k = f a h k
Ensures-both P Q R (err e) f h k = tt

-- A chunk that was patched.
pub record IsPatchedAll {V : Type 0} (starts : ℕ → Bool) (entries : List (ℕ × ℕ))
    (patches : List PendingJumpPatch) (next : Chunk V) : Type 0 where
  pub layout : IsLayout starts next.code
  pub places : HasPlaces next
  pub lands : All (λ p. IsForward entries p → Lands entries next p) patches

module _ {V : Type 0} (starts : ℕ → Bool) (entries : List (ℕ × ℕ))
    (known : All (λ e. starts e.1 ≡ true) entries) where
  sites-keep :
      (chunk next : Chunk V) (patch : PendingJumpPatch) (patches : List PendingJumpPatch)
      → (l : IsLayout starts chunk.code) → (i : IsSite starts chunk.code patch)
      → (d : IsPatched starts entries chunk patch i.site next)
      → All (IsSite starts chunk.code) patches
      → All (IsSite starts next.code) patches
  sites-keep chunk next patch patches l i d =
      All-map (IsSite starts chunk.code) (IsSite starts next.code) patches
        (IsRewritten-IsSite starts chunk next patch d.op d.offset l i d.runs d.width d.is_set)

  IsLayout-keep :
      (chunk next : Chunk V) (patch : PendingJumpPatch) (l : IsLayout starts chunk.code)
      (i : IsSite starts chunk.code patch)
      → IsPatched starts entries chunk patch i.site next
      → IsLayout starts next.code
  IsLayout-keep chunk next patch l i d =
      IsRewritten-IsLayout starts chunk next patch d.op d.offset l i d.runs d.width d.is_set

  -- The patches behind a jump leave it.
  apply_patches-Lands :
      (p : PendingJumpPatch) (patches : List PendingJumpPatch) (chunk : Chunk V)
      → IsLayout starts chunk.code
      → IsSite starts chunk.code p
      → All (IsSite starts chunk.code) patches
      → All (λ q. p.offset_u16_code_index < q.offset_u16_code_index) patches
      → (IsForward entries p → Lands entries chunk p)
      → Ensures
          (λ next. IsForward entries p → Lands entries next p)
          (apply_patches entries patches chunk)
  unfolding apply_patches
  apply_patches-Lands p [] chunk l q sites later g = g
  apply_patches-Lands p (patch ∷ patches) chunk l q (i, sites) (before, later) g =
      Ensures-bind (IsPatched starts entries chunk patch i.site)
        (λ next. IsForward entries p → Lands entries next p) (apply_patch entries patch chunk) _
        (apply_patch-IsPatched starts entries chunk patch l known i)
        λ next d.
          apply_patches-Lands p patches next (IsLayout-keep chunk next patch l i d)
            (IsRewritten-IsSite starts chunk next patch d.op d.offset l i d.runs d.width d.is_set p
              q)
            (sites-keep chunk next patch patches l i d sites) later
            (λ f. Lands-keeps starts entries chunk next patch p l i q d before (g f))

  pub apply_patches-IsPatchedAll :
      (patches : List PendingJumpPatch) (chunk : Chunk V)
      → IsLayout starts chunk.code
      → HasPlaces chunk
      → All (IsSite starts chunk.code) patches
      → IsOrdered patches
      → Ensures (IsPatchedAll starts entries patches) (apply_patches entries patches chunk)
  unfolding apply_patches
  apply_patches-IsPatchedAll [] chunk l places sites ordered = record {
    layout = l;
    places = places;
    lands = tt;
  }
  apply_patches-IsPatchedAll (patch ∷ patches) chunk l places (i, sites) (first, ordered) =
      Ensures-bind (IsPatched starts entries chunk patch i.site)
        (IsPatchedAll starts entries (patch ∷ patches)) (apply_patch entries patch chunk) _
        (apply_patch-IsPatched starts entries chunk patch l known i)
        λ next d.
          let layout = IsLayout-keep chunk next patch l i d in
          let rest = sites-keep chunk next patch patches l i d sites in
          Ensures-both _ _ _ (apply_patches entries patches next)
            (λ last h k. record { layout = k.layout; places = k.places; lands = (h, k.lands) })
            (apply_patches-Lands patch patches next layout
              (IsRewritten-IsSite starts chunk next patch d.op d.offset l i d.runs d.width d.is_set
                patch i)
              rest first d.lands)
            (apply_patches-IsPatchedAll patches next layout
              (IsRewritten-HasPlaces starts chunk next patch d.op d.offset l i d.runs d.width
                d.is_set places)
              rest ordered)
