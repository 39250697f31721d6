-- ===== src/Linker/Symbols.antt =====
-- What the loop of the linker over the definitions of the modules leaves behind
-- (src/l0_core/linker/linker_facade.cpp).
use niki.Prelude.{
  ℕ, zero, suc, ◌+◌, ◌≡◌, refl, sym, ap, ◌∙◌, false, List, [], ◌∷◌, ◌++◌, map, none, some, inl, inr,
  Bool-cases, bytes_eq, arith, if◌then◌else◌, length, get_elem?,
}
use niki.Pool.Ids.{IsDistinct, IsDistinct-cons, IsDistinct-tail}
use niki.Pool.Mapped.{lookup, lookup-cons}
use niki.Pool.Strings.{Bytes, bytes, bytes_eq_iff}
use niki.Linker.Declare.{declare, IsCovered, declare-Declared}
use niki.Linker.Link.{
  CompileModule, LinkOptions, SymbolDef, keys, Names, defined_symbols, declare_all, declare_modules,
}

-- The definitions of all modules, each with the id of its module.
unfoldable pub definitions : {V : Type 0} → List (CompileModule V) → List (ℕ × SymbolDef)
definitions [] = []
definitions (u ∷ us) = map (λ d. (u.module_id, d)) (defined_symbols u) ++ definitions us

-- The definitions that the entry's name stands for.
unfoldable pub entries : LinkOptions → List (ℕ × SymbolDef) → List (ℕ × SymbolDef)
entries options [] = []
entries options ((u, d) ∷ ds) =
    if bytes_eq d.name options.entry_name then (u, d) ∷ entries options ds else entries options ds

-- The loop over a sequence of definitions.
unfoldable pub run : LinkOptions → List (ℕ × SymbolDef) → Names → Names
run options [] st = st
run options ((u, d) ∷ ds) st = run options ds (declare options u d st)

module _ (options : LinkOptions) where
  run-append :
      (a b : List (ℕ × SymbolDef)) (st : Names)
      → run options (a ++ b) st ≡ run options b (run options a st)
  unfolding run
  run-append [] b st = refl
  run-append ((u, d) ∷ a) b st = run-append a b (declare options u d st)

  run-declare_all :
      (u : ℕ) (ds : List SymbolDef) (st : Names)
      → declare_all options u ds st ≡ run options (map (λ d. (u, d)) ds) st
  unfolding run declare_all declare
  run-declare_all u [] st = refl
  run-declare_all u (d ∷ ds) st = run-declare_all u ds (declare options u d st)

  pub run-declare_modules :
      {V : Type 0} (us : List (CompileModule V)) (st : Names)
      → declare_modules options us st ≡ run options (definitions us) st
  unfolding run declare_modules definitions
  run-declare_modules [] st = refl
  run-declare_modules (u ∷ us) st =
      rw
        (
          run-append (map (λ d. (u.module_id, d)) (defined_symbols u)) (definitions us) st,
          sym (run-declare_all u.module_id (defined_symbols u) st),
        )
        (run-declare_modules us (declare_all options u.module_id (defined_symbols u) st))

  -- The names of a sequence of definitions are new and differ from each other.
  unfoldable pub AreFresh : List (ℕ × SymbolDef) → List (Bytes × Bytes) → Type 0
  AreFresh [] g = Unit
  AreFresh ((u, d) ∷ ds) g = (lookup d.name g ≡ none) × AreFresh ds ((d.name, d.module_path) ∷ g)

  run_starts :
      (ds : List (ℕ × SymbolDef)) (st : Names)
      → (run options ds st).diagnostics ≡ []
      → st.diagnostics ≡ []
  unfolding run
  run_starts [] st h = h
  run_starts ((u, d) ∷ ds) st h =
      ((declare-Declared options u d st).reported (run_starts ds (declare options u d st) h)).0

  pub run_reported :
      (ds : List (ℕ × SymbolDef)) (st : Names)
      → IsCovered options st
      → (run options ds st).diagnostics ≡ []
      → (st.diagnostics ≡ []) × AreFresh ds st.global
  unfolding run AreFresh
  run_reported [] st c h = (h, record {})
  run_reported ((u, d) ∷ ds) st c h =
      let known = declare-Declared options u d st in
      let (none_yet, g) = known.reported (run_starts ds (declare options u d st) h) in
      let q = known.fresh c g in
      let r = run_reported ds (declare options u d st) q.2 h in (none_yet, (g, rw (sym q.1) r.1))

  pub run_fresh :
      (ds : List (ℕ × SymbolDef)) (st : Names)
      → IsCovered options st
      → AreFresh ds st.global
      → (run options ds st).diagnostics ≡ st.diagnostics
  unfolding run AreFresh
  run_fresh [] st c f = refl
  run_fresh ((u, d) ∷ ds) st c f =
      let q = (declare-Declared options u d st).fresh c f.0 in
      run_fresh ds (declare options u d st) q.2 (rw q.1 f.1) ∙ q.0

  -- The entry that the loop ends with.
  pub run_count :
      (ds : List (ℕ × SymbolDef)) (st : Names)
      → (run options ds st).entry_count ≡ st.entry_count + length (entries options ds)
  unfolding run entries
  run_count [] st = omega arith
  run_count ((u, d) ∷ ds) st =
      let known = declare-Declared options u d st in
      let rest = run_count ds (declare options u d st) in
      elim (Bool-cases (bytes_eq d.name options.entry_name)) [
        | inl e ↦ rw e (omega (arith, rest, (known.hit e).0))
        | inr e ↦ rw e (omega (arith, rest, (known.miss e).0))
      ]

  run_none :
      (ds : List (ℕ × SymbolDef)) (st : Names)
      → entries options ds ≡ []
      → ((run options ds st).entry_id ≡ st.entry_id)
        × ((run options ds st).entry_module_id ≡ st.entry_module_id)
  unfolding run entries
  run_none [] st h = (refl, refl)
  run_none ((u, d) ∷ ds) st h = elim (Bool-cases (bytes_eq d.name options.entry_name)) [
    | inl e ↦ let some_entry : (u, d) ∷ entries options ds ≡ [] = rw e at h in cc
    | inr e ↦
        let q = (declare-Declared options u d st).miss e in
        let r = run_none ds (declare options u d st) (rw e at h) in (r.0 ∙ q.1, r.1 ∙ q.2)
  ]

  pub run_one :
      (ds : List (ℕ × SymbolDef)) (st : Names) (u : ℕ) (d : SymbolDef)
      → entries options ds ≡ (u, d) ∷ []
      → ((run options ds st).entry_id ≡ d.id) × ((run options ds st).entry_module_id ≡ u)
  unfolding run entries
  run_one [] st u d h = cc
  run_one ((v, c) ∷ ds) st u d h = elim (Bool-cases (bytes_eq c.name options.entry_name)) [
    | inl e ↦
        let same : (v, c) ∷ entries options ds ≡ (u, d) ∷ [] = rw e at h in
        let rest : entries options ds ≡ [] = cc in
        let id : c.id ≡ d.id = cc in
        let unit : v ≡ u = cc in
        let q = (declare-Declared options v c st).hit e in
        let r = run_none ds (declare options v c st) rest in (r.0 ∙ q.1 ∙ id, r.1 ∙ q.2 ∙ unit)
    | inr e ↦ run_one ds (declare options v c st) u d (rw e at h)
  ]

abbrev pub names : List (ℕ × SymbolDef) → List Bytes
names ds = map (λ p. p.1.name) ds

fresh_cases :
    (ds : List (ℕ × SymbolDef)) (first n : Bytes) (g : List (Bytes × Bytes)) (i : ℕ)
    → lookup first g ≡ none
    → ((j : ℕ) → get_elem? (names ds) j ≡ some n → lookup n g ≡ none)
    → get_elem? (first ∷ names ds) i ≡ some n
    → lookup n g ≡ none
fresh_cases ds first n g zero f r e =
    let same : first ≡ n = cc in ap (λ (x : Bytes). lookup x g) (sym same) ∙ f
fresh_cases ds first n g (suc i) f r e = r i e

-- New names are distinct names that the map does not have.
pub AreFresh-IsDistinct :
    (options : LinkOptions) (ds : List (ℕ × SymbolDef)) (g : List (Bytes × Bytes))
    → AreFresh options ds g
    → IsDistinct (names ds)
      × ((i : ℕ) (n : Bytes) → get_elem? (names ds) i ≡ some n → lookup n g ≡ none)
unfolding AreFresh
AreFresh-IsDistinct options [] g f = (λ i j a p q. cc, λ i n e. cc)
AreFresh-IsDistinct options ((u, d) ∷ ds) g (f, fs) =
    let r = AreFresh-IsDistinct options ds ((d.name, d.module_path) ∷ g) fs in
    let other : (j : ℕ) (n : Bytes)
        → get_elem? (names ds) j ≡ some n
        → (bytes_eq d.name n ≡ false) × (lookup n g ≡ none) =
      (λ j n e. ground (arith, r.1 j n e, lookup-cons d.name n d.module_path g)) in
    (
      IsDistinct-cons d.name (names ds)
          (λ j e. ground (arith, other j d.name e, (bytes_eq_iff d.name d.name).1 refl)) r.0,
      λ i n e. fresh_cases ds d.name n g i f (λ j p. (other j n p).1) e,
    )

pub distinct-AreFresh :
    (options : LinkOptions) (ds : List (ℕ × SymbolDef)) (g : List (Bytes × Bytes))
    → IsDistinct (names ds)
    → ((i : ℕ) (n : Bytes) → get_elem? (names ds) i ≡ some n → lookup n g ≡ none)
    → AreFresh options ds g
unfolding AreFresh
distinct-AreFresh options [] g a h = record {}
distinct-AreFresh options ((u, d) ∷ ds) g a h =
    let (rest, off) = IsDistinct-tail d.name (names ds) a in
    (
      h 0 d.name refl,
      distinct-AreFresh options ds ((d.name, d.module_path) ∷ g) rest (λ i n e. ground (
        arith,
        off i,
        h (suc i) n e,
        lookup-cons d.name n d.module_path g,
        bytes_eq_iff d.name n,
      )),
    )
