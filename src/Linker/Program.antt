-- ===== src/Linker/Program.antt =====
-- When the linker succeeds, and with what (`linkModules` of src/l0_core/linker/linker_facade.cpp).
use niki.Prelude.{
  ℕ, ◌≡◌, ◌≢◌, ◌↔◌, refl, sym, ap, ◌∙◌, List, [], ◌∷◌, ◌++◌, map, inl, inr, ◌⊎◌, Bool-cases, ltb,
  ◌==◌, arith, length,
}
use niki.Pool.Ids.{IsDistinct}
use niki.Pool.Mapped.{lookup}
use niki.Linker.Link.{
  CompileModule, LinkOptions, SymbolDef, LinkedProgram, linked, failed, Names, no_names,
  link_errors, link, merged_string_pool, declare_modules,
}
use niki.Linker.Symbols.{
  definitions, entries, names, run, run-declare_modules, run_reported, run_fresh, run_count,
  run_one, AreFresh-IsDistinct, distinct-AreFresh,
}

-- No name is defined twice, exactly one definition has the name of the entry, and the program has
-- the chunks in order, that definition as its entry, and the merged pool.
pub record IsLinked {V : Type 0} (options : LinkOptions) (us : List (CompileModule V))
    (p : LinkedProgram V) : Type 0 where
  pub nonempty : us ≢ []
  pub distinct : IsDistinct (names (definitions us))
  pub entry_definition : ℕ × SymbolDef
  pub entry : entries options (definitions us) ≡ entry_definition ∷ []
  pub program : p ≡ record {
    init_chunks = map (λ u. u.init_chunk) us;
    entry_name_id = entry_definition.1.id;
    entry_module_id = entry_definition.0;
    string_pool = (merged_string_pool us (record { pool = []; ids = [] })).pool;
  }

one_entry : {A : Type 0} (xs : List A) → length xs ≡ 1 → (x : A) × (xs ≡ x ∷ [])
one_entry [] h = cc
one_entry (x ∷ []) h = (x, refl)
one_entry (x ∷ y ∷ xs) h = absurd (omega arith)

append_empty : {A : Type 0} (xs : List A) (x : A) → xs ++ x ∷ [] ≢ []
append_empty [] x h = cc
append_empty (y ∷ xs) x h = cc

-- Nothing is reported exactly if one entry was counted and no name was reported.
link_errors_iff :
    (options : LinkOptions) (st : Names)
    → (link_errors options st ≡ []) ↔ ((st.entry_count ≡ 1) × (st.diagnostics ≡ []))
unfolding link_errors
link_errors_iff options st = elim (Bool-cases (ltb 1 st.entry_count)) [
  | inl e ↦ rw e (λ h. absurd (append_empty st.diagnostics _ h), λ h. absurd (ground (arith, h.0)))
  | inr e ↦ elim (Bool-cases (st.entry_count == 0)) [
    | inl f ↦
        rw (e, f) (λ h. absurd (append_empty st.diagnostics _ h), λ h. absurd (ground (arith, h.0)))
    | inr f ↦ rw (e, f) (λ h. (ground arith, h), λ h. h.1)
  ]
]

-- What the loop over all modules reports, and the entry that it finds.
errors_iff :
    {V : Type 0} (options : LinkOptions) (us : List (CompileModule V))
    → (link_errors options (declare_modules options us no_names) ≡ []) ↔ (
        IsDistinct (names (definitions us))
        × ((e : ℕ × SymbolDef) × (entries options (definitions us) ≡ e ∷ [])))
unfolding lookup
errors_iff options us =
    let ds = definitions us in
    let final = run-declare_modules options us no_names in
    let errors = link_errors_iff options (run options ds no_names) in
    let count = run_count options ds no_names in
    rw final (
      λ h.
          let (one, silent) = errors.0 h in
          let (_, fresh) = run_reported options ds no_names (λ u n path e g. cc) silent in
          (
            (AreFresh-IsDistinct options ds [] fresh).0,
            one_entry (entries options ds) (omega (arith, count, one)),
          ),
      λ (d, (e, one)). errors.1 (
        rw one at count,
        run_fresh options ds no_names (λ u n path e g. cc)
            (distinct-AreFresh options ds [] d (λ i n q. refl)),
      ),
    )

List-cases : {A : Type 0} (xs : List A) → (xs ≡ []) ⊎ ((x : A) × (ys : List A) × (xs ≡ x ∷ ys))
List-cases [] = inl refl
List-cases (x ∷ xs) = inr (x, xs, refl)

-- The program that the linker returns where it reports nothing.
program_of : {V : Type 0} → LinkOptions → List (CompileModule V) → LinkedProgram V
program_of options us =
    let st = declare_modules options us no_names in
    record {
      init_chunks = map (λ u. u.init_chunk) us;
      entry_name_id = st.entry_id;
      entry_module_id = st.entry_module_id;
      string_pool = (merged_string_pool us (record { pool = []; ids = [] })).pool;
    }

link_cases :
    {V : Type 0} (options : LinkOptions) (u : CompileModule V) (us : List (CompileModule V))
    → let errors = link_errors options (declare_modules options (u ∷ us) no_names) in
      ((errors ≡ []) × (link options (u ∷ us) ≡ linked (program_of options (u ∷ us))))
      ⊎ ((errors ≢ []) × (link options (u ∷ us) ≡ failed errors))
unfolding link program_of
link_cases options u us =
    elim (List-cases (link_errors options (declare_modules options (u ∷ us) no_names))) [
      | inl e ↦ inl (e, rw (e, link) refl)
      | inr (x, ys, e) ↦ inr (λ f. cc, rw (e, link) refl)
    ]

entry_of :
    {V : Type 0} (options : LinkOptions) (us : List (CompileModule V)) (e : ℕ × SymbolDef)
    → entries options (definitions us) ≡ e ∷ []
    → program_of options us ≡ record {
      init_chunks = map (λ u. u.init_chunk) us;
      entry_name_id = e.1.id;
      entry_module_id = e.0;
      string_pool = (merged_string_pool us (record { pool = []; ids = [] })).pool;
    }
unfolding program_of
entry_of options us e one =
    let r = run_one options (definitions us) no_names e.0 e.1 one in
    rw (run-declare_modules options us no_names, r.0, r.1) refl

-- The linker succeeds with a program exactly if there is a module, no name is defined twice in the
-- whole program, and exactly one definition has the name of the entry; the program then holds the
-- chunks of the modules in their order, the id and the module of that definition, and the merged pool.
pub link_iff :
    {V : Type 0} (options : LinkOptions) (us : List (CompileModule V)) (p : LinkedProgram V)
    → (link options us ≡ linked p) ↔ IsLinked options us p
unfolding link
link_iff options [] p = (λ h. cc, λ l. absurd (l.nonempty refl))
link_iff options (u ∷ us) p =
    let good = errors_iff options (u ∷ us) in
    elim (link_cases options u us) [
      | inl (none_left, result) ↦
          let (distinct, (e, one)) = good.0 none_left in
          (
            λ h.
                let same : linked (program_of options (u ∷ us)) ≡ linked p = sym result ∙ h in
                let program : program_of options (u ∷ us) ≡ p = cc in
                record {
                  nonempty = λ f. cc;
                  distinct = distinct;
                  entry_definition = e;
                  entry = one;
                  program = sym program ∙ entry_of options (u ∷ us) e one;
                },
            λ l.
                result
                ∙ ap linked (entry_of options (u ∷ us) l.entry_definition l.entry ∙ sym l.program),
          )
      | inr (some_left, result) ↦
          (λ h. cc, λ l. absurd (some_left (good.1 (l.distinct, (l.entry_definition, l.entry)))))
    ]
