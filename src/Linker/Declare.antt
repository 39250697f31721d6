-- ===== src/Linker/Declare.antt =====
-- One round of the loop of the linker over the definitions (src/l0_core/linker/linker_facade.cpp).
use niki.Prelude.{
  ℕ, ◌+◌, ◌≡◌, ◌≢◌, refl, sym, ap, ◌∙◌, true, false, List, [], ◌∷◌, ◌++◌, none, some, inl, inr,
  Bool-cases, Option-cases, bytes_eq, arith, ◌==◌, ◌&&◌,
}
use niki.Pool.Mapped.{lookup, lookup-cons}
use niki.Pool.Strings.{Bytes, bytes}
use niki.Linker.Link.{
  LinkOptions, SymbolDef, PerModuleSymbolKey, keys, Names, declare_in_module, declare_exported,
  resolve_entry,
}

-- One round of the loop.
unfoldable pub declare : LinkOptions → ℕ → SymbolDef → Names → Names
declare options u d st = resolve_entry options u d (declare_exported d (declare_in_module u d st))

module _ (options : LinkOptions) where
  -- A name that a module has is a name that the program has.
  abbrev pub IsCovered : Names → Type 0
  IsCovered st =
      (u : ℕ) (n path : Bytes)
      → lookup (record { module_id = u; name = n }) st.per_module ≡ some path
      → lookup n st.global ≢ none

  -- One definition, reported or not.
  pub record Declared (u : ℕ) (d : SymbolDef) (st next : Names) : Type 0 where
    pub reported : next.diagnostics ≡ [] → (st.diagnostics ≡ []) × (lookup d.name st.global ≡ none)
    pub fresh :
        IsCovered st
        → lookup d.name st.global ≡ none
        → (next.diagnostics ≡ st.diagnostics)
          × (next.global ≡ (d.name, d.module_path) ∷ st.global)
          × IsCovered next
    pub hit :
        bytes_eq d.name options.entry_name ≡ true
        → (next.entry_count ≡ st.entry_count + 1)
          × (next.entry_id ≡ d.id)
          × (next.entry_module_id ≡ u)
    pub miss :
        bytes_eq d.name options.entry_name ≡ false
        → (next.entry_count ≡ st.entry_count)
          × (next.entry_id ≡ st.entry_id)
          × (next.entry_module_id ≡ st.entry_module_id)

  append_empty : {A : Type 0} (xs : List A) (x : A) → xs ++ x ∷ [] ≢ []
  append_empty [] x h = cc
  append_empty (y ∷ xs) x h = cc

  -- A first definition extends both maps.
  new_name : SymbolDef → ℕ → Names → Names
  new_name d u st = record st {
    per_module = (record { module_id = u; name = d.name }, d.module_path) ∷ st.per_module;
    global = (d.name, d.module_path) ∷ st.global;
  }

  new_name-IsCovered :
      (u : ℕ) (d : SymbolDef) (st : Names) → IsCovered st → IsCovered (new_name d u st)
  unfolding new_name
  new_name-IsCovered u d st c v n path h g =
      let key : PerModuleSymbolKey = record { module_id = u; name = d.name } in
      let other : PerModuleSymbolKey = record { module_id = v; name = n } in
      let l = lookup-cons d.name n d.module_path st.global in
      let k = lookup-cons key other d.module_path st.per_module in
      elim (Bool-cases (bytes_eq d.name n)) [
        | inl e ↦ ground (arith, l)
        | inr e ↦
            let off : (u == v && bytes_eq d.name n) ≡ false = ground arith in
            let before : lookup other st.per_module ≡ some path = rw (k, off) at h in
            c v n path before (rw (l, e) at g)
      ]

  resolve_same :
      (u : ℕ) (d : SymbolDef) (st : Names)
      → let next = resolve_entry options u d st in
        (next.diagnostics ≡ st.diagnostics)
        × (next.global ≡ st.global)
        × (next.per_module ≡ st.per_module)
  unfolding resolve_entry
  resolve_same u d st = elim (Bool-cases (bytes_eq d.name options.entry_name)) [
    | inl e ↦ rw e (refl, refl, refl)
    | inr e ↦ rw e (refl, refl, refl)
  ]

  resolve_hit :
      (u : ℕ) (d : SymbolDef) (st : Names)
      → bytes_eq d.name options.entry_name ≡ true
      → let next = resolve_entry options u d st in
        (next.entry_count ≡ st.entry_count + 1)
        × (next.entry_id ≡ d.id)
        × (next.entry_module_id ≡ u)
  unfolding resolve_entry
  resolve_hit u d st e = rw e (refl, refl, refl)

  resolve_miss :
      (u : ℕ) (d : SymbolDef) (st : Names)
      → bytes_eq d.name options.entry_name ≡ false
      → resolve_entry options u d st ≡ st
  unfolding resolve_entry
  resolve_miss u d st e = rw e refl

  -- What neither map entry touches.
  record SameEntry (st next : Names) : Type 0 where
    pub count : next.entry_count ≡ st.entry_count
    pub id : next.entry_id ≡ st.entry_id
    pub module_id : next.entry_module_id ≡ st.entry_module_id

  in_module_lem :
      (u : ℕ) (d : SymbolDef) (st : Names)
      → let next = declare_in_module u d st in
        SameEntry st next
        × (next.global ≡ st.global)
        × (next.diagnostics ≡ [] → st.diagnostics ≡ [])
  unfolding declare_in_module
  in_module_lem u d st =
      elim (Option-cases (lookup (record { module_id = u; name = d.name }) st.per_module)) [
        | inl k ↦
            rw (k, declare_in_module)
              (record { count = refl; id = refl; module_id = refl }, refl, λ h. h)
        | inr (path, k) ↦
            rw (k, declare_in_module)
              (
                record { count = refl; id = refl; module_id = refl },
                refl,
                λ h. absurd (append_empty st.diagnostics _ h),
              )
      ]

  exported_lem :
      (d : SymbolDef) (st : Names)
      → let next = declare_exported d st in
        SameEntry st next
        × (next.diagnostics ≡ [] → (st.diagnostics ≡ []) × (lookup d.name st.global ≡ none))
  unfolding declare_exported
  exported_lem d st = elim (Option-cases (lookup d.name st.global)) [
    | inl k ↦
        rw (k, declare_exported)
          (record { count = refl; id = refl; module_id = refl }, λ h. (h, refl))
    | inr (path, k) ↦
        rw (k, declare_exported)
          (
            record { count = refl; id = refl; module_id = refl },
            λ h. absurd (append_empty st.diagnostics _ h),
          )
  ]

  in_module_first :
      (u : ℕ) (d : SymbolDef) (st : Names)
      → lookup (record { module_id = u; name = d.name }) st.per_module ≡ none
      → declare_in_module u d st ≡ record st {
        per_module = (record { module_id = u; name = d.name }, d.module_path) ∷ st.per_module;
      }
  unfolding declare_in_module
  in_module_first u d st k = rw (k, declare_in_module) refl

  exported_first :
      (d : SymbolDef) (st : Names)
      → lookup d.name st.global ≡ none
      → declare_exported d st ≡ record st { global = (d.name, d.module_path) ∷ st.global }
  unfolding declare_exported
  exported_first d st k = rw (k, declare_exported) refl

  -- A name that the program does not have yet is reported by neither test.
  maps_fresh :
      (u : ℕ) (d : SymbolDef) (st : Names)
      → IsCovered st
      → lookup d.name st.global ≡ none
      → declare_exported d (declare_in_module u d st) ≡ new_name d u st
  unfolding new_name
  maps_fresh u d st c g =
      elim (Option-cases (lookup (record { module_id = u; name = d.name }) st.per_module)) [
        | inl k ↦
            ap (declare_exported d) (in_module_first u d st k)
            ∙ exported_first d
                (record st {
                  per_module =
                      (record { module_id = u; name = d.name }, d.module_path) ∷ st.per_module;
                })
                g
        | inr (path, k) ↦ absurd (c u d.name path k g)
      ]

  pub declare-Declared :
      (u : ℕ) (d : SymbolDef) (st : Names) → Declared u d st (declare options u d st)
  unfolding declare new_name
  declare-Declared u d st =
      let mid = declare_in_module u d st in
      let maps = declare_exported d mid in
      let a = in_module_lem u d st in
      let b = exported_lem d mid in
      let r = resolve_same u d maps in
      record {
        reported = λ h. let g = b.1 (sym r.0 ∙ h) in (a.2 g.0, ap (lookup d.name) (sym a.1) ∙ g.1);
        fresh = λ c g.
            let m = maps_fresh u d st c g in
            let global = r.1 ∙ ap (λ (x : Names). x.global) m in
            let per_module = r.2 ∙ ap (λ (x : Names). x.per_module) m in
            (
              r.0 ∙ ap (λ (x : Names). x.diagnostics) m,
              global,
              λ v n path h q.
                  new_name-IsCovered u d st c v n path
                    (ap (lookup (record { module_id = v; name = n })) (sym per_module) ∙ h)
                    (ap (lookup n) (sym global) ∙ q),
            );
        hit = λ e.
            let q = resolve_hit u d maps e in
            (q.0 ∙ ap (λ (x : ℕ). x + 1) (b.0.count ∙ a.0.count), q.1, q.2);
        miss = λ e.
            let q = resolve_miss u d maps e in
            (
              ap (λ (x : Names). x.entry_count) q ∙ b.0.count ∙ a.0.count,
              ap (λ (x : Names). x.entry_id) q ∙ b.0.id ∙ a.0.id,
              ap (λ (x : Names). x.entry_module_id) q ∙ b.0.module_id ∙ a.0.module_id,
            );
      }
