-- ===== src/Domain/Report.antt =====
-- What a clean report of the domain checks says (src/l1_domain/validator.cpp).
use niki.Prelude.{
  ℕ, ◌+◌, ◌^◌, ◌<◌, ◌≡◌, ◌≢◌, ◌↔◌, refl, sym, ap, ◌∙◌, true, false, not, ◌&&◌, List, [], ◌∷◌,
  Option, none, some, inl, inr, arith, ◌==◌, if◌then◌else◌, Bool-cases, Option-cases, length,
  get_elem?, get_elem?-some-lt,
}
use niki.Ir.Kinds.{
  symbol_id_mismatch, symbol_name_ref_out_of_range, symbol_owner_module_ref_out_of_range,
  duplicate_exported_symbol_name,
}
use niki.Ir.Module.{SymRecord, KitsRecord, ModuleIr}
use niki.Ir.Row.{get_elem?-lt}
use niki.Ir.Checks.{unknown_index, clean, add_if_iff, both_says}
use niki.Domain.Seen.{member, insert, each_seen, IsRound, each_seen_iff}
use niki.Domain.Validator.{outside, check_kits, check_component, check_symbol, append_domain_checks}
use niki.Domain.Legal.{IsLegalSymbol, IsLegalDomain, each_entry_iff, check_component_iff}
use niki.Domain.Windows.{check_kits_iff}
use niki.Ir.Verify.{verify, check_domain}
use niki.Ir.Verify.Functions.{IsWellFormed, HasRoom, verify_iff}

-- The name of the symbol at an index, if it is exported.
export_at : ModuleIr → ℕ → Option ℕ
export_at m j = elim (get_elem? m.syms j) [
  | none ↦ none
  | some s ↦ if s.is_exported then some s.sym_name_sid else none
]

export_at-some :
    (m : ModuleIr) (j : ℕ) (s : SymRecord)
    → get_elem? m.syms j ≡ some s
    → s.is_exported ≡ true
    → export_at m j ≡ some s.sym_name_sid
unfolding export_at
export_at-some m j s e x = rw (e, export_at, x) refl

export_at-symbol :
    (m : ModuleIr) (j x : ℕ)
    → export_at m j ≡ some x
    → (s : SymRecord) × (get_elem? m.syms j ≡ some s)
      × (s.is_exported ≡ true)
      × (s.sym_name_sid ≡ x)
unfolding export_at
export_at-symbol m j x h = elim (Option-cases (get_elem? m.syms j)) [
  | inl e ↦ let none_there : none ≡ some x = rw (e, export_at) at h in cc
  | inr (s, e) ↦
      let there : (if s.is_exported then some s.sym_name_sid else none) ≡ some x =
        rw (e, export_at) at h in
      elim (Bool-cases s.is_exported) [
        | inl q ↦ let same : some s.sym_name_sid ≡ some x = rw q at there in (s, e, q, cc)
        | inr q ↦ let none_there : none ≡ some x = rw q at there in cc
      ]
]

-- The symbol at an index is legal.
IsLegalAt : ModuleIr → ℕ → Type 0
IsLegalAt m j = (s : SymRecord) → get_elem? m.syms j ≡ some s → IsLegalSymbol m j s

exported_insert :
    (s : SymRecord) (names : List ℕ)
    → (if s.is_exported then s.sym_name_sid ∷ names else names)
      ≡ insert (if s.is_exported then some s.sym_name_sid else none) names
unfolding insert
exported_insert s names = elim (Bool-cases s.is_exported) [ inl q ↦ rw q refl | inr q ↦ rw q refl ]

exported_iff :
    (s : SymRecord) (names : List ℕ)
    → ((s.is_exported && member s.sym_name_sid names) ≡ false) ↔ (
        (k : ℕ)
        → (if s.is_exported then some s.sym_name_sid else none) ≡ some k
        → member k names ≡ false)
exported_iff s names = elim (Bool-cases s.is_exported) [
  | inl q ↦
      rw q (λ h k e. let same : s.sym_name_sid ≡ k = cc in rw same at h, λ h. h s.sym_name_sid refl)
  | inr q ↦ rw q (λ h k e. cc, λ h. refl)
]

symbol_iff :
    (m : ModuleIr) (j : ℕ) (s : SymRecord) (names : List ℕ)
    → get_elem? m.syms j ≡ some s
    → ((check_symbol m j names).0 ≡ clean)
      ↔ (IsLegalSymbol m j s × ((s.is_exported && member s.sym_name_sid names) ≡ false))
unfolding check_symbol
symbol_iff m j s names e =
    let parts =
      both_says _ _
        (add_if_iff (not (s.sym_id == j)) symbol_id_mismatch j unknown_index unknown_index)
        (both_says _ _
          (add_if_iff (outside m s.sym_name_sid) symbol_name_ref_out_of_range j unknown_index
            unknown_index)
          (both_says _ _
            (add_if_iff (outside m s.owner_mod_sid) symbol_owner_module_ref_out_of_range j
              unknown_index unknown_index)
            (add_if_iff (s.is_exported && member s.sym_name_sid names)
              duplicate_exported_symbol_name j unknown_index unknown_index))) in
    rw (e, check_symbol)
      (
        λ c.
            let (id, (name, (owner, fresh))) = parts.0 c in
            (record { id = ground arith; name = ground arith; owner = ground arith }, fresh),
        λ (l, fresh).
            parts.1
              (ground (arith, l.id), (ground (arith, l.name), (ground (arith, l.owner), fresh))),
      )

symbol-IsRound :
    (m : ModuleIr) (j : ℕ)
    → j < length m.syms
    → IsRound (check_symbol m) (export_at m) (IsLegalAt m) j
unfolding check_symbol export_at IsLegalAt
symbol-IsRound m j h =
    let (s, e) = get_elem?-lt m.syms j h in
    record {
      next = λ seen. rw (e, export_at, check_symbol) (exported_insert s seen);
      says = λ seen.
          let one = symbol_iff m j s seen e in
          let names = exported_iff s seen in
          (
            λ c.
                let (legal, fresh) = one.0 c in
                (
                  λ t f. let same : s ≡ t = cc in rw (sym same) legal,
                  λ k q. names.0 fresh k (rw (e, export_at) at q),
                ),
            λ (legal, fresh). one.1 (legal s e, names.1 (λ k q. fresh k (rw (e, export_at) q))),
          );
    }

symbols_iff :
    (m : ModuleIr)
    → (each_seen (length m.syms) 0 [] (check_symbol m) ≡ clean) ↔ (
        ((i : ℕ) (s : SymRecord) → get_elem? m.syms i ≡ some s → IsLegalSymbol m i s)
        × ((i j : ℕ) (s t : SymRecord)
            → i < j
            → get_elem? m.syms i ≡ some s
            → get_elem? m.syms j ≡ some t
            → s.is_exported ≡ true
            → t.is_exported ≡ true
            → s.sym_name_sid ≢ t.sym_name_sid))
unfolding member IsLegalAt
symbols_iff m =
    let rounds =
      each_seen_iff (check_symbol m) (export_at m) (IsLegalAt m) (length m.syms) 0 []
        (λ j lo hi. symbol-IsRound m j (omega arith)) in
    (
      λ h.
          let r = rounds.0 h in
          (
            λ i s e. r.holds i (omega arith) (omega (arith, get_elem?-some-lt m.syms i s e)) s e,
            λ i j s t lt p q x y same.
                r.distinct i j s.sym_name_sid (omega arith) lt
                  (omega (arith, get_elem?-some-lt m.syms j t q)) (export_at-some m i s p x)
                  (export_at-some m j t q y ∙ ap some (sym same)),
          ),
      λ (legal, distinct). rounds.1 (record {
        holds = λ j lo hi s e. legal j s e;
        fresh = λ j k lo hi e. refl;
        distinct = λ i j k lo mid hi e f.
            let (s, p, x, u) = export_at-symbol m i k e in
            let (t, q, y, v) = export_at-symbol m j k f in distinct i j s t mid p q x y (u ∙ sym v);
      }),
    )

-- No window of a kits record reaches 2 ^ 32.
abbrev pub HasKitsRoom : ModuleIr → Type 0
HasKitsRoom m =
    (i : ℕ) (k : KitsRecord) → get_elem? m.kits i ≡ some k → k.first_item + k.item_count < 2 ^ 32

-- Where no window of a kits record reaches 2 ^ 32, the domain checks read nothing outside of a table
-- and report no issue exactly if every kits record, component and symbol is legal and no two
-- exported symbols have one name.
pub append_domain_checks_iff :
    (m : ModuleIr) → HasKitsRoom m → (append_domain_checks m ≡ clean) ↔ IsLegalDomain m
unfolding append_domain_checks
append_domain_checks_iff m room =
    let kits = each_entry_iff m.kits (check_kits m) in
    let components = each_entry_iff m.components (check_component m) in
    let symbols = symbols_iff m in
    let parts = both_says _ _ kits (both_says _ _ components symbols) in
    (
      λ h.
          let (a, (b, c)) = parts.0 h in
          record {
            kits = λ i k e. (check_kits_iff m i k (room i k e)).0 (a i k e);
            components = λ i k e. (check_component_iff m i k).0 (b i k e);
            symbols = c.0;
            exports = c.1;
          },
      λ l. parts.1 (
        λ i k e. (check_kits_iff m i k (room i k e)).1 (l.kits i k e),
        (λ i k e. (check_component_iff m i k).1 (l.components i k e), (l.symbols, l.exports)),
      ),
    )

-- Where no interval and no window reaches 2 ^ 32, the verifier with the domain checks registered
-- reports no issue exactly if the module is well formed and its domain records are legal.
pub verify_domain_iff :
    (m : ModuleIr)
    → HasRoom m
    → HasKitsRoom m
    → (verify (some append_domain_checks) m ≡ clean) ↔ (IsLegalDomain m × IsWellFormed m)
unfolding check_domain
verify_domain_iff m room kits_room =
    let all = verify_iff (some append_domain_checks) m room in
    let domain = append_domain_checks_iff m kits_room in
    (λ h. let (d, w) = all.0 h in (domain.0 d, w), λ (l, w). all.1 (domain.1 l, w))
