-- ===== src/Domain/Windows.antt =====
-- What a clean report says of one kits record (src/l1_domain/validator.cpp).
use native.Mathlib.Nat.{mod-eq_of_lt}
use niki.Prelude.{
  ℕ, ◌+◌, ◌^◌, ◌≤◌, ◌<◌, ◌≡◌, ◌≢◌, ◌↔◌, refl, sym, ap, ◌∙◌, [], Option, none, some, inl, inr, arith,
  ltb, Option-cases, length, get_elem?,
}
use niki.Ir.Kinds.{
  kits_item_span_out_of_range, kits_name_ref_out_of_range, kits_owner_module_ref_out_of_range,
}
use niki.Ir.Module.{KitsItemRecord, KitsRecord, ModuleIr}
use niki.Ir.Row.{get_elem?-lt}
use niki.Ir.Checks.{
  unknown_index, clean, each, add_if_iff, each_iff, guard_iff, iff_trans, both_says, with_entry_iff,
}
use niki.Domain.Seen.{member, insert, each_seen, IsRound, each_seen_iff}
use niki.Domain.Validator.{outside, check_alias, check_item, check_kits}
use niki.Domain.Legal.{IsLegalKits}

-- The alias of the item at an index of the window.
alias_at : ModuleIr → KitsRecord → ℕ → Option ℕ
alias_at m k j = elim (get_elem? m.kits_items (k.first_item + j)) [
  | none ↦ none
  | some item ↦ some item.alias_sid
]

alias_at_iff :
    (m : ModuleIr) (k : KitsRecord) (j : ℕ) (item : KitsItemRecord)
    → get_elem? m.kits_items (k.first_item + j) ≡ some item
    → alias_at m k j ≡ some item.alias_sid
unfolding alias_at
alias_at_iff m k j item e = rw (e, alias_at) refl

alias_at-item :
    (m : ModuleIr) (k : KitsRecord) (j x : ℕ)
    → alias_at m k j ≡ some x
    → (item : KitsItemRecord) × (get_elem? m.kits_items (k.first_item + j) ≡ some item)
      × (item.alias_sid ≡ x)
unfolding alias_at
alias_at-item m k j x h = elim (Option-cases (get_elem? m.kits_items (k.first_item + j))) [
  | inl e ↦ let none_there : none ≡ some x = rw (e, alias_at) at h in cc
  | inr (item, e) ↦
      let some_there : some item.alias_sid ≡ some x = rw (e, alias_at) at h in (item, e, cc)
]

module _ (m : ModuleIr) (kits_index : ℕ) (k : KitsRecord)
    (room : k.first_item + k.item_count < 2 ^ 32)
    (inside : k.first_item + k.item_count ≤ length m.kits_items) where
  alias-IsRound :
      (j : ℕ) → j < k.item_count → IsRound (check_alias m kits_index k) (alias_at m k) (λ _. Unit) j
  unfolding check_alias insert
  alias-IsRound j h =
      let fits : k.first_item + j < 2 ^ 32 = omega arith in
      let (item, e) = get_elem?-lt m.kits_items (k.first_item + j) (omega arith) in
      let here = alias_at_iff m k j item e in
      record {
        next = λ seen. rw (mod-eq_of_lt fits, e, here, check_alias) refl;
        says = λ seen.
            rw (mod-eq_of_lt fits, e, here, check_alias)
              (
                λ h.
                    let q =
                      (add_if_iff (member item.alias_sid seen) _ kits_index j unknown_index).0 h in
                    (record {}, λ x f. let same : item.alias_sid ≡ x = cc in rw (sym same) q),
                λ h.
                    (add_if_iff (member item.alias_sid seen) _ kits_index j unknown_index).1
                      (h.1 item.alias_sid refl),
              );
      }

  item_iff :
      (j : ℕ) (item : KitsItemRecord)
      → j < k.item_count
      → get_elem? m.kits_items (k.first_item + j) ≡ some item
      → (check_item m kits_index k j ≡ clean)
        ↔ ((item.alias_sid < length m.string_pool) × (item.component_sid < length m.string_pool))
  unfolding check_item
  item_iff j item h e =
      let fits : k.first_item + j < 2 ^ 32 = omega arith in
      let parts =
        both_says _ _ (add_if_iff (outside m item.alias_sid) _ kits_index j unknown_index)
          (add_if_iff (outside m item.component_sid) _ kits_index j unknown_index) in
      iff_trans (with_entry_iff _ item _ (rw (mod-eq_of_lt fits) e)) (
        λ c. let (a, b) = parts.0 c in (ground arith, ground arith),
        λ l. parts.1 (ground (arith, l.0), ground (arith, l.1)),
      )

  aliases_iff : (each_seen k.item_count 0 [] (check_alias m kits_index k) ≡ clean) ↔ (
      (i j : ℕ) (a b : KitsItemRecord)
      → i < j
      → j < k.item_count
      → get_elem? m.kits_items (k.first_item + i) ≡ some a
      → get_elem? m.kits_items (k.first_item + j) ≡ some b
      → a.alias_sid ≢ b.alias_sid)
  unfolding member
  aliases_iff =
      let rounds =
        each_seen_iff (check_alias m kits_index k) (alias_at m k) (λ _. Unit) k.item_count 0 []
          (λ j lo hi. alias-IsRound j (omega arith)) in
      (
        λ h i j a b lt hi p q same.
            let r = rounds.0 h in
            r.distinct i j a.alias_sid (omega arith) lt (omega arith) (alias_at_iff m k i a p)
              (alias_at_iff m k j b q ∙ ap some (sym same)),
        λ d. rounds.1 (record {
          holds = λ j lo hi. record {};
          fresh = λ j x lo hi e. refl;
          distinct = λ i j x lo mid hi e f.
              let (a, p, u) = alias_at-item m k i x e in
              let (b, q, v) = alias_at-item m k j x f in
              d i j a b mid (omega arith) p q (u ∙ sym v);
        }),
      )

  items_iff : (each k.item_count 0 (check_item m kits_index k) ≡ clean) ↔ (
      (j : ℕ) (item : KitsItemRecord)
      → j < k.item_count
      → get_elem? m.kits_items (k.first_item + j) ≡ some item
      → (item.alias_sid < length m.string_pool) × (item.component_sid < length m.string_pool))
  items_iff =
      let rounds = each_iff k.item_count 0 (check_item m kits_index k) in
      (
        λ h j item lt e. (item_iff j item lt e).0 (rounds.0 h j (omega arith) (omega arith)),
        λ h. rounds.1 (λ j lo hi.
            let (item, e) = get_elem?-lt m.kits_items (k.first_item + j) (omega arith) in
            (item_iff j item (omega arith) e).1 (h j item (omega arith) e)),
      )

-- The checks have nothing to say of a kits record exactly if it is legal.
pub check_kits_iff :
    (m : ModuleIr) (kits_index : ℕ) (k : KitsRecord)
    → k.first_item + k.item_count < 2 ^ 32
    → (check_kits m kits_index k ≡ clean) ↔ IsLegalKits m k
unfolding check_kits
check_kits_iff m kits_index k room =
    let aliases = each_seen k.item_count 0 [] (check_alias m kits_index k) in
    let items = each k.item_count 0 (check_item m kits_index k) in
    let name =
      add_if_iff (outside m k.kits_sid) kits_name_ref_out_of_range kits_index unknown_index
        unknown_index in
    let owner =
      add_if_iff (outside m k.owner_mod_sid) kits_owner_module_ref_out_of_range kits_index
        unknown_index unknown_index in
    let guard =
      guard_iff (ltb (length m.kits_items) (k.first_item + k.item_count))
        kits_item_span_out_of_range kits_index unknown_index unknown_index in
    rw (mod-eq_of_lt room) (
      λ h.
          let g = (guard _).0 h in
          let inside : k.first_item + k.item_count ≤ length m.kits_items = ground (arith, g.0) in
          let (n, (o, (a, i))) =
            (both_says _ _ name (
                both_says _ _ owner (
                  both_says aliases items (aliases_iff m kits_index k room inside)
                    (items_iff m kits_index k room inside)))).0
              g.1 in
          record {
            inside = inside;
            name = ground arith;
            owner = ground arith;
            items = i;
            aliases = a;
          },
      λ l. (guard _).1 (
        ground (arith, l.inside),
        (both_says _ _ name (
              both_says _ _ owner (
                both_says aliases items (aliases_iff m kits_index k room l.inside)
                  (items_iff m kits_index k room l.inside)))).1
            (ground (arith, l.name), (ground (arith, l.owner), (l.aliases, l.items))),
      ),
    )
