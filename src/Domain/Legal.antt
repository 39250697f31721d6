-- ===== src/Domain/Legal.antt =====
-- What a clean report of the domain checks says of a module (src/l1_domain/validator.cpp).
use niki.Prelude.{
  ℕ, ◌+◌, ◌≤◌, ◌<◌, ◌≡◌, ◌≢◌, ◌↔◌, true, ◌&&◌, List, some, arith, length, get_elem?,
  get_elem?-some-lt,
}
use niki.Ir.Module.{SymRecord, KitsItemRecord, KitsRecord, ComponentRecord, ModuleIr}
use niki.Ir.Row.{get_elem?-lt}
use niki.Ir.Checks.{
  Checks, unknown_index, clean, each, with_entry, add_if_iff, each_iff, both_says, with_entry_iff,
}
use niki.Domain.Validator.{outside, check_component}

-- The window of a kits record lies in the table, its references lie in the pool, and no alias
-- occurs twice in the window.
pub record IsLegalKits (m : ModuleIr) (k : KitsRecord) : Type 0 where
  pub inside : k.first_item + k.item_count ≤ length m.kits_items
  pub name : k.kits_sid < length m.string_pool
  pub owner : k.owner_mod_sid < length m.string_pool
  pub items :
      (j : ℕ) (item : KitsItemRecord)
      → j < k.item_count
      → get_elem? m.kits_items (k.first_item + j) ≡ some item
      → (item.alias_sid < length m.string_pool) × (item.component_sid < length m.string_pool)
  pub aliases :
      (i j : ℕ) (a b : KitsItemRecord)
      → i < j
      → j < k.item_count
      → get_elem? m.kits_items (k.first_item + i) ≡ some a
      → get_elem? m.kits_items (k.first_item + j) ≡ some b
      → a.alias_sid ≢ b.alias_sid

-- The references of a component lie in the pool, its struct's only where it has one.
pub record IsLegalComponent (m : ModuleIr) (c : ComponentRecord) : Type 0 where
  pub name : c.component_sid < length m.string_pool
  pub owner : c.owner_mod_sid < length m.string_pool
  pub source : c.is_struct_promotion ≡ true → c.source_struct_sid < length m.string_pool

-- A symbol has its own index as id, and its references lie in the pool.
pub record IsLegalSymbol (m : ModuleIr) (index : ℕ) (s : SymRecord) : Type 0 where
  pub id : s.sym_id ≡ index
  pub name : s.sym_name_sid < length m.string_pool
  pub owner : s.owner_mod_sid < length m.string_pool

-- Every record is legal, and no two exported symbols have one name.
pub record IsLegalDomain (m : ModuleIr) : Type 0 where
  pub kits : (i : ℕ) (k : KitsRecord) → get_elem? m.kits i ≡ some k → IsLegalKits m k
  pub components :
      (i : ℕ) (c : ComponentRecord) → get_elem? m.components i ≡ some c → IsLegalComponent m c
  pub symbols : (i : ℕ) (s : SymRecord) → get_elem? m.syms i ≡ some s → IsLegalSymbol m i s
  pub exports :
      (i j : ℕ) (s t : SymRecord)
      → i < j
      → get_elem? m.syms i ≡ some s
      → get_elem? m.syms j ≡ some t
      → s.is_exported ≡ true
      → t.is_exported ≡ true
      → s.sym_name_sid ≢ t.sym_name_sid

-- A loop over the entries of a table.
pub each_entry_iff :
    {A : Type 0} (xs : List A) (f : ℕ → A → Checks)
    → (each (length xs) 0 (λ i. with_entry (get_elem? xs i) (f i)) ≡ clean)
      ↔ ((i : ℕ) (x : A) → get_elem? xs i ≡ some x → f i x ≡ clean)
each_entry_iff xs f =
    let rounds = each_iff (length xs) 0 (λ i. with_entry (get_elem? xs i) (f i)) in
    (
      λ h i x e.
          (with_entry_iff (get_elem? xs i) x (f i) e).0
            (rounds.0 h i (omega arith) (omega (arith, get_elem?-some-lt xs i x e))),
      λ h. rounds.1 (λ i lo hi.
          let (x, e) = get_elem?-lt xs i (omega arith) in
          (with_entry_iff (get_elem? xs i) x (f i) e).1 (h i x e)),
    )

pub check_component_iff :
    (m : ModuleIr) (i : ℕ) (c : ComponentRecord)
    → (check_component m i c ≡ clean) ↔ IsLegalComponent m c
unfolding check_component
check_component_iff m i c =
    let parts =
      both_says _ _ (add_if_iff (outside m c.component_sid) _ i unknown_index unknown_index) (
        both_says _ _ (add_if_iff (outside m c.owner_mod_sid) _ i unknown_index unknown_index) (
          add_if_iff (c.is_struct_promotion && outside m c.source_struct_sid) _ i unknown_index
            unknown_index)) in
    (
      λ h.
          let (a, (b, d)) = parts.0 h in
          record { name = ground arith; owner = ground arith; source = λ e. ground arith },
      λ l. parts.1 (ground (arith, l.name), (ground (arith, l.owner), ground (arith, l.source))),
    )
