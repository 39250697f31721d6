-- ===== src/Linker/Merge.antt =====
-- The merged string pool (`collectMergedStringPool` of src/l0_core/linker/linker_facade.cpp).
use niki.Prelude.{
  ℕ, zero, suc, ◌≡◌, ◌≢◌, ◌↔◌, ◌⊎◌, refl, sym, ap, ◌∙◌, List, [], ◌∷◌, ◌++◌, none, some, inl, inr,
  bytes_eq, Bool-cases, Option-cases, arith, length, get_elem?,
}
use niki.Pool.Ids.{
  IsDistinct, new-IsDistinct, get_elem?-append, get_elem?-append_last, get_elem?-append_cases,
}
use niki.Pool.Mapped.{Mapped, ensure, lookup, lookup-cons}
use niki.Pool.Strings.{Bytes, bytes, bytes_eq_iff, intern_all}
use niki.Linker.Link.{CompileModule, merged_string_pool}

-- An entry of a list.
abbrev pub Occurs {ℓ} : {A : Type ℓ} → A → List A → Type ℓ
Occurs a xs = (i : ℕ) × (get_elem? xs i ≡ some a)

-- A module's pool has the text.
abbrev pub HasText : {V : Type 0} → Bytes → List (CompileModule V) → Type 0
HasText {V} text us =
    (i : ℕ) × (u : CompileModule V) × (get_elem? us i ≡ some u)
    × Occurs text u.init_chunk.string_pool

-- The pool has no text twice, and the map has exactly its texts.
record IsMerged (m : Mapped Bytes) : Type 0 where
  pub distinct : IsDistinct m.pool
  pub sound : (a : Bytes) (i : ℕ) → lookup a m.ids ≡ some i → Occurs a m.pool
  pub complete : (a : Bytes) → lookup a m.ids ≡ none → (j : ℕ) → get_elem? m.pool j ≢ some a

-- One string.
record Ensured (a : Bytes) (m next : Mapped Bytes) : Type 0 where
  pub merged : IsMerged next
  pub keeps : (b : Bytes) → Occurs b m.pool → Occurs b next.pool
  pub has : Occurs a next.pool
  pub only : (b : Bytes) → Occurs b next.pool → Occurs b m.pool ⊎ (b ≡ a)

append-Ensured :
    (a : Bytes) (id : ℕ) (m : Mapped Bytes)
    → IsMerged m
    → lookup a m.ids ≡ none
    → Ensured a m (record { pool = m.pool ++ a ∷ []; ids = (a, id) ∷ m.ids })
append-Ensured a id m w e =
    let fresh = w.complete a e in
    record {
      merged = record {
        distinct = new-IsDistinct a m.pool fresh w.distinct;
        sound = λ b i h. elim (Bool-cases (bytes_eq a b)) [
          | inl q ↦
              let same : a ≡ b = (bytes_eq_iff a b).0 q in
              (length m.pool, get_elem?-append_last m.pool a ∙ ap some same)
          | inr q ↦
              let (j, p) = w.sound b i (rw (lookup-cons a b id m.ids, q) at h) in
              (j, get_elem?-append m.pool a j b p)
        ];
        complete = λ b h j p.
            let cons = lookup-cons a b id m.ids in
            elim (get_elem?-append_cases m.pool a j b p) [
              | inl q ↦ w.complete b (ground (arith, cons)) j q
              | inr (_, f) ↦ ground (arith, cons, (bytes_eq_iff a b).1 (sym f))
            ];
      };
      keeps = λ b (i, h). (i, get_elem?-append m.pool a i b h);
      has = (length m.pool, get_elem?-append_last m.pool a);
      only = λ b (i, h). elim (get_elem?-append_cases m.pool a i b h) [
        | inl p ↦ inl (i, p)
        | inr (_, f) ↦ inr f
      ];
    }

ensure-Ensured : (a : Bytes) (m : Mapped Bytes) → IsMerged m → Ensured a m (ensure a m).0
unfolding ensure
ensure-Ensured a m w = elim (Option-cases (lookup a m.ids)) [
  | inl e ↦ rw (e, ensure) (append-Ensured a _ m w e)
  | inr (i, e) ↦
      rw (e, ensure)
        (record { merged = w; keeps = λ b h. h; has = w.sound a i e; only = λ b h. inl h })
]

occurs_cons :
    (b text : Bytes) (texts pool : List Bytes)
    → Occurs text pool
    → (i : ℕ) → get_elem? (text ∷ texts) i ≡ some b
    → Occurs b pool ⊎ Occurs b texts
occurs_cons b text texts pool (j, h) zero p = inl (j, h ∙ p)
occurs_cons b text texts pool h (suc i) p = inr (i, p)

-- The strings of a module.
intern_all-IsMerged :
    (texts : List Bytes) (m : Mapped Bytes)
    → IsMerged m
    → IsMerged (intern_all texts m)
      × ((b : Bytes) → Occurs b (intern_all texts m).pool ↔ (Occurs b m.pool ⊎ Occurs b texts))
unfolding intern_all
intern_all-IsMerged [] m w = (w, λ b. (λ h. inl h, λ h. elim h [ inl p ↦ p | inr (i, q) ↦ cc ]))
intern_all-IsMerged (text ∷ texts) m w =
    let one = ensure-Ensured text m w in
    let (rest, same) = intern_all-IsMerged texts (ensure text m).0 one.merged in
    (
      rest,
      λ b. (
        λ h. elim ((same b).0 h) [
          | inl p ↦ elim (one.only b p) [ inl q ↦ inl q | inr q ↦ inr (0, ap some (sym q)) ]
          | inr (i, p) ↦ inr (suc i, p)
        ],
        λ h. elim h [
          | inl p ↦ (same b).1 (inl (one.keeps b p))
          | inr (i, p) ↦ (same b).1 (occurs_cons b text texts (ensure text m).0.pool one.has i p)
        ],
      ),
    )

text_cons :
    {V : Type 0} (b : Bytes) (u : CompileModule V) (us : List (CompileModule V)) (pool : List Bytes)
    → (Occurs b u.init_chunk.string_pool → Occurs b pool)
    → (i : ℕ) (v : CompileModule V) → get_elem? (u ∷ us) i ≡ some v
    → Occurs b v.init_chunk.string_pool
    → Occurs b pool ⊎ HasText b us
text_cons b u us pool f zero v p q = let same : u ≡ v = cc in inl (f (rw same q))
text_cons b u us pool f (suc i) v p q = inr (i, v, p, q)

-- The strings of all modules.
merge_all :
    {V : Type 0} (us : List (CompileModule V)) (m : Mapped Bytes)
    → IsMerged m
    → IsMerged (merged_string_pool us m)
      × ((b : Bytes) → Occurs b (merged_string_pool us m).pool ↔ (Occurs b m.pool ⊎ HasText b us))
unfolding merged_string_pool
merge_all [] m w = (w, λ b. (λ h. inl h, λ h. elim h [ inl p ↦ p | inr (i, u, q, _) ↦ cc ]))
merge_all (u ∷ us) m w =
    let (w', first) = intern_all-IsMerged u.init_chunk.string_pool m w in
    let (rest, same) = merge_all us (intern_all u.init_chunk.string_pool m) w' in
    (
      rest,
      λ b. (
        λ h. elim ((same b).0 h) [
          | inl p ↦ elim ((first b).0 p) [ inl q ↦ inl q | inr q ↦ inr (0, u, refl, q) ]
          | inr (i, v, p, q) ↦ inr (suc i, v, p, q)
        ],
        λ h. elim h [
          | inl p ↦ (same b).1 (inl ((first b).1 (inl p)))
          | inr (i, v, p, q) ↦ (same b).1 (
              text_cons b u us (intern_all u.init_chunk.string_pool m).pool
                (λ h. (first b).1 (inr h)) i v p q)
        ],
      ),
    )

-- The pool that `linkModules` hands over.
abbrev pub merged_pool : {V : Type 0} → List (CompileModule V) → List Bytes
merged_pool us = (merged_string_pool us (record { pool = []; ids = [] })).pool

-- The merged pool of any modules has no text twice, and a text stands in it exactly if it stands in
-- the pool of one of the modules.
pub merged_string_pool_lem :
    {V : Type 0} (us : List (CompileModule V))
    → IsDistinct (merged_pool us)
      × ((text : Bytes) → Occurs text (merged_pool us) ↔ HasText text us)
unfolding lookup
merged_string_pool_lem us =
    let empty : IsMerged (record { pool = []; ids = [] }) = record {
      distinct = λ i j a p q. cc;
      sound = λ a i h. cc;
      complete = λ a h j p. cc;
    } in
    let (w, same) = merge_all us (record { pool = []; ids = [] }) empty in
    (
      w.distinct,
      λ text.
          (λ h. elim ((same text).0 h) [ inl (i, p) ↦ cc | inr p ↦ p ], λ h. (same text).1 (inr h)),
    )
