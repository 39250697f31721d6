-- ===== src/Object/MapLaws.antt =====
-- Reads after writes of a map object (include/niki/l0_core/vm/object.hpp).
use native.Mathlib.Nat.{mod-eq_of_lt, zero-add}
use niki.Prelude.{
  ℕ, zero, suc, ◌+◌, ◌-◌, ◌*◌, ◌%◌, ◌^◌, ◌<◌, ◌≤◌, ◌≡◌, refl, sym, ap, ◌∙◌, inl, inr, Bool, true,
  false, ◌&&◌, List, [], ◌∷◌, ◌++◌, Option, none, some, arith, ltb, leb, if◌then◌else◌, length,
  length-replicate, replicate, Bool-cases, Option-cases,
}
use mathlib.Core.List.{append_assoc, append-nil}
use niki.Object.Value.{Value, ObjMapEntry, ObjMap}
use niki.Object.Map.{
  free_entry, fill_slot, refill, expand_map, has_free, overwrite, store, map_set, find_entry,
  map_get,
}

-- The pairs of the occupied slots.
unfoldable pub pairs : List ObjMapEntry → List (Value × Value)
pairs [] = []
pairs (e ∷ entries) = if e.occupied then (e.key, e.value) ∷ pairs entries else pairs entries

-- The count is that of the occupied slots, and the slots are as many as the capacity.
pub record IsMap (m : ObjMap) : Type 0 where
  pub count : m.count ≡ length (pairs m.entries)
  pub capacity : length m.entries ≡ m.capacity

-- Pairs in the first slots, and free slots behind them.
packed : List (Value × Value) → ℕ → List ObjMapEntry
packed [] n = replicate n free_entry
packed (b ∷ bs) n = (record { key = b.0; value = b.1; occupied = true }) ∷ packed bs n

pairs-packed : (bs : List (Value × Value)) (n : ℕ) → pairs (packed bs n) ≡ bs
unfolding packed pairs
pairs-packed [] zero = refl
pairs-packed [] (suc n) = pairs-packed [] n
pairs-packed (b ∷ bs) n = ap (λ l. b ∷ l) (pairs-packed bs n)

length-packed : (bs : List (Value × Value)) (n : ℕ) → length (packed bs n) ≡ length bs + n
unfolding packed
length-packed [] n = omega (arith, length-replicate n free_entry)
length-packed (b ∷ bs) n = omega (arith, length-packed bs n)

fill_slot-packed :
    (key value : Value) (bs : List (Value × Value)) (n : ℕ)
    → fill_slot key value (packed bs (suc n)) ≡ packed (bs ++ (key, value) ∷ []) n
unfolding fill_slot packed
fill_slot-packed key value [] n = refl
fill_slot-packed key value (b ∷ bs) n =
    ap (λ l. (record { key = b.0; value = b.1; occupied = true }) ∷ l)
      (fill_slot-packed key value bs n)

-- The loop of the expansion packs the pairs in their order.
refill-packed :
    (old : List ObjMapEntry) (bs : List (Value × Value)) (n : ℕ)
    → refill old (packed bs (length (pairs old) + n)) ≡ packed (bs ++ pairs old) n
unfolding refill pairs
refill-packed [] bs n = rw (append-nil, zero-add) refl
refill-packed (e ∷ old) bs n = elim (Bool-cases e.occupied) [
  | inl taken ↦
      let one : suc (length (pairs old)) + n ≡ suc (length (pairs old) + n) = omega arith in
      rw (taken, one)
        (ap (refill old) (fill_slot-packed e.key e.value bs (length (pairs old) + n))
          ∙ refill-packed old (bs ++ (e.key, e.value) ∷ []) n
          ∙ ap (λ l. packed l n) (append_assoc bs ((e.key, e.value) ∷ []) (pairs old)))
  | inr empty ↦ rw empty (refill-packed old bs n)
]

length-pairs : (es : List ObjMapEntry) → length (pairs es) ≤ length es
unfolding pairs
length-pairs [] = omega arith
length-pairs (e ∷ es) = ground (arith, length-pairs es)

has_free_lem : (es : List ObjMapEntry) → length (pairs es) < length es → has_free es ≡ true
unfolding has_free pairs
has_free_lem [] h = absurd (omega arith)
has_free_lem (e ∷ es) h = ground (arith, has_free_lem es)

-- The expansion of a map keeps its pairs and makes room.
record IsExpanded (m next : ObjMap) : Type 0 where
  is_map : IsMap next
  room : next.count < next.capacity
  same : pairs next.entries ≡ pairs m.entries

expand_map-IsExpanded :
    (m : ObjMap) (capacity : ℕ)
    → IsMap m
    → m.capacity < capacity
    → IsExpanded m (expand_map capacity m)
unfolding expand_map packed
expand_map-IsExpanded m capacity h more =
    let ps = pairs m.entries in
    let small : length ps ≤ m.capacity = omega (arith, length-pairs m.entries, h.capacity) in
    let grows : leb capacity m.capacity ≡ false = ground arith in
    let room : capacity ≡ length ps + (capacity - length ps) = omega arith in
    let slots : refill m.entries (replicate capacity free_entry)
        ≡ packed ps (capacity - length ps) =
      ap (λ n. refill m.entries (packed [] n)) room
      ∙ refill-packed m.entries [] (capacity - length ps) in
    rw (expand_map, grows, slots)
      (record {
        is_map = record {
          count = rw (pairs-packed ps (capacity - length ps)) h.count;
          capacity = length-packed ps (capacity - length ps) ∙ sym room;
        };
        room = omega (arith, h.count);
        same = pairs-packed ps (capacity - length ps);
      })

-- A test of keys that respects itself on both sides.
pub record IsKeyTest (equal : Value → Value → Bool) : Type 0 where
  pub left : (a b c : Value) → equal a b ≡ true → equal a c ≡ equal b c
  pub right : (a b c : Value) → equal a b ≡ true → equal c a ≡ equal c b

module _ (equal : Value → Value → Bool) (test : IsKeyTest equal) where
  -- A search sees the pairs alone.
  search_pairs : Value → List (Value × Value) → Option Value
  search_pairs key [] = none
  search_pairs key (b ∷ bs) = if equal b.0 key then some b.1 else search_pairs key bs

  find_entry-pairs :
      (key : Value) (es : List ObjMapEntry) → find_entry equal key es ≡ search_pairs key (pairs es)
  unfolding find_entry pairs search_pairs
  find_entry-pairs key [] = refl
  find_entry-pairs key (e ∷ es) = ground (arith, find_entry-pairs key es)

  find_entry-overwrite :
      (k key value : Value) (es next : List ObjMapEntry)
      → overwrite equal key value es ≡ some next
      → find_entry equal k next ≡ (if equal key k then some value else find_entry equal k es)
  unfolding find_entry overwrite
  find_entry-overwrite k key value [] next h = cc
  find_entry-overwrite k key value (e ∷ es) next h =
      elim (Bool-cases (e.occupied && equal e.key key)) [
        | inl found ↦ ground (arith, test.left e.key key k)
        | inr other ↦ elim (Option-cases (overwrite equal key value es)) [
          | inl missing ↦ ground (arith, missing)
          | inr (rest, e') ↦
              ground
                (arith, e', find_entry-overwrite k key value es rest e', test.right key k e.key)
        ]
      ]

  find_entry-fill :
      (k key value : Value) (es : List ObjMapEntry)
      → overwrite equal key value es ≡ none
      → has_free es ≡ true
      → find_entry equal k (fill_slot key value es)
        ≡ (if equal key k then some value else find_entry equal k es)
  unfolding find_entry overwrite fill_slot has_free
  find_entry-fill k key value [] h free = cc
  find_entry-fill k key value (e ∷ es) h free = elim (Bool-cases (e.occupied && equal e.key key)) [
    | inl found ↦ ground (arith, h)
    | inr other ↦ elim (Option-cases (overwrite equal key value es)) [
      | inl missing ↦
          ground (arith, missing, find_entry-fill k key value es missing, test.right key k e.key)
      | inr (rest, e') ↦ ground (arith, e', h)
    ]
  ]

  overwrite-sizes :
      (key value : Value) (es next : List ObjMapEntry)
      → overwrite equal key value es ≡ some next
      → (length (pairs next) ≡ length (pairs es)) × (length next ≡ length es)
  unfolding overwrite pairs
  overwrite-sizes key value [] next h = cc
  overwrite-sizes key value (e ∷ es) next h = elim (Bool-cases (e.occupied && equal e.key key)) [
    | inl found ↦ ground arith
    | inr other ↦ elim (Option-cases (overwrite equal key value es)) [
      | inl missing ↦ ground (arith, missing)
      | inr (rest, e') ↦ ground (arith, e', overwrite-sizes key value es rest e')
    ]
  ]

  fill_slot-sizes :
      (key value : Value) (es : List ObjMapEntry)
      → has_free es ≡ true
      → (length (pairs (fill_slot key value es)) ≡ length (pairs es) + 1)
        × (length (fill_slot key value es) ≡ length es)
  unfolding fill_slot pairs has_free
  fill_slot-sizes key value [] h = cc
  fill_slot-sizes key value (e ∷ es) h = ground (arith, fill_slot-sizes key value es)

  -- A map with room: the write, and the read after it.
  record IsStored (k key value : Value) (m next : ObjMap) : Type 0 where
    is_map : IsMap next
    reads : map_get equal k next ≡ (if equal key k then some value else map_get equal k m)

  store-IsStored :
      (k key value : Value) (m : ObjMap)
      → IsMap m
      → m.count < m.capacity
      → m.capacity < 2 ^ 32
      → IsStored k key value m (store equal key value m)
  unfolding store map_get
  store-IsStored k key value m h room small =
      elim (Option-cases (overwrite equal key value m.entries)) [
        | inl missing ↦
            let free : has_free m.entries ≡ true =
              has_free_lem m.entries (omega (arith, h.count, h.capacity)) in
            let sizes = fill_slot-sizes key value m.entries free in
            let wraps : (m.count + 1) % 2 ^ 32 ≡ m.count + 1 = mod-eq_of_lt (omega arith) in
            rw (store, missing, free)
              (record {
                is_map = record {
                  count = omega (arith, wraps, sizes.0, h.count);
                  capacity = sizes.1 ∙ h.capacity;
                };
                reads = find_entry-fill k key value m.entries missing free;
              })
        | inr (next, e) ↦
            let sizes = overwrite-sizes key value m.entries next e in
            rw (store, e)
              (record {
                is_map = record { count = h.count ∙ sym sizes.0; capacity = sizes.1 ∙ h.capacity };
                reads = find_entry-overwrite k key value m.entries next e;
              })
      ]

  ready : ObjMap → ObjMap
  ready m =
      if leb m.capacity m.count
      then expand_map (if ltb m.capacity 8 then 8 else m.capacity * 2 % 2 ^ 32) m
      else m

  ready-IsExpanded : (m : ObjMap) → IsMap m → m.capacity < 2 ^ 31 → IsExpanded m (ready m)
  unfolding ready
  ready-IsExpanded m h small = elim (Bool-cases (leb m.capacity m.count)) [
    | inl full ↦
        rw (ready, full)
          (expand_map-IsExpanded m (if ltb m.capacity 8 then 8 else m.capacity * 2 % 2 ^ 32) h
            (ground arith))
    | inr space ↦ rw (ready, space) (record { is_map = h; room = ground arith; same = refl })
  ]

  ready-small : (m : ObjMap) → m.capacity < 2 ^ 31 → (ready m).capacity < 2 ^ 32
  unfolding ready expand_map
  ready-small m small = ground arith

  -- A map below 2 ^ 31 slots reads the value that was written to a key, reads every other key as
  -- before, and stays well formed.
  pub map_get-map_set :
      (k key value : Value) (m : ObjMap)
      → IsMap m
      → m.capacity < 2 ^ 31
      → (map_get equal k (map_set equal key value m)
          ≡ (if equal key k then some value else map_get equal k m))
        × IsMap (map_set equal key value m)
  unfolding map_set ready map_get
  map_get-map_set k key value m h small =
      let x = ready-IsExpanded m h small in
      let s = store-IsStored k key value (ready m) x.is_map x.room (ready-small m small) in
      let same : map_get equal k (ready m) ≡ map_get equal k m =
        find_entry-pairs k (ready m).entries
        ∙ ap (search_pairs k) x.same
        ∙ sym (find_entry-pairs k m.entries) in
      (s.reads ∙ ap (λ r. if equal key k then some value else r) same, s.is_map)
