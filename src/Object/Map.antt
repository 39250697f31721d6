-- ===== src/Object/Map.antt =====
-- The map objects (include/niki/l0_core/vm/object.hpp). The test for equal keys is a parameter: the
-- machine gives `valueKeyEquals`.
use niki.Prelude.{
  ℕ, ◌+◌, ◌*◌, ◌%◌, ◌^◌, Bool, true, false, ◌&&◌, List, [], ◌∷◌, Option, none, some, ltb, leb,
  if◌then◌else◌, replicate,
}
use niki.Object.Value.{Value, nil, ObjMapEntry, ObjMap}

-- A slot that is not occupied.
abbrev pub free_entry : ObjMapEntry
free_entry = record { key = nil; value = nil; occupied = false }

-- `allocateMap`.
unfoldable pub allocate_map : ℕ → ObjMap
allocate_map wanted =
    let capacity = if ltb wanted 8 then 8 else wanted in
    record { capacity = capacity; count = 0; entries = replicate capacity free_entry }

-- The loop that puts a pair in the first slot that is not occupied; without one nothing changes.
unfoldable pub fill_slot : Value → Value → List ObjMapEntry → List ObjMapEntry
fill_slot key value [] = []
fill_slot key value (e ∷ entries) =
    if e.occupied
    then e ∷ fill_slot key value entries
    else (record { key = key; value = value; occupied = true }) ∷ entries

-- The loop of `expandMap` over the old slots.
unfoldable pub refill : List ObjMapEntry → List ObjMapEntry → List ObjMapEntry
refill [] slots = slots
refill (e ∷ old) slots = refill old (if e.occupied then fill_slot e.key e.value slots else slots)

-- `expandMap`.
unfoldable pub expand_map : ℕ → ObjMap → ObjMap
expand_map new_capacity m = if leb new_capacity m.capacity then m else record m {
  entries = refill m.entries (replicate new_capacity free_entry);
  capacity = new_capacity;
}

-- Whether a slot is free.
unfoldable pub has_free : List ObjMapEntry → Bool
has_free [] = false
has_free (e ∷ entries) = if e.occupied then has_free entries else true

module _ (equal : Value → Value → Bool) where
  -- The first loop of `mapSet`: `none` where no occupied slot has the key.
  unfoldable pub overwrite : Value → Value → List ObjMapEntry → Option (List ObjMapEntry)
  overwrite key value [] = none
  overwrite key value (e ∷ entries) =
      if e.occupied && equal e.key key
      then some ((record e { value = value }) ∷ entries)
      else elim (overwrite key value entries) [ none ↦ none | some rest ↦ some (e ∷ rest) ]

  -- `mapSet` behind its expansion.
  unfoldable pub store : Value → Value → ObjMap → ObjMap
  store key value m = elim (overwrite key value m.entries) [
    | some entries ↦ record m { entries = entries }
    | none ↦
        if has_free m.entries
        then record m { entries = fill_slot key value m.entries; count = (m.count + 1) % 2 ^ 32 }
        else m
  ]

  -- `mapSet`.
  unfoldable pub map_set : Value → Value → ObjMap → ObjMap
  map_set key value m = store key value (
      if leb m.capacity m.count
      then expand_map (if ltb m.capacity 8 then 8 else m.capacity * 2 % 2 ^ 32) m
      else m)

  -- The loop of `mapGet`.
  unfoldable pub find_entry : Value → List ObjMapEntry → Option Value
  find_entry key [] = none
  find_entry key (e ∷ entries) =
      if e.occupied && equal e.key key then some e.value else find_entry key entries

  -- `mapGet`.
  unfoldable pub map_get : Value → ObjMap → Option Value
  map_get key m = find_entry key m.entries
