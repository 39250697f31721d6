-- ===== src/Object/Tests.antt =====
-- The theorem on arrays at an example.
use niki.Prelude.{ℕ, ◌+◌, ◌<◌, ◌≡◌, refl, some, [], ◌∷◌, arith}
use niki.Object.Value.{int, ObjArray}
use niki.Object.Array.{push_array, get_array}
use niki.Object.ArrayLaws.{IsArray, push_array-get_array}

-- An array that is full.
abbrev full : ObjArray
full = record { capacity = 2; count = 2; elements = int 3 ∷ int 4 ∷ [] }

push_array-get_array_example :
    (next : ObjArray) × (push_array (int 5) full ≡ some next)
    × IsArray next
    × (next.count ≡ full.count + 1)
    × (get_array full.count next ≡ some (int 5))
    × ((i : ℕ) → i < full.count → get_array i next ≡ get_array i full)
push_array-get_array_example =
    push_array-get_array (int 5) full (record { capacity = refl; count = omega arith })
      (omega arith)
