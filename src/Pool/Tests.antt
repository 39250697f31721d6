-- ===== src/Pool/Tests.antt =====
-- Runs of the interning tables, and their theorems at them.
use niki.Prelude.{ℕ, ◌≡◌, ◌↔◌, refl, bytes_eq, List, [], ◌∷◌, some, arith}
use niki.Pool.Search
use niki.Pool.Mapped.{Mapped, lookup, ensure, find, IsSynced, empty-IsSynced, ensure-intern}
use niki.Pool.Strings.{Bytes, bytes, codes, new, get, intern_all, session_ids}

abbrev empty : Mapped Bytes
empty = record { pool = []; ids = [] }

ensure-intern_example :
    (((ensure (codes "x") empty).0.pool, (ensure (codes "x") empty).1)
      ≡ Search.intern (codes "x") empty.pool)
    × IsSynced (ensure (codes "x") empty).0
ensure-intern_example = ensure-intern (codes "x") empty empty-IsSynced (omega arith)

abbrev texts : List Bytes
texts = codes "x" ∷ codes "int" ∷ codes "x" ∷ []

texts_run : find (codes "x") (intern_all texts new) ≡ some 4
unfolding find lookup intern_all ensure new bytes_eq
texts_run = refl

session_ids_example :
    (find (codes "int") (intern_all texts new) ≡ some 0)
    × (find (codes "float") (intern_all texts new) ≡ some 1)
    × (find (codes "bool") (intern_all texts new) ≡ some 2)
    × (find (codes "string") (intern_all texts new) ≡ some 3)
    × ((text : Bytes) (id : ℕ)
        → (find text (intern_all texts new) ≡ some id)
          ↔ (get id (intern_all texts new) ≡ some text))
session_ids_example = session_ids texts (omega arith)
