-- ===== src/Pool/Strings.antt =====
-- The string interner with its built-in names and the allocator of module ids
-- (src/l0_core/syntax/string_interner.cpp, src/l0_core/semantic/module_id.cpp).
use Prim.Native.Char.{code}
use Prim.Native.String.{String}
use niki.Prelude.{
  ℕ, ◌+◌, ◌^◌, ◌<◌, ◌≡◌, ◌↔◌, refl, true, List, [], ◌∷◌, Option, some, bytes_eq, bytes_eq_sound,
  bytes_eq_refl, arith, length, get_elem?,
}
use niki.Pool.Search.{Eq}
use niki.Pool.Mapped.{
  Mapped, ensure, find, IsSynced, ensure-IsSynced, ensure-keeps, empty-IsSynced, lookup,
  length-ensure,
}

-- A text is its bytes, compared byte by byte.
abbrev pub Bytes : Type 0
Bytes = List ℕ

pub bytes_eq_iff : (a b : Bytes) → (bytes_eq a b ≡ true) ↔ (a ≡ b)
bytes_eq_iff a b = (bytes_eq_sound a b, λ e. rw e (bytes_eq_refl b))

instance abbrev pub bytes : Eq Bytes
bytes = record { equal = bytes_eq; equal_iff = bytes_eq_iff }

-- The bytes of an ASCII text.
abbrev pub codes : String → Bytes
codes String.[] = []
codes (String.◌∷◌ c s) = code c ∷ codes s

-- The constructor of `StringInterner`: the built-in type names get the first ids.
unfoldable pub new : Mapped Bytes
unfolding ensure
new =
    let empty : Mapped Bytes = record { pool = []; ids = [] } in
    let m1 = (ensure (codes "int") empty).0 in
    let m2 = (ensure (codes "float") m1).0 in
    let m3 = (ensure (codes "bool") m2).0 in (ensure (codes "string") m3).0

-- `StringInterner::get`: `none` is the abort on an id out of range.
unfoldable pub get : ℕ → Mapped Bytes → Option Bytes
get id m = get_elem? m.pool id

-- `StringInterner::snapshot`: a copy of the sequence.
abbrev pub snapshot : Mapped Bytes → List Bytes
snapshot m = m.pool

-- `ModuleIdAllocator::ensure`.
abbrev pub ensure_path : Bytes → Mapped Bytes → Mapped Bytes × ℕ
ensure_path path paths = ensure path paths

-- `ModuleIdAllocator::findPath`: `none` is the null pointer.
unfoldable pub find_path : ℕ → Mapped Bytes → Option Bytes
find_path id m = get_elem? m.pool id

-- The interner after a session of calls of `intern`.
unfoldable pub intern_all : List Bytes → Mapped Bytes → Mapped Bytes
intern_all [] m = m
intern_all (text ∷ texts) m = intern_all texts (ensure text m).0

-- The first state of a session: the map is in step with the sequence of the four names.
new-IsSynced : IsSynced new
unfolding new lookup bytes_eq
new-IsSynced =
    let empty : Mapped Bytes = record { pool = []; ids = [] } in
    let m1 = (ensure (codes "int") empty).0 in
    let m2 = (ensure (codes "float") m1).0 in
    let m3 = (ensure (codes "bool") m2).0 in
    let s1 = ensure-IsSynced (codes "int") empty empty-IsSynced (omega arith) in
    let s2 = ensure-IsSynced (codes "float") m1 s1 (omega arith) in
    let s3 = ensure-IsSynced (codes "bool") m2 s2 (omega arith) in
    ensure-IsSynced (codes "string") m3 s3 (omega arith)

-- A session that stays below 2 ^ 32 entries keeps the map in step and every id that was given.
session-keeps :
    (texts : List Bytes) (m : Mapped Bytes)
    → IsSynced m
    → length m.pool + length texts < 2 ^ 32
    → IsSynced (intern_all texts m)
      × ((b : Bytes) (i : ℕ) → find b m ≡ some i → find b (intern_all texts m) ≡ some i)
unfolding intern_all
session-keeps [] m s h = (s, λ b i e. e)
session-keeps (text ∷ texts) m s h =
    let m' = (ensure text m).0 in
    let s' = ensure-IsSynced text m s (omega arith) in
    let (t, k) = session-keeps texts m' s' (omega (arith, length-ensure text m)) in
    (t, λ b i e. k b i (ensure-keeps text b i m s (omega arith) e))

-- After any session of fewer than 2 ^ 32 - 4 calls on a new interner: `int`, `float`, `bool` and
-- `string` have the ids 0 to 3, and the map and the sequence agree, so that `find` gives an id
-- exactly when `get` of it gives the text back.
pub session_ids :
    (texts : List Bytes)
    → 4 + length texts < 2 ^ 32
    → (find (codes "int") (intern_all texts new) ≡ some 0)
      × (find (codes "float") (intern_all texts new) ≡ some 1)
      × (find (codes "bool") (intern_all texts new) ≡ some 2)
      × (find (codes "string") (intern_all texts new) ≡ some 3)
      × ((text : Bytes) (id : ℕ)
          → (find text (intern_all texts new) ≡ some id)
            ↔ (get id (intern_all texts new) ≡ some text))
unfolding new get find lookup bytes_eq
session_ids texts h =
    let (s, k) = session-keeps texts new new-IsSynced (omega arith) in
    (
      k (codes "int") 0 refl,
      k (codes "float") 1 refl,
      k (codes "bool") 2 refl,
      k (codes "string") 3 refl,
      λ text id. (s.sound text id, s.complete text id),
    )
