-- ===== src/Object/ArrayLaws.antt =====
-- Pushes, reads and writes of an array object (include/niki/l0_core/vm/object.hpp,
-- src/l0_core/vm/vm.cpp).
use native.Mathlib.Nat.{mod-eq_of_lt}
use niki.Prelude.{
  ℕ, zero, suc, ◌+◌, ◌-◌, ◌*◌, ◌%◌, ◌^◌, ◌<◌, ◌≤◌, ◌≡◌, refl, sym, ap, ◌∙◌, inl, inr, true, false,
  List, [], ◌∷◌, ◌++◌, some, arith, ltb, leb, if◌then◌else◌, length, set, length-append,
  length-replicate, length-set, replicate, get_elem?, get_elem?-set_self, get_elem?-set_ne,
  Bool-cases,
}
use niki.Object.Value.{Value, nil, ObjArray}
use niki.Object.Array.{expand_array, make_room, append_element, push_array, get_array}

-- The elements fill the capacity, and the count is within it.
pub record IsArray (a : ObjArray) : Type 0 where
  pub capacity : length a.elements ≡ a.capacity
  pub count : a.count ≤ a.capacity

get_elem?-append_left :
    (xs ys : List Value) (i : ℕ) → i < length xs → get_elem? (xs ++ ys) i ≡ get_elem? xs i
get_elem?-append_left [] ys i h = absurd (omega arith)
get_elem?-append_left (x ∷ xs) ys zero h = refl
get_elem?-append_left (x ∷ xs) ys (suc i) h = get_elem?-append_left xs ys i (omega arith)

-- Room for one more element.
record HasRoom (a next : ObjArray) : Type 0 where
  is_array : IsArray next
  room : next.count < next.capacity
  count : next.count ≡ a.count
  same : (i : ℕ) → i < a.count → get_elem? next.elements i ≡ get_elem? a.elements i

make_room-HasRoom : (a : ObjArray) → IsArray a → a.capacity < 2 ^ 31 → HasRoom a (make_room a)
unfolding make_room expand_array
make_room-HasRoom a h small = elim (Bool-cases (leb a.capacity a.count)) [
  | inl full ↦
      let capacity = if ltb a.capacity 8 then 8 else a.capacity * 2 % 2 ^ 32 in
      let more : a.capacity < capacity = ground arith in
      let grows : leb capacity a.capacity ≡ false = ground arith in
      let fresh = replicate (capacity - a.capacity) nil in
      rw (make_room, full)
        (rw (expand_array, grows)
          (record {
            is_array = record {
              capacity = omega (
                arith,
                length-append a.elements fresh,
                length-replicate (capacity - a.capacity) nil,
                h.capacity,
              );
              count = omega (arith, h.count);
            };
            room = omega (arith, h.count);
            count = refl;
            same = λ i inside.
                get_elem?-append_left a.elements fresh i (omega (arith, h.capacity, h.count));
          }))
  | inr space ↦
      rw (make_room, space)
        (record { is_array = h; room = ground arith; count = refl; same = λ i inside. refl })
]

-- A push on an array below 2 ^ 31 slots succeeds: it adds the value behind the elements, which read
-- as before, and the array stays well formed.
pub push_array-get_array :
    (value : Value) (a : ObjArray)
    → IsArray a
    → a.capacity < 2 ^ 31
    → (next : ObjArray) × (push_array value a ≡ some next)
      × IsArray next
      × (next.count ≡ a.count + 1)
      × (get_array a.count next ≡ some value)
      × ((i : ℕ) → i < a.count → get_array i next ≡ get_array i a)
unfolding push_array append_element get_array
push_array-get_array value a h small =
    let r = make_room-HasRoom a h small in
    let b = make_room a in
    let inside : b.count < length b.elements = omega (arith, r.room, r.is_array.capacity) in
    let fits : ltb b.count (length b.elements) ≡ true = ground arith in
    let low : b.count < 2 ^ 32 - 1 = omega (arith, r.count, h.count) in
    let wraps : (b.count + 1) % 2 ^ 32 ≡ b.count + 1 = mod-eq_of_lt (omega arith) in
    let next : ObjArray = record b {
      elements = set b.elements b.count value;
      count = (b.count + 1) % 2 ^ 32;
    } in
    let count : next.count ≡ a.count + 1 = omega (arith, wraps, r.count) in
    (
      next,
      rw (append_element, fits) refl,
      record {
        capacity = length-set b.elements b.count value ∙ r.is_array.capacity;
        count = omega (arith, wraps, r.room);
      },
      count,
      (let seen : leb next.count a.count ≡ false = ground (arith, count) in
          rw seen (
            ap (get_elem? next.elements) (sym r.count)
            ∙ get_elem?-set_self b.elements b.count value inside)),
      λ i before.
          let seen : leb next.count i ≡ false = ground (arith, count) in
          let old : leb a.count i ≡ false = ground arith in
          rw (seen, old)
            (get_elem?-set_ne b.elements value (λ e. omega (arith, r.count)) ∙ r.same i before),
    )
