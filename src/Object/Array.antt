-- ===== src/Object/Array.antt =====
-- The array objects (include/niki/l0_core/vm/object.hpp) and the case of `OP_PUSH_ARRAY`
-- (src/l0_core/vm/vm.cpp).
use niki.Prelude.{
  ℕ, ◌+◌, ◌-◌, ◌*◌, ◌%◌, ◌^◌, ◌++◌, Option, none, some, ltb, leb, if◌then◌else◌, length, set,
  get_elem?, replicate,
}
use niki.Object.Value.{Value, nil, ObjArray}

-- `allocateArray`.
unfoldable pub allocate_array : ℕ → ObjArray
allocate_array capacity = record {
  capacity = capacity;
  count = 0;
  elements = replicate capacity nil;
}

-- `expandArray`.
unfoldable pub expand_array : ℕ → ObjArray → ObjArray
expand_array new_capacity a = if leb new_capacity a.capacity then a else record a {
  elements = a.elements ++ replicate (new_capacity - a.capacity) nil;
  capacity = new_capacity;
}

-- The room for one more element.
unfoldable pub make_room : ObjArray → ObjArray
unfolding expand_array
make_room a =
    if leb a.capacity a.count
    then expand_array (if ltb a.capacity 8 then 8 else a.capacity * 2 % 2 ^ 32) a
    else a

-- `array->elements[array->count++] = value`: `none` where it writes behind the elements.
unfoldable pub append_element : Value → ObjArray → Option ObjArray
append_element value a =
    if ltb a.count (length a.elements)
    then some (record a { elements = set a.elements a.count value; count = (a.count + 1) % 2 ^ 32 })
    else none

-- The push of `OP_PUSH_ARRAY`.
unfoldable pub push_array : Value → ObjArray → Option ObjArray
unfolding make_room append_element
push_array value a = append_element value (make_room a)

-- The read and the write of an element behind the test of its index against the count.
unfoldable pub get_array : ℕ → ObjArray → Option Value
get_array i a = if leb a.count i then none else get_elem? a.elements i

unfoldable pub set_array : ℕ → Value → ObjArray → Option ObjArray
set_array i value a =
    if leb a.count i then none else some (record a { elements = set a.elements i value })
