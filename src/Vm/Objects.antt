-- ===== src/Vm/Objects.antt =====
-- The cases of `VM::run` on strings, maps, arrays and instances (src/l0_core/vm/vm.cpp), with
-- `valueKeyEquals` (include/niki/l0_core/vm/object.hpp).
use Prim.Native.String.{String}
use niki.Prelude.{
  ℕ, zero, suc, ◌+◌, Bool, true, false, not, ◌&&◌, List, [], ◌∷◌, ◌++◌, Option, none, some, ltb,
  leb, ◌==◌, if◌then◌else◌, bytes_eq, get_elem?, set,
}
use niki.Object.Value.{
  Value, nil, bool, int, float, object, Obj, ObjMapEntry, ObjInstance, ObjStructDef, ObjArray,
  ObjMap, Heap, deref,
}
use niki.Object.Map.{allocate_map, map_set, map_get}
use niki.Object.Array.{allocate_array, push_array, get_array, set_array}
use niki.Vm.State.{
  read_state, Outcome, M, ok, ◌>>=◌, ◌>>◌, pure, guard, or_fail, or_undefined, read_byte,
  get_register, set_register, object_of, new_object, put_object, stack_capacity,
}
use niki.Vm.Numbers.{Host, read_operands}

-- `valueKeyEquals` on two objects: strings by their bytes, others by their address.
unfoldable pub objects_equal : ℕ → ℕ → Option Obj → Option Obj → Bool
objects_equal a b (some (Obj.string s)) (some (Obj.string t)) = bytes_eq s t
objects_equal a b _ _ = a == b

-- `valueKeyEquals`. Objects of different types have different addresses.
unfoldable pub value_key_equals : Host → Heap → Value → Value → Bool
unfolding objects_equal
value_key_equals host heap nil nil = true
value_key_equals host heap (bool a) (bool b) = if a then b else not b
value_key_equals host heap (int a) (int b) = a == b
value_key_equals host heap (float a) (float b) = host.float_eq a b
value_key_equals host heap (object a) (object b) = objects_equal a b (deref heap a) (deref heap b)
value_key_equals host heap _ _ = false

-- Whether a value does not point to an object that was freed.
unfoldable pub is_alive : Heap → Value → Bool
is_alive heap (object a) = elim (deref heap a) [ none ↦ false | some o ↦ true ]
is_alive heap _ = true

-- Whether the keys of a map can be compared: a comparison with a freed key is undefined, and where one
-- of the keys was freed the access of the map is.
unfoldable pub keys_alive : Heap → List ObjMapEntry → Bool
keys_alive heap [] = true
keys_alive heap (e ∷ entries) =
    if e.occupied then is_alive heap e.key && keys_alive heap entries else keys_alive heap entries

abbrev pub as_map : Option Obj → Option ObjMap
as_map (some (Obj.map m)) = some m
as_map _ = none

abbrev pub as_array : Option Obj → Option ObjArray
as_array (some (Obj.array a)) = some a
as_array _ = none

abbrev pub as_string : Option Obj → Option (List ℕ)
as_string (some (Obj.string s)) = some s
as_string _ = none

abbrev pub as_instance : Option Obj → Option ObjInstance
as_instance (some (Obj.instance_ i)) = some i
as_instance _ = none

abbrev pub as_struct_def : Option Obj → Option ObjStructDef
as_struct_def (some (Obj.struct_def d)) = some d
as_struct_def _ = none

-- Go on only where C++ defines the access.
unfoldable pub defined : Bool → M (Unit {0})
defined true vm = ok tt vm
defined false vm = Outcome.undefined

-- `OP_NEW_MAP`.
unfoldable pub op_new_map : M (Unit {0})
op_new_map = do
  target ← read_byte
  capacity ← read_byte
  pointer ← new_object (Obj.map (allocate_map capacity))
  set_register target pointer

-- `OP_SET_MAP`.
unfoldable pub op_set_map : Host → M (Unit {0})
op_set_map host = do
  map_reg ← read_byte
  key_reg ← read_byte
  val_reg ← read_byte
  pointer ← get_register map_reg
  o ← object_of pointer
  m ← or_fail (as_map o) "Target of set must be a map."
  key ← get_register key_reg
  value ← get_register val_reg
  heap ← read_state (λ vm. vm.heap)
  defined (is_alive heap key && keys_alive heap m.entries)
  put_object pointer (some (Obj.map (map_set (value_key_equals host heap) key value m)))

-- `OP_GET_MAP`.
unfoldable pub op_get_map : Host → M (Unit {0})
op_get_map host = do
  target ← read_byte
  map_reg ← read_byte
  key_reg ← read_byte
  pointer ← get_register map_reg
  o ← object_of pointer
  m ← or_fail (as_map o) "Target of get must be a map."
  key ← get_register key_reg
  heap ← read_state (λ vm. vm.heap)
  defined (is_alive heap key && keys_alive heap m.entries)
  value ← or_fail (map_get (value_key_equals host heap) key m) "Map key not found."
  set_register target value

-- `OP_NEW_ARRAY`.
unfoldable pub op_new_array : M (Unit {0})
op_new_array = do
  target ← read_byte
  capacity ← read_byte
  pointer ← new_object (Obj.array (allocate_array capacity))
  set_register target pointer

-- `OP_PUSH_ARRAY`.
unfoldable pub op_push_array : M (Unit {0})
op_push_array = do
  array_reg ← read_byte
  val_reg ← read_byte
  pointer ← get_register array_reg
  o ← object_of pointer
  a ← or_fail (as_array o) "Target of push must be an array."
  value ← get_register val_reg
  pushed ← or_undefined (push_array value a)
  put_object pointer (some (Obj.array pushed))

-- An index of an array: a negative one has a pattern of at least 2 ^ 63, and the count is below
-- 2 ^ 32, so that one test does for both bounds.
abbrev as_index : Value → Option ℕ
as_index (int i) = some i
as_index _ = none

-- `OP_GET_ARRAY`.
unfoldable pub op_get_array : M (Unit {0})
op_get_array = do
  target ← read_byte
  array_reg ← read_byte
  index_reg ← read_byte
  pointer ← get_register array_reg
  index ← get_register index_reg
  o ← object_of pointer
  a ← or_fail (as_array o) "Target of push must be an array."
  i ← or_fail (as_index index) "Array index must be an integer."
  value ← or_fail (get_array i a) "Array index out of bounds."
  set_register target value

-- `OP_SET_ARRAY`.
unfoldable pub op_set_array : M (Unit {0})
op_set_array = do
  array_reg ← read_byte
  index_reg ← read_byte
  val_reg ← read_byte
  pointer ← get_register array_reg
  index ← get_register index_reg
  o ← object_of pointer
  a ← or_fail (as_array o) "Target of push must be an array."
  i ← or_fail (as_index index) "Array index must be an integer."
  value ← get_register val_reg
  next ← or_fail (set_array i value a) "Array index out of bounds."
  put_object pointer (some (Obj.array next))

-- `OP_CONCAT`.
unfoldable pub op_concat : M (Unit {0})
op_concat = do
  (target, left, right) ← read_operands
  a ← object_of left
  s ← or_fail (as_string a) "Operands must be strings for concatenation '..'."
  b ← object_of right
  t ← or_fail (as_string b) "Operands must be strings for concatenation '..'."
  pointer ← new_object (Obj.string (s ++ t))
  set_register target pointer

-- `OP_SEQ` and `OP_SNE`.
unfoldable pub string_compare : Host → (Bool → Bool) → String → M (Unit {0})
string_compare host result message = do
  (target, left, right) ← read_operands
  a ← object_of left
  s ← or_fail (as_string a) message
  b ← object_of right
  t ← or_fail (as_string b) message
  heap ← read_state (λ vm. vm.heap)
  set_register target (bool (result (value_key_equals host heap left right)))

abbrev pub is_object : Value → Bool
is_object (object a) = true
is_object _ = false

-- `OP_OEQ` and `OP_ONE`: both write whether the objects differ.
unfoldable pub object_compare : Host → String → M (Unit {0})
object_compare host message = do
  (target, left, right) ← read_operands
  guard (is_object left && is_object right) message
  heap ← read_state (λ vm. vm.heap)
  defined (is_alive heap left && is_alive heap right)
  set_register target (bool (not (value_key_equals host heap left right)))

-- The loop that copies the arguments to the fields.
unfoldable pub read_arguments : ℕ → ℕ → M (List Value)
read_arguments zero reg = pure []
read_arguments (suc rounds) reg = do
  value ← get_register reg
  rest ← read_arguments rounds (reg + 1)
  pure (value ∷ rest)

-- `OP_NEW_INSTANCE`.
unfoldable pub op_new_instance : M (Unit {0})
op_new_instance = do
  out_reg ← read_byte
  callee_reg ← read_byte
  arg_start ← read_byte
  argc ← read_byte
  callee ← get_register callee_reg
  o ← object_of callee
  definition ← or_fail (as_struct_def o) "Can only instantiate struct definitions."
  guard (definition.field_count == argc) "Struct instance argument count mismatch."
  base ← read_state (λ vm. vm.frame.base_register)
  guard (leb (base + arg_start + argc) stack_capacity)
      "Struct constructor argument registers out of stack range."
  fields ← read_arguments argc arg_start
  pointer ← new_object (
      Obj.instance_
        (record { struct_definition = elim callee [ object a ↦ a | _ ↦ 0 ]; fields = fields }))
  set_register out_reg pointer

-- `instance->struct_definition->field_count`.
unfoldable pub field_count_of : ObjInstance → M ℕ
field_count_of i = do
  o ← object_of (object i.struct_definition)
  definition ← or_undefined (as_struct_def o)
  pure definition.field_count

-- `OP_GET_FIELD`.
unfoldable pub op_get_field : M (Unit {0})
op_get_field = do
  out_reg ← read_byte
  instance_reg ← read_byte
  field_index ← read_byte
  pointer ← get_register instance_reg
  o ← object_of pointer
  i ← or_fail (as_instance o) "Can only get fields from struct instances."
  count ← field_count_of i
  guard (ltb field_index count) "Field index out of bounds."
  value ← or_undefined (get_elem? i.fields field_index)
  set_register out_reg value

-- `OP_SET_FIELD`.
unfoldable pub op_set_field : M (Unit {0})
op_set_field = do
  instance_reg ← read_byte
  field_index ← read_byte
  value_reg ← read_byte
  pointer ← get_register instance_reg
  o ← object_of pointer
  i ← or_fail (as_instance o) "Can only set fields on struct instances."
  count ← field_count_of i
  guard (ltb field_index count) "Field index out of bounds."
  value ← get_register value_reg
  put_object pointer (some (Obj.instance_ (record i { fields = set i.fields field_index value })))

-- What `OP_FREE` does to an object: functions and definitions of structs stay.
unfoldable pub release : Value → Option Obj → M (Unit {0})
release pointer none = pure tt
release pointer (some (Obj.function f)) = pure tt
release pointer (some (Obj.struct_def d)) = pure tt
release pointer (some o) = put_object pointer none

-- `OP_FREE`.
unfoldable pub op_free : M (Unit {0})
op_free = do
  target ← read_byte
  value ← get_register target
  o ← object_of value
  release value o
  set_register target nil
