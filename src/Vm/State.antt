-- ===== src/Vm/State.antt =====
-- The state of the virtual machine and its accesses (include/niki/l0_core/vm/vm.hpp,
-- src/l0_core/vm/vm.cpp). What a message says of the call stack, and the printing of results, are
-- left out.
use Prim.Native.String.{String}
use niki.Prelude.{
  ℕ, ◌+◌, ◌≡◌, ◌↔◌, Bool, true, false, ◌&&◌, List, [], ◌∷◌, Option, none, some, arith, ltb, ◌==◌,
  if◌then◌else◌, bytes_eq, length, get_elem?, set,
}
use niki.Pool.Search.{Eq}
use niki.Pool.Mapped.{lookup}
use niki.Pool.Strings.{Bytes}
use niki.Bytecode.Stream.{try_read_byte, try_read_short}
use niki.Vm.Fetch.{try_jump_forward, try_jump_backward}
use niki.Object.Value.{Value, object, Obj, ObjFunction, Heap, allocate, deref}

-- `struct GlobalKey`.
pub record GlobalKey : Type 0 where
  pub module_id : ℕ
  pub name_id : ℕ

abbrev pub global_key_eq : GlobalKey → GlobalKey → Bool
global_key_eq a b = a.module_id == b.module_id && a.name_id == b.name_id

pub global_key_eq_iff : (a b : GlobalKey) → (global_key_eq a b ≡ true) ↔ (a ≡ b)
global_key_eq_iff a b = (
  λ h.
      let unit : a.module_id ≡ b.module_id = ground arith in
      let name : a.name_id ≡ b.name_id = ground arith in cc,
  λ e. ground arith,
)

instance abbrev pub global_keys : Eq GlobalKey
global_keys = record { equal = global_key_eq; equal_iff = global_key_eq_iff }

-- `struct CallFrame`: the instruction pointer is an index of the code.
pub record CallFrame : Type 0 where
  pub function : ObjFunction
  pub ip : ℕ
  pub base_register : ℕ
  pub out_register : ℕ

-- `class VM`: the last frame, and those below it, the nearest first. `drawn` counts the calls of
-- `std::rand`.
pub record Vm : Type 0 where
  pub stack : List Value
  pub frame : CallFrame
  pub callers : List CallFrame
  pub globals : List (GlobalKey × ℕ)
  pub global_objects : List (GlobalKey × ℕ)
  pub current_string_pool : List Bytes
  pub current_chunk_module_id : ℕ
  pub heap : Heap
  pub drawn : ℕ

-- `stack_capacity`.
abbrev pub stack_capacity : ℕ
stack_capacity = 8192

-- How a part of an instruction ends: with a value and the state, as the result of the whole program,
-- with the message of a runtime error, or with what C++ leaves undefined.
pub data Outcome (A : Type 0) : Type 0 where
  ok : A → Vm → Outcome A
  finished : Value → Vm → Outcome A
  runtime_error : String → Outcome A
  undefined : Outcome A

abbrev pub M : Type 0 → Type 0
M A = Vm → Outcome A

infixl 5 ◌>>=◌ ◌>>◌
unfoldable pub ◌>>=◌ : {A B : Type 0} → M A → (A → M B) → M B
◌>>=◌ m f vm = elim (m vm) [
  | ok a next ↦ f a next
  | finished value next ↦ finished value next
  | runtime_error message ↦ runtime_error message
  | undefined ↦ undefined
]

unfoldable pub ◌>>◌ : {A B : Type 0} → M A → M B → M B
unfolding ◌>>=◌
m >> k = m >>= λ _. k

unfoldable pub pure : {A : Type 0} → A → M A
pure a vm = ok a vm

unfoldable pub fail : {A : Type 0} → String → M A
fail message vm = runtime_error message

-- A value, or else a message, or else nothing that C++ defines.
unfoldable pub or_fail : {A : Type 0} → Option A → String → M A
or_fail none message vm = runtime_error message
or_fail (some a) message vm = ok a vm

unfoldable pub or_undefined : {A : Type 0} → Option A → M A
or_undefined none vm = undefined
or_undefined (some a) vm = ok a vm

unfoldable pub guard : Bool → String → M (Unit {0})
guard true message vm = ok tt vm
guard false message vm = runtime_error message

-- A part of the state.
unfoldable pub read_state : {A : Type 0} → (Vm → A) → M A
read_state part vm = ok (part vm) vm

-- `VM_RB_` with `tryReadByte`.
unfoldable pub read_byte : M ℕ
read_byte vm = elim (try_read_byte vm.frame.function.chunk.code vm.frame.ip) [
  | none ↦ runtime_error "Unexpected end of bytecode."
  | some (byte, next) ↦ ok byte (record vm { frame = record vm.frame { ip = next } })
]

-- `VM_RS_` with `tryReadShort`.
unfoldable pub read_short : M ℕ
read_short vm = elim (try_read_short vm.frame.function.chunk.code vm.frame.ip) [
  | none ↦ runtime_error "Unexpected end of bytecode."
  | some (value, next) ↦ ok value (record vm { frame = record vm.frame { ip = next } })
]

-- `tryJumpForward` and `tryJumpBackward` with their messages.
unfoldable pub jump_forward : ℕ → M (Unit {0})
jump_forward offset vm = elim (try_jump_forward vm.frame.function.chunk.code vm.frame.ip offset) [
  | none ↦ runtime_error "Jump target out of range."
  | some next ↦ ok tt (record vm { frame = record vm.frame { ip = next } })
]

unfoldable pub jump_backward : ℕ → M (Unit {0})
jump_backward offset vm = elim (try_jump_backward vm.frame.function.chunk.code vm.frame.ip offset) [
  | none ↦ runtime_error "Loop jump target out of range."
  | some next ↦ ok tt (record vm { frame = record vm.frame { ip = next } })
]

-- `currentRegisters()[reg]`, read and written: undefined outside of the stack.
unfoldable pub get_register : ℕ → M Value
get_register reg vm = elim (get_elem? vm.stack (vm.frame.base_register + reg)) [
  | none ↦ undefined
  | some value ↦ ok value vm
]

unfoldable pub set_register : ℕ → Value → M (Unit {0})
set_register reg value vm =
    let place = vm.frame.base_register + reg in
    if ltb place (length vm.stack)
    then ok tt (record vm { stack = set vm.stack place value })
    else undefined

-- `readConstantByIndex`.
unfoldable pub read_constant : ℕ → M Value
read_constant index vm = elim (get_elem? vm.frame.function.chunk.constants index) [
  | none ↦ runtime_error "Constant index out of range"
  | some value ↦ ok value vm
]

-- The object that a value points to: `none` for another value, undefined after it was freed.
unfoldable pub object_of : Value → M (Option Obj)
object_of (object address) vm = elim (deref vm.heap address) [
  | none ↦ undefined
  | some o ↦ ok (some o) vm
]
object_of _ vm = ok none vm

-- An object that is put on the heap.
unfoldable pub new_object : Obj → M Value
new_object o vm = let (heap, pointer) = allocate o vm.heap in ok pointer (record vm { heap = heap })

-- A write to the object that a value points to.
unfoldable pub put_object : Value → Option Obj → M (Unit {0})
put_object (object address) cell vm = ok tt (record vm { heap = set vm.heap address cell })
put_object _ cell vm = undefined

-- `lookupGlobalFunctionById`.
unfoldable pub lookup_global_function_by_id : ℕ → ℕ → Vm → Option ℕ
lookup_global_function_by_id unit name vm =
    lookup (record { module_id = unit; name_id = name }) vm.globals

-- The scan of `lookupGlobalFunctionByName`: the index of the first string that is the name.
unfoldable pub index_of_name : Bytes → List Bytes → ℕ → Option ℕ
index_of_name name [] i = none
index_of_name name (text ∷ pool) i =
    if bytes_eq text name then some i else index_of_name name pool (i + 1)

-- `lookupGlobalFunctionByName`.
unfoldable pub lookup_global_function_by_name : Bytes → Vm → Option ℕ
unfolding lookup_global_function_by_id
lookup_global_function_by_name name vm = elim (index_of_name name vm.current_string_pool 0) [
  | none ↦ none
  | some i ↦ lookup_global_function_by_id vm.current_chunk_module_id i vm
]
