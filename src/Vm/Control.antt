-- ===== src/Vm/Control.antt =====
-- The cases of `VM::run` on jumps, calls and top-level symbols (src/l0_core/vm/vm.cpp).
use niki.Prelude.{
  ℕ, ◌+◌, ◌%◌, ◌^◌, Bool, List, [], ◌∷◌, Option, none, some, leb, ◌==◌, not, if◌then◌else◌, length,
}
use niki.Pool.Mapped.{lookup}
use niki.Object.Value.{Value, nil, int, object, Obj, ObjFunction}
use niki.Vm.State.{
  read_state, Vm, CallFrame, GlobalKey, global_keys, M, ok, finished, ◌>>=◌, ◌>>◌, pure, fail,
  guard, or_fail, or_undefined, read_byte, read_short, jump_forward, jump_backward, get_register,
  set_register, read_constant, object_of, stack_capacity,
}

-- `OP_JMP` and `OP_LOOP`.
unfoldable pub op_jmp : M (Unit {0})
op_jmp = read_short >>= jump_forward

unfoldable pub op_loop : M (Unit {0})
op_loop = read_short >>= jump_backward

-- `OP_JZ` and `OP_JNZ`.
unfoldable pub conditional_jump : (Value → Bool) → M (Unit {0})
conditional_jump test = do
  cond_reg ← read_byte
  offset ← read_short
  value ← get_register cond_reg
  (if test value then jump_forward offset else pure tt)

-- The members of `VM` that a top-level symbol is written to.
unfoldable pub write_function : ℕ → ℕ → M (Unit {0})
write_function name address vm = ok tt (record vm {
  globals =
      (record { module_id = vm.current_chunk_module_id; name_id = name }, address) ∷ vm.globals;
})

unfoldable pub write_object : ℕ → ℕ → M (Unit {0})
write_object name address vm = ok tt (record vm {
  global_objects =
      (record { module_id = vm.current_chunk_module_id; name_id = name }, address)
      ∷ vm.global_objects;
})

-- The address of a value that is an object.
abbrev pub address_of : Value → Option ℕ
address_of (object a) = some a
address_of _ = none

-- The classes of an object that `OP_DEFINE_GLOBAL` tells apart.
unfoldable pub define_object : ℕ → Option Obj → M (Unit {0})
define_object address (some (Obj.struct_def d)) = write_object d.name_id address
define_object address (some (Obj.function f)) = write_function f.name_id address
define_object address _ = fail "Invalid global definition type."

-- The pointer of a constant: that of nil is null, that of a number is undefined.
unfoldable pub define_value : Value → M (Unit {0})
unfolding define_object
define_value nil = fail "Invalid global definition type."
define_value (object address) = do o ← object_of (object address); define_object address o
define_value _ = or_undefined none

-- `OP_DEFINE_GLOBAL` and `OP_DEFINE_GLOBAL_W` behind their index.
unfoldable pub define_global : ℕ → M (Unit {0})
unfolding define_value
define_global index = do value ← read_constant index; define_value value

-- The name in a constant: the integer of a nil constant is 0, that of another is undefined.
abbrev pub as_name : Value → Option ℕ
as_name (int n) = some (n % 2 ^ 32)
as_name nil = some 0
as_name _ = none

-- The search of `OP_GET_GLOBAL`: functions first.
unfoldable pub find_global : GlobalKey → Vm → Option ℕ
find_global key vm = elim (lookup key vm.globals) [
  | some address ↦ some address
  | none ↦ lookup key vm.global_objects
]

-- `OP_GET_GLOBAL` and `OP_GET_GLOBAL_W` behind their operands.
unfoldable pub get_global : ℕ → ℕ → M (Unit {0})
unfolding find_global
get_global target index = do
  constant ← read_constant index
  name ← or_undefined (as_name constant)
  found ←
      read_state
        (λ vm. find_global (record { module_id = vm.current_chunk_module_id; name_id = name }) vm)
  address ← or_fail found "Undefined global variable or function."
  set_register target (object address)

-- The classes of an object that `OP_SET_GLOBAL` tells apart.
unfoldable pub assign_object : ℕ → ℕ → Option Obj → M (Unit {0})
assign_object name address (some (Obj.struct_def d)) = write_object name address
assign_object name address (some (Obj.function f)) = write_function name address
assign_object name address _ =
    fail "Top-level symbol write only supports function/struct definitions."

-- `OP_SET_GLOBAL` and `OP_SET_GLOBAL_W` behind their operands.
unfoldable pub set_global : ℕ → ℕ → M (Unit {0})
unfolding assign_object
set_global value_reg index = do
  constant ← read_constant index
  name ← or_undefined (as_name constant)
  value ← get_register value_reg
  address ← or_fail (address_of value) "Top-level symbol write expects object value."
  o ← object_of value
  assign_object name address o

abbrev pub as_function : Option Obj → Option ObjFunction
as_function (some (Obj.function f)) = some f
as_function _ = none

-- The register window of a function.
abbrev pub callee_slots : ObjFunction → ℕ
callee_slots f = if f.max_registers == 0 then 256 else f.max_registers

-- `frames.size()`.
abbrev pub depth : Vm → ℕ
depth vm = length vm.callers + 1

-- `frames.push_back` of a callee.
unfoldable pub push_frame : ObjFunction → ℕ → ℕ → M (Unit {0})
push_frame f base out vm = ok tt (record vm {
  callers = vm.frame ∷ vm.callers;
  frame = record { function = f; ip = 0; base_register = base; out_register = out };
})

-- The tests of `OP_CALL` on the stacks, and its new frame. The window of the callee starts at the first
-- argument.
unfoldable pub enter_function : ObjFunction → ℕ → ℕ → ℕ → M (Unit {0})
unfolding push_frame
enter_function f out_reg arg_start argc = do
  frames ← read_state depth
  guard (not (frames == 256)) "Stack overflow."
  base ← read_state (λ vm. vm.frame.base_register + arg_start)
  guard (leb (base + argc) stack_capacity) "Call argument registers out of stack range."
  guard (leb (base + callee_slots f) stack_capacity)
      "Callee register window exceeds physical stack."
  push_frame f base out_reg

-- `OP_CALL`.
unfoldable pub op_call : M (Unit {0})
unfolding enter_function
op_call = do
  out_reg ← read_byte
  callee_reg ← read_byte
  arg_start ← read_byte
  argc ← read_byte
  callee ← get_register callee_reg
  o ← object_of callee
  f ← or_fail (as_function o) "Can only call functions"
  guard (argc == f.arity) "Expected %u arguments, got %u."
  enter_function f out_reg arg_start argc

-- The frame that a result returns to: the last frame ends the program.
unfoldable pub return_to : List CallFrame → Value → M (Unit {0})
return_to [] result vm = finished result vm
return_to (caller ∷ callers) result vm =
    set_register vm.frame.out_register result (record vm { frame = caller; callers = callers })

unfoldable pub pop_frame : Value → M (Unit {0})
unfolding return_to
pop_frame result vm = return_to vm.callers result vm

-- `OP_RETURN`.
unfoldable pub op_return : M (Unit {0})
unfolding pop_frame
op_return = do result ← get_register 0; pop_frame result
