-- ===== src/Vm/Tests.antt =====
-- Runs of the virtual machine, and its theorems at them.
use niki.Prelude.{
  ℕ, ◌+◌, ◌<◌, ◌≤◌, ◌^◌, ◌≡◌, refl, ◌⊎◌, List, [], ◌∷◌, some, arith, ltb, leb, ◌==◌, get_elem?, set,
  true, not, if◌then◌else◌, replicate, length-replicate,
}
use niki.Linker.Link.{Chunk, LinkedProgram}
use niki.Bytecode.Stream.{try_read_byte, try_read_short}
use niki.Opcode.Code.{of_int, op_oeq, op_one, op_iadd, op_isub}
use niki.Object.Value.{Value, nil, int, bool, object, Obj, ObjFunction, ObjMap, Heap, deref}
use niki.Pool.Mapped.{lookup}
use niki.Vm.Fetch.{try_jump_forward}
use niki.Vm.Objects.{is_alive, value_key_equals}
use niki.Vm.State.{
  Vm, ok, undefined, stack_capacity, ◌>>=◌, ◌>>◌, read_byte, read_short, jump_forward, or_fail,
  get_register, set_register, object_of, guard, read_state, lookup_global_function_by_id,
}
use niki.Vm.Numbers.{Host}
use niki.Vm.Control.{op_call, op_return, op_jmp}
use niki.Vm.Run.{execute, step, run, execute_chunk, execute_function}
use niki.Vm.Launch.{
  launch_program, run_init_chunks, find_entry_function, run_entry, result, entry_lookup_failed,
}
use niki.Vm.Operands.{HasOperands, written}
use niki.Vm.Int64Laws.{above, below, iadd_lem, isub_lem}
use niki.Object.Map.{free_entry, map_set, map_get}
use niki.Object.MapLaws.{pairs, IsMap}
use niki.Vm.Keys.{ComparesFloats, map_get-map_set_keys}
use niki.Vm.Safe.{IsSafe}
use niki.Vm.Depth.{run-IsSafe}
use niki.Vm.Calls.{op_return-op_call}
use niki.Vm.Compare.{oeq_as_one}
use niki.Vm.Launches.{HasRun, HasNoEntry, launch_program-HasRun, launch_program-HasNoEntry}

abbrev host : Host
host = record {
  float_add = λ a b. a;
  float_sub = λ a b. a;
  float_mul = λ a b. a;
  float_div = λ a b. a;
  float_neg = λ a. a;
  float_eq = ◌==◌;
  float_lt = ltb;
  float_le = leb;
  rand = λ n. n;
}

abbrev chunk_of : List ℕ → Chunk Value
chunk_of code = record {
  module_id = 1;
  code = code;
  constants = [];
  lines = [];
  columns = [];
  string_pool = [];
  max_register_slots = 4;
}

abbrev function_of : List ℕ → ObjFunction
function_of code = record { name_id = 2; arity = 0; max_registers = 4; chunk = chunk_of code }

abbrev machine : List Value → Heap → List ℕ → Vm
machine stack heap code = record {
  stack = stack;
  frame = record { function = function_of code; ip = 0; base_register = 0; out_register = 0 };
  callers = [];
  globals = [];
  global_objects = [];
  current_string_pool = [];
  current_chunk_module_id = 1;
  heap = heap;
  drawn = 0;
}

-- A jump over one byte, on a stack of its full size.
abbrev jumping : Vm
jumping = machine (replicate stack_capacity nil) [] (66 ∷ 0 ∷ 1 ∷ 74 ∷ 74 ∷ [])

abbrev jumped : Vm
jumped = record jumping { frame = record jumping.frame { ip = 4 } }

jumps : run 1 host jumping ≡ ok tt jumped
unfolding run step execute ◌>>=◌ read_byte try_read_byte or_fail of_int op_jmp read_short
    try_read_short jump_forward try_jump_forward
jumps = refl

jumping-IsSafe : IsSafe jumping
jumping-IsSafe = record {
  stack = length-replicate stack_capacity nil;
  depth = omega arith;
  windows = refl;
}

run-IsSafe_example : IsSafe jumped
run-IsSafe_example = run-IsSafe 1 host jumping jumped jumping-IsSafe jumps

-- A program that returns at once.
abbrev returning : Vm
returning = machine (int 7 ∷ []) [] (74 ∷ [])

-- The integers 5 and 7 in two registers, and an instruction that takes them.
abbrev summing : Vm
summing = machine (int 5 ∷ int 7 ∷ nil ∷ []) [] (2 ∷ 0 ∷ 1 ∷ [])

summing-HasOperands : HasOperands summing 2 (int 5) (int 7)
summing-HasOperands = record {
  left_reg = 0;
  right_reg = 1;
  target_at = refl;
  left_at = refl;
  right_at = refl;
  left_is = refl;
  right_is = refl;
  inside = omega arith;
}

iadd_lem_example :
    ((c : ℕ) × (execute host op_iadd summing ≡ ok tt (written summing 2 (int c)))
      × (c < 2 ^ 64)
      × (above c + below 5 + below 7 ≡ below c + above 5 + above 7))
    ⊎ ((execute host op_iadd summing ≡ undefined)
        × ((2 ^ 63 + below 5 + below 7 ≤ above 5 + above 7)
            ⊎ (2 ^ 63 + above 5 + above 7 < below 5 + below 7)))
iadd_lem_example = iadd_lem host summing 2 5 7 summing-HasOperands (omega arith) (omega arith)

isub_lem_example :
    ((c : ℕ) × (execute host op_isub summing ≡ ok tt (written summing 2 (int c)))
      × (c < 2 ^ 64)
      × (above c + below 5 + above 7 ≡ below c + above 5 + below 7))
    ⊎ ((execute host op_isub summing ≡ undefined)
        × ((2 ^ 63 + below 5 + above 7 ≤ above 5 + below 7)
            ⊎ (2 ^ 63 + above 5 + below 7 < below 5 + above 7)))
isub_lem_example = isub_lem host summing 2 5 7 summing-HasOperands (omega arith) (omega arith)

-- A call of the function at address 0 with its result in register 2, behind the opcode.
abbrev callee : ObjFunction
callee = function_of (74 ∷ [])

abbrev calling : Vm
calling =
    machine (nil ∷ object 0 ∷ nil ∷ int 9 ∷ nil ∷ []) (some (Obj.function callee) ∷ [])
      (2 ∷ 1 ∷ 3 ∷ 0 ∷ 74 ∷ [])

abbrev entered : Vm
entered = record calling {
  callers = (record calling.frame { ip = 4 }) ∷ [];
  frame = record { function = callee; ip = 0; base_register = 3; out_register = 2 };
}

abbrev called : Vm
called = record calling {
  stack = nil ∷ object 0 ∷ int 9 ∷ int 9 ∷ nil ∷ [];
  frame = record calling.frame { ip = 4 };
}

calls : op_call calling ≡ ok tt entered
unfolding op_call ◌>>=◌ read_byte try_read_byte get_register object_of deref or_fail ◌>>◌ guard
    read_state
calls = refl

leaves_callee : op_return entered ≡ ok tt called
unfolding op_return ◌>>=◌ get_register set_register
leaves_callee = refl

op_return-op_call_example :
    (called.frame ≡ record calling.frame { ip = 4 })
    × (called.callers ≡ calling.callers)
    × (value : Value) × (out_reg : ℕ) × (get_elem? entered.stack (3 + 0) ≡ some value)
    × (try_read_byte calling.frame.function.chunk.code 0 ≡ some (out_reg, 0 + 1))
    × (called.stack ≡ set entered.stack (0 + out_reg) value)
op_return-op_call_example =
    op_return-op_call calling entered entered called calls refl refl leaves_callee

-- An object in two registers.
abbrev comparing : Vm
comparing =
    machine (object 0 ∷ object 0 ∷ nil ∷ []) (some (Obj.string (1 ∷ [])) ∷ []) (2 ∷ 0 ∷ 1 ∷ [])

comparing-HasOperands : HasOperands comparing 2 (object 0) (object 0)
comparing-HasOperands = record {
  left_reg = 0;
  right_reg = 1;
  target_at = refl;
  left_at = refl;
  right_at = refl;
  left_is = refl;
  right_is = refl;
  inside = omega arith;
}

comparing_alive : is_alive comparing.heap (object 0) ≡ true
unfolding is_alive deref
comparing_alive = refl

oeq_as_one_example :
    (execute host op_oeq comparing
      ≡ ok tt (
          written comparing 2
            (bool (not (value_key_equals host comparing.heap (object 0) (object 0))))))
    × (execute host op_one comparing
        ≡ ok tt (
            written comparing 2
              (bool (not (value_key_equals host comparing.heap (object 0) (object 0))))))
oeq_as_one_example =
    oeq_as_one host comparing 2 0 0 comparing-HasOperands comparing_alive comparing_alive

host-ComparesFloats : ComparesFloats host
host-ComparesFloats = record {
  left = λ a b c h. let e : a ≡ b = ground (arith, h) in rw e refl;
  right = λ a b c h. let e : a ≡ b = ground (arith, h) in rw e refl;
}

-- A map with the one pair of a string and 10, in four slots, and another string of the same bytes.
abbrev texts : Heap
texts = some (Obj.string (1 ∷ [])) ∷ some (Obj.string (1 ∷ [])) ∷ []

abbrev tens : ObjMap
tens = record {
  capacity = 4;
  count = 1;
  entries =
      free_entry
      ∷ (record { key = object 0; value = int 10; occupied = true })
      ∷ free_entry
      ∷ free_entry
      ∷ [];
}

tens-IsMap : IsMap tens
unfolding pairs
tens-IsMap = record { count = refl; capacity = refl }

map_get-map_set_keys_example :
    (map_get
        (value_key_equals host texts)
        (object 0)
        (map_set (value_key_equals host texts) (object 1) (int 20) tens)
      ≡ (if value_key_equals host texts (object 1) (object 0)
          then some (int 20)
          else map_get (value_key_equals host texts) (object 0) tens))
    × IsMap (map_set (value_key_equals host texts) (object 1) (int 20) tens)
map_get-map_set_keys_example =
    map_get-map_set_keys host texts (object 0) (object 1) (int 20) tens host-ComparesFloats
      tens-IsMap (omega arith)

-- A program of one chunk and one function, which the globals know.
abbrev program : LinkedProgram Value
program = record {
  init_chunks = chunk_of (74 ∷ []) ∷ [];
  entry_name_id = 2;
  entry_module_id = 1;
  string_pool = [];
}

abbrev ready : Vm
ready = record (machine (int 7 ∷ []) (some (Obj.function callee) ∷ []) []) {
  globals = (record { module_id = 1; name_id = 2 }, 0) ∷ [];
}

abbrev done : Vm
done = record ready {
  frame = record { function = callee; ip = 1; base_register = 0; out_register = 0 };
}

launches : launch_program 3 host program ready ≡ result (int 7) done
unfolding launch_program run_init_chunks find_entry_function execute_chunk run step execute ◌>>=◌
    read_byte try_read_byte or_fail of_int op_return get_register lookup_global_function_by_id
    lookup run_entry deref execute_function
launches = refl

launch_program-HasRun_example : HasRun 3 host program ready (int 7) done
launch_program-HasRun_example = launch_program-HasRun 3 host program ready done (int 7) launches

no_entry : launch_program 3 host program returning ≡ entry_lookup_failed
unfolding launch_program run_init_chunks find_entry_function execute_chunk run step execute ◌>>=◌
    read_byte try_read_byte or_fail of_int op_return get_register lookup_global_function_by_id
    lookup
no_entry = refl

launch_program-HasNoEntry_example : HasNoEntry 3 host program returning
launch_program-HasNoEntry_example = launch_program-HasNoEntry 3 host program returning no_entry
