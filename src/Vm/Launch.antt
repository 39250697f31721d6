-- ===== src/Vm/Launch.antt =====
-- The launch of a linked program: src/l0_core/runtime/launcher.cpp.
use niki.Prelude.{ℕ, List, [], ◌∷◌, none, some}
use niki.Linker.Link.{Chunk, LinkedProgram}
use niki.Object.Value.{Value, deref}
use niki.Vm.State.{Vm, ok, finished, runtime_error, undefined, lookup_global_function_by_id}
use niki.Vm.Numbers.{Host}
use niki.Vm.Control.{as_function}
use niki.Vm.Run.{execute_chunk, execute_function}

-- How a launch ends: with a result, with a diagnostic of the launcher, inside a run whose fuel is
-- spent, or with what C++ leaves undefined.
pub data Launched : Type 0 where
  result : Value → Vm → Launched
  init_runtime_error : Launched
  entry_lookup_failed : Launched
  entry_runtime_error : Launched
  running : Vm → Launched
  undefined_launch : Launched

-- The run of the entry function, which the address of the global table must lead to.
unfoldable pub run_entry : ℕ → Host → ℕ → Vm → Launched
run_entry fuel host address vm = elim (as_function (deref vm.heap address)) [
  | none ↦ undefined_launch
  | some f ↦ elim (execute_function fuel host f vm) [
    | ok _ next ↦ running next
    | finished value next ↦ result value next
    | runtime_error message ↦ entry_runtime_error
    | undefined ↦ undefined_launch
  ]
]

unfoldable pub find_entry_function : ℕ → Host → LinkedProgram Value → Vm → Launched
find_entry_function fuel host program vm =
    elim (lookup_global_function_by_id program.entry_module_id program.entry_name_id vm) [
      | none ↦ entry_lookup_failed
      | some address ↦ run_entry fuel host address vm
    ]

-- The chunks in their order, and then the rest of the launch.
unfoldable pub run_init_chunks : ℕ → Host → List (Chunk Value) → (Vm → Launched) → Vm → Launched
run_init_chunks fuel host [] rest vm = rest vm
run_init_chunks fuel host (chunk ∷ chunks) rest vm = elim (execute_chunk fuel host chunk vm) [
  | ok _ next ↦ running next
  | finished value next ↦ run_init_chunks fuel host chunks rest next
  | runtime_error message ↦ init_runtime_error
  | undefined ↦ undefined_launch
]

-- `launchProgram`; every run has the fuel.
unfoldable pub launch_program : ℕ → Host → LinkedProgram Value → Vm → Launched
launch_program fuel host program vm =
    run_init_chunks fuel host program.init_chunks (find_entry_function fuel host program) vm
