-- ===== src/Vm/Launches.antt =====
-- What a launch did (src/l0_core/runtime/launcher.cpp).
use mathlib.Core.Path.{subst}
use niki.Prelude.{
  ℕ, ◌≡◌, ◌≢◌, refl, sym, ◌∙◌, inl, inr, List, [], ◌∷◌, Option, none, some, Option-cases,
}
use niki.Linker.Link.{Chunk, LinkedProgram}
use niki.Object.Value.{Value, ObjFunction, deref}
use niki.Vm.State.{
  Vm, Outcome, ok, finished, runtime_error, undefined, lookup_global_function_by_id,
}
use niki.Vm.Numbers.{Host}
use niki.Vm.Control.{as_function}
use niki.Vm.Run.{execute_chunk, execute_function}
use niki.Vm.Launch.{
  Launched, result, init_runtime_error, entry_lookup_failed, entry_runtime_error, running,
  undefined_launch, run_entry, find_entry_function, run_init_chunks, launch_program,
}

-- Chunks that ran to their end, one after the other.
pub data Ran (fuel : ℕ) (host : Host) : List (Chunk Value) → Vm → Vm → Type 0 where
  none_left : (vm : Vm) → Ran fuel host [] vm vm
  then :
      (chunk : Chunk Value) (chunks : List (Chunk Value)) (vm mid last : Vm) (value : Value)
      → execute_chunk fuel host chunk vm ≡ finished value mid
      → Ran fuel host chunks mid last
      → Ran fuel host (chunk ∷ chunks) vm last

-- A launch that gives a result.
pub record HasRun (fuel : ℕ) (host : Host) (program : LinkedProgram Value) (vm : Vm) (value : Value)
    (last : Vm) : Type 0 where
  pub mid : Vm
  pub initialised : Ran fuel host program.init_chunks vm mid
  pub address : ℕ
  pub entry : ObjFunction
  pub found :
      lookup_global_function_by_id program.entry_module_id program.entry_name_id mid ≡ some address
  pub is_entry : as_function (deref mid.heap address) ≡ some entry
  pub runs : execute_function fuel host entry mid ≡ finished value last

-- A launch that reports that there is no entry.
pub record HasNoEntry (fuel : ℕ) (host : Host) (program : LinkedProgram Value) (vm : Vm)
    : Type 0 where
  pub mid : Vm
  pub initialised : Ran fuel host program.init_chunks vm mid
  pub missing :
      lookup_global_function_by_id program.entry_module_id program.entry_name_id mid ≡ none

-- A launch whose first steps were chunks that ran, and what was left then.
record Reached (fuel : ℕ) (host : Host) (chunks : List (Chunk Value)) (rest : Vm → Launched)
    (vm : Vm) (end : Launched) : Type 0 where
  mid : Vm
  initialised : Ran fuel host chunks vm mid
  same : rest mid ≡ end

-- The ends that come from the entry alone.
abbrev IsEnd : Launched → Type 0
IsEnd (result value vm) = Unit
IsEnd entry_lookup_failed = Unit
IsEnd _ = ⊥

initialised_first :
    (fuel : ℕ) (host : Host) (chunks : List (Chunk Value)) (rest : Vm → Launched) (vm : Vm)
    (end : Launched)
    → run_init_chunks fuel host chunks rest vm ≡ end
    → IsEnd end
    → Reached fuel host chunks rest vm end
unfolding run_init_chunks
initialised_first fuel host [] rest vm end e is_end = record {
  mid = vm;
  initialised = none_left vm;
  same = e;
}
initialised_first fuel host (chunk ∷ chunks) rest vm end e is_end =
    split (execute_chunk fuel host chunk vm) refl
      (λ next. initialised_first fuel host chunks rest next end) e
  where
    split :
        (o : Outcome (Unit {0}))
        → execute_chunk fuel host chunk vm ≡ o
        → ((next : Vm)
            → run_init_chunks fuel host chunks rest next ≡ end
            → IsEnd end
            → Reached fuel host chunks rest next end)
        → (elim o as (λ _. Launched) [
          | ok _ next ↦ running next
          | finished value next ↦ run_init_chunks fuel host chunks rest next
          | runtime_error message ↦ init_runtime_error
          | undefined ↦ undefined_launch
        ])
          ≡ end
        → Reached fuel host (chunk ∷ chunks) rest vm end
    split (ok _ next) ran k h = absurd (subst IsEnd (sym h) is_end)
    split (finished value next) ran k h =
        let r = k next h is_end in
        record {
          mid = r.mid;
          initialised = then chunk chunks vm next r.mid value ran r.initialised;
          same = r.same;
        }
    split (runtime_error message) ran k h = absurd (subst IsEnd (sym h) is_end)
    split undefined ran k h = absurd (subst IsEnd (sym h) is_end)

record EntryRan (fuel : ℕ) (host : Host) (address : ℕ) (vm : Vm) (value : Value) (last : Vm)
    : Type 0 where
  entry : ObjFunction
  is_entry : as_function (deref vm.heap address) ≡ some entry
  runs : execute_function fuel host entry vm ≡ finished value last

run_entry-EntryRan :
    (fuel : ℕ) (host : Host) (address : ℕ) (vm last : Vm) (value : Value)
    → run_entry fuel host address vm ≡ result value last
    → EntryRan fuel host address vm value last
unfolding run_entry
run_entry-EntryRan fuel host address vm last value h =
    split (as_function (deref vm.heap address)) refl h
  where
    ran :
        (f : ObjFunction) (o : Outcome (Unit {0}))
        → execute_function fuel host f vm ≡ o
        → (elim o as (λ _. Launched) [
          | ok _ next ↦ running next
          | finished value next ↦ result value next
          | runtime_error message ↦ entry_runtime_error
          | undefined ↦ undefined_launch
        ])
          ≡ result value last
        → execute_function fuel host f vm ≡ finished value last
    ran f (ok _ next) e g = cc
    ran f (finished value' next) e g = cc
    ran f (runtime_error message) e g = cc
    ran f undefined e g = cc

    split :
        (o : Option ObjFunction)
        → as_function (deref vm.heap address) ≡ o
        → (elim o as (λ _. Launched) [
          | none ↦ undefined_launch
          | some f ↦ elim (execute_function fuel host f vm) [
            | ok _ next ↦ running next
            | finished value next ↦ result value next
            | runtime_error message ↦ entry_runtime_error
            | undefined ↦ undefined_launch
          ]
        ])
          ≡ result value last
        → EntryRan fuel host address vm value last
    split none e g = cc
    split (some f) e g = record {
      entry = f;
      is_entry = e;
      runs = ran f (execute_function fuel host f vm) refl g;
    }

run_entry-finds :
    (fuel : ℕ) (host : Host) (address : ℕ) (vm : Vm)
    → run_entry fuel host address vm ≢ entry_lookup_failed
unfolding run_entry
run_entry-finds fuel host address vm = split (as_function (deref vm.heap address))
  where
    ran :
        (o : Outcome (Unit {0}))
        → (elim o as (λ _. Launched) [
          | ok _ next ↦ running next
          | finished value next ↦ result value next
          | runtime_error message ↦ entry_runtime_error
          | undefined ↦ undefined_launch
        ])
          ≢ entry_lookup_failed
    ran (ok _ next) g = cc
    ran (finished value' next) g = cc
    ran (runtime_error message) g = cc
    ran undefined g = cc

    split :
        (o : Option ObjFunction)
        → (elim o as (λ _. Launched) [
          | none ↦ undefined_launch
          | some f ↦ elim (execute_function fuel host f vm) [
            | ok _ next ↦ running next
            | finished value next ↦ result value next
            | runtime_error message ↦ entry_runtime_error
            | undefined ↦ undefined_launch
          ]
        ])
          ≢ entry_lookup_failed
    split none g = cc
    split (some f) g = ran (execute_function fuel host f vm) g

-- A launch that gives a result ran every initialisation chunk to its end, in order, each from the state
-- that the one before it left; then it found the entry by its module and its name in the globals that
-- these chunks defined, and ran it to its end with that result.
pub launch_program-HasRun :
    (fuel : ℕ) (host : Host) (program : LinkedProgram Value) (vm last : Vm) (value : Value)
    → launch_program fuel host program vm ≡ result value last
    → HasRun fuel host program vm value last
unfolding launch_program find_entry_function
launch_program-HasRun fuel host program vm last value h =
    let r =
      initialised_first fuel host program.init_chunks (find_entry_function fuel host program) vm
        (result value last) h tt in
    elim (Option-cases
      (lookup_global_function_by_id program.entry_module_id program.entry_name_id r.mid)) [
        | inl missing ↦
            let failed : entry_lookup_failed ≡ result value last =
              sym (rw (find_entry_function, missing) refl) ∙ r.same in
            absurd cc
        | inr (address, found) ↦
            let entered : run_entry fuel host address r.mid ≡ result value last =
              sym (rw (find_entry_function, found) refl) ∙ r.same in
            let e = run_entry-EntryRan fuel host address r.mid last value entered in
            record {
              mid = r.mid;
              initialised = r.initialised;
              address = address;
              entry = e.entry;
              found = found;
              is_entry = e.is_entry;
              runs = e.runs;
            }
      ]

-- The launcher reports a missing entry only after every initialisation chunk ran to its end, and only if
-- the globals that these defined have no function under the module and the name of the entry.
pub launch_program-HasNoEntry :
    (fuel : ℕ) (host : Host) (program : LinkedProgram Value) (vm : Vm)
    → launch_program fuel host program vm ≡ entry_lookup_failed
    → HasNoEntry fuel host program vm
unfolding launch_program find_entry_function
launch_program-HasNoEntry fuel host program vm h =
    let r =
      initialised_first fuel host program.init_chunks (find_entry_function fuel host program) vm
        entry_lookup_failed h tt in
    elim (Option-cases
      (lookup_global_function_by_id program.entry_module_id program.entry_name_id r.mid)) [
        | inl missing ↦ record { mid = r.mid; initialised = r.initialised; missing = missing }
        | inr (address, found) ↦
            let entered : run_entry fuel host address r.mid ≡ entry_lookup_failed =
              sym (rw (find_entry_function, found) refl) ∙ r.same in
            absurd (run_entry-finds fuel host address r.mid entered)
      ]
