-- ===== src/Vm/Safe.antt =====
-- The limits of the stacks of the virtual machine (src/l0_core/vm/vm.cpp).
use niki.Prelude.{
  if_both, ◌∙◌, ℕ, ◌+◌, ◌≤◌, ◌≡◌, refl, Bool, true, false, not, List, [], ◌∷◌, Option, none, some,
  arith, leb, ltb, ◌==◌, length, length-set, get_elem?,
}
use Prim.Native.String.{String}
use niki.Object.Value.{Value, Obj, ObjFunction}
use niki.Vm.State.{
  Outcome, Vm, CallFrame, M, ok, finished, runtime_error, undefined, ◌>>=◌, ◌>>◌, pure, fail, guard,
  or_fail, or_undefined, read_state, read_byte, read_short, jump_forward, jump_backward,
  get_register, set_register, read_constant, object_of, new_object, put_object, stack_capacity,
}
use niki.Bytecode.Stream.{try_read_byte, try_read_short}
use niki.Vm.Fetch.{try_jump_forward, try_jump_backward}
use niki.Object.Value.{object, deref}
use niki.Vm.Numbers.{set_drawn}
use niki.Vm.Objects.{defined}
use niki.Vm.Control.{
  callee_slots, depth, enter_function, pop_frame, return_to, write_function, write_object,
}

-- The window of every frame that was called lies inside the stack; the first frame is at its start.
abbrev pub Windows : CallFrame → List CallFrame → Type 0
Windows frame [] = frame.base_register ≡ 0
Windows frame (caller ∷ callers) =
    (frame.base_register + callee_slots frame.function ≤ stack_capacity) × Windows caller callers

pub record IsSafe (vm : Vm) : Type 0 where
  pub stack : length vm.stack ≡ stack_capacity
  pub depth : depth vm ≤ 256
  pub windows : Windows vm.frame vm.callers

-- What an instruction leaves, if it leaves a state.
abbrev pub Leaves : {A : Type 0} → Outcome A → Type 0
Leaves (ok a vm) = IsSafe vm
Leaves (finished value vm) = IsSafe vm
Leaves (runtime_error message) = Unit
Leaves undefined = Unit

-- A part of an instruction keeps the limits.
pub record Keeps {A : Type 0} (m : M A) : Type 0 where
  pub keeps : (vm : Vm) → IsSafe vm → Leaves (m vm)

Windows-ip :
    (frame : CallFrame) (callers : List CallFrame) (ip : ℕ)
    → Windows frame callers
    → Windows (record frame { ip = ip }) callers
Windows-ip frame [] ip w = w
Windows-ip frame (caller ∷ callers) ip w = w

after :
    {A B : Type 0} (f : A → M B) (o : Outcome A)
    → ((a : A) → Keeps (f a))
    → Leaves o
    → Leaves (elim o as (λ _. Outcome B) [
      | ok a next ↦ f a next
      | finished value next ↦ finished value next
      | runtime_error message ↦ runtime_error message
      | undefined ↦ undefined
    ])
after f (ok a vm) k h = (k a).keeps vm h
after f (finished value vm) k h = h
after f (runtime_error message) k h = tt
after f undefined k h = tt

pub bind-Keeps :
    {A B : Type 0} (m : M A) (f : A → M B) → Keeps m → ((a : A) → Keeps (f a)) → Keeps (m >>= f)
unfolding ◌>>=◌
bind-Keeps m f h k = record { keeps = λ vm safe. after f (m vm) k (h.keeps vm safe) }

pub then-Keeps : {A B : Type 0} (m : M A) (k : M B) → Keeps m → Keeps k → Keeps (m >> k)
unfolding ◌>>◌ ◌>>=◌
then-Keeps m k h g = record { keeps = λ vm safe. after (λ _. k) (m vm) (λ _. g) (h.keeps vm safe) }

pub pure-Keeps : {A : Type 0} (a : A) → Keeps (pure a)
unfolding pure
pure-Keeps a = record { keeps = λ vm safe. safe }

pub fail-Keeps : {A : Type 0} (message : String) → Keeps (fail {A = A} message)
unfolding fail
fail-Keeps message = record { keeps = λ vm safe. tt }

pub guard-Keeps : (test : Bool) (message : String) → Keeps (guard test message)
unfolding guard
guard-Keeps true message = record { keeps = λ vm safe. safe }
guard-Keeps false message = record { keeps = λ vm safe. tt }

pub or_fail-Keeps : {A : Type 0} (o : Option A) (message : String) → Keeps (or_fail o message)
unfolding or_fail
or_fail-Keeps none message = record { keeps = λ vm safe. tt }
or_fail-Keeps (some a) message = record { keeps = λ vm safe. safe }

pub or_undefined-Keeps : {A : Type 0} (o : Option A) → Keeps (or_undefined o)
unfolding or_undefined
or_undefined-Keeps none = record { keeps = λ vm safe. tt }
or_undefined-Keeps (some a) = record { keeps = λ vm safe. safe }

pub read_state-Keeps : {A : Type 0} (part : Vm → A) → Keeps (read_state part)
unfolding read_state
read_state-Keeps part = record { keeps = λ vm safe. safe }

-- A move of the instruction pointer.
moved : (vm : Vm) (ip : ℕ) → IsSafe vm → IsSafe (record vm { frame = record vm.frame { ip = ip } })
moved vm ip safe = record {
  stack = safe.stack;
  depth = safe.depth;
  windows = Windows-ip vm.frame vm.callers ip safe.windows;
}

-- A read from the code, and a jump.
reading :
    (o : Option (ℕ × ℕ)) (vm : Vm) (message : String)
    → IsSafe vm
    → Leaves (elim o as (λ _. Outcome ℕ) [
      | none ↦ runtime_error message
      | some (value, next) ↦ ok value (record vm { frame = record vm.frame { ip = next } })
    ])
reading none vm message safe = tt
reading (some (value, next)) vm message safe = moved vm next safe

jumping :
    (o : Option ℕ) (vm : Vm) (message : String)
    → IsSafe vm
    → Leaves (elim o as (λ _. Outcome (Unit {0})) [
      | none ↦ runtime_error message
      | some next ↦ ok tt (record vm { frame = record vm.frame { ip = next } })
    ])
jumping none vm message safe = tt
jumping (some next) vm message safe = moved vm next safe

pub read_byte-Keeps : Keeps read_byte
unfolding read_byte
read_byte-Keeps = record {
  keeps = λ vm safe.
      reading (try_read_byte vm.frame.function.chunk.code vm.frame.ip) vm
        "Unexpected end of bytecode." safe;
}

pub read_short-Keeps : Keeps read_short
unfolding read_short
read_short-Keeps = record {
  keeps = λ vm safe.
      reading (try_read_short vm.frame.function.chunk.code vm.frame.ip) vm
        "Unexpected end of bytecode." safe;
}

pub jump_forward-Keeps : (offset : ℕ) → Keeps (jump_forward offset)
unfolding jump_forward
jump_forward-Keeps offset = record {
  keeps = λ vm safe.
      jumping (try_jump_forward vm.frame.function.chunk.code vm.frame.ip offset) vm
        "Jump target out of range." safe;
}

pub jump_backward-Keeps : (offset : ℕ) → Keeps (jump_backward offset)
unfolding jump_backward
jump_backward-Keeps offset = record {
  keeps = λ vm safe.
      jumping (try_jump_backward vm.frame.function.chunk.code vm.frame.ip offset) vm
        "Loop jump target out of range." safe;
}

getting :
    {A : Type 0} (o : Option A) (vm : Vm) (other : Outcome A)
    → Leaves other
    → IsSafe vm
    → Leaves (elim o as (λ _. Outcome A) [ none ↦ other | some value ↦ ok value vm ])
getting none vm other h safe = h
getting (some value) vm other h safe = safe

pub get_register-Keeps : (reg : ℕ) → Keeps (get_register reg)
unfolding get_register
get_register-Keeps reg = record {
  keeps =
      λ vm safe. getting (get_elem? vm.stack (vm.frame.base_register + reg)) vm undefined tt safe;
}

pub read_constant-Keeps : (index : ℕ) → Keeps (read_constant index)
unfolding read_constant
read_constant-Keeps index = record {
  keeps = λ vm safe.
      getting (get_elem? vm.frame.function.chunk.constants index) vm
        (runtime_error "Constant index out of range") tt safe;
}

pub set_register-Keeps : (reg : ℕ) (value : Value) → Keeps (set_register reg value)
unfolding set_register
set_register-Keeps reg value = record {
  keeps = λ vm safe.
      let place = vm.frame.base_register + reg in
      if_both Leaves (ltb place (length vm.stack))
        (record {
          stack = length-set vm.stack place value ∙ safe.stack;
          depth = safe.depth;
          windows = safe.windows;
        })
        tt;
}

object_at :
    (o : Option Obj) (vm : Vm)
    → IsSafe vm
    → Leaves (elim o as (λ _. Outcome (Option Obj)) [ none ↦ undefined | some o ↦ ok (some o) vm ])
object_at none vm safe = tt
object_at (some o) vm safe = safe

pub object_of-Keeps : (value : Value) → Keeps (object_of value)
unfolding object_of
object_of-Keeps (object address) = record {
  keeps = λ vm safe. object_at (deref vm.heap address) vm safe;
}
object_of-Keeps _ = record { keeps = λ vm safe. safe }

-- A state that differs in other fields.
pub new_object-Keeps : (o : Obj) → Keeps (new_object o)
unfolding new_object
new_object-Keeps o = record {
  keeps = λ vm safe. record { stack = safe.stack; depth = safe.depth; windows = safe.windows };
}

pub put_object-Keeps : (value : Value) (cell : Option Obj) → Keeps (put_object value cell)
unfolding put_object
put_object-Keeps (object address) cell = record {
  keeps = λ vm safe. record { stack = safe.stack; depth = safe.depth; windows = safe.windows };
}
put_object-Keeps _ cell = record { keeps = λ vm safe. tt }

pub write_function-Keeps : (name address : ℕ) → Keeps (write_function name address)
unfolding write_function
write_function-Keeps name address = record {
  keeps = λ vm safe. record { stack = safe.stack; depth = safe.depth; windows = safe.windows };
}

pub write_object-Keeps : (name address : ℕ) → Keeps (write_object name address)
unfolding write_object
write_object-Keeps name address = record {
  keeps = λ vm safe. record { stack = safe.stack; depth = safe.depth; windows = safe.windows };
}

pub set_drawn-Keeps : (drawn : ℕ) → Keeps (set_drawn drawn)
unfolding set_drawn
set_drawn-Keeps drawn = record {
  keeps = λ vm safe. record { stack = safe.stack; depth = safe.depth; windows = safe.windows };
}

pub defined-Keeps : (test : Bool) → Keeps (defined test)
unfolding defined
defined-Keeps true = record { keeps = λ vm safe. safe }
defined-Keeps false = record { keeps = λ vm safe. tt }

-- What follows a test may use it.
guarded :
    {B : Type 0} (test : Bool) (message : String) (k : M B) (vm : Vm)
    → (test ≡ true → Leaves (k vm))
    → Leaves ((guard test message >> k) vm)
unfolding guard ◌>>◌ ◌>>=◌
guarded true message k vm h = h refl
guarded false message k vm h = tt

-- A call is refused at 256 frames and where the window of the callee leaves the stack.
pub enter_function-Keeps :
    (f : ObjFunction) (out_reg arg_start argc : ℕ) → Keeps (enter_function f out_reg arg_start argc)
unfolding enter_function read_state ◌>>=◌
enter_function-Keeps f out_reg arg_start argc = record {
  keeps = λ vm safe.
      let base = vm.frame.base_register + arg_start in
      guarded (not (depth vm == 256)) "Stack overflow." _ vm λ few.
        guarded (leb (base + argc) stack_capacity) "Call argument registers out of stack range." _
          vm
          λ inside.
            guarded (leb (base + callee_slots f) stack_capacity)
              "Callee register window exceeds physical stack." _ vm
              λ fits. record {
                stack = safe.stack;
                depth = ground (arith, safe.depth);
                windows = (ground arith, safe.windows);
              };
}

-- The frame below is in its window, too.
pub pop_frame-Keeps : (result : Value) → Keeps (pop_frame result)
unfolding pop_frame return_to
pop_frame-Keeps result = record {
  keeps = λ vm safe. returned vm.callers vm safe.depth safe.windows safe;
}
  where
    returned :
        (callers : List CallFrame) (vm : Vm)
        → length callers + 1 ≤ 256
        → Windows vm.frame callers
        → IsSafe vm
        → Leaves (return_to callers result vm)
    returned [] vm small windows safe = safe
    returned (caller ∷ callers) vm small windows safe =
        (set_register-Keeps vm.frame.out_register result).keeps
          (record vm { frame = caller; callers = callers })
          (record { stack = safe.stack; depth = omega arith; windows = windows.1 })

-- The rules by which an instruction keeps the limits.
pub ruleset keeping = (
  bind-Keeps, then-Keeps, pure-Keeps, fail-Keeps, guard-Keeps, or_fail-Keeps, or_undefined-Keeps,
  read_state-Keeps, read_byte-Keeps, read_short-Keeps, jump_forward-Keeps, jump_backward-Keeps,
  get_register-Keeps, read_constant-Keeps, set_register-Keeps, object_of-Keeps, new_object-Keeps,
  put_object-Keeps, write_function-Keeps, write_object-Keeps, set_drawn-Keeps, defined-Keeps,
  enter_function-Keeps, pop_frame-Keeps,
)
