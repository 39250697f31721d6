-- ===== src/Vm/Stays.antt =====
-- The parts of an instruction that leave the frame as it is (src/l0_core/vm/vm.cpp).
use Prim.Native.String.{String}
use niki.Prelude.{
  ℕ, zero, suc, ◌+◌, ◌≡◌, refl, ◌∙◌, Bool, true, false, Option, none, some, ltb, length, get_elem?,
  if_both, ◌∷◌,
}
use niki.Object.Value.{Value, nil, int, float, object, Obj, ObjInstance, deref}
use niki.Vm.State.{
  Outcome, Vm, M, ok, finished, runtime_error, undefined, ◌>>=◌, ◌>>◌, pure, fail, guard, or_fail,
  or_undefined, read_state, get_register, set_register, read_constant, object_of, new_object,
  put_object,
}
use niki.Vm.Numbers.{set_drawn, require_int64, require_float64}
use niki.Vm.Objects
use niki.Vm.Objects.{defined}
use niki.Vm.Control
use niki.Vm.Control.{write_function, write_object}

-- A state with the frames of `vm`, if there is one.
abbrev pub Same : {A : Type 0} → Vm → Outcome A → Type 0
Same vm (ok a next) = (next.frame ≡ vm.frame) × (next.callers ≡ vm.callers)
Same vm _ = Unit

pub record Stays {A : Type 0} (m : M A) : Type 0 where
  pub stays : (vm : Vm) → Same vm (m vm)

after :
    {A B : Type 0} (f : A → M B) (vm : Vm) (o : Outcome A)
    → ((a : A) → Stays (f a))
    → Same vm o
    → Same vm (elim o as (λ _. Outcome B) [
      | ok a next ↦ f a next
      | finished value next ↦ finished value next
      | runtime_error message ↦ runtime_error message
      | undefined ↦ undefined
    ])
after {B = B} f vm (ok a next) k h = onward (f a next) ((k a).stays next)
  where
    onward : (p : Outcome B) → Same next p → Same vm p
    onward (ok b last) g = (g.0 ∙ h.0, g.1 ∙ h.1)
    onward (finished value last) g = tt
    onward (runtime_error message) g = tt
    onward undefined g = tt
after f vm (finished value next) k h = tt
after f vm (runtime_error message) k h = tt
after f vm undefined k h = tt

pub bind-Stays :
    {A B : Type 0} (m : M A) (f : A → M B) → Stays m → ((a : A) → Stays (f a)) → Stays (m >>= f)
unfolding ◌>>=◌
bind-Stays m f h k = record { stays = λ vm. after f vm (m vm) k (h.stays vm) }

pub then-Stays : {A B : Type 0} (m : M A) (k : M B) → Stays m → Stays k → Stays (m >> k)
unfolding ◌>>◌ ◌>>=◌
then-Stays m k h g = record { stays = λ vm. after (λ _. k) vm (m vm) (λ _. g) (h.stays vm) }

pub pure-Stays : {A : Type 0} (a : A) → Stays (pure a)
unfolding pure
pure-Stays a = record { stays = λ vm. (refl, refl) }

pub fail-Stays : {A : Type 0} (message : String) → Stays (fail {A = A} message)
unfolding fail
fail-Stays message = record { stays = λ vm. tt }

pub guard-Stays : (test : Bool) (message : String) → Stays (guard test message)
unfolding guard
guard-Stays true message = record { stays = λ vm. (refl, refl) }
guard-Stays false message = record { stays = λ vm. tt }

pub or_fail-Stays : {A : Type 0} (o : Option A) (message : String) → Stays (or_fail o message)
unfolding or_fail
or_fail-Stays none message = record { stays = λ vm. tt }
or_fail-Stays (some a) message = record { stays = λ vm. (refl, refl) }

pub or_undefined-Stays : {A : Type 0} (o : Option A) → Stays (or_undefined o)
unfolding or_undefined
or_undefined-Stays none = record { stays = λ vm. tt }
or_undefined-Stays (some a) = record { stays = λ vm. (refl, refl) }

pub read_state-Stays : {A : Type 0} (part : Vm → A) → Stays (read_state part)
unfolding read_state
read_state-Stays part = record { stays = λ vm. (refl, refl) }

getting :
    {A : Type 0} (o : Option A) (vm : Vm) (other : Outcome A)
    → Same vm other
    → Same vm (elim o as (λ _. Outcome A) [ none ↦ other | some value ↦ ok value vm ])
getting none vm other h = h
getting (some value) vm other h = (refl, refl)

pub get_register-Stays : (reg : ℕ) → Stays (get_register reg)
unfolding get_register
get_register-Stays reg = record {
  stays = λ vm. getting (get_elem? vm.stack (vm.frame.base_register + reg)) vm undefined tt;
}

pub read_constant-Stays : (index : ℕ) → Stays (read_constant index)
unfolding read_constant
read_constant-Stays index = record {
  stays = λ vm.
      getting (get_elem? vm.frame.function.chunk.constants index) vm
        (runtime_error "Constant index out of range") tt;
}

pub set_register-Stays : (reg : ℕ) (value : Value) → Stays (set_register reg value)
unfolding set_register
set_register-Stays reg value = record {
  stays = λ vm.
      if_both (Same vm) (ltb (vm.frame.base_register + reg) (length vm.stack)) (refl, refl) tt;
}

object_at :
    (o : Option Obj) (vm : Vm)
    → Same vm (elim o as (λ _. Outcome (Option Obj)) [ none ↦ undefined | some o ↦ ok (some o) vm ])
object_at none vm = tt
object_at (some o) vm = (refl, refl)

pub object_of-Stays : (value : Value) → Stays (object_of value)
unfolding object_of
object_of-Stays (object address) = record { stays = λ vm. object_at (deref vm.heap address) vm }
object_of-Stays _ = record { stays = λ vm. (refl, refl) }

pub new_object-Stays : (o : Obj) → Stays (new_object o)
unfolding new_object
new_object-Stays o = record { stays = λ vm. (refl, refl) }

pub put_object-Stays : (value : Value) (cell : Option Obj) → Stays (put_object value cell)
unfolding put_object
put_object-Stays (object address) cell = record { stays = λ vm. (refl, refl) }
put_object-Stays _ cell = record { stays = λ vm. tt }

pub write_function-Stays : (name address : ℕ) → Stays (write_function name address)
unfolding write_function
write_function-Stays name address = record { stays = λ vm. (refl, refl) }

pub write_object-Stays : (name address : ℕ) → Stays (write_object name address)
unfolding write_object
write_object-Stays name address = record { stays = λ vm. (refl, refl) }

pub set_drawn-Stays : (drawn : ℕ) → Stays (set_drawn drawn)
unfolding set_drawn
set_drawn-Stays drawn = record { stays = λ vm. (refl, refl) }

pub defined-Stays : (test : Bool) → Stays (defined test)
unfolding defined
defined-Stays true = record { stays = λ vm. (refl, refl) }
defined-Stays false = record { stays = λ vm. tt }

pub require_int64-Stays : (a b : Value) → Stays (require_int64 a b)
unfolding require_int64
require_int64-Stays (int a) (int b) = pure-Stays (a, b)
require_int64-Stays _ _ = fail-Stays "Operands must be integers."

pub require_float64-Stays : (a b : Value) → Stays (require_float64 a b)
unfolding require_float64
require_float64-Stays (float a) (float b) = pure-Stays (a, b)
require_float64-Stays _ _ = fail-Stays "Operands must be floats."

-- The rules by which a part of an instruction leaves the frames as they are.
pub ruleset staying = (
  bind-Stays, then-Stays, pure-Stays, fail-Stays, guard-Stays, or_fail-Stays, or_undefined-Stays,
  read_state-Stays, get_register-Stays, read_constant-Stays, set_register-Stays, object_of-Stays,
  new_object-Stays, put_object-Stays, write_function-Stays, write_object-Stays, set_drawn-Stays,
  defined-Stays, require_int64-Stays, require_float64-Stays,
)

pub read_arguments-Stays : (rounds reg : ℕ) → Stays (Objects.read_arguments rounds reg)
unfolding Objects.read_arguments
read_arguments-Stays zero reg = search staying
read_arguments-Stays (suc rounds) reg =
    bind-Stays (get_register reg) _ (get_register-Stays reg) λ value.
      bind-Stays (Objects.read_arguments rounds (reg + 1)) _ (read_arguments-Stays rounds (reg + 1))
        λ rest. pure-Stays (value ∷ rest)

pub field_count_of-Stays : (i : ObjInstance) → Stays (Objects.field_count_of i)
unfolding Objects.field_count_of
field_count_of-Stays i = search staying depth 24

pub release-Stays : (pointer : Value) (o : Option Obj) → Stays (Objects.release pointer o)
unfolding Objects.release
release-Stays pointer none = search staying
release-Stays pointer (some (Obj.function f)) = search staying
release-Stays pointer (some (Obj.struct_def d)) = search staying
release-Stays pointer (some _) = search staying

define_object-Stays : (address : ℕ) (o : Option Obj) → Stays (Control.define_object address o)
unfolding Control.define_object
define_object-Stays address (some (Obj.struct_def d)) = search staying
define_object-Stays address (some (Obj.function f)) = search staying
define_object-Stays address _ = search staying

define_value-Stays : (value : Value) → Stays (Control.define_value value)
unfolding Control.define_value
define_value-Stays nil = search staying
define_value-Stays (object address) = search (staying, define_object-Stays)
define_value-Stays _ = search staying

pub define_global-Stays : (index : ℕ) → Stays (Control.define_global index)
unfolding Control.define_global
define_global-Stays index = search (staying, define_value-Stays) depth 24

pub get_global-Stays : (target index : ℕ) → Stays (Control.get_global target index)
unfolding Control.get_global
get_global-Stays target index = search staying depth 24

assign_object-Stays :
    (name address : ℕ) (o : Option Obj) → Stays (Control.assign_object name address o)
unfolding Control.assign_object
assign_object-Stays name address (some (Obj.struct_def d)) = search staying
assign_object-Stays name address (some (Obj.function f)) = search staying
assign_object-Stays name address _ = search staying

pub set_global-Stays : (value_reg index : ℕ) → Stays (Control.set_global value_reg index)
unfolding Control.set_global
set_global-Stays value_reg index = search (staying, assign_object-Stays) depth 24
