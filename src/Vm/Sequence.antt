-- ===== src/Vm/Sequence.antt =====
-- The parts of a sequence of accesses that goes through (src/l0_core/vm/vm.cpp).
use Prim.Native.String.{String}
use niki.Prelude.{
  ℕ, ◌+◌, ◌≡◌, refl, inl, inr, Bool, true, false, Option, none, some, arith, leb, length, get_elem?,
  Option-cases, Bool-cases,
}
use niki.Bytecode.Stream.{try_read_byte}
use niki.Object.Value.{Value, nil, object, Obj, deref}
use niki.Vm.State.{
  Outcome, Vm, M, ok, finished, runtime_error, undefined, ◌>>=◌, ◌>>◌, guard, or_fail, read_byte,
  get_register, object_of,
}

-- The parts of a sequence that went through.
pub record Went {A B : Type 0} (m : M A) (f : A → M B) (vm : Vm) (b : B) (last : Vm) : Type 0 where
  pub value : A
  pub mid : Vm
  pub first : m vm ≡ ok value mid
  pub rest : f value mid ≡ ok b last

pub bind-Went :
    {A B : Type 0} (m : M A) (f : A → M B) (vm : Vm) (b : B) (last : Vm)
    → (m >>= f) vm ≡ ok b last
    → Went m f vm b last
unfolding ◌>>=◌
bind-Went {A} {B} m f vm b last h = split (m vm) refl h
  where
    split :
        (o : Outcome A)
        → m vm ≡ o
        → (elim o as (λ _. Outcome B) [
          | ok a next ↦ f a next
          | finished value next ↦ finished value next
          | runtime_error message ↦ runtime_error message
          | undefined ↦ undefined
        ])
          ≡ ok b last
        → Went m f vm b last
    split (ok a next) e h = record { value = a; mid = next; first = e; rest = h }
    split (finished value next) e h = cc
    split (runtime_error message) e h = cc
    split undefined e h = cc

-- A read of a byte moves the instruction pointer.
pub read_byte-moves :
    (vm mid : Vm) (byte : ℕ)
    → read_byte vm ≡ ok byte mid
    → (mid ≡ record vm { frame = record vm.frame { ip = vm.frame.ip + 1 } })
      × (try_read_byte vm.frame.function.chunk.code vm.frame.ip ≡ some (byte, vm.frame.ip + 1))
unfolding read_byte try_read_byte
read_byte-moves vm mid byte h =
    elim (Bool-cases (leb (length vm.frame.function.chunk.code) vm.frame.ip)) [
      | inl past ↦ ground (arith, past)
      | inr inside ↦ ground (arith, inside)
    ]

pub get_register-stays :
    (reg : ℕ) (vm mid : Vm) (value : Value)
    → get_register reg vm ≡ ok value mid
    → (mid ≡ vm) × (get_elem? vm.stack (vm.frame.base_register + reg) ≡ some value)
unfolding get_register
get_register-stays reg vm mid value h =
    elim (Option-cases (get_elem? vm.stack (vm.frame.base_register + reg))) [
      | inl e ↦ ground (arith, e)
      | inr (v, e) ↦ ground (arith, e)
    ]

pub object_of-stays :
    (value : Value) (vm mid : Vm) (o : Option Obj) → object_of value vm ≡ ok o mid → mid ≡ vm
unfolding object_of
object_of-stays (object address) vm mid o h = elim (Option-cases (deref vm.heap address)) [
  | inl e ↦ ground (arith, e)
  | inr (x, e) ↦ ground (arith, e)
]
object_of-stays nil vm mid o h = cc
object_of-stays _ vm mid o h = cc

pub or_fail-stays :
    {A : Type 0} (x : Option A) (message : String) (vm mid : Vm) (a : A)
    → or_fail x message vm ≡ ok a mid
    → (mid ≡ vm) × (x ≡ some a)
unfolding or_fail
or_fail-stays none message vm mid a h = cc
or_fail-stays (some b) message vm mid a h = (cc, cc)

-- A test that was passed.
pub guard-passed :
    {B : Type 0} (test : Bool) (message : String) (k : M B) (vm last : Vm) (b : B)
    → (guard test message >> k) vm ≡ ok b last
    → (test ≡ true) × (k vm ≡ ok b last)
unfolding guard ◌>>◌ ◌>>=◌
guard-passed true message k vm last b h = (refl, h)
guard-passed false message k vm last b h = cc
