-- ===== src/Vm/Reads.antt =====
-- The bytes that an instruction takes behind its opcode (src/l0_core/vm/vm.cpp).
use Prim.Native.String.{String}
use niki.Prelude.{ℕ, suc, ◌+◌, ◌≡◌, refl, ap, ◌∙◌, Option, none, some, arith}
use niki.Bytecode.Stream.{try_read_byte, try_read_short}
use niki.Vm.State.{
  CallFrame, Outcome, Vm, M, ok, finished, runtime_error, undefined, ◌>>=◌, fail, read_byte,
  read_short,
}
use niki.Vm.Numbers.{read_operands, read_operand}
use niki.Vm.Stays.{
  Same, Stays, staying, read_arguments-Stays, field_count_of-Stays, release-Stays,
  define_global-Stays, get_global-Stays, set_global-Stays,
}

-- A state whose frame is that of `vm` with the instruction pointer `n` further, if there is one.
abbrev pub Moved : {A : Type 0} → ℕ → Vm → Outcome A → Type 0
Moved n vm (ok a next) =
    (next.frame ≡ record vm.frame { ip = vm.frame.ip + n }) × (next.callers ≡ vm.callers)
Moved n vm _ = Unit

pub record Reads {A : Type 0} (n : ℕ) (m : M A) : Type 0 where
  pub reads : (vm : Vm) → Moved n vm (m vm)

abbrev pass : ℕ → CallFrame → CallFrame
pass k frame = record frame { ip = frame.ip + k }

onward :
    {B : Type 0} (n k t : ℕ) (vm next : Vm) (p : Outcome B)
    → t ≡ n + k
    → next.frame ≡ record vm.frame { ip = vm.frame.ip + n }
    → next.callers ≡ vm.callers
    → Moved k next p
    → Moved t vm p
onward n k t vm next (ok b last) e f c g =
    let place : vm.frame.ip + n + k ≡ vm.frame.ip + t = omega (arith, e) in
    (g.0 ∙ ap (pass k) f ∙ ap (λ i. record vm.frame { ip = i }) place, g.1 ∙ c)
onward n k t vm next (finished value last) e f c g = tt
onward n k t vm next (runtime_error message) e f c g = tt
onward n k t vm next undefined e f c g = tt

after :
    {A B : Type 0} (n k t : ℕ) (f : A → M B) (vm : Vm) (o : Outcome A)
    → t ≡ n + k
    → Moved n vm o
    → ((a : A) → Reads k (f a))
    → Moved t vm (elim o as (λ _. Outcome B) [
      | ok a next ↦ f a next
      | finished value next ↦ finished value next
      | runtime_error message ↦ runtime_error message
      | undefined ↦ undefined
    ])
after n k t f vm (ok a next) e h g = onward n k t vm next (f a next) e h.0 h.1 ((g a).reads next)
after n k t f vm (finished value next) e h g = tt
after n k t f vm (runtime_error message) e h g = tt
after n k t f vm undefined e h g = tt

stayed : {A : Type 0} (vm : Vm) (o : Outcome A) → Same vm o → Moved 0 vm o
stayed vm (ok a next) h =
    let place : vm.frame.ip ≡ vm.frame.ip + 0 = omega arith in
    (h.0 ∙ ap (λ i. record vm.frame { ip = i }) place, h.1)
stayed vm (finished value next) h = tt
stayed vm (runtime_error message) h = tt
stayed vm undefined h = tt

pub Stays-Reads : {A : Type 0} (m : M A) → Stays m → Reads 0 m
Stays-Reads m h = record { reads = λ vm. stayed vm (m vm) (h.stays vm) }

pub fail-Reads : {A : Type 0} (n : ℕ) (message : String) → Reads n (fail {A = A} message)
unfolding fail
fail-Reads n message = record { reads = λ vm. tt }

bind-Reads :
    {A B : Type 0} (n k t : ℕ) (m : M A) (f : A → M B)
    → t ≡ n + k
    → Reads n m
    → ((a : A) → Reads k (f a))
    → Reads t (m >>= f)
unfolding ◌>>=◌
bind-Reads n k t m f e h g = record { reads = λ vm. after n k t f vm (m vm) e (h.reads vm) g }

moves :
    (o : Option (ℕ × ℕ)) (n : ℕ) (vm : Vm)
    → ((byte next : ℕ) → o ≡ some (byte, next) → next ≡ vm.frame.ip + n)
    → Moved n vm (elim o as (λ _. Outcome ℕ) [
      | none ↦ runtime_error "Unexpected end of bytecode."
      | some (byte, next) ↦ ok byte (record vm { frame = record vm.frame { ip = next } })
    ])
moves none n vm h = tt
moves (some (byte, next)) n vm h = (ap (λ i. record vm.frame { ip = i }) (h byte next refl), refl)

read_byte-Reads : Reads 1 read_byte
unfolding read_byte try_read_byte
read_byte-Reads = record {
  reads = λ vm.
      moves (try_read_byte vm.frame.function.chunk.code vm.frame.ip) 1 vm
        (λ byte next e. ground (arith, e));
}

read_short-Reads : Reads 2 read_short
unfolding read_short try_read_short
read_short-Reads = record {
  reads = λ vm.
      moves (try_read_short vm.frame.function.chunk.code vm.frame.ip) 2 vm
        (λ value next e. ground (arith, e));
}

pub byte-Reads :
    {B : Type 0} (n : ℕ) (f : ℕ → M B) → ((b : ℕ) → Reads n (f b)) → Reads (suc n) (read_byte >>= f)
byte-Reads n f g = bind-Reads 1 n (suc n) read_byte f (omega arith) read_byte-Reads g

pub short-Reads :
    {B : Type 0} (n : ℕ) (f : ℕ → M B)
    → ((b : ℕ) → Reads n (f b))
    → Reads (suc (suc n)) (read_short >>= f)
short-Reads n f g = bind-Reads 2 n (suc (suc n)) read_short f (omega arith) read_short-Reads g

pub rest-Reads :
    {A B : Type 0} (n : ℕ) (m : M A) (f : A → M B)
    → Reads n m
    → ((a : A) → Stays (f a))
    → Reads n (m >>= f)
rest-Reads n m f h g = bind-Reads n 0 n m f (omega arith) h (λ a. Stays-Reads (f a) (g a))

pub read_operands-Reads : Reads 3 read_operands
unfolding read_operands
read_operands-Reads = search (byte-Reads, Stays-Reads, staying) depth 24

pub read_operand-Reads : Reads 2 read_operand
unfolding read_operand
read_operand-Reads = search (byte-Reads, Stays-Reads, staying) depth 24

-- The rules by which a sequence of accesses reads a number of bytes.
pub ruleset reading = (
  byte-Reads, short-Reads, Stays-Reads, fail-Reads, rest-Reads, read_operands-Reads,
  read_operand-Reads, staying,
)
