-- ===== src/Vm/Operands.antt =====
-- The operands of a binary instruction (src/l0_core/vm/vm.cpp).
use niki.Prelude.{
  ℕ, ◌+◌, ◌<◌, ◌≡◌, refl, false, List, some, arith, leb, length, get_elem?, get_elem?-some-lt, set,
}
use niki.Bytecode.Operand.{get_or-get_elem?}
use niki.Bytecode.Stream.{try_read_byte}
use niki.Object.Value.{Value}
use niki.Vm.State.{Vm, ok, ◌>>=◌, pure, read_byte, get_register, set_register}
use niki.Vm.Numbers.{read_operands}

-- The instruction pointer stands before three bytes: a target register inside the stack, and two
-- registers that hold `left` and `right`.
pub record HasOperands (vm : Vm) (target : ℕ) (left right : Value) : Type 0 where
  pub left_reg : ℕ
  pub right_reg : ℕ
  pub target_at : get_elem? vm.frame.function.chunk.code vm.frame.ip ≡ some target
  pub left_at : get_elem? vm.frame.function.chunk.code (vm.frame.ip + 1) ≡ some left_reg
  pub right_at : get_elem? vm.frame.function.chunk.code (vm.frame.ip + 2) ≡ some right_reg
  pub left_is : get_elem? vm.stack (vm.frame.base_register + left_reg) ≡ some left
  pub right_is : get_elem? vm.stack (vm.frame.base_register + right_reg) ≡ some right
  pub inside : vm.frame.base_register + target < length vm.stack

-- The machine past some bytes.
abbrev pub behind : Vm → ℕ → Vm
behind vm n = record vm { frame = record vm.frame { ip = vm.frame.ip + n } }

-- The machine past the three bytes, with a value in a register.
abbrev pub written : Vm → ℕ → Value → Vm
written vm target value = record (behind vm 3) {
  stack = set vm.stack (vm.frame.base_register + target) value;
}

reads_byte :
    (code : List ℕ) (ip byte : ℕ)
    → get_elem? code ip ≡ some byte
    → try_read_byte code ip ≡ some (byte, ip + 1)
unfolding try_read_byte
reads_byte code ip byte e =
    let test : leb (length code) ip ≡ false = ground (arith, get_elem?-some-lt code ip byte e) in
    let same = get_or-get_elem? code ip byte e in rw (try_read_byte, test, same) refl

pub read_byte_lem :
    (vm : Vm) (byte : ℕ)
    → get_elem? vm.frame.function.chunk.code vm.frame.ip ≡ some byte
    → read_byte vm ≡ ok byte (behind vm 1)
unfolding read_byte
read_byte_lem vm byte e = rw (read_byte, reads_byte _ _ _ e) refl

read_behind :
    (vm : Vm) (n byte : ℕ)
    → get_elem? vm.frame.function.chunk.code (vm.frame.ip + n) ≡ some byte
    → read_byte (behind vm n) ≡ ok byte (behind vm (n + 1))
unfolding read_byte
read_behind vm n byte e =
    let place : vm.frame.ip + n + 1 ≡ vm.frame.ip + (n + 1) = omega arith in
    rw (read_byte, reads_byte _ _ _ e, place) refl

register_is :
    (vm : Vm) (n reg : ℕ) (value : Value)
    → get_elem? vm.stack (vm.frame.base_register + reg) ≡ some value
    → get_register reg (behind vm n) ≡ ok value (behind vm n)
unfolding get_register
register_is vm n reg value e = rw (get_register, e) refl

pub read_operands_lem :
    (vm : Vm) (target : ℕ) (left right : Value)
    → HasOperands vm target left right
    → read_operands vm ≡ ok (target, left, right) (behind vm 3)
unfolding read_operands ◌>>=◌ pure
read_operands_lem vm target left right h =
    rw
      (
        read_operands,
        ◌>>=◌,
        read_byte_lem vm target h.target_at,
        read_behind vm 1 h.left_reg h.left_at,
        read_behind vm 2 h.right_reg h.right_at,
        register_is vm 3 h.left_reg left h.left_is,
        register_is vm 3 h.right_reg right h.right_is,
        pure,
      )
      refl

pub set_register_lem :
    (vm : Vm) (target : ℕ) (value : Value)
    → vm.frame.base_register + target < length vm.stack
    → set_register target value (behind vm 3) ≡ ok tt (written vm target value)
unfolding set_register
set_register_lem vm target value inside = ground (arith, inside)
