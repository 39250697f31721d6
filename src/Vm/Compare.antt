-- ===== src/Vm/Compare.antt =====
-- The comparisons of objects (`OP_OEQ` and `OP_ONE` of src/l0_core/vm/vm.cpp).
use Prim.Native.String.{String}
use niki.Prelude.{ℕ, ◌≡◌, refl, not, true}
use niki.Opcode.Code.{op_oeq, op_one}
use niki.Object.Value.{object, bool}
use niki.Vm.State.{Vm, ok, ◌>>=◌, ◌>>◌, guard, read_state}
use niki.Vm.Numbers.{Host}
use niki.Vm.Objects.{object_compare, is_alive, defined, value_key_equals}
use niki.Vm.Run.{execute}
use niki.Vm.Operands.{HasOperands, written, read_operands_lem, set_register_lem}

object_compare_lem :
    (host : Host) (message : String) (vm : Vm) (target x y : ℕ)
    → HasOperands vm target (object x) (object y)
    → is_alive vm.heap (object x) ≡ true
    → is_alive vm.heap (object y) ≡ true
    → object_compare host message vm
      ≡ ok tt (written vm target (bool (not (value_key_equals host vm.heap (object x) (object y)))))
unfolding object_compare ◌>>=◌ ◌>>◌ guard read_state defined
object_compare_lem host message vm target x y h left right =
    rw
      (
        object_compare,
        ◌>>=◌,
        read_operands_lem vm target (object x) (object y) h,
        ◌>>◌,
        guard,
        read_state,
        left,
        right,
        defined,
        set_register_lem vm target
            (bool (not (value_key_equals host vm.heap (object x) (object y)))) h.inside,
      )
      refl

-- On registers with two objects that were not freed, the cases `OP_OEQ` and `OP_ONE` give the same state:
-- both move past their operands and write to the target register, alone of the stack, whether the objects
-- differ.
pub oeq_as_one :
    (host : Host) (vm : Vm) (target x y : ℕ)
    → HasOperands vm target (object x) (object y)
    → is_alive vm.heap (object x) ≡ true
    → is_alive vm.heap (object y) ≡ true
    → (execute host op_oeq vm
        ≡ ok tt
            (written vm target (bool (not (value_key_equals host vm.heap (object x) (object y))))))
      × (execute host op_one vm
          ≡ ok tt (
              written vm target (bool (not (value_key_equals host vm.heap (object x) (object y))))))
unfolding execute
oeq_as_one host vm target x y h left right = (
  object_compare_lem host _ vm target x y h left right,
  object_compare_lem host _ vm target x y h left right,
)
