-- ===== src/Vm/Limits.antt =====
-- Every instruction of the virtual machine keeps the limits of its stacks (src/l0_core/vm/vm.cpp).
use Prim.Native.String.{String}
use niki.Prelude.{◌∷◌, ◌+◌, ℕ, zero, suc, Bool, true, false, Option, none, some, if◌then◌else◌}
use niki.Object.Value.{Value, nil, int, float, object, Obj, ObjInstance}
use niki.Vm.State.{get_register, M}
use niki.Vm.Numbers.{
  Host, require_int64, require_float64, read_operands, read_operand, int_binary, int_division,
  int_compare, float_binary, float_division, float_compare, dice, int_unary, float_negate,
  logic_not, logic_binary,
}
use niki.Vm.Objects
use niki.Vm.Control
use niki.Vm.Run.{load_const, move_register, write_value, narrow_operands, wide_operands}
use niki.Vm.Safe.{Keeps, keeping, bind-Keeps, get_register-Keeps, pure-Keeps, fail-Keeps}

require_int64-Keeps : (a b : Value) → Keeps (require_int64 a b)
unfolding require_int64
require_int64-Keeps (int a) (int b) = pure-Keeps (a, b)
require_int64-Keeps _ _ = fail-Keeps "Operands must be integers."

require_float64-Keeps : (a b : Value) → Keeps (require_float64 a b)
unfolding require_float64
require_float64-Keeps (float a) (float b) = pure-Keeps (a, b)
require_float64-Keeps _ _ = fail-Keeps "Operands must be floats."

read_operands-Keeps : Keeps read_operands
unfolding read_operands
read_operands-Keeps = search keeping depth 24

read_operand-Keeps : Keeps read_operand
unfolding read_operand
read_operand-Keeps = search keeping depth 24

ruleset operands =
    (keeping, read_operands-Keeps, read_operand-Keeps, require_int64-Keeps, require_float64-Keeps)

-- The instructions on numbers and truth values.
pub int_binary-Keeps : (operation : ℕ → ℕ → Option ℕ) → Keeps (int_binary operation)
unfolding int_binary
int_binary-Keeps operation = search operands depth 24

pub int_division-Keeps :
    (operation : ℕ → ℕ → Option ℕ) (message : String) → Keeps (int_division operation message)
unfolding int_division
int_division-Keeps operation message = search operands depth 24

pub int_compare-Keeps : (test : ℕ → ℕ → Bool) → Keeps (int_compare test)
unfolding int_compare
int_compare-Keeps test = search operands depth 24

pub float_binary-Keeps : (operation : ℕ → ℕ → ℕ) → Keeps (float_binary operation)
unfolding float_binary
float_binary-Keeps operation = search operands depth 24

pub float_division-Keeps : (host : Host) → Keeps (float_division host)
unfolding float_division
float_division-Keeps host = search operands depth 24

pub float_compare-Keeps : (test : ℕ → ℕ → Bool) → Keeps (float_compare test)
unfolding float_compare
float_compare-Keeps test = search operands depth 24

pub dice-Keeps : (host : Host) → Keeps (dice host)
unfolding dice
dice-Keeps host = search operands depth 24

pub int_unary-Keeps :
    (operation : ℕ → Option ℕ) (message : String) → Keeps (int_unary operation message)
unfolding int_unary
int_unary-Keeps operation message = search operands depth 24

pub float_negate-Keeps : (host : Host) → Keeps (float_negate host)
unfolding float_negate
float_negate-Keeps host = search operands depth 24

pub logic_not-Keeps : Keeps logic_not
unfolding logic_not
logic_not-Keeps = search operands depth 24

pub logic_binary-Keeps : (operation : Bool → Bool → Bool) → Keeps (logic_binary operation)
unfolding logic_binary
logic_binary-Keeps operation = search operands depth 24

-- The instructions on objects.
pub op_new_map-Keeps : Keeps Objects.op_new_map
unfolding Objects.op_new_map
op_new_map-Keeps = search operands depth 24

pub op_set_map-Keeps : (host : Host) → Keeps (Objects.op_set_map host)
unfolding Objects.op_set_map
op_set_map-Keeps host = search operands depth 24

pub op_get_map-Keeps : (host : Host) → Keeps (Objects.op_get_map host)
unfolding Objects.op_get_map
op_get_map-Keeps host = search operands depth 24

pub op_new_array-Keeps : Keeps Objects.op_new_array
unfolding Objects.op_new_array
op_new_array-Keeps = search operands depth 24

pub op_push_array-Keeps : Keeps Objects.op_push_array
unfolding Objects.op_push_array
op_push_array-Keeps = search operands depth 24

pub op_get_array-Keeps : Keeps Objects.op_get_array
unfolding Objects.op_get_array
op_get_array-Keeps = search operands depth 24

pub op_set_array-Keeps : Keeps Objects.op_set_array
unfolding Objects.op_set_array
op_set_array-Keeps = search operands depth 24

pub op_concat-Keeps : Keeps Objects.op_concat
unfolding Objects.op_concat
op_concat-Keeps = search operands depth 24

pub string_compare-Keeps :
    (host : Host) (result : Bool → Bool) (message : String)
    → Keeps (Objects.string_compare host result message)
unfolding Objects.string_compare
string_compare-Keeps host result message = search operands depth 24

pub object_compare-Keeps :
    (host : Host) (message : String) → Keeps (Objects.object_compare host message)
unfolding Objects.object_compare
object_compare-Keeps host message = search operands depth 24

read_arguments-Keeps : (rounds reg : ℕ) → Keeps (Objects.read_arguments rounds reg)
unfolding Objects.read_arguments
read_arguments-Keeps zero reg = search keeping
read_arguments-Keeps (suc rounds) reg =
    bind-Keeps (get_register reg) _ (get_register-Keeps reg) λ value.
      bind-Keeps (Objects.read_arguments rounds (reg + 1)) _ (read_arguments-Keeps rounds (reg + 1))
        λ rest. pure-Keeps (value ∷ rest)

pub op_new_instance-Keeps : Keeps Objects.op_new_instance
unfolding Objects.op_new_instance
op_new_instance-Keeps = search (operands, read_arguments-Keeps) depth 24

field_count_of-Keeps : (i : ObjInstance) → Keeps (Objects.field_count_of i)
unfolding Objects.field_count_of
field_count_of-Keeps i = search operands depth 24

pub op_get_field-Keeps : Keeps Objects.op_get_field
unfolding Objects.op_get_field
op_get_field-Keeps = search (operands, field_count_of-Keeps) depth 24

pub op_set_field-Keeps : Keeps Objects.op_set_field
unfolding Objects.op_set_field
op_set_field-Keeps = search (operands, field_count_of-Keeps) depth 24

release-Keeps : (pointer : Value) (o : Option Obj) → Keeps (Objects.release pointer o)
unfolding Objects.release
release-Keeps pointer none = search keeping
release-Keeps pointer (some (Obj.function f)) = search keeping
release-Keeps pointer (some (Obj.struct_def d)) = search keeping
release-Keeps pointer (some _) = search keeping

pub op_free-Keeps : Keeps Objects.op_free
unfolding Objects.op_free
op_free-Keeps = search (operands, release-Keeps) depth 24

-- The instructions on jumps, symbols and frames.
pub op_jmp-Keeps : Keeps Control.op_jmp
unfolding Control.op_jmp
op_jmp-Keeps = search operands depth 24

pub op_loop-Keeps : Keeps Control.op_loop
unfolding Control.op_loop
op_loop-Keeps = search operands depth 24

jump_if-Keeps :
    (test : Bool) (m k : M (Unit {0})) → Keeps m → Keeps k → Keeps (if test then m else k)
jump_if-Keeps true m k h g = h
jump_if-Keeps false m k h g = g

pub conditional_jump-Keeps : (test : Value → Bool) → Keeps (Control.conditional_jump test)
unfolding Control.conditional_jump
conditional_jump-Keeps test = search (keeping, jump_if-Keeps) depth 12

define_object-Keeps : (address : ℕ) (o : Option Obj) → Keeps (Control.define_object address o)
unfolding Control.define_object
define_object-Keeps address (some (Obj.struct_def d)) = search keeping
define_object-Keeps address (some (Obj.function f)) = search keeping
define_object-Keeps address _ = search keeping

define_value-Keeps : (value : Value) → Keeps (Control.define_value value)
unfolding Control.define_value
define_value-Keeps nil = search keeping
define_value-Keeps (object address) = search (keeping, define_object-Keeps)
define_value-Keeps _ = search keeping

pub define_global-Keeps : (index : ℕ) → Keeps (Control.define_global index)
unfolding Control.define_global
define_global-Keeps index = search (operands, define_value-Keeps) depth 24

pub get_global-Keeps : (target index : ℕ) → Keeps (Control.get_global target index)
unfolding Control.get_global
get_global-Keeps target index = search operands depth 24

assign_object-Keeps :
    (name address : ℕ) (o : Option Obj) → Keeps (Control.assign_object name address o)
unfolding Control.assign_object
assign_object-Keeps name address (some (Obj.struct_def d)) = search keeping
assign_object-Keeps name address (some (Obj.function f)) = search keeping
assign_object-Keeps name address _ = search keeping

pub set_global-Keeps : (value_reg index : ℕ) → Keeps (Control.set_global value_reg index)
unfolding Control.set_global
set_global-Keeps value_reg index = search (operands, assign_object-Keeps) depth 24

pub op_call-Keeps : Keeps Control.op_call
unfolding Control.op_call
op_call-Keeps = search operands depth 24

pub op_return-Keeps : Keeps Control.op_return
unfolding Control.op_return
op_return-Keeps = search operands depth 24

pub load_const-Keeps : (target index : ℕ) → Keeps (load_const target index)
unfolding load_const
load_const-Keeps target index = search operands depth 24

pub move_register-Keeps : Keeps move_register
unfolding move_register
move_register-Keeps = search operands depth 24

pub write_value-Keeps : (value : Value) → Keeps (write_value value)
unfolding write_value
write_value-Keeps value = search operands depth 24

pub narrow_operands-Keeps :
    (operation : ℕ → ℕ → M (Unit {0}))
    → ((a b : ℕ) → Keeps (operation a b))
    → Keeps (narrow_operands operation)
unfolding narrow_operands
narrow_operands-Keeps operation h = search (operands, h) depth 24

pub wide_operands-Keeps :
    (operation : ℕ → ℕ → M (Unit {0}))
    → ((a b : ℕ) → Keeps (operation a b))
    → Keeps (wide_operands operation)
unfolding wide_operands
wide_operands-Keeps operation h = search (operands, h) depth 24
