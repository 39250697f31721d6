-- ===== src/Lower/Fetches.antt =====
-- The machine at the start of an instruction of lowered code (src/l0_core/vm/vm.cpp,
-- src/l0_core/ir/lower_to_chunk.cpp).
use mathlib.Core.Path.{subst}
use niki.Prelude.{
  ℕ, ◌+◌, ◌<◌, ◌≡◌, refl, sym, ap, ◌∙◌, ◌⊎◌, inl, inr, true, false, some, arith, leb, length,
  get_elem?, Bool-cases,
}
use niki.Opcode.Code.{Opcode, to_int}
use niki.Opcode.Capability.{is_runnable}
use niki.Opcode.Class.{is_ctrl_op}
use niki.Opcode.Laws.{of_int-to_int}
use niki.Object.Value.{ObjFunction}
use niki.Bytecode.Operand.{get_or-get_elem?}
use niki.Bytecode.Stream.{try_read_byte}
use niki.Vm.State.{Vm, ok, read_byte, or_fail, ◌>>=◌}
use niki.Vm.Numbers.{Host}
use niki.Vm.Run.{execute, step}
use niki.Vm.Reads.{Moved}
use niki.Lower.Operands.{execute-Reads}
use niki.Lower.Layout.{operand_bytes}
use niki.Lower.Correct.{IsExecutable}

abbrev pub behind_opcode : Vm → Vm
behind_opcode vm = record vm { frame = record vm.frame { ip = vm.frame.ip + 1 } }

reads_opcode :
    (vm : Vm) (byte : ℕ)
    → vm.frame.ip < length vm.frame.function.chunk.code
    → get_elem? vm.frame.function.chunk.code vm.frame.ip ≡ some byte
    → read_byte vm ≡ ok byte (behind_opcode vm)
unfolding read_byte try_read_byte
reads_opcode vm byte inside here =
    let code = vm.frame.function.chunk.code in
    let test : leb (length code) vm.frame.ip ≡ false = ground arith in
    let same = get_or-get_elem? code vm.frame.ip byte here in
    rw (read_byte, try_read_byte, test, same) refl

step_opcode :
    (host : Host) (vm : Vm) (op : Opcode)
    → read_byte vm ≡ ok (to_int op) (behind_opcode vm)
    → step host vm ≡ execute host op (behind_opcode vm)
unfolding step ◌>>=◌ or_fail
step_opcode host vm op read = rw (step, ◌>>=◌, read, or_fail, of_int-to_int op) refl

goes_on :
    (f : ObjFunction) (host : Host) (vm next : Vm) (e : IsExecutable f) (op : Opcode)
    → is_ctrl_op op ≡ false
    → e.starts (vm.frame.ip + 1 + operand_bytes op) ≡ true
    → execute host op (behind_opcode vm) ≡ ok tt next
    → (next.frame ≡ record vm.frame { ip = vm.frame.ip + 1 + operand_bytes op })
      × (next.callers ≡ vm.callers)
      × (e.starts next.frame.ip ≡ true)
goes_on f host vm next e op plain start went =
    let moved =
      subst (Moved (operand_bytes op) (behind_opcode vm)) went
        ((execute-Reads host op plain).reads (behind_opcode vm)) in
    (moved.0, moved.1, ap (λ frame. e.starts frame.ip) moved.0 ∙ start)

-- Where a step of the machine from a start of an instruction inside the code of an executable function
-- goes through, the opcode there is runnable, and it is one of control flow, or the machine stands behind
-- the operands of the instruction, in the same frame over the same callers, and there again an instruction
-- starts or the code ends.
pub step-IsExecutable :
    (f : ObjFunction) (host : Host) (vm next : Vm) (e : IsExecutable f)
    → vm.frame.function ≡ f
    → e.starts vm.frame.ip ≡ true
    → vm.frame.ip < length f.chunk.code
    → step host vm ≡ ok tt next
    → (op : Opcode) × (get_elem? f.chunk.code vm.frame.ip ≡ some (to_int op))
      × (is_runnable op ≡ true)
      × ((is_ctrl_op op ≡ true)
          ⊎ ((next.frame ≡ record vm.frame { ip = vm.frame.ip + 1 + operand_bytes op })
              × (next.callers ≡ vm.callers)
              × (e.starts next.frame.ip ≡ true)))
step-IsExecutable f host vm next e same here inside went =
    let s = e.layout.each vm.frame.ip here inside in
    let code : vm.frame.function.chunk.code ≡ f.chunk.code = ap (λ g. g.chunk.code) same in
    let read = reads_opcode vm (to_int s.op) (rw code inside) (rw code s.here) in
    (
      s.op,
      s.here,
      s.runs,
      elim (Bool-cases (is_ctrl_op s.op)) [
        | inl ctrl ↦ inl ctrl
        | inr plain ↦ inr (
            goes_on f host vm next e s.op plain s.next (sym (step_opcode host vm s.op read) ∙ went))
      ],
    )
