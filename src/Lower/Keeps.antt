-- ===== src/Lower/Keeps.antt =====
-- Every case of the `switch` of `lowerOneFunction` adds whole instructions
-- (src/l0_core/ir/lower_to_chunk.cpp).
use Prim.Native.String.{String}
use niki.Prelude.{
  ℕ, ◌+◌, ◌<◌, ◌≡◌, ap, ◌⊎◌, inl, inr, Bool, true, List, [], ◌∷◌, ◌++◌, Option, none, some, arith,
  length, length-append, Bool-cases, Option-cases, All, All-map, All-append,
}
use niki.Opcode.Code.{Opcode, to_int, op_jmp, op_jnz}
use niki.Opcode.Capability.{is_runnable}
use niki.Linker.Link.{Chunk}
use niki.Bytecode.Stream.{write_byte, high_byte, low_byte, write_u16}
use niki.Bytecode.Operand.{HasPlaces}
use niki.Ir.Table.{Inst}
use niki.Object.Value.{Value}
use niki.Lower.Writer.{
  message, Result, ok, err, Lowering, write_op, write_runnable_op, write_bytes, emit, require_all,
}
use niki.Lower.Inst.{with_chunk, emit_on, emit_jump}
use niki.Lower.Layout.{
  IsOrdered, IsOrdered-append, operand_bytes, IsLayout, add_start, IsLayout-append, IsSite,
  IsSite-append, get_elem?-append_middle,
}
use niki.Lower.Emit.{
  Ensures, Ensures-option, Emitted, emit_lem, write_u16-Emitted, code-write_u16_operand,
  code-write_bytes, code-write_u16,
}

-- The invariant of `lowerOneFunction`: the bytecode is cut into instructions, every byte has its place,
-- the entries of the blocks are starts, and every pending patch is on a jump.
pub record IsLowering (starts : ℕ → Bool) (st : Lowering) : Type 0 where
  pub layout : IsLayout starts st.chunk.code
  pub places : HasPlaces st.chunk
  pub entries : All (λ e. starts e.1 ≡ true) st.block_entry_code_index
  pub sites : All (IsSite starts st.chunk.code) st.pending_patches
  pub ordered : IsOrdered st.pending_patches

abbrev pub IsGood : Lowering → Type 0
IsGood st = (starts : ℕ → Bool) × IsLowering starts st

-- One more instruction.
Emitted-IsLowering :
    (starts : ℕ → Bool) (st : Lowering) (chunk : Chunk Value)
    → IsLowering starts st
    → Emitted st.chunk chunk
    → IsLowering (add_start starts (length chunk.code)) (record st { chunk = chunk })
Emitted-IsLowering starts st chunk l e =
    let more = to_int e.op ∷ e.operands in
    record {
      layout =
          rw e.code (IsLayout-append starts st.chunk.code e.operands e.op l.layout e.runs e.size);
      places = e.places l.places;
      ordered = l.ordered;
      entries =
          All-map (λ p. starts p.1 ≡ true) (λ p. add_start starts (length chunk.code) p.1 ≡ true)
            st.block_entry_code_index (λ p h. ground (arith, h)) l.entries;
      sites =
          All-map (IsSite starts st.chunk.code)
            (IsSite (add_start starts (length chunk.code)) chunk.code) st.pending_patches
            (λ p h. rw e.code (IsSite-append starts st.chunk.code more p h)) l.sites;
    }

pub Emitted-IsGood :
    (st : Lowering) (chunk : Chunk Value)
    → IsGood st
    → Emitted st.chunk chunk
    → IsGood (record st { chunk = chunk })
Emitted-IsGood st chunk (starts, l) e =
    (add_start starts (length chunk.code), Emitted-IsLowering starts st chunk l e)

pub with_chunk-IsGood :
    (st : Lowering) (m : Result (Chunk Value))
    → IsGood st
    → Ensures (Emitted st.chunk) m
    → Ensures IsGood (with_chunk st m)
with_chunk-IsGood st (ok chunk) g e = Emitted-IsGood st chunk g e
with_chunk-IsGood st (err e) g h = tt

length-require_all :
    (regs : List (Option ℕ))
    → (operands : List ℕ) → require_all regs ≡ some operands
    → length operands ≡ length regs
unfolding require_all
length-require_all [] operands h = ground arith
length-require_all (none ∷ regs) operands h = cc
length-require_all (some reg ∷ regs) operands h = elim (Option-cases (require_all regs)) [
  | inl e ↦ ground (arith, e)
  | inr (rest, e) ↦ ground (arith, e, length-require_all regs rest e)
]

pub emit_on-IsGood :
    (op : Opcode) (text : String) (regs : List (Option ℕ)) (rest : List ℕ) (r : Inst)
    (st : Lowering)
    → length regs + length rest ≡ operand_bytes op
    → IsGood st
    → Ensures IsGood (emit_on op text regs rest r st)
unfolding emit_on
emit_on-IsGood op text regs rest r st size g =
    Ensures-option IsGood (require_all regs) (message text) _ λ operands e.
      with_chunk-IsGood st (emit op (operands ++ rest) r.src_line r.src_col st.chunk) g (
        emit_lem op (operands ++ rest) r.src_line r.src_col st.chunk
          (omega (arith, length-append operands rest, length-require_all regs operands e)))

jump_kind :
    (op : Opcode) (operands : List ℕ)
    → ((op ≡ op_jmp) × (length operands ≡ 0)) ⊎ ((op ≡ op_jnz) × (length operands ≡ 1))
    → ((op ≡ op_jmp) × (1 + length operands ≡ 1)) ⊎ ((op ≡ op_jnz) × (1 + length operands ≡ 2))
jump_kind op operands (inl (e, h)) = inl (e, omega arith)
jump_kind op operands (inr (e, h)) = inr (e, omega arith)

-- A jump is a site for its patch.
pub emit_jump-IsGood :
    (op : Opcode) (operands : List ℕ) (target : ℕ) (r : Inst) (st : Lowering)
    → ((op ≡ op_jmp) × (length operands ≡ 0)) ⊎ ((op ≡ op_jnz) × (length operands ≡ 1))
    → length operands + 2 ≡ operand_bytes op
    → IsGood st
    → Ensures IsGood (emit_jump op operands target r st)
unfolding emit_jump emit write_runnable_op write_op write_bytes write_byte
emit_jump-IsGood op operands target r st kind size (starts, l) =
    elim (Bool-cases (is_runnable op)) [
      | inl runs ↦
          let line = r.src_line in
          let column = r.src_col in
          let code = st.chunk.code in
          let started = write_bytes (to_int op ∷ operands) line column st.chunk in
          let chunk = write_u16 0 line column started in
          let whole = code-write_u16_operand op operands 0 line column st.chunk in
          let e = write_u16-Emitted op operands 0 line column st.chunk runs size in
          let k = Emitted-IsLowering starts st chunk l e in
          let before : length started.code ≡ length code + 1 + length operands = omega (
            arith,
            ap length (code-write_bytes (to_int op ∷ operands) line column st.chunk),
            length-append code (to_int op ∷ operands),
          ) in
          let behind : length chunk.code ≡ length started.code + 2 = omega (
            arith,
            ap length (code-write_u16 0 line column started),
            length-append started.code (high_byte 0 ∷ low_byte 0 ∷ []),
          ) in
          rw runs (
            add_start starts (length chunk.code),
            record {
              layout = k.layout;
              places = k.places;
              entries = k.entries;
              ordered = IsOrdered-append st.pending_patches _ l.ordered (
                  All-map (IsSite starts code) (λ p. p.offset_u16_code_index < length started.code)
                    st.pending_patches (λ p h. omega (arith, h.inside, h.base_at)) l.sites);
              sites =
                  All-append (IsSite (add_start starts (length chunk.code)) chunk.code)
                    st.pending_patches _ k.sites
                    (
                      record {
                        site = length code;
                        op = op;
                        offset_at = omega arith;
                        base_at = behind;
                        kind = jump_kind op operands kind;
                        start = ground (arith, l.layout.last);
                        inside = omega arith;
                        here = rw whole (
                            get_elem?-append_middle code (operands ++ high_byte 0 ∷ low_byte 0 ∷ [])
                              (to_int op));
                        width = omega arith;
                      },
                      tt,
                    );
            },
          )
      | inr blocked ↦ rw blocked tt
    ]
