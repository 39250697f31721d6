-- ===== src/Lower/Layout.antt =====
-- Where instructions start in the bytecode: what the machine reads of a chunk that was lowered
-- (src/l0_core/ir/lower_to_chunk.cpp, src/l0_core/vm/vm.cpp).
use niki.Prelude.{
  ℕ, zero, suc, ◌+◌, ◌<◌, ◌≤◌, ◌≡◌, refl, ◌⊎◌, inl, inr, Bool, true, false, ◌||◌, List, [], ◌∷◌,
  ◌++◌, some, arith, ◌==◌, length, length-append, get_elem?, Bool-cases, All, All-append,
}
use niki.Opcode.Code.{
  Opcode, to_int, op_load_const, op_load_const_w, op_move, op_neg, op_fneg, op_not, op_bit_not,
  op_new_map, op_new_array, op_push_array, op_true, op_false, op_nil, op_return, op_jmp, op_loop,
  op_jz, op_jnz, op_define_global, op_define_global_w, op_get_global, op_get_global_w,
  op_set_global, op_set_global_w, op_new_instance, op_call, op_free,
}
use niki.Opcode.Capability.{is_runnable}
use niki.Lower.Writer.{PendingJumpPatch}

-- The bytes that `VM::run` reads after an opcode that it executes: three registers, but for these.
unfoldable pub operand_bytes : Opcode → ℕ
operand_bytes op_load_const = 2
operand_bytes op_load_const_w = 3
operand_bytes op_move = 2
operand_bytes op_neg = 2
operand_bytes op_fneg = 2
operand_bytes op_not = 2
operand_bytes op_bit_not = 2
operand_bytes op_true = 1
operand_bytes op_false = 1
operand_bytes op_nil = 1
operand_bytes op_new_map = 2
operand_bytes op_new_array = 2
operand_bytes op_push_array = 2
operand_bytes op_return = 0
operand_bytes op_jmp = 2
operand_bytes op_loop = 2
operand_bytes op_jz = 3
operand_bytes op_jnz = 3
operand_bytes op_define_global = 1
operand_bytes op_define_global_w = 2
operand_bytes op_get_global = 2
operand_bytes op_get_global_w = 3
operand_bytes op_set_global = 2
operand_bytes op_set_global_w = 3
operand_bytes op_new_instance = 4
operand_bytes op_call = 4
operand_bytes op_free = 1
operand_bytes _ = 3

-- An instruction that runs stands at `s` and the next one behind its operands, which no instruction
-- starts in.
pub record IsStart (starts : ℕ → Bool) (code : List ℕ) (s : ℕ) : Type 0 where
  pub op : Opcode
  pub here : get_elem? code s ≡ some (to_int op)
  pub runs : is_runnable op ≡ true
  pub next : starts (s + 1 + operand_bytes op) ≡ true
  pub apart : (j : ℕ) → s < j → j ≤ s + operand_bytes op → starts j ≡ false

-- The starts cut the code into instructions that run.
pub record IsLayout (starts : ℕ → Bool) (code : List ℕ) : Type 0 where
  pub first : starts 0 ≡ true
  pub last : starts (length code) ≡ true
  pub within : (s : ℕ) → starts s ≡ true → s ≤ length code
  pub each : (s : ℕ) → starts s ≡ true → s < length code → IsStart starts code s

-- The starts of a code to which an instruction is added that ends at `last`.
abbrev pub add_start : (ℕ → Bool) → ℕ → ℕ → Bool
add_start starts last s = starts s || s == last

pub get_elem?-append_left {ℓ} :
    {A : Type ℓ} (xs ys : List A) (i : ℕ) (a : A)
    → get_elem? xs i ≡ some a
    → get_elem? (xs ++ ys) i ≡ some a
get_elem?-append_left [] ys i a h = cc
get_elem?-append_left (x ∷ xs) ys zero a h = h
get_elem?-append_left (x ∷ xs) ys (suc i) a h = get_elem?-append_left xs ys i a h

pub get_elem?-append_middle {ℓ} :
    {A : Type ℓ} (xs ys : List A) (a : A) → get_elem? (xs ++ a ∷ ys) (length xs) ≡ some a
get_elem?-append_middle [] ys a = refl
get_elem?-append_middle (x ∷ xs) ys a = get_elem?-append_middle xs ys a

-- An instruction with its operands extends a layout.
pub IsLayout-append :
    (starts : ℕ → Bool) (code operands : List ℕ) (op : Opcode)
    → IsLayout starts code
    → is_runnable op ≡ true
    → length operands ≡ operand_bytes op
    → IsLayout
        (add_start starts (length (code ++ to_int op ∷ operands)))
        (code ++ to_int op ∷ operands)
IsLayout-append starts code operands op l runs size =
    let whole = code ++ to_int op ∷ operands in
    let total : length whole ≡ length code + 1 + operand_bytes op =
      omega (arith, length-append code (to_int op ∷ operands)) in
    record {
      first = ground (arith, l.first);
      last = ground arith;
      within = λ s h. ground (arith, l.within s);
      each = λ s h inside. elim (Bool-cases (s == length code)) [
        | inl at_end ↦
            let e : s ≡ length code = ground arith in
            record {
              op = op;
              here = rw e (get_elem?-append_middle code operands (to_int op));
              runs = runs;
              next = ground arith;
              apart = λ j p q. ground (arith, l.within j);
            }
        | inr before ↦
            let old : starts s ≡ true = ground arith in
            let i = l.each s old (ground (arith, l.within s old)) in
            record {
              op = i.op;
              here = get_elem?-append_left code (to_int op ∷ operands) s (to_int i.op) i.here;
              runs = i.runs;
              next = ground (arith, i.next);
              apart = λ j p q.
                  ground (arith, i.apart j p q, l.within (s + 1 + operand_bytes i.op) i.next);
            }
      ];
    }

-- A patch whose instruction is a start, with the width of the instruction that it writes.
pub record IsSite (starts : ℕ → Bool) (code : List ℕ) (patch : PendingJumpPatch) : Type 0 where
  pub site : ℕ
  pub op : Opcode
  pub offset_at : patch.offset_u16_code_index ≡ site + patch.opcode_off_back
  pub base_at : patch.offset_base_code_index ≡ patch.offset_u16_code_index + 2
  pub kind :
      ((patch.original_opcode ≡ op_jmp) × (patch.opcode_off_back ≡ 1))
      ⊎ ((patch.original_opcode ≡ op_jnz) × (patch.opcode_off_back ≡ 2))
  pub start : starts site ≡ true
  pub inside : patch.offset_base_code_index ≤ length code
  pub here : get_elem? code site ≡ some (to_int op)
  pub width : operand_bytes op ≡ patch.opcode_off_back + 1

pub IsSite-append :
    (starts : ℕ → Bool) (code more : List ℕ) (patch : PendingJumpPatch)
    → IsSite starts code patch
    → IsSite (add_start starts (length (code ++ more))) (code ++ more) patch
IsSite-append starts code more patch i = record {
  site = i.site;
  op = i.op;
  offset_at = i.offset_at;
  base_at = i.base_at;
  kind = i.kind;
  start = ground (arith, i.start);
  inside = omega (arith, i.inside, length-append code more);
  here = get_elem?-append_left code more i.site (to_int i.op) i.here;
  width = i.width;
}

-- The patches are in the order of their places.
abbrev pub IsOrdered : List PendingJumpPatch → Type 0
IsOrdered [] = Unit
IsOrdered (p ∷ ps) = All (λ q. p.offset_u16_code_index < q.offset_u16_code_index) ps × IsOrdered ps

pub IsOrdered-append :
    (ps : List PendingJumpPatch) (p : PendingJumpPatch)
    → IsOrdered ps
    → All (λ q. q.offset_u16_code_index < p.offset_u16_code_index) ps
    → IsOrdered (ps ++ p ∷ [])
IsOrdered-append [] p h k = (tt, tt)
IsOrdered-append (q ∷ ps) p h k = (
  All-append (λ r. q.offset_u16_code_index < r.offset_u16_code_index) ps (p ∷ []) h.0 (k.0, tt),
  IsOrdered-append ps p h.1 k.1,
)
