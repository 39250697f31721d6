-- ===== src/Lower/Emit.antt =====
-- What the writer and the cases of the `switch` add to the bytecode
-- (src/l0_core/ir/lower_to_chunk.cpp).
use mathlib.Core.Path.{subst}
use niki.Prelude.{
  ℕ, ◌%◌, ◌^◌, ◌+◌, ◌≡◌, refl, sym, ap, ◌∙◌, inl, inr, true, List, [], ◌∷◌, ◌++◌, Option, none,
  some, arith, leb, length, length-append, Bool-cases, if_both,
}
use mathlib.Core.List.{append_assoc, append-nil}
use niki.Opcode.Code.{Opcode, to_int}
use niki.Opcode.Capability.{is_runnable}
use niki.Linker.Link.{Chunk}
use niki.Bytecode.Stream.{write_byte, high_byte, low_byte, write_u16}
use niki.Bytecode.Operand.{HasPlaces}
use niki.Lower.Writer.{
  LowerError, Result, ok, err, ◌>>=◌, write_op, write_runnable_op, write_bytes, emit, emit_indexed,
}
use niki.Lower.Layout.{operand_bytes}

-- The property of a result, if there is one.
abbrev pub Ensures {ℓ κ} : {A : Type ℓ} → (A → Type κ) → Result A → Type κ
Ensures P (ok a) = P a
Ensures P (err e) = Unit

pub Ensures-bind {ℓ κ μ ν} :
    {A : Type ℓ} {B : Type κ} (P : A → Type μ) (Q : B → Type ν) (m : Result A) (f : A → Result B)
    → Ensures P m
    → ((a : A) → P a → Ensures Q (f a))
    → Ensures Q (m >>= f)
Ensures-bind P Q (ok a) f h k = k a h
Ensures-bind P Q (err e) f h k = tt

pub Ensures-ok {ℓ κ} :
    {A : Type ℓ} (P : A → Type κ) (m : Result A) (a : A) → m ≡ ok a → Ensures P m → P a
Ensures-ok P (ok b) a e h = subst P (cc) h
Ensures-ok P (err f) a e h = cc

-- A value that is there, or an error.
pub Ensures-option {ℓ κ μ} :
    {X : Type ℓ} {A : Type κ} (P : A → Type μ) (o : Option X) (e : LowerError) (f : X → Result A)
    → ((x : X) → o ≡ some x → Ensures P (f x))
    → Ensures P (elim o [ none ↦ err e | some x ↦ f x ])
Ensures-option P none e f h = tt
Ensures-option P (some x) e f h = h x refl

-- One instruction that runs was added to a chunk, and every byte kept a line and a column.
pub record Emitted {V : Type 0} (chunk next : Chunk V) : Type 0 where
  pub op : Opcode
  pub operands : List ℕ
  pub runs : is_runnable op ≡ true
  pub size : length operands ≡ operand_bytes op
  pub code : next.code ≡ chunk.code ++ to_int op ∷ operands
  pub places : HasPlaces chunk → HasPlaces next

length-snoc {ℓ κ} :
    {A : Type ℓ} {B : Type κ} (xs : List A) (ys : List B) (a : A) (b : B)
    → length xs ≡ length ys
    → length (xs ++ a ∷ []) ≡ length (ys ++ b ∷ [])
length-snoc xs ys a b h = omega (arith, length-append xs (a ∷ []), length-append ys (b ∷ []))

write_byte-HasPlaces :
    {V : Type 0} (byte line column : ℕ) (chunk : Chunk V)
    → HasPlaces chunk
    → HasPlaces (write_byte byte line column chunk)
unfolding write_byte
write_byte-HasPlaces byte line column chunk h = record {
  lines = length-snoc chunk.lines chunk.code line byte h.lines;
  columns = length-snoc chunk.columns chunk.code column byte h.columns;
}

pub code-write_bytes :
    {V : Type 0} (bytes : List ℕ) (line column : ℕ) (chunk : Chunk V)
    → (write_bytes bytes line column chunk).code ≡ chunk.code ++ bytes
unfolding write_bytes write_byte
code-write_bytes [] line column chunk = simp (append-nil)
code-write_bytes (byte ∷ bytes) line column chunk =
    code-write_bytes bytes line column (write_byte byte line column chunk)
    ∙ append_assoc chunk.code (byte ∷ []) bytes

write_bytes-HasPlaces :
    {V : Type 0} (bytes : List ℕ) (line column : ℕ) (chunk : Chunk V)
    → HasPlaces chunk
    → HasPlaces (write_bytes bytes line column chunk)
unfolding write_bytes
write_bytes-HasPlaces [] line column chunk h = h
write_bytes-HasPlaces (byte ∷ bytes) line column chunk h =
    write_bytes-HasPlaces bytes line column (write_byte byte line column chunk)
      (write_byte-HasPlaces byte line column chunk h)

pub code-write_u16 :
    {V : Type 0} (value line column : ℕ) (chunk : Chunk V)
    → (write_u16 value line column chunk).code ≡ chunk.code ++ high_byte value ∷ low_byte value ∷ []
unfolding write_u16 write_bytes
code-write_u16 value line column chunk =
    code-write_bytes (high_byte value ∷ low_byte value ∷ []) line column chunk

-- The bytes of an opcode that runs and of its operands are one instruction.
write_bytes-Emitted :
    {V : Type 0} (op : Opcode) (operands : List ℕ) (line column : ℕ) (chunk : Chunk V)
    → is_runnable op ≡ true
    → length operands ≡ operand_bytes op
    → Emitted chunk (write_bytes (to_int op ∷ operands) line column chunk)
write_bytes-Emitted op operands line column chunk runs size = record {
  op = op;
  operands = operands;
  runs = runs;
  size = size;
  code = code-write_bytes (to_int op ∷ operands) line column chunk;
  places = write_bytes-HasPlaces (to_int op ∷ operands) line column chunk;
}

pub emit_lem :
    {V : Type 0} (op : Opcode) (operands : List ℕ) (line column : ℕ) (chunk : Chunk V)
    → length operands ≡ operand_bytes op
    → Ensures (Emitted chunk) (emit op operands line column chunk)
unfolding emit write_runnable_op write_op write_bytes
emit_lem op operands line column chunk size = elim (Bool-cases (is_runnable op)) [
  | inl runs ↦ rw runs (write_bytes-Emitted op operands line column chunk runs size)
  | inr blocked ↦ rw blocked tt
]

pub emit_indexed_lem :
    {V : Type 0} (narrow wide : Opcode) (reg index line column : ℕ) (chunk : Chunk V)
    → operand_bytes narrow ≡ 2
    → operand_bytes wide ≡ 3
    → Ensures (Emitted chunk) (emit_indexed narrow wide reg index line column chunk)
unfolding emit_indexed write_runnable_op write_op write_bytes write_u16
emit_indexed_lem narrow wide reg index line column chunk two three =
    if_both (Ensures (Emitted chunk)) (leb index 255)
      (emit_lem narrow (reg ∷ (index % 2 ^ 8) ∷ []) line column chunk (sym two))
      (elim (Bool-cases (is_runnable wide)) [
        | inl runs ↦ rw runs (
            write_bytes-Emitted wide (reg ∷ high_byte index ∷ low_byte index ∷ []) line column chunk
              runs (sym three))
        | inr blocked ↦ rw blocked tt
      ])

-- An opcode with operands that end in a 16-bit number.
pub code-write_u16_operand :
    {V : Type 0} (op : Opcode) (operands : List ℕ) (value line column : ℕ) (chunk : Chunk V)
    → (write_u16 value line column (write_bytes (to_int op ∷ operands) line column chunk)).code
      ≡ chunk.code ++ to_int op ∷ (operands ++ high_byte value ∷ low_byte value ∷ [])
code-write_u16_operand op operands value line column chunk =
    let started = write_bytes (to_int op ∷ operands) line column chunk in
    let rest = high_byte value ∷ low_byte value ∷ [] in
    code-write_u16 value line column started
    ∙ ap (λ c. c ++ rest) (code-write_bytes (to_int op ∷ operands) line column chunk)
    ∙ append_assoc chunk.code (to_int op ∷ operands) rest

pub write_u16-Emitted :
    {V : Type 0} (op : Opcode) (operands : List ℕ) (value line column : ℕ) (chunk : Chunk V)
    → is_runnable op ≡ true
    → length operands + 2 ≡ operand_bytes op
    → Emitted chunk
        (write_u16 value line column (write_bytes (to_int op ∷ operands) line column chunk))
unfolding write_u16 write_bytes
write_u16-Emitted op operands value line column chunk runs size =
    let started = write_bytes (to_int op ∷ operands) line column chunk in
    let rest = high_byte value ∷ low_byte value ∷ [] in
    record {
      op = op;
      operands = operands ++ rest;
      runs = runs;
      size = omega (arith, length-append operands rest);
      code = code-write_u16_operand op operands value line column chunk;
      places = λ h.
          write_bytes-HasPlaces rest line column started
            (write_bytes-HasPlaces (to_int op ∷ operands) line column chunk h);
    }
