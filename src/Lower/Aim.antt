-- ===== src/Lower/Aim.antt =====
-- Where the jumps of a patched chunk lead (src/l0_core/ir/lower_to_chunk.cpp,
-- src/l0_core/vm/vm.cpp).
use niki.Prelude.{
  ℕ, zero, suc, ◌+◌, ◌-◌, ◌<◌, ◌≤◌, ◌≡◌, refl, ◌⊎◌, inl, inr, false, List, [], ◌∷◌, Option, none,
  some, arith, ltb, leb, length, get_or, get_elem?, Bool-cases,
}
use niki.Linker.Link.{Chunk}
use niki.Semantic.Namespace.{module_ids}
use niki.Bytecode.Stream.{try_read_byte, try_read_short}
use niki.Opcode.Code.{Opcode, op_jmp, op_jnz, op_loop, op_jz}
use niki.Vm.Fetch.{try_jump_forward, try_jump_backward, read_and_jump, jump_from}
use niki.Lower.Layout.{operand_bytes}
use niki.Lower.Patch.{IsRewritten}

get_or-cong :
    (xs ys : List ℕ) (i j : ℕ) → get_elem? xs i ≡ get_elem? ys j → get_or xs i 0 ≡ get_or ys j 0
get_or-cong [] [] i j h = refl
get_or-cong [] (y ∷ ys) i zero h = cc
get_or-cong [] (y ∷ ys) i (suc j) h = get_or-cong [] ys i j h
get_or-cong (x ∷ xs) [] zero j h = cc
get_or-cong (x ∷ xs) [] (suc i) j h = get_or-cong xs [] i j h
get_or-cong (x ∷ xs) (y ∷ ys) zero zero h = cc
get_or-cong (x ∷ xs) (y ∷ ys) zero (suc j) h = get_or-cong (x ∷ xs) ys zero j h
get_or-cong (x ∷ xs) (y ∷ ys) (suc i) zero h = get_or-cong xs (y ∷ ys) i zero h
get_or-cong (x ∷ xs) (y ∷ ys) (suc i) (suc j) h = get_or-cong xs ys i j h

-- A read that goes on in the same way.
after_read :
    (o : Option (ℕ × ℕ)) (f g : ℕ → ℕ → Option ℕ)
    → ((a b : ℕ) → f a b ≡ g a b)
    → (elim o as (λ _. Option ℕ) [ none ↦ none | some (a, b) ↦ f a b ])
      ≡ (elim o as (λ _. Option ℕ) [ none ↦ none | some (a, b) ↦ g a b ])
after_read none f g h = refl
after_read (some (a, b)) f g h = h a b

module _ (code other : List ℕ) (ip : ℕ) (size : length other ≡ length code) where
  try_read_short-cong :
      get_elem? other ip ≡ get_elem? code ip
      → get_elem? other (ip + 1) ≡ get_elem? code (ip + 1)
      → try_read_short other ip ≡ try_read_short code ip
  unfolding try_read_short
  try_read_short-cong a b =
      rw (size, get_or-cong other code ip ip a, get_or-cong other code (ip + 1) (ip + 1) b) refl

  forward-cong :
      get_elem? other ip ≡ get_elem? code ip
      → get_elem? other (ip + 1) ≡ get_elem? code (ip + 1)
      → read_and_jump try_jump_forward other ip ≡ read_and_jump try_jump_forward code ip
  unfolding read_and_jump try_jump_forward
  forward-cong a b =
      rw (try_read_short-cong a b, read_and_jump)
        (after_read (try_read_short code ip) (λ offset next. try_jump_forward other next offset)
          (λ offset next. try_jump_forward code next offset) (λ offset next. rw size refl))

  backward-cong :
      get_elem? other ip ≡ get_elem? code ip
      → get_elem? other (ip + 1) ≡ get_elem? code (ip + 1)
      → read_and_jump try_jump_backward other ip ≡ read_and_jump try_jump_backward code ip
  unfolding read_and_jump try_jump_backward
  backward-cong a b =
      rw (try_read_short-cong a b, read_and_jump)
        (after_read (try_read_short code ip) (λ offset next. try_jump_backward other next offset)
          (λ offset next. try_jump_backward code next offset) (λ offset next. refl))

-- A conditional jump that is taken.
conditional-cong :
    (code other : List ℕ) (ip : ℕ)
    → length other ≡ length code
    → ((j : ℕ) → ip ≤ j → j < ip + 3 → get_elem? other j ≡ get_elem? code j)
    → jump_from op_jnz other ip ≡ jump_from op_jnz code ip
unfolding jump_from try_read_byte
conditional-cong code other ip size same = elim (Bool-cases (leb (length code) ip)) [
  | inl past ↦ rw (jump_from, try_read_byte, size, past) refl
  | inr inside ↦
      rw (jump_from, try_read_byte, size, inside)
        (forward-cong code other (ip + 1) size (same (ip + 1) (omega arith) (omega arith))
          (same (ip + 1 + 1) (omega arith) (omega arith)))
]

-- A jump depends on its operands and on the size of the code.
pub jump_from-cong :
    (op : Opcode) (code other : List ℕ) (ip : ℕ)
    → length other ≡ length code
    → ((j : ℕ) → ip ≤ j → j < ip + operand_bytes op → get_elem? other j ≡ get_elem? code j)
    → jump_from op other ip ≡ jump_from op code ip
unfolding jump_from operand_bytes
jump_from-cong op_jmp code other ip size same =
    forward-cong code other ip size (same ip (omega arith) (omega arith))
      (same (ip + 1) (omega arith) (omega arith))
jump_from-cong op_loop code other ip size same =
    backward-cong code other ip size (same ip (omega arith) (omega arith))
      (same (ip + 1) (omega arith) (omega arith))
jump_from-cong op_jnz code other ip size same = conditional-cong code other ip size same
jump_from-cong op_jz code other ip size same = conditional-cong code other ip size same
jump_from-cong _ code other ip size same = refl

-- Where a jump leads whose offset was set.
module _ {V : Type 0} (chunk next : Chunk V) (site offset target : ℕ) where
  jmp-target :
      IsRewritten chunk site 1 op_jmp offset next
      → target ≤ length chunk.code
      → site + 3 + offset ≡ target
      → jump_from op_jmp next.code (site + 1) ≡ some target
  unfolding jump_from try_jump_forward read_and_jump
  jmp-target s inside e =
      let fits : ltb (length next.code) (site + 1 + 2 + offset) ≡ false = ground (arith, s.size) in
      let there : site + 1 + 2 + offset ≡ target = omega arith in
      rw (s.operand, read_and_jump) (rw (fits, there) refl)

  loop-target :
      IsRewritten chunk site 1 op_loop offset next
      → target + offset ≡ site + 3
      → jump_from op_loop next.code (site + 1) ≡ some target
  unfolding jump_from try_jump_backward read_and_jump
  loop-target s e =
      let fits : ltb (site + 1 + 2) offset ≡ false = ground arith in
      let there : site + 1 + 2 - offset ≡ target = omega arith in
      rw (s.operand, read_and_jump) (rw (fits, there) refl)

  jnz-target :
      IsRewritten chunk site 2 op_jnz offset next
      → target ≤ length chunk.code
      → site + 4 ≤ length chunk.code
      → site + 4 + offset ≡ target
      → jump_from op_jnz next.code (site + 1) ≡ some target
  unfolding jump_from try_jump_forward try_read_byte read_and_jump
  jnz-target s inside room e =
      let present : leb (length next.code) (site + 1) ≡ false = ground (arith, s.size) in
      let fits : ltb (length next.code) (site + 2 + 2 + offset) ≡ false = ground (arith, s.size) in
      let there : site + 2 + 2 + offset ≡ target = omega arith in
      let behind : site + 1 + 1 ≡ site + 2 = omega arith in
      rw (jump_from, present, behind) (rw (s.operand, read_and_jump) (rw (fits, there) refl))

-- The opcode, the offset and the target of a jump fit together.
abbrev pub Aims : Opcode → ℕ → ℕ → ℕ → ℕ → ℕ → Type 0
Aims op back site offset target size =
    ((op ≡ op_jmp) × (back ≡ 1) × (site + 3 + offset ≡ target) × (target ≤ size))
    ⊎ ((op ≡ op_loop) × (back ≡ 1) × (target + offset ≡ site + 3))
    ⊎ ((op ≡ op_jnz) × (back ≡ 2) × (site + 4 + offset ≡ target) × (target ≤ size))

pub Aims-target :
    {V : Type 0} (chunk next : Chunk V) (op : Opcode) (back site offset target : ℕ)
    → IsRewritten chunk site back op offset next
    → Aims op back site offset target (length chunk.code)
    → jump_from op next.code (site + 1) ≡ some target
Aims-target chunk next op back site offset target s (inl (e, b, sum, inside)) =
    rw e (jmp-target chunk next site offset target (rw (e, b) at s) inside sum)
Aims-target chunk next op back site offset target s (inr (inl (e, b, sum))) =
    rw e (loop-target chunk next site offset target (rw (e, b) at s) sum)
Aims-target chunk next op back site offset target s (inr (inr (e, b, sum, inside))) =
    rw e (jnz-target chunk next site offset target (rw (e, b) at s) inside (omega arith) sum)
