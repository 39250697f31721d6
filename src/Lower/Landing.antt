-- ===== src/Lower/Landing.antt =====
-- Every patch leads the machine to the entry of its block (src/l0_core/ir/lower_to_chunk.cpp,
-- src/l0_core/vm/vm.cpp).
use mathlib.Core.Path.{subst}
use niki.Prelude.{
  ℕ, ◌+◌, ◌-◌, ◌<◌, ◌≤◌, ◌≡◌, refl, sym, inl, inr, Bool, true, List, [], ◌∷◌, some, arith, ltb,
  length, get_elem?, if_cases, All,
}
use niki.Linker.Link.{Chunk}
use niki.Pool.Mapped.{lookup}
use niki.Semantic.Namespace.{module_ids}
use niki.Opcode.Code.{Opcode, to_int, op_jmp, op_jnz, op_loop}
use niki.Opcode.Capability.{is_runnable}
use niki.Vm.Fetch.{jump_from}
use niki.Lower.Writer.{Result, ok, err, message, PendingJumpPatch}
use niki.Lower.Function.{backward_opcode, write_patch, apply_patch}
use niki.Lower.Layout.{operand_bytes, IsLayout, IsSite}
use niki.Lower.Emit.{Ensures, Ensures-option}
use niki.Lower.Patch.{IsRewritten, write_patch-IsRewritten}
use niki.Lower.Aim.{Aims, Aims-target}

-- The patch leads the machine to the entry of its block.
pub record Lands {V : Type 0} (entries : List (ℕ × ℕ)) (chunk : Chunk V) (patch : PendingJumpPatch)
    : Type 0 where
  pub op : Opcode
  pub target : ℕ
  pub found : lookup patch.target_block_id entries ≡ some target
  pub here :
      get_elem? chunk.code (patch.offset_u16_code_index - patch.opcode_off_back) ≡ some (to_int op)
  pub jumps :
      jump_from op chunk.code (patch.offset_u16_code_index - patch.opcode_off_back + 1)
      ≡ some target

-- A conditional jump of a patch leads forward.
abbrev pub IsForward : List (ℕ × ℕ) → PendingJumpPatch → Type 0
IsForward entries patch =
    (target : ℕ)
    → lookup patch.target_block_id entries ≡ some target
    → patch.original_opcode ≡ op_jnz
    → patch.offset_base_code_index ≤ target

lookup-All :
    (starts : ℕ → Bool) (entries : List (ℕ × ℕ)) (k target : ℕ)
    → All (λ e. starts e.1 ≡ true) entries
    → lookup k entries ≡ some target
    → starts target ≡ true
unfolding lookup
lookup-All starts [] k target h e = cc
lookup-All starts ((j, t) ∷ entries) k target h e =
    ground (arith, h.0, lookup-All starts entries k target h.1)

-- What a patch does to a chunk.
pub record IsPatched {V : Type 0} (starts : ℕ → Bool) (entries : List (ℕ × ℕ)) (chunk : Chunk V)
    (patch : PendingJumpPatch) (site : ℕ) (next : Chunk V) : Type 0 where
  pub op : Opcode
  pub offset : ℕ
  pub runs : is_runnable op ≡ true
  pub width : operand_bytes op ≡ patch.opcode_off_back + 1
  pub is_set : IsRewritten chunk site patch.opcode_off_back op offset next
  pub lands : IsForward entries patch → Lands entries next patch

Ensures-map {ℓ κ μ} :
    {A : Type ℓ} (P : A → Type κ) (Q : A → Type μ) (m : Result A)
    → ((a : A) → P a → Q a)
    → Ensures P m
    → Ensures Q m
Ensures-map P Q (ok a) f h = f a h
Ensures-map P Q (err e) f h = tt

module _ {V : Type 0} (starts : ℕ → Bool) (entries : List (ℕ × ℕ)) (chunk : Chunk V)
    (patch : PendingJumpPatch) (l : IsLayout starts chunk.code)
    (known : All (λ e. starts e.1 ≡ true) entries) (i : IsSite starts chunk.code patch) where
  write_patch-IsPatched :
      (op : Opcode) (offset target : ℕ)
      → lookup patch.target_block_id entries ≡ some target
      → is_runnable op ≡ true
      → operand_bytes op ≡ patch.opcode_off_back + 1
      → (IsForward entries patch
          → Aims op patch.opcode_off_back i.site offset target (length chunk.code))
      → Ensures (IsPatched starts entries chunk patch i.site) (write_patch patch op offset chunk)
  write_patch-IsPatched op offset target found runs width aims =
      let back = patch.opcode_off_back in
      let positive : 0 < back = ground (arith, i.kind) in
      Ensures-map (IsRewritten chunk i.site back op offset)
        (IsPatched starts entries chunk patch i.site) (write_patch patch op offset chunk)
        (λ next s. record {
          op = op;
          offset = offset;
          runs = runs;
          width = width;
          is_set = s;
          lands = λ forward.
              let same : patch.offset_u16_code_index - back ≡ i.site = omega (arith, i.offset_at) in
              record {
                op = op;
                target = target;
                found = found;
                here = rw same s.opcode;
                jumps =
                    rw same (Aims-target chunk next op back i.site offset target s (aims forward));
              };
        })
        (write_patch-IsRewritten i.site back patch op offset chunk refl i.offset_at positive
          (omega (arith, i.inside, i.base_at, i.offset_at)))

  write_patch-back :
      (target : ℕ)
      → lookup patch.target_block_id entries ≡ some target
      → target < patch.offset_base_code_index
      → Ensures (IsPatched starts entries chunk patch i.site) (
          write_patch patch
            (backward_opcode patch.original_opcode)
            (patch.offset_base_code_index - target)
            chunk)
  unfolding backward_opcode operand_bytes is_runnable
  write_patch-back target found before = elim i.kind [
    | inl (e, b) ↦
        let loops : backward_opcode patch.original_opcode ≡ op_loop = rw e refl in
        rw loops (
          write_patch-IsPatched op_loop (patch.offset_base_code_index - target) target found refl
            (omega arith) (λ f. inr (inl (refl, b, omega (arith, i.base_at, i.offset_at)))))
    | inr (e, b) ↦
        let stays : backward_opcode patch.original_opcode ≡ op_jnz = rw e refl in
        rw stays (
          write_patch-IsPatched op_jnz (patch.offset_base_code_index - target) target found refl
            (omega arith) (λ f. absurd (omega (arith, f target found e))))
  ]

  write_patch-ahead :
      (target : ℕ)
      → lookup patch.target_block_id entries ≡ some target
      → patch.offset_base_code_index ≤ target
      → target ≤ length chunk.code
      → Ensures
          (IsPatched starts entries chunk patch i.site)
          (write_patch patch patch.original_opcode (target - patch.offset_base_code_index) chunk)
  unfolding operand_bytes is_runnable
  write_patch-ahead target found ahead inside =
      let offset = target - patch.offset_base_code_index in
      elim i.kind [
        | inl (e, b) ↦
            subst
              (λ op.
                Ensures (IsPatched starts entries chunk patch i.site)
                  (write_patch patch op offset chunk))
              (sym e)
              (write_patch-IsPatched op_jmp offset target found refl (omega arith)
                (λ f. inl (refl, b, omega (arith, i.base_at, i.offset_at), inside)))
        | inr (e, b) ↦
            subst
              (λ op.
                Ensures (IsPatched starts entries chunk patch i.site)
                  (write_patch patch op offset chunk))
              (sym e)
              (write_patch-IsPatched op_jnz offset target found refl (omega arith)
                (λ f. inr (inr (refl, b, omega (arith, i.base_at, i.offset_at), inside))))
      ]

  pub apply_patch-IsPatched :
      Ensures (IsPatched starts entries chunk patch i.site) (apply_patch entries patch chunk)
  unfolding apply_patch
  apply_patch-IsPatched =
      Ensures-option (IsPatched starts entries chunk patch i.site)
        (lookup patch.target_block_id entries)
        (message "Jump target block id not found during patch.") _
        λ target found.
          let base = patch.offset_base_code_index in
          if_cases (Ensures (IsPatched starts entries chunk patch i.site)) (ltb target base)
            (λ back. write_patch-back target found (ground arith))
            (λ ahead. write_patch-ahead target found (ground arith) (
              l.within target (lookup-All starts entries patch.target_block_id target known found)))
