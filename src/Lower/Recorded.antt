-- ===== src/Lower/Recorded.antt =====
-- The loops of `lowerOneFunction` record the jumps and the blocks of the intermediate representation
-- (src/l0_core/ir/lower_to_chunk.cpp).
use niki.Prelude.{
  ℕ, zero, suc, ◌+◌, ◌%◌, ◌^◌, ◌≡◌, refl, sym, ap, ◌∙◌, List, ◌∷◌, ◌++◌, Option, none, some,
  get_elem?,
}
use mathlib.Core.List.{append_assoc, append-nil}
use mathlib.Core.Path.{subst}
use niki.Bytecode.Operand.{get_or-get_elem?}
use niki.Ir.Module.{InstTable, Span, BlockRecord, ModuleIr}
use niki.Ir.Table.{Inst}
use niki.Lower.Writer.{undefined, Result, ok, err, ◌>>=◌, Lowering}
use niki.Lower.Function.{lower_kind, at, snapshot, lower_insts, lower_block, lower_blocks}
use niki.Lower.Emit.{Ensures, Ensures-bind}
use niki.Lower.Edges.{
  Edge, edges_of, edges_at, edges_of_insts, edges_of_block, edges_of_blocks, block_ids,
  patched_edges, entered_ids, Adds, Adds-trans, lower_kind-Adds, Ensures-imp,
}

-- The fields of the instruction at an index that name jumps.
record IsAt (t : InstTable) (i : ℕ) (r : Inst) : Type 0 where
  kind : get_elem? t.kind i ≡ some r.kind
  a : get_elem? t.a_u32 i ≡ some r.a_u32
  b : get_elem? t.b_u32 i ≡ some r.b_u32
  c : get_elem? t.c_u32 i ≡ some r.c_u32

at-bind :
    {A B : Type 0} (P : B → Type 0) (xs : List A) (i : ℕ) (f : A → Result B)
    → ((a : A) → get_elem? xs i ≡ some a → Ensures P (f a))
    → Ensures P (at xs i >>= f)
at-bind {A = A} {B = B} P xs i f h = split (get_elem? xs i) h
  where
    split :
        (o : Option A)
        → ((a : A) → o ≡ some a → Ensures P (f a))
        → Ensures P ((elim o [ none ↦ err undefined | some a ↦ ok a ]) >>= f)
    split none k = tt
    split (some a) k = k a refl

snapshot-IsAt : (t : InstTable) (i : ℕ) → Ensures (IsAt t i) (snapshot t i)
unfolding snapshot
snapshot-IsAt t i =
    let P = IsAt t i in
    at-bind P t.kind i _ λ kind h. at-bind P t.dst_kind i _ λ _ _. at-bind P t.dst_u32 i _ λ _ _.
      at-bind P t.a_kind i _ λ _ _. at-bind P t.a_u32 i _ λ a p. at-bind P t.a_i64 i _ λ _ _.
        at-bind P t.a_u64 i _ λ _ _. at-bind P t.b_kind i _ λ _ _. at-bind P t.b_u32 i _ λ b q.
          at-bind P t.b_i64 i _ λ _ _. at-bind P t.c_kind i _ λ _ _. at-bind P t.c_u32 i _ λ c s.
            at-bind P t.aux i _ λ _ _.
              at-bind P t.src_line i _
                λ _ _. at-bind P t.src_col i _ λ _ _. record { kind = h; a = p; b = q; c = s }

edges_at_lem :
    (t : InstTable) (i : ℕ) (r : Inst)
    → IsAt t i r
    → edges_of r.kind r.a_u32 r.b_u32 r.c_u32 ≡ edges_at t i
edges_at_lem t i r h =
    let a = get_or-get_elem? t.a_u32 i r.a_u32 h.a in
    let b = get_or-get_elem? t.b_u32 i r.b_u32 h.b in
    let c = get_or-get_elem? t.c_u32 i r.c_u32 h.c in rw (edges_at, h.kind, a, b, c) refl

lower_insts-Adds :
    (rounds i : ℕ) (unit : ModuleIr) (st : Lowering)
    → Ensures (Adds (edges_of_insts rounds i unit.insts) st) (lower_insts rounds i unit st)
unfolding lower_insts
lower_insts-Adds zero i unit st = record { edges = sym (append-nil (patched_edges st)); ids = refl }
lower_insts-Adds (suc rounds) i unit st =
    let here = edges_at unit.insts i in
    let rest = edges_of_insts rounds (i + 1) unit.insts in
    Ensures-bind (IsAt unit.insts i) (Adds (here ++ rest) st) (snapshot unit.insts i) _
      (snapshot-IsAt unit.insts i)
      λ r h.
        Ensures-bind (Adds (edges_of r.kind r.a_u32 r.b_u32 r.c_u32) st) (Adds (here ++ rest) st)
          (lower_kind r.kind unit r st) _ (lower_kind-Adds r.kind unit r st)
          λ mid k.
            Ensures-imp (Adds rest mid) (Adds (here ++ rest) st)
              (lower_insts rounds (i + 1) unit mid)
              (λ next m.
                Adds-trans here rest st mid next
                  (subst (λ es. Adds es st mid) (edges_at_lem unit.insts i r h) k) m)
              (lower_insts-Adds rounds (i + 1) unit mid)

-- The jumps that were recorded behind those of `st`, and the ids of the blocks that were entered.
pub record Records (es : List Edge) (ids : List ℕ) (st next : Lowering) : Type 0 where
  pub edges : patched_edges next ≡ patched_edges st ++ es
  pub entered : entered_ids next ≡ ids

lower_block-Records :
    (unit : ModuleIr) (b : BlockRecord) (st : Lowering)
    → Ensures
        (Records (edges_of_block unit b) (b.block_id ∷ entered_ids st) st)
        (lower_block unit b st)
unfolding lower_block
lower_block-Records unit b st =
    Ensures-imp _ (Records (edges_of_block unit b) (b.block_id ∷ entered_ids st) st) _
      (λ next k. record { edges = k.edges; entered = k.ids }) (lower_insts-Adds _ _ unit _)

Records-trans :
    (xs ys : List Edge) (ids last : List ℕ) (st mid next : Lowering)
    → Records xs ids st mid
    → Records ys last mid next
    → Records (xs ++ ys) last st next
Records-trans xs ys ids last st mid next p q = record {
  edges = q.edges ∙ ap (λ l. l ++ ys) p.edges ∙ append_assoc (patched_edges st) xs ys;
  entered = q.entered;
}

-- The loop over the blocks records exactly the jumps of the span, in their order, and its blocks.
pub lower_blocks-Records :
    (rounds i : ℕ) (unit : ModuleIr) (span : Span) (st : Lowering)
    → Ensures
        (Records
          (edges_of_blocks rounds i unit span)
          (block_ids rounds i unit span (entered_ids st))
          st)
        (lower_blocks rounds i unit span st)
unfolding lower_blocks edges_of_blocks block_ids
lower_blocks-Records zero i unit span st = record {
  edges = sym (append-nil (patched_edges st));
  entered = refl;
}
lower_blocks-Records (suc rounds) i unit span st =
    at-bind _ unit.blocks ((span.begin + i) % 2 ^ 32) _ λ b h.
      rw (edges_of_blocks, block_ids, h)
        (Ensures-bind (Records (edges_of_block unit b) (b.block_id ∷ entered_ids st) st) _
          (lower_block unit b st) _ (lower_block-Records unit b st)
          λ mid k.
            Ensures-imp _ _ (lower_blocks rounds (i + 1) unit span mid)
              (λ next m. Records-trans _ _ _ _ st mid next k m)
              (subst
                (λ ids.
                  Ensures
                    (Records (edges_of_blocks rounds (i + 1) unit span)
                      (block_ids rounds (i + 1) unit span ids) mid)
                    (lower_blocks rounds (i + 1) unit span mid))
                k.entered (lower_blocks-Records rounds (i + 1) unit span mid)))
