-- ===== src/Lower/Correct.antt =====
-- What `lowerOneFunction` and `lowerModuleToChunk` return (src/l0_core/ir/lower_to_chunk.cpp).
use niki.Prelude.{
  ◌∙◌, length-append, ℕ, zero, suc, ◌+◌, ◌%◌, ◌^◌, ◌≡◌, refl, Bool, true, List, [], ◌∷◌, ◌++◌,
  arith, ltb, length, get_elem?, All, All-append, All-map, if_both, ◌==◌,
}
use niki.Bytecode.Operand.{HasPlaces}
use niki.Semantic.Namespace.{module_ids}
use niki.Ir.Module.{FuncRecord, ModuleIr}
use niki.Object.Value.{Heap, ObjFunction}
use niki.Lower.Writer.{LowerError, message, Result, ok, err, Lowering}
use niki.Lower.Function.{
  begin_lowering, lower_blocks, apply_patches, lower_one_function, lower_function_to_chunk,
  lower_functions, lower_module_to_chunk, in_function,
}
use niki.Lower.Layout.{IsOrdered, IsLayout}
use niki.Lower.Emit.{Ensures-ok, Ensures, Ensures-bind, Ensures-option}
use niki.Lower.Keeps.{IsGood}
use niki.Lower.Blocks.{lower_blocks-IsGood}
use niki.Lower.Edges.{edges_of_blocks, block_ids, patched_edges, entered_ids}
use niki.Lower.Landing.{Lands, IsForward}
use niki.Lower.Patches.{IsPatchedAll, apply_patches-IsPatchedAll}

-- A function whose bytecode is cut into instructions that run, with a place for every byte.
pub record IsExecutable (f : ObjFunction) : Type 0 where
  pub starts : ℕ → Bool
  pub layout : IsLayout starts f.chunk.code
  pub places : HasPlaces f.chunk

-- What the loops over the blocks and over the patches leave: every entry of a block is a start, and
-- every patch whose conditional jump leads forward lands on the entry of its block.
pub record IsLinked (st : Lowering) (f : ObjFunction) : Type 0 where
  pub starts : ℕ → Bool
  pub layout : IsLayout starts f.chunk.code
  pub places : HasPlaces f.chunk
  pub entries : All (λ e. starts e.1 ≡ true) st.block_entry_code_index
  pub lands :
      All
        (λ p. IsForward st.block_entry_code_index p → Lands st.block_entry_code_index f.chunk p)
        st.pending_patches
  pub ordered : IsOrdered st.pending_patches

-- The patches are those of the jumps of the function, in their order, and the entries are those of its
-- blocks, the last one first.
pub record IsRecorded (unit : ModuleIr) (f : FuncRecord) (st : Lowering) : Type 0 where
  pub edges : patched_edges st ≡ edges_of_blocks f.block_span.count 0 unit f.block_span
  pub entered : entered_ids st ≡ block_ids f.block_span.count 0 unit f.block_span []

begin-IsGood :
    (unit : ModuleIr) (f : FuncRecord) (heap : Heap) → IsGood (begin_lowering unit f heap)
begin-IsGood unit f heap = (
  λ s. s == 0,
  record {
    layout = record {
      first = refl;
      last = refl;
      within = λ s h. ground arith;
      each = λ s h inside. absurd (omega arith);
    };
    places = record { lines = refl; columns = refl };
    entries = tt;
    sites = tt;
    ordered = tt;
  },
)

-- The result of a function, if there is one, comes from the loop over the blocks.
record IsLowered (unit : ModuleIr) (f : FuncRecord) (heap : Heap) (r : Heap × ObjFunction)
    : Type 0 where
  st : Lowering
  blocks : lower_blocks f.block_span.count 0 unit f.block_span (begin_lowering unit f heap) ≡ ok st
  linked : IsLinked st r.1

with_equation :
    {A : Type 0} (P : A → Type 0) (m : Result A) → Ensures P m → Ensures (λ a. (m ≡ ok a) × P a) m
with_equation P (ok a) h = (refl, h)
with_equation P (err e) h = tt

lower_one_function-IsLowered :
    (unit : ModuleIr) (f : FuncRecord) (heap : Heap)
    → Ensures (IsLowered unit f heap) (lower_one_function unit f heap)
unfolding lower_one_function
lower_one_function-IsLowered unit f heap =
    let Q = Ensures (IsLowered unit f heap) in
    let run = lower_blocks f.block_span.count 0 unit f.block_span (begin_lowering unit f heap) in
    if_both Q (ltb (length unit.blocks) ((f.block_span.begin + f.block_span.count) % 2 ^ 32)) tt (
      if_both Q (ltb 255 f.arity) tt (
        Ensures-bind (λ st. (run ≡ ok st) × IsGood st) (IsLowered unit f heap) run _
          (with_equation IsGood run (
            lower_blocks-IsGood f.block_span.count 0 unit f.block_span (begin_lowering unit f heap)
              (begin-IsGood unit f heap)))
          λ st (e, (starts, l)).
            Ensures-bind (IsPatchedAll starts st.block_entry_code_index st.pending_patches)
              (IsLowered unit f heap)
              (apply_patches st.block_entry_code_index st.pending_patches st.chunk) _
              (apply_patches-IsPatchedAll starts st.block_entry_code_index l.entries
                st.pending_patches st.chunk l.layout l.places l.sites l.ordered)
              λ chunk k. record {
                st = st;
                blocks = e;
                linked = record {
                  starts = starts;
                  layout = k.layout;
                  places = record { lines = k.places.lines; columns = k.places.columns };
                  entries = l.entries;
                  ordered = l.ordered;
                  lands =
                      All-map _ _ st.pending_patches
                        (λ p g h.
                          let n = g h in
                          record {
                            op = n.op;
                            target = n.target;
                            found = n.found;
                            here = n.here;
                            jumps = n.jumps;
                          })
                        k.lands;
                };
              }))

-- The code of a function that is lowered is cut into instructions that run, and every byte has a line and
-- a column.
pub lower_one_function-IsExecutable :
    (unit : ModuleIr) (f : FuncRecord) (heap next : Heap) (function : ObjFunction)
    → lower_one_function unit f heap ≡ ok (next, function)
    → IsExecutable function
lower_one_function-IsExecutable unit f heap next function e =
    let r =
      Ensures-ok (IsLowered unit f heap) (lower_one_function unit f heap) (next, function) e
        (lower_one_function-IsLowered unit f heap) in
    record { starts = r.linked.starts; layout = r.linked.layout; places = r.linked.places }

lower_function_to_chunk-IsExecutable :
    (unit : ModuleIr) (i : ℕ) (heap : Heap)
    → Ensures (λ r. IsExecutable r.1) (lower_function_to_chunk unit i heap)
unfolding lower_function_to_chunk
lower_function_to_chunk-IsExecutable unit i heap =
    Ensures-option (λ r. IsExecutable r.1) (get_elem? unit.funcs i)
      (message "Function id out of range.") _
      λ f _. all (lower_one_function unit f heap) (lower_one_function-IsExecutable unit f heap)
  where
    all :
        (m : Result (Heap × ObjFunction))
        → ((h : Heap) (g : ObjFunction) → m ≡ ok (h, g) → IsExecutable g)
        → Ensures (λ r. IsExecutable r.1) m
    all (ok (h, g)) k = k h g refl
    all (err e) k = tt

in_function-Ensures :
    {A : Type 0} (P : A → Type 0) (i : ℕ) (m : Result A) → Ensures P m → Ensures P (in_function i m)
in_function-Ensures P i (ok a) h = h
in_function-Ensures P i (err LowerError.undefined) h = tt
in_function-Ensures P i (err (LowerError.message e)) h = tt
in_function-Ensures P i (err (LowerError.not_runnable e)) h = tt
in_function-Ensures P i (err (LowerError.function_failed j e)) h = tt

lower_functions-IsExecutable :
    (rounds i : ℕ) (unit : ModuleIr) (heap : Heap) (functions : List ObjFunction)
    → All IsExecutable functions
    → Ensures
        (λ r. All IsExecutable r.1 × (length r.1 ≡ length functions + rounds))
        (lower_functions rounds i unit heap functions)
unfolding lower_functions
lower_functions-IsExecutable zero i unit heap functions h = (h, omega arith)
lower_functions-IsExecutable (suc rounds) i unit heap functions h =
    Ensures-bind (λ r. IsExecutable r.1) _ (in_function i (lower_function_to_chunk unit i heap)) _
      (in_function-Ensures (λ r. IsExecutable r.1) i (lower_function_to_chunk unit i heap)
        (lower_function_to_chunk-IsExecutable unit i heap))
      λ (next, function) good.
        more (lower_functions rounds (i + 1) unit next (functions ++ function ∷ []))
          (lower_functions-IsExecutable rounds (i + 1) unit next (functions ++ function ∷ [])
            (All-append IsExecutable functions (function ∷ []) h (good, tt)))
          (omega (arith, length-append functions (function ∷ [])))
  where
    more :
        {n k : ℕ} (m : Result (Heap × List ObjFunction))
        → Ensures (λ r. All IsExecutable r.1 × (length r.1 ≡ n)) m
        → n ≡ k
        → Ensures (λ r. All IsExecutable r.1 × (length r.1 ≡ k)) m
    more (ok r) p e = (p.0, p.1 ∙ e)
    more (err f) p e = tt

-- A module that is lowered gives one function for each of its function records, and the code of each is
-- cut into instructions that run, with a line and a column for every byte.
pub lower_module_to_chunk-IsExecutable :
    (unit : ModuleIr) (heap next : Heap) (functions : List ObjFunction)
    → lower_module_to_chunk unit heap ≡ ok (next, functions)
    → All IsExecutable functions × (length functions ≡ length unit.funcs)
unfolding lower_module_to_chunk
lower_module_to_chunk-IsExecutable unit heap next functions e =
    let r =
      Ensures-ok (λ r. All IsExecutable r.1 × (length r.1 ≡ 0 + length unit.funcs))
        (lower_functions (length unit.funcs) 0 unit heap []) (next, functions) e
        (lower_functions-IsExecutable (length unit.funcs) 0 unit heap [] tt) in
    (r.0, omega (arith, r.1))
