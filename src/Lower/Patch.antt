-- ===== src/Lower/Patch.antt =====
-- The loop of `lowerOneFunction` over the pending patches (src/l0_core/ir/lower_to_chunk.cpp).
use niki.Prelude.{
  ℕ, set, ◌+◌, ◌-◌, ◌<◌, ◌≡◌, ◌≢◌, sym, ap, ◌∙◌, inl, inr, Bool, true, false, List, none, some,
  arith, ◌==◌, ltb, length, length-set, get_elem?, get_elem?-set_self, get_elem?-set_ne,
  get_elem?-some-lt, Bool-cases,
}
use niki.Linker.Link.{Chunk}
use niki.Semantic.Namespace.{module_ids}
use niki.Bytecode.Stream.{patch_u16, try_read_short}
use niki.Bytecode.Operand.{HasPlaces, patch_u16_lem}
use niki.Opcode.Code.{Opcode, to_int, of_int}
use niki.Opcode.Capability.{is_runnable}
use niki.Opcode.Laws.{of_int-to_int}
use niki.Lower.Writer.{ok, err, undefined, PendingJumpPatch}
use niki.Lower.Function.{store_byte, write_patch}
use niki.Lower.Layout.{operand_bytes, IsStart, IsLayout, IsSite}
use niki.Lower.Emit.{Ensures}

pub to_int_injective : (a b : Opcode) → to_int a ≡ to_int b → a ≡ b
to_int_injective a b e =
    let p : some a ≡ some b = sym (of_int-to_int a) ∙ ap of_int e ∙ of_int-to_int b in cc

-- A chunk whose jump at `site`, with `back` bytes up to its offset, was set to an opcode and an offset.
pub record IsRewritten {V : Type 0} (chunk : Chunk V) (site back : ℕ) (op : Opcode) (offset : ℕ)
    (next : Chunk V) : Type 0 where
  pub size : length next.code ≡ length chunk.code
  pub opcode : get_elem? next.code site ≡ some (to_int op)
  pub operand : try_read_short next.code (site + back) ≡ some (offset, site + back + 2)
  pub others :
      (j : ℕ)
      → j ≢ site
      → j ≢ site + back
      → j ≢ site + back + 1
      → get_elem? next.code j ≡ get_elem? chunk.code j
  pub rest : next ≡ record chunk { code = next.code }

-- The writes of a patch on a jump.
pub write_patch-IsRewritten :
    {V : Type 0} (site back : ℕ) (patch : PendingJumpPatch) (op : Opcode) (offset : ℕ)
    (chunk : Chunk V)
    → patch.opcode_off_back ≡ back
    → patch.offset_u16_code_index ≡ site + back
    → 0 < back
    → site + back + 1 < length chunk.code
    → Ensures (IsRewritten chunk site back op offset) (write_patch patch op offset chunk)
unfolding write_patch store_byte
write_patch-IsRewritten site back patch op offset chunk at_back at_offset positive inside =
    elim (Bool-cases (ltb 65535 offset)) [
      | inl large ↦ rw large tt
      | inr small ↦
          let stored : Chunk _ = record chunk { code = set chunk.code site (to_int op) } in
          let same : patch.offset_u16_code_index - patch.opcode_off_back ≡ site = omega arith in
          let fits : ltb site (length chunk.code) ≡ true = ground arith in
          let (next, e, reads, size, others, rest) =
            patch_u16_lem (site + back) offset stored (ground arith)
              (omega (arith, length-set chunk.code site (to_int op))) in
          let set_all : IsRewritten chunk site back op offset next = record {
            size = size ∙ length-set chunk.code site (to_int op);
            opcode =
                others site (λ q. omega arith) (λ q. omega arith)
                ∙ get_elem?-set_self chunk.code site (to_int op) (omega arith);
            operand = reads;
            others =
                λ j p q r. others j q r ∙ get_elem?-set_ne chunk.code (to_int op) (λ e. p (sym e));
            rest = rest;
          } in
          let patched : Ensures (IsRewritten chunk site back op offset)
              (elim (patch_u16 (site + back) offset stored) [
                | none ↦ err undefined
                | some patched ↦ ok patched
              ]) =
            rw e set_all in
          rw (small, same, fits, at_offset) patched
    ]

-- The instruction of a site is the one that starts there.
pub start-width :
    (starts : ℕ → Bool) (code : List ℕ) (patch : PendingJumpPatch) (i : IsSite starts code patch)
    (k : IsStart starts code i.site)
    → operand_bytes k.op ≡ patch.opcode_off_back + 1
start-width starts code patch i k =
    let e : some (to_int k.op) ≡ some (to_int i.op) = sym k.here ∙ i.here in
    let same : k.op ≡ i.op = to_int_injective k.op i.op (cc) in ap operand_bytes same ∙ i.width

module _ {V : Type 0} (starts : ℕ → Bool) (chunk next : Chunk V) (patch : PendingJumpPatch)
    (op : Opcode) (offset : ℕ) (l : IsLayout starts chunk.code) (i : IsSite starts chunk.code patch)
    (runs : is_runnable op ≡ true) (width : operand_bytes op ≡ patch.opcode_off_back + 1)
    (s : IsRewritten chunk i.site patch.opcode_off_back op offset next) where
  pub site_start : IsStart starts chunk.code i.site
  site_start = l.each i.site i.start (get_elem?-some-lt chunk.code i.site (to_int i.op) i.here)

  -- Another start is not a byte of the operand.
  pub elsewhere :
      (j : ℕ) → starts j ≡ true → j ≢ i.site → get_elem? next.code j ≡ get_elem? chunk.code j
  elsewhere j h apart =
      let k = site_start in
      let w = start-width starts chunk.code patch i k in
      let positive : 0 < patch.opcode_off_back = ground (arith, i.kind) in
      s.others j apart (λ e. let f : starts j ≡ false = k.apart j (omega arith) (omega arith) in cc)
        (λ e. let f : starts j ≡ false = k.apart j (omega arith) (omega arith) in cc)

  pub IsRewritten-IsLayout : IsLayout starts next.code
  IsRewritten-IsLayout =
      let size : length next.code ≡ length chunk.code = s.size in
      record {
        first = l.first;
        last = rw size l.last;
        within = λ j h. rw size (l.within j h);
        each = λ j h inside. elim (Bool-cases (j == i.site)) [
          | inl same ↦
              let e : j ≡ i.site = ground arith in
              let k = site_start in
              let w = start-width starts chunk.code patch i k in
              let equal : operand_bytes k.op ≡ operand_bytes op = omega arith in
              rw e (record {
                op = op;
                here = s.opcode;
                runs = runs;
                next = rw (← equal) k.next;
                apart = λ m p q. k.apart m p (omega arith);
              })
          | inr other ↦
              let k = l.each j h (omega arith) in
              record {
                op = k.op;
                here = elsewhere j h (λ e. ground arith) ∙ k.here;
                runs = k.runs;
                next = k.next;
                apart = k.apart;
              }
        ];
      }

  pub IsRewritten-IsSite :
      (p : PendingJumpPatch) → IsSite starts chunk.code p → IsSite starts next.code p
  IsRewritten-IsSite p q = elim (Bool-cases (q.site == i.site)) [
    | inl same ↦
        let e : q.site ≡ i.site = ground arith in
        let there : some (to_int q.op) ≡ some (to_int i.op) =
          sym q.here ∙ ap (get_elem? chunk.code) e ∙ i.here in
        let equal : q.op ≡ i.op = to_int_injective q.op i.op (cc) in
        record {
          site = q.site;
          op = op;
          offset_at = q.offset_at;
          base_at = q.base_at;
          kind = q.kind;
          start = q.start;
          inside = omega (arith, s.size, q.inside);
          here = rw e s.opcode;
          width = omega (arith, width, i.width, q.width, ap operand_bytes equal);
        }
    | inr other ↦ record {
      site = q.site;
      op = q.op;
      offset_at = q.offset_at;
      base_at = q.base_at;
      kind = q.kind;
      start = q.start;
      inside = omega (arith, s.size, q.inside);
      here = elsewhere q.site q.start (λ e. ground arith) ∙ q.here;
      width = q.width;
    }
  ]

  pub IsRewritten-HasPlaces : HasPlaces chunk → HasPlaces next
  IsRewritten-HasPlaces h = record {
    lines = ap (λ c. length c.lines) s.rest ∙ h.lines ∙ sym s.size;
    columns = ap (λ c. length c.columns) s.rest ∙ h.columns ∙ sym s.size;
  }
