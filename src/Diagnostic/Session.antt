-- ===== src/Diagnostic/Session.antt =====
-- What a bag of diagnostics holds after a session of its operations
-- (src/l0_core/diagnostic/diagnostic.cpp).
use niki.Prelude.{
  ◌<◌, ◌≡◌, refl, sym, ap, ◌∙◌, ◌⊎◌, Bool, false, ◌||◌, ◌&&◌, List, [], ◌∷◌, ◌++◌, arith, All,
  All-append, Bool-cases, inl, inr, ltb,
}
use Prim.Native.String.{String}
use mathlib.Core.Path.{subst}
use mathlib.Core.List.{append_assoc, append-nil}
use niki.Diagnostic.Bag.{
  DiagnosticStage, Diagnostic, SourceSpan, Event, EventOf, DiagnosticSeverity, DiagnosticBag,
  scanner_event, parser_event, semantic_event, ir_event, linker_event, launcher_event, driver_event,
  is_empty, normalize_span, diagnostic_of, emit_event, merge, is_error, has_errors,
}

-- A diagnostic with a place names a file.
abbrev pub IsPlaced : Diagnostic → Type 0
IsPlaced d = (0 < d.span.line) ⊎ (0 < d.span.column) → is_empty d.span.file ≡ false

-- A call that adds to a bag.
pub data Call : Type 0 where
  emit_call : Event → Call
  merge_call : DiagnosticBag → Call

unfoldable pub severity_of : Event → DiagnosticSeverity
severity_of (scanner_event event) = event.severity
severity_of (parser_event event) = event.severity
severity_of (semantic_event event) = event.severity
severity_of (ir_event event) = event.severity
severity_of (linker_event event) = event.severity
severity_of (launcher_event event) = event.severity
severity_of (driver_event event) = event.severity

-- Whether a call adds an error.
unfoldable pub brings_error : Call → Bool
brings_error (emit_call event) = is_error (severity_of event)
brings_error (merge_call other) = has_errors other

unfoldable pub brings_errors : List Call → Bool
brings_errors [] = false
brings_errors (c ∷ calls) = brings_error c || brings_errors calls

-- The bags that a session merges are placed.
unfoldable pub IsPlacedCall : Call → Type 0
IsPlacedCall (emit_call event) = Unit
IsPlacedCall (merge_call other) = All IsPlaced other

unfoldable pub perform : Call → DiagnosticBag → DiagnosticBag
perform (emit_call event) bag = emit_event event bag
perform (merge_call other) bag = merge other bag

unfoldable pub session : List Call → DiagnosticBag → DiagnosticBag
session [] bag = bag
session (c ∷ calls) bag = session calls (perform c bag)

has_errors-append :
    (xs ys : DiagnosticBag) → has_errors (xs ++ ys) ≡ (has_errors xs || has_errors ys)
unfolding has_errors
has_errors-append [] ys = refl
has_errors-append (x ∷ xs) ys = ground (arith, has_errors-append xs ys)

placed_again :
    (span : SourceSpan)
    → (0 < (normalize_span span).line) ⊎ (0 < (normalize_span span).column)
    → ((ltb 0 span.line || ltb 0 span.column) && is_empty span.file) ≡ false
    → (0 < span.line) ⊎ (0 < span.column)
unfolding normalize_span
placed_again span place kept =
    let same : normalize_span span ≡ span = rw (normalize_span, kept) refl in
    subst (λ s. (0 < s.line) ⊎ (0 < s.column)) same place

normalize_span-IsPlaced :
    (span : SourceSpan)
    → (0 < (normalize_span span).line) ⊎ (0 < (normalize_span span).column)
    → is_empty (normalize_span span).file ≡ false
unfolding normalize_span is_empty
normalize_span-IsPlaced span place =
    let needs = (ltb 0 span.line || ltb 0 span.column) && is_empty span.file in
    elim (Bool-cases needs) [
      | inl replaced ↦ rw (normalize_span, replaced) refl
      | inr kept ↦
          let p : (0 < span.line) ⊎ (0 < span.column) = placed_again span place kept in
          rw (normalize_span, kept) (ground (arith, kept, p))
    ]

-- What a call adds to a bag.
record Added (c : Call) (bag : DiagnosticBag) : Type 0 where
  added : DiagnosticBag
  same : perform c bag ≡ bag ++ added
  placed : All IsPlaced added
  errors : has_errors added ≡ brings_error c

has_errors-one : (d : Diagnostic) → has_errors (d ∷ []) ≡ is_error d.severity
unfolding has_errors
has_errors-one d = ground arith

one-IsPlaced :
    {Code : Type 0} (stage : DiagnosticStage) (code_of : Code → String) (event : EventOf Code)
    → All IsPlaced (diagnostic_of stage code_of event ∷ [])
unfolding diagnostic_of
one-IsPlaced stage code_of event = (normalize_span-IsPlaced event.span, tt)

one-Added :
    {Code : Type 0} (stage : DiagnosticStage) (code_of : Code → String) (event : EventOf Code)
    (whole : Event) (bag : DiagnosticBag)
    → emit_event whole bag ≡ bag ++ diagnostic_of stage code_of event ∷ []
    → severity_of whole ≡ event.severity
    → Added (emit_call whole) bag
unfolding perform brings_error diagnostic_of
one-Added stage code_of event whole bag same severity = record {
  added = diagnostic_of stage code_of event ∷ [];
  same = same;
  placed = one-IsPlaced stage code_of event;
  errors = has_errors-one (diagnostic_of stage code_of event) ∙ ap is_error (sym severity);
}

perform-Added : (c : Call) (bag : DiagnosticBag) → IsPlacedCall c → Added c bag
unfolding perform brings_error merge emit_event severity_of IsPlacedCall
perform-Added (merge_call other) bag placed = record {
  added = other;
  same = refl;
  placed = placed;
  errors = refl;
}
perform-Added (emit_call (scanner_event event)) bag placed = one-Added _ _ event _ bag refl refl
perform-Added (emit_call (parser_event event)) bag placed = one-Added _ _ event _ bag refl refl
perform-Added (emit_call (semantic_event event)) bag placed = one-Added _ _ event _ bag refl refl
perform-Added (emit_call (ir_event event)) bag placed = one-Added _ _ event _ bag refl refl
perform-Added (emit_call (linker_event event)) bag placed = one-Added _ _ event _ bag refl refl
perform-Added (emit_call (launcher_event event)) bag placed = one-Added _ _ event _ bag refl refl
perform-Added (emit_call (driver_event event)) bag placed = one-Added _ _ event _ bag refl refl

-- What a session leaves: the bag with diagnostics behind it, which all have a file where they have a
-- place, and which have an error exactly if a call brought one.
pub record IsCollected (calls : List Call) (bag last : DiagnosticBag) : Type 0 where
  pub added : DiagnosticBag
  pub same : last ≡ bag ++ added
  pub placed : All IsPlaced added
  pub errors : has_errors last ≡ (has_errors bag || brings_errors calls)

-- After any session of `emit` and `merge` calls, whose merged bags name a file for every diagnostic with a
-- place, the bag has its old diagnostics in front, every new diagnostic with a line or a column names a
-- file, and it has an error exactly if it had one or a call brought one.
pub session-IsCollected :
    (calls : List Call) (bag : DiagnosticBag)
    → All IsPlacedCall calls
    → IsCollected calls bag (session calls bag)
unfolding session brings_errors
session-IsCollected [] bag placed = record {
  added = [];
  same = sym (append-nil bag);
  placed = tt;
  errors = ground arith;
}
session-IsCollected (c ∷ calls) bag placed =
    let a = perform-Added c bag placed.0 in
    let r = session-IsCollected calls (perform c bag) placed.1 in
    let first : has_errors (perform c bag) ≡ (has_errors bag || brings_error c) =
      ap has_errors a.same
      ∙ has_errors-append bag a.added
      ∙ ap (λ b. has_errors bag || b) a.errors in
    record {
      added = a.added ++ r.added;
      same = r.same ∙ ap (λ l. l ++ r.added) a.same ∙ append_assoc bag a.added r.added;
      placed = All-append IsPlaced a.added r.added a.placed r.placed;
      errors = ground (arith, r.errors, first);
    }
