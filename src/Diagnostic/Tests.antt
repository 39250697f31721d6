-- ===== src/Diagnostic/Tests.antt =====
-- A session of a bag of diagnostics, and the theorem at it.
use niki.Prelude.{[], ◌∷◌, ◌≡◌, refl, true}
use niki.Diagnostic.Code.{ParserCode}
use niki.Diagnostic.Bag.{
  DiagnosticSeverity, Event, parser_event, has_errors, emit_event, is_error, diagnostic_of,
}
use niki.Diagnostic.Session.{
  emit_call, merge_call, session, IsPlacedCall, IsCollected, session-IsCollected,
}

-- A token at line 3 of a text without a name.
abbrev missing_semicolon : Event
missing_semicolon = parser_event (record {
  severity = DiagnosticSeverity.error;
  code = ParserCode.expected_semicolon;
  message = "Expected ';'.";
  span = record { file = []; line = 3; column = 7; length = 1 };
})

reported : has_errors (emit_event missing_semicolon []) ≡ true
unfolding has_errors emit_event is_error diagnostic_of
reported = refl

session-IsCollected_example :
    IsCollected
      (emit_call missing_semicolon ∷ merge_call [] ∷ [])
      []
      (session (emit_call missing_semicolon ∷ merge_call [] ∷ []) [])
unfolding IsPlacedCall
session-IsCollected_example =
    session-IsCollected (emit_call missing_semicolon ∷ merge_call [] ∷ []) [] (tt, (tt, tt))
