-- ===== src/Diagnostic/Bag.antt =====
-- The bag of diagnostics (include/niki/l0_core/diagnostic/diagnostic.hpp,
-- src/l0_core/diagnostic/diagnostic.cpp).
use Prim.Native.String.{String}
use niki.Prelude.{ℕ, Bool, true, false, ◌&&◌, ◌||◌, List, [], ◌∷◌, ◌++◌, ltb, if◌then◌else◌}
use niki.Pool.Strings.{Bytes}
use niki.Diagnostic.Code.{
  ScannerCode, ParserCode, SemanticCode, IrCode, LinkerCode, LauncherCode, DriverCode, scanner_code,
  parser_code, semantic_code, ir_code, linker_code, launcher_code, driver_code,
}

-- `enum class DiagnosticStage`.
pub data DiagnosticStage : Type 0 where
  scanner parser semantic ir linker launcher driver unknown : DiagnosticStage

-- `enum class DiagnosticSeverity`.
pub data DiagnosticSeverity : Type 0 where
  error warning info : DiagnosticSeverity

-- `struct SourceSpan`.
pub record SourceSpan : Type 0 where
  pub file : Bytes
  pub line : ℕ
  pub column : ℕ
  pub length : ℕ

-- `struct Diagnostic`.
pub record Diagnostic : Type 0 where
  pub stage : DiagnosticStage
  pub severity : DiagnosticSeverity
  pub code : String
  pub message : String
  pub span : SourceSpan
  pub notes : List String

-- `struct ScannerEvent` and the other events, which differ in the type of their code.
pub record EventOf (Code : Type 0) : Type 0 where
  pub severity : DiagnosticSeverity
  pub code : Code
  pub message : String
  pub span : SourceSpan

-- `using Event`.
pub data Event : Type 0 where
  scanner_event : EventOf ScannerCode → Event
  parser_event : EventOf ParserCode → Event
  semantic_event : EventOf SemanticCode → Event
  ir_event : EventOf IrCode → Event
  linker_event : EventOf LinkerCode → Event
  launcher_event : EventOf LauncherCode → Event
  driver_event : EventOf DriverCode → Event

-- `"<unknown>"`.
abbrev unknown_file : Bytes
unknown_file = 60 ∷ 117 ∷ 110 ∷ 107 ∷ 110 ∷ 111 ∷ 119 ∷ 110 ∷ 62 ∷ []

unfoldable pub is_empty : {A : Type 0} → List A → Bool
is_empty [] = true
is_empty (x ∷ xs) = false

-- `normalizeSpan`.
unfoldable pub normalize_span : SourceSpan → SourceSpan
normalize_span span =
    if (ltb 0 span.line || ltb 0 span.column) && is_empty span.file
    then record span { file = unknown_file }
    else span

-- The diagnostic that `emit` makes of an event.
unfoldable pub diagnostic_of :
    {Code : Type 0} → DiagnosticStage → (Code → String) → EventOf Code → Diagnostic
diagnostic_of stage code_of event = record {
  stage = stage;
  severity = event.severity;
  code = code_of event.code;
  message = event.message;
  span = normalize_span event.span;
  notes = [];
}

-- `class DiagnosticBag`.
abbrev pub DiagnosticBag : Type 0
DiagnosticBag = List Diagnostic

-- `DiagnosticBag::add`.
unfoldable add_diagnostic : Diagnostic → DiagnosticBag → DiagnosticBag
add_diagnostic diagnostic bag = bag ++ diagnostic ∷ []

-- `DiagnosticBag::emit`.
unfoldable pub emit_event : Event → DiagnosticBag → DiagnosticBag
emit_event (scanner_event event) bag = bag ++ diagnostic_of scanner scanner_code event ∷ []
emit_event (parser_event event) bag = bag ++ diagnostic_of parser parser_code event ∷ []
emit_event (semantic_event event) bag = bag ++ diagnostic_of semantic semantic_code event ∷ []
emit_event (ir_event event) bag = bag ++ diagnostic_of ir ir_code event ∷ []
emit_event (linker_event event) bag = bag ++ diagnostic_of linker linker_code event ∷ []
emit_event (launcher_event event) bag = bag ++ diagnostic_of launcher launcher_code event ∷ []
emit_event (driver_event event) bag = bag ++ diagnostic_of driver driver_code event ∷ []

-- `DiagnosticBag::merge`.
unfoldable pub merge : DiagnosticBag → DiagnosticBag → DiagnosticBag
merge other bag = bag ++ other

-- The test of `hasErrors`.
unfoldable pub is_error : DiagnosticSeverity → Bool
is_error error = true
is_error warning = false
is_error info = false

-- `DiagnosticBag::hasErrors`.
unfoldable pub has_errors : DiagnosticBag → Bool
has_errors [] = false
has_errors (diagnostic ∷ bag) = is_error diagnostic.severity || has_errors bag

-- `DiagnosticBag::takeAll`: the diagnostics, and the bag that is left.
unfoldable take_all : DiagnosticBag → DiagnosticBag × DiagnosticBag
take_all bag = (bag, [])

-- `toString`.
unfoldable stage_name : DiagnosticStage → String
stage_name scanner = "scanner"
stage_name parser = "parser"
stage_name semantic = "semantic"
stage_name ir = "ir"
stage_name linker = "linker"
stage_name launcher = "launcher"
stage_name driver = "driver"
stage_name unknown = "unknown"

-- `toString`.
unfoldable severity_name : DiagnosticSeverity → String
severity_name error = "error"
severity_name warning = "warning"
severity_name info = "info"
