-- ===== src/Diagnostic/Code.antt =====
-- The diagnostic codes (include/niki/l0_core/diagnostic/diagnostic.hpp,
-- src/l0_core/diagnostic/diagnostic.cpp).
use Prim.Native.String.{String}

-- `enum class ScannerCode`.
pub data ScannerCode : Type 0 where
  invalid_token : ScannerCode

-- `codeOf`.
unfoldable pub scanner_code : ScannerCode → String
scanner_code ScannerCode.invalid_token = "SCANNER_INVALID_TOKEN"

-- `enum class ParserCode`.
pub data ParserCode : Type 0 where
  generic_error expected_expression expected_statement expected_semicolon expected_identifier
        unexpected_token :
      ParserCode

-- `codeOf`.
unfoldable pub parser_code : ParserCode → String
parser_code ParserCode.generic_error = "PARSER_ERROR"
parser_code ParserCode.expected_expression = "PARSER_EXPECTED_EXPRESSION"
parser_code ParserCode.expected_statement = "PARSER_EXPECTED_STATEMENT"
parser_code ParserCode.expected_semicolon = "PARSER_EXPECTED_SEMICOLON"
parser_code ParserCode.expected_identifier = "PARSER_EXPECTED_IDENTIFIER"
parser_code ParserCode.unexpected_token = "PARSER_UNEXPECTED_TOKEN"

-- `enum class SemanticCode`.
pub data SemanticCode : Type 0 where
  generic_error type_mismatch undeclared_identifier duplicate_declaration argument_count_mismatch
        return_type_mismatch missing_type_annotation not_a_bool_context invalid_unary_operand
        assignment_to_const use_of_moved_value :
      SemanticCode

-- `codeOf`.
unfoldable pub semantic_code : SemanticCode → String
semantic_code SemanticCode.generic_error = "SEMANTIC_ERROR"
semantic_code SemanticCode.type_mismatch = "SEMANTIC_TYPE_MISMATCH"
semantic_code SemanticCode.undeclared_identifier = "SEMANTIC_UNDECLARED_IDENTIFIER"
semantic_code SemanticCode.duplicate_declaration = "SEMANTIC_DUPLICATE_DECLARATION"
semantic_code SemanticCode.argument_count_mismatch = "SEMANTIC_ARGUMENT_COUNT_MISMATCH"
semantic_code SemanticCode.return_type_mismatch = "SEMANTIC_RETURN_TYPE_MISMATCH"
semantic_code SemanticCode.missing_type_annotation = "SEMANTIC_MISSING_TYPE_ANNOTATION"
semantic_code SemanticCode.not_a_bool_context = "SEMANTIC_NOT_A_BOOL_CONTEXT"
semantic_code SemanticCode.invalid_unary_operand = "SEMANTIC_INVALID_UNARY_OPERAND"
semantic_code SemanticCode.assignment_to_const = "SEMANTIC_ASSIGNMENT_TO_CONST"
semantic_code SemanticCode.use_of_moved_value = "SEMANTIC_USE_OF_MOVED_VALUE"

-- `enum class IRCode`.
pub data IrCode : Type 0 where
  invalid_root verify_failed lower_failed generic_error : IrCode

-- `codeOf`.
unfoldable pub ir_code : IrCode → String
ir_code IrCode.invalid_root = "IR_INVALID_ROOT"
ir_code IrCode.verify_failed = "IR_VERIFY_FAILED"
ir_code IrCode.lower_failed = "IR_LOWER_FAILED"
ir_code IrCode.generic_error = "IR_ERROR"

-- `enum class LinkerCode`.
pub data LinkerCode : Type 0 where
  duplicate_symbol multiple_entry entry_not_found : LinkerCode

-- `codeOf`.
unfoldable pub linker_code : LinkerCode → String
linker_code LinkerCode.duplicate_symbol = "LINKER_DUPLICATE_SYMBOL"
linker_code LinkerCode.multiple_entry = "LINKER_MULTIPLE_ENTRY"
linker_code LinkerCode.entry_not_found = "LINKER_ENTRY_NOT_FOUND"

-- `enum class LauncherCode`.
pub data LauncherCode : Type 0 where
  init_runtime_error entry_lookup_failed entry_runtime_error : LauncherCode

-- `codeOf`.
unfoldable pub launcher_code : LauncherCode → String
launcher_code LauncherCode.init_runtime_error = "LAUNCHER_INIT_RUNTIME_ERROR"
launcher_code LauncherCode.entry_lookup_failed = "LAUNCHER_ENTRY_LOOKUP_FAILED"
launcher_code LauncherCode.entry_runtime_error = "LAUNCHER_ENTRY_RUNTIME_ERROR"

-- `enum class DriverCode`.
pub data DriverCode : Type 0 where
  io_error no_input : DriverCode

-- `codeOf`.
unfoldable pub driver_code : DriverCode → String
driver_code DriverCode.io_error = "DRIVER_IO_ERROR"
driver_code DriverCode.no_input = "DRIVER_NO_INPUT"
