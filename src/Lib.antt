-- ===== src/Lib.antt =====
-- Verification of the compiler core of niki: the stages that turn a source text into linked bytecode
-- modules.
--
-- A source text passes the scanner, the parser, the type checker, the IR builder, the IR verifier and
-- the lowering to bytecode; the linker joins the chunks of all modules and the launcher runs them on
-- the virtual machine. Texts and modules are known everywhere by the ids of interning tables.
--
-- The files:
--   Prelude.antt   library names passed on, Boolean tests, lists indexed by native numbers.
--   Scanner.antt   src/l0_core/syntax/scanner.cpp. The state is the record `Scanner`; every member
--                  function is a function from the state to the new state and its result
--                  (`advance`, `peek`, `match`, `skipWhitespace`: `skip_whitespace`, `scanToken`:
--                  `scan_token`, `checkIdentifierType`: `check_identifier_type`, and so on).
--                  `scan_tokens` is the loop of src/meta/precompile/parse_stage.cpp.
--   Pool.antt      the interning tables: src/l0_core/syntax/string_interner.cpp and
--                  src/l0_core/semantic/module_id.cpp (`ensure`, `find`, `get`, `find_path`) and
--                  the linear search of src/l0_core/ir/module_ir.cpp and
--                  src/l0_core/semantic/type_arena.cpp (`intern`).
--   Semantic.antt  include/niki/l0_core/semantic/nktype.hpp (type handles),
--                  src/l0_core/semantic/type_arena.cpp (pools of structs and signatures) and
--                  src/l0_core/semantic/module_namespace.cpp (symbols by module and name).
--   Ir.antt        include/niki/l0_core/ir/module_ir.hpp, src/l0_core/ir/module_ir.cpp (the
--                  instruction table) and src/l0_core/ir/verify.cpp (`verify`).
--   Domain.antt    src/l1_domain/validator.cpp, the checks that a hook adds to the verifier
--                  (`append_domain_checks`).
--   Linker.antt    src/l0_core/linker/linker_facade.cpp (`link`).
--   Bytecode.antt  the writer of src/l0_core/ir/lower_to_chunk.cpp (`BytecodeWriter`) and the reads of
--                  operands of src/l0_core/vm/vm.cpp (`try_read_byte`, `try_read_short`).
--   Opcode.antt    include/niki/l0_core/vm/opcode.hpp (`Opcode`, `to_int`, the class tests) and
--                  include/niki/l0_core/vm/opcode_capobility.hpp (`is_runnable`).
--   Object.antt    include/niki/l0_core/vm/value.hpp and include/niki/l0_core/vm/object.hpp: values, heap
--                  objects, arrays and maps (`push_array`, `map_set`, `map_get`).
--   Vm.antt        src/l0_core/vm/vm.cpp: the state `Vm`, one function for every instruction,
--                  `execute` for the switch, `step` for a round of the loop, `run`, `execute_chunk` and
--                  `execute_function`; and src/l0_core/runtime/launcher.cpp (`launch_program`).
--   Lower.antt     src/l0_core/ir/lower_to_chunk.cpp: `lower_kind` for the switch over the instructions,
--                  `lower_blocks`, `apply_patches`, `lower_one_function`, `lower_module_to_chunk`.
--   Diagnostic.antt
--                  src/l0_core/diagnostic/diagnostic.cpp: the codes, the events and the bag
--                  (`emit_event`, `merge`, `has_errors`).
--
-- Conventions. A byte, an offset, an id and a signed payload are natural numbers; a payload is its bit
-- pattern, and the wrap-around of a 16-bit or 32-bit result is written out as a remainder. The cursor of the
-- scanner wraps around at 2^32; its line counter is an `int`, whose overflow C++ leaves undefined and which
-- no source below 2^31 lines reaches. A hash map
-- is an association list, since the program looks keys up and never depends on the order; where the
-- program iterates over a hash map (the export table of a module) its order is that of a list. A read
-- outside of a table in the verifier, or a patch outside of the code, is the value `none`. A chunk's
-- constants are copied and never read by the linker: their type is a parameter.
--
-- The machine. A pointer is an index of the heap, which never gives an address out again; a 64-bit
-- integer or float is its bit pattern. An instruction is a state-passing computation that ends with a
-- state, with the result of the program, with the message of a runtime error, or as undefined where C++
-- leaves the access, the overflow or the use of a freed object undefined. The operations on floats and the
-- numbers of `std::rand` are the parameter `Host`. A map compares keys in the order of its slots, so a map
-- that holds a freed key is undefined as a whole.
--
-- Loops and fuel. The loops of the scanner run on the number of bytes left, which each round lowers or
-- which the loop leaves; the loop over `scanToken` runs on fuel, and one unit for each byte left and
-- one more is enough. The loop of the machine runs on fuel, one unit for each instruction, since a
-- program need not end; a run whose fuel is spent gives the state that it reached. All other loops are counted or run over a list.
--
-- Not modelled: the parser, the type checker and the IR builder; of the machine the printing of results
-- and the call stack in the text of a runtime error; the rendering of diagnostics, logging, file access
-- and the driver. The layers of the scheduler, planner, topology and replay have no code.
pub mod Prelude
pub mod Scanner
pub mod Pool
pub mod Semantic
pub mod Ir
pub mod Linker
pub mod Domain
pub mod Bytecode
pub mod Opcode
pub mod Object
pub mod Vm
pub mod Lower
pub mod Diagnostic
