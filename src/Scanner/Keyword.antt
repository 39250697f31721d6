-- ===== src/Scanner/Keyword.antt =====
-- Keyword recognition: `checkKeyword` and the decision tree of `checkIdentifierType`
-- (src/l0_core/syntax/scanner.cpp).
pub mod Switch
pub mod Eof
use Prim.Native.Char.{code}
use Prim.Native.String.{String}
use niki.Prelude.{
  ℕ, ◌+◌, ◌-◌, Bool, true, false, ◌&&◌, List, [], ◌∷◌, bytes_eq, ltb, ◌==◌, if◌then◌else◌, take,
  drop,
}
use niki.Scanner.Token.{
  TokenType, token_eof, identifier, kw_nil, kw_true, kw_false, kw_if, kw_else, kw_loop, kw_match,
  kw_case, kw_break, kw_continue, kw_return, kw_for, kw_var, kw_func, kw_const, kw_int, kw_float,
  kw_string, kw_bool, kw_void, kw_any, kw_type, kw_interface, kw_impl, kw_flow, kw_await, kw_nock,
  kw_async, kw_import, kw_export, kw_from, kw_as, kw_system, kw_component, kw_tag, kw_taggroup,
  kw_to, kw_exclusive, kw_set, kw_unset, kw_kits, kw_with, kw_read, kw_write, kw_module, kw_struct,
  kw_enum, kw_attach, kw_detach,
}
use niki.Scanner.Cursor.{Scanner, source_at}

-- `token.type == TOKEN_EOF`.
abbrev pub is_eof : TokenType → Bool
is_eof token_eof = true
is_eof _ = false

-- The bytes of an ASCII text.
abbrev pub codes : String → List ℕ
codes String.[] = []
codes (String.◌∷◌ c s) = code c ∷ codes s

-- `source[start + i]`.
abbrev pub char_at : Scanner → ℕ → ℕ
char_at s i = source_at s (s.start + i)

-- The length of the lexeme, `current - start`.
abbrev pub size : Scanner → ℕ
size s = s.current - s.start

-- `checkKeyword`.
unfoldable pub check_keyword : Scanner → ℕ → ℕ → List ℕ → TokenType → TokenType
check_keyword s start_offset len rest type =
    if size s == start_offset + len
      && bytes_eq (take len (drop (s.start + start_offset) s.source)) rest
    then type
    else identifier

-- The branches of `checkIdentifierType`, by the first character of the lexeme.
unfoldable pub starts_a : Scanner → TokenType
starts_a s =
    if size s == 2
    then check_keyword s 1 1 (codes "s") kw_as
    else if size s == 3
    then check_keyword s 1 2 (codes "ny") kw_any
    else if size s == 5 && char_at s 1 == b'w'
    then check_keyword s 2 3 (codes "ait") kw_await
    else if size s == 5 && char_at s 1 == b's'
    then check_keyword s 2 3 (codes "ync") kw_async
    else if size s == 6 && char_at s 1 == b't'
    then check_keyword s 2 4 (codes "tach") kw_attach
    else identifier

unfoldable pub starts_b : Scanner → TokenType
starts_b s =
    if ltb 1 (size s)
    then if char_at s 1 == b'o'
      then check_keyword s 2 2 (codes "ol") kw_bool
      else if char_at s 1 == b'r'
      then check_keyword s 2 3 (codes "eak") kw_break
      else identifier
    else identifier

unfoldable pub starts_con : Scanner → TokenType
starts_con s =
    if ltb 3 (size s) && char_at s 3 == b's'
    then check_keyword s 4 1 (codes "t") kw_const
    else if (ltb 3 (size s) && char_at s 3 == b't') && size s == 8
    then check_keyword s 4 4 (codes "inue") kw_continue
    else identifier

unfoldable pub starts_c : Scanner → TokenType
unfolding starts_con
starts_c s =
    if ltb 1 (size s)
    then if char_at s 1 == b'a'
      then if size s == 4 then check_keyword s 2 2 (codes "se") kw_case else identifier
      else if char_at s 1 == b'o' && ltb 2 (size s)
      then if char_at s 2 == b'n'
        then starts_con s
        else if char_at s 2 == b'm'
        then check_keyword s 3 6 (codes "ponent") kw_component
        else identifier
      else identifier
    else identifier

unfoldable pub starts_d : Scanner → TokenType
starts_d s =
    if size s == 6 && char_at s 1 == b'e'
    then check_keyword s 2 4 (codes "tach") kw_detach
    else identifier

unfoldable pub starts_e : Scanner → TokenType
starts_e s =
    if size s == 4 && char_at s 1 == b'l'
    then check_keyword s 2 2 (codes "se") kw_else
    else if size s == 4 && char_at s 1 == b'n'
    then check_keyword s 2 2 (codes "um") kw_enum
    else if size s == 6
    then check_keyword s 1 5 (codes "xport") kw_export
    else if size s == 9
    then check_keyword s 1 8 (codes "xclusive") kw_exclusive
    else identifier

-- `source[start + 3]` is read behind `flo` whatever the length: at the end of the source it is the
-- 0 that ends the text.
unfoldable pub starts_fl : Scanner → TokenType
starts_fl s =
    if ltb 2 (size s) && char_at s 2 == b'o'
    then if char_at s 3 == b'a'
      then check_keyword s 4 1 (codes "t") kw_float
      else if char_at s 3 == b'w'
      then check_keyword s 4 0 (codes "") kw_flow
      else identifier
    else identifier

unfoldable pub starts_f : Scanner → TokenType
unfolding starts_fl
starts_f s =
    if ltb 1 (size s)
    then if char_at s 1 == b'a'
      then check_keyword s 2 3 (codes "lse") kw_false
      else if char_at s 1 == b'l'
      then starts_fl s
      else if char_at s 1 == b'o'
      then check_keyword s 2 1 (codes "r") kw_for
      else if char_at s 1 == b'r'
      then check_keyword s 2 2 (codes "om") kw_from
      else if char_at s 1 == b'u'
      then check_keyword s 2 2 (codes "nc") kw_func
      else identifier
    else identifier

unfoldable pub starts_i : Scanner → TokenType
starts_i s =
    if ltb 1 (size s)
    then if char_at s 1 == b'f'
      then check_keyword s 2 0 (codes "") kw_if
      else if char_at s 1 == b'm' && size s == 4
      then check_keyword s 2 2 (codes "pl") kw_impl
      else if char_at s 1 == b'm' && size s == 6
      then check_keyword s 2 4 (codes "port") kw_import
      else if char_at s 1 == b'n' && size s == 3
      then check_keyword s 2 1 (codes "t") kw_int
      else if char_at s 1 == b'n' && size s == 9
      then check_keyword s 2 7 (codes "terface") kw_interface
      else identifier
    else identifier

unfoldable pub starts_m : Scanner → TokenType
starts_m s =
    if size s == 5
    then check_keyword s 1 4 (codes "atch") kw_match
    else if size s == 6
    then check_keyword s 1 5 (codes "odule") kw_module
    else identifier

unfoldable pub starts_n : Scanner → TokenType
starts_n s =
    if size s == 3
    then check_keyword s 1 2 (codes "il") kw_nil
    else if size s == 4
    then check_keyword s 1 3 (codes "ock") kw_nock
    else identifier

unfoldable pub starts_r : Scanner → TokenType
starts_r s =
    if size s == 4
    then check_keyword s 1 3 (codes "ead") kw_read
    else if size s == 6
    then check_keyword s 1 5 (codes "eturn") kw_return
    else identifier

unfoldable pub starts_s : Scanner → TokenType
starts_s s =
    if ltb 1 (size s)
    then if char_at s 1 == b'e'
      then check_keyword s 2 1 (codes "t") kw_set
      else if char_at s 1 == b't'
      then if size s == 6 && char_at s 2 == b'r' && char_at s 3 == b'i'
        then check_keyword s 4 2 (codes "ng") kw_string
        else if size s == 6 && char_at s 2 == b'r' && char_at s 3 == b'u'
        then check_keyword s 4 2 (codes "ct") kw_struct
        else identifier
      else if char_at s 1 == b'y'
      then check_keyword s 2 4 (codes "stem") kw_system
      else identifier
    else identifier

unfoldable pub starts_t : Scanner → TokenType
starts_t s =
    if ltb 1 (size s)
    then if char_at s 1 == b'a' && size s == 3
      then check_keyword s 2 1 (codes "g") kw_tag
      else if char_at s 1 == b'a' && size s == 8
      then check_keyword s 2 6 (codes "ggroup") kw_taggroup
      else if char_at s 1 == b'o' && size s == 2
      then check_keyword s 2 0 (codes "") kw_to
      else if char_at s 1 == b'r'
      then check_keyword s 2 2 (codes "ue") kw_true
      else if char_at s 1 == b'y'
      then check_keyword s 2 2 (codes "pe") kw_type
      else identifier
    else identifier

unfoldable pub starts_v : Scanner → TokenType
starts_v s =
    if ltb 1 (size s)
    then if char_at s 1 == b'a'
      then check_keyword s 2 1 (codes "r") kw_var
      else if char_at s 1 == b'o'
      then check_keyword s 2 2 (codes "id") kw_void
      else identifier
    else identifier

unfoldable pub starts_w : Scanner → TokenType
starts_w s =
    if size s == 4
    then check_keyword s 1 3 (codes "ith") kw_with
    else if size s == 5
    then check_keyword s 1 4 (codes "rite") kw_write
    else identifier

-- `checkIdentifierType`: the `switch` on the first character.
unfoldable pub check_identifier_type : Scanner → TokenType
check_identifier_type s =
    let c0 = source_at s s.start in
    if c0 == b'a'
    then starts_a s
    else if c0 == b'b'
    then starts_b s
    else if c0 == b'c'
    then starts_c s
    else if c0 == b'd'
    then starts_d s
    else if c0 == b'e'
    then starts_e s
    else if c0 == b'f'
    then starts_f s
    else if c0 == b'i'
    then starts_i s
    else if c0 == b'k'
    then check_keyword s 1 3 (codes "its") kw_kits
    else if c0 == b'l'
    then check_keyword s 1 3 (codes "oop") kw_loop
    else if c0 == b'm'
    then starts_m s
    else if c0 == b'n'
    then starts_n s
    else if c0 == b'r'
    then starts_r s
    else if c0 == b's'
    then starts_s s
    else if c0 == b't'
    then starts_t s
    else if c0 == b'u'
    then check_keyword s 1 4 (codes "nset") kw_unset
    else if c0 == b'v'
    then starts_v s
    else if c0 == b'w'
    then starts_w s
    else identifier
