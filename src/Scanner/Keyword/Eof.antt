-- ===== src/Scanner/Keyword/Eof.antt =====
-- The decision tree of `checkIdentifierType` (src/l0_core/syntax/scanner.cpp) gives no end token.
use niki.Prelude.{◌≡◌, refl, false, arith}
use niki.Scanner.Cursor.{Scanner}
use niki.Scanner.Keyword.Switch.{check_identifier_type_rule}
use niki.Scanner.Keyword.{
  is_eof, check_keyword, starts_a, starts_b, starts_c, starts_d, starts_e, starts_f, starts_i,
  starts_m, starts_n, starts_r, starts_s, starts_t, starts_v, starts_w, check_identifier_type,
}

module _ (s : Scanner) where
  starts_a_lem : is_eof (starts_a s) ≡ false
  unfolding starts_a check_keyword
  starts_a_lem = ground arith

  starts_b_lem : is_eof (starts_b s) ≡ false
  unfolding starts_b check_keyword
  starts_b_lem = ground arith

  starts_c_lem : is_eof (starts_c s) ≡ false
  unfolding starts_c check_keyword
  starts_c_lem = ground arith

  starts_d_lem : is_eof (starts_d s) ≡ false
  unfolding starts_d check_keyword
  starts_d_lem = ground arith

  starts_e_lem : is_eof (starts_e s) ≡ false
  unfolding starts_e check_keyword
  starts_e_lem = ground arith

  starts_f_lem : is_eof (starts_f s) ≡ false
  unfolding starts_f check_keyword
  starts_f_lem = ground arith

  starts_i_lem : is_eof (starts_i s) ≡ false
  unfolding starts_i check_keyword
  starts_i_lem = ground arith

  starts_m_lem : is_eof (starts_m s) ≡ false
  unfolding starts_m check_keyword
  starts_m_lem = ground arith

  starts_n_lem : is_eof (starts_n s) ≡ false
  unfolding starts_n check_keyword
  starts_n_lem = ground arith

  starts_r_lem : is_eof (starts_r s) ≡ false
  unfolding starts_r check_keyword
  starts_r_lem = ground arith

  starts_s_lem : is_eof (starts_s s) ≡ false
  unfolding starts_s check_keyword
  starts_s_lem = ground arith

  starts_t_lem : is_eof (starts_t s) ≡ false
  unfolding starts_t check_keyword
  starts_t_lem = ground arith

  starts_v_lem : is_eof (starts_v s) ≡ false
  unfolding starts_v check_keyword
  starts_v_lem = ground arith

  starts_w_lem : is_eof (starts_w s) ≡ false
  unfolding starts_w check_keyword
  starts_w_lem = ground arith

  pub check_identifier_type_lem : is_eof (check_identifier_type s) ≡ false
  unfolding check_keyword
  check_identifier_type_lem =
      check_identifier_type_rule (λ t. is_eof t ≡ false) s refl (λ _. starts_a_lem)
        (λ _. starts_b_lem) (λ _. starts_c_lem) (λ _. starts_d_lem) (λ _. starts_e_lem)
        (λ _. starts_f_lem) (λ _. starts_i_lem) (λ _. ground arith) (λ _. ground arith)
        (λ _. starts_m_lem) (λ _. starts_n_lem) (λ _. starts_r_lem) (λ _. starts_s_lem)
        (λ _. starts_t_lem) (λ _. ground arith) (λ _. starts_v_lem) (λ _. starts_w_lem)
