-- ===== src/Scanner/Keyword/Switch.antt =====
-- A rule for the `switch` of `checkIdentifierType` (src/l0_core/syntax/scanner.cpp) on the first
-- character.
use niki.Prelude.{◌≡◌, if_cases, ==_iff}
use niki.Scanner.Cursor.{Scanner, source_at}
use niki.Scanner.Token.{TokenType, identifier, kw_kits, kw_loop, kw_unset}
use niki.Scanner.Keyword.{
  codes, check_keyword, starts_a, starts_b, starts_c, starts_d, starts_e, starts_f, starts_i,
  starts_m, starts_n, starts_r, starts_s, starts_t, starts_v, starts_w, check_identifier_type,
}

-- A property of every branch, under what its test says, is one of the tree.
pub check_identifier_type_rule {ℓ} :
    (P : TokenType → Type ℓ) (s : Scanner)
    → P identifier
    → (source_at s s.start ≡ b'a' → P (starts_a s))
    → (source_at s s.start ≡ b'b' → P (starts_b s))
    → (source_at s s.start ≡ b'c' → P (starts_c s))
    → (source_at s s.start ≡ b'd' → P (starts_d s))
    → (source_at s s.start ≡ b'e' → P (starts_e s))
    → (source_at s s.start ≡ b'f' → P (starts_f s))
    → (source_at s s.start ≡ b'i' → P (starts_i s))
    → (source_at s s.start ≡ b'k' → P (check_keyword s 1 3 (codes "its") kw_kits))
    → (source_at s s.start ≡ b'l' → P (check_keyword s 1 3 (codes "oop") kw_loop))
    → (source_at s s.start ≡ b'm' → P (starts_m s))
    → (source_at s s.start ≡ b'n' → P (starts_n s))
    → (source_at s s.start ≡ b'r' → P (starts_r s))
    → (source_at s s.start ≡ b's' → P (starts_s s))
    → (source_at s s.start ≡ b't' → P (starts_t s))
    → (source_at s s.start ≡ b'u' → P (check_keyword s 1 4 (codes "nset") kw_unset))
    → (source_at s s.start ≡ b'v' → P (starts_v s))
    → (source_at s s.start ≡ b'w' → P (starts_w s))
    → P (check_identifier_type s)
unfolding check_identifier_type
check_identifier_type_rule P s other on_a on_b on_c on_d on_e on_f on_i on_k on_l on_m on_n on_r
      on_s on_t on_u on_v on_w =
    let is_a = (==_iff (source_at s s.start) b'a').0 in
    let is_b = (==_iff (source_at s s.start) b'b').0 in
    let is_c = (==_iff (source_at s s.start) b'c').0 in
    let is_d = (==_iff (source_at s s.start) b'd').0 in
    let is_e = (==_iff (source_at s s.start) b'e').0 in
    let is_f = (==_iff (source_at s s.start) b'f').0 in
    let is_i = (==_iff (source_at s s.start) b'i').0 in
    let is_k = (==_iff (source_at s s.start) b'k').0 in
    let is_l = (==_iff (source_at s s.start) b'l').0 in
    let is_m = (==_iff (source_at s s.start) b'm').0 in
    let is_n = (==_iff (source_at s s.start) b'n').0 in
    let is_r = (==_iff (source_at s s.start) b'r').0 in
    let is_s = (==_iff (source_at s s.start) b's').0 in
    let is_t = (==_iff (source_at s s.start) b't').0 in
    let is_u = (==_iff (source_at s s.start) b'u').0 in
    let is_v = (==_iff (source_at s s.start) b'v').0 in
    let is_w = (==_iff (source_at s s.start) b'w').0 in
    if_cases P _ (λ e. on_a (is_a e))
      (λ _.
        if_cases P _ (λ e. on_b (is_b e))
          (λ _.
            if_cases P _ (λ e. on_c (is_c e))
              (λ _.
                if_cases P _ (λ e. on_d (is_d e))
                  (λ _.
                    if_cases P _ (λ e. on_e (is_e e))
                      (λ _.
                        if_cases P _ (λ e. on_f (is_f e))
                          (λ _.
                            if_cases P _ (λ e. on_i (is_i e))
                              (λ _.
                                if_cases P _ (λ e. on_k (is_k e))
                                  (λ _.
                                    if_cases P _ (λ e. on_l (is_l e))
                                      (λ _.
                                        if_cases P _ (λ e. on_m (is_m e))
                                          (λ _.
                                            if_cases P _ (λ e. on_n (is_n e))
                                              (λ _.
                                                if_cases P _ (λ e. on_r (is_r e))
                                                  (λ _.
                                                    if_cases P _ (λ e. on_s (is_s e))
                                                      (λ _.
                                                        if_cases P _ (λ e. on_t (is_t e))
                                                          (λ _.
                                                            if_cases P _ (λ e. on_u (is_u e))
                                                            (λ _.
                                                            if_cases P _ (λ e. on_v (is_v e))
                                                            (λ _.
                                                            if_cases P _ (λ e. on_w (is_w e))
                                                            (λ _. other)))))))))))))))))
