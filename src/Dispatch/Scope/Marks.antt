-- ===== src/Dispatch/Scope/Marks.antt =====
-- Which pieces of a scope are free of the characters that separate its fields.
use infernal_pf2e_parser_sim.Base.{
  ℕ, suc, true, ◌||◌, ◌==◌, List, ◌≡◌, ◌≢◌, arith, All-impl, ℤ, pos, negsuc,
}
use infernal_pf2e_parser_sim.Std.Text.{Text}
use infernal_pf2e_parser_sim.Std.Text.Split.{Lacks}
use infernal_pf2e_parser_sim.Std.Decimal.{display_nat, display_i64}
use infernal_pf2e_parser_sim.Std.Decimal.RoundTrip.{IsDigit, display_nat-IsDigit}
use infernal_pf2e_parser_sim.Codec.{Codec, is_hex, is_canonical, is_canonical_chars, is_url_safe}

-- the separators of the two scopes
pub data IsMark (c : ℕ) : Type 0 where
  bar : c ≡ b'|' → IsMark c
  bang : c ≡ b'!' → IsMark c
  hash : c ≡ b'#' → IsMark c
  at_sign : c ≡ b'@' → IsMark c
  tilde : c ≡ b'~' → IsMark c

hex_not_mark : (m c : ℕ) → IsMark m → (is_hex c || c == b'-') ≡ true → c ≢ m
hex_not_mark m c (bar e) h = ground arith
hex_not_mark m c (bang e) h = ground arith
hex_not_mark m c (hash e) h = ground arith
hex_not_mark m c (at_sign e) h = ground arith
hex_not_mark m c (tilde e) h = ground arith

url_safe_not_mark : (m c : ℕ) → IsMark m → is_url_safe c ≡ true → c ≢ m
url_safe_not_mark m c (bar e) h = ground arith
url_safe_not_mark m c (bang e) h = ground arith
url_safe_not_mark m c (hash e) h = ground arith
url_safe_not_mark m c (at_sign e) h = ground arith
url_safe_not_mark m c (tilde e) h = ground arith

digit_not_mark : (m c : ℕ) → IsMark m → IsDigit c → c ≢ m
digit_not_mark m c (bar e) h = omega arith
digit_not_mark m c (bang e) h = omega arith
digit_not_mark m c (hash e) h = omega arith
digit_not_mark m c (at_sign e) h = omega arith
digit_not_mark m c (tilde e) h = omega arith

minus_not_mark : (m : ℕ) → IsMark m → b'-' ≢ m
minus_not_mark m (bar e) = omega arith
minus_not_mark m (bang e) = omega arith
minus_not_mark m (hash e) = omega arith
minus_not_mark m (at_sign e) = omega arith
minus_not_mark m (tilde e) = omega arith

module _ {m : ℕ} (mark : IsMark m) where
  pub canonical-Lacks : (t : Text) → is_canonical t ≡ true → Lacks m t
  canonical-Lacks t h = All-impl _ _ (λ c. hex_not_mark m c mark) t (is_canonical_chars t h)

  pub display_nat-Lacks : (n : ℕ) → Lacks m (display_nat n)
  display_nat-Lacks n = All-impl _ _ (λ c. digit_not_mark m c mark) _ (display_nat-IsDigit n)

  pub display_i64-Lacks : (v : ℤ) → Lacks m (display_i64 v)
  unfolding display_i64
  display_i64-Lacks (pos n) = display_nat-Lacks n
  display_i64-Lacks (negsuc n) = (minus_not_mark m mark, display_nat-Lacks (suc n))

  pub encode-Lacks : (codec : Codec) (bytes : List ℕ) → Lacks m (codec.encode bytes)
  encode-Lacks codec bytes =
      All-impl _ _ (λ c. url_safe_not_mark m c mark) _ (codec.encode_alphabet bytes)
