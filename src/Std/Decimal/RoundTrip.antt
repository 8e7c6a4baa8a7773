-- ===== src/Std/Decimal/RoundTrip.antt =====
-- `parse` of what `Display` writes of an `i64`.
use mathlib.Core.List.{concat-ne-nil}
use infernal_pf2e_parser_sim.Base.{
  ℕ, zero, suc, ◌+◌, ◌*◌, ◌/◌, ◌%◌, ◌≤◌, ◌<◌, some, [], ◌∷◌, ◌++◌, append_assoc, append-nil, ◌≡◌,
  ◌≢◌, refl, sym, ◌∙◌, ap, arith, ltb, All, All-append, ℤ, pos, negsuc, max_i64, IsI64, Bool-cases,
  inl, inr,
}
use infernal_pf2e_parser_sim.Std.Text.{Text}
use infernal_pf2e_parser_sim.Std.Decimal.{
  digits, display_nat, display_i64, scan, negate, read_digits, parse_i64,
}

-- The digits of `n / 10` and the last digit.
digits_step : (f n : ℕ) → 10 ≤ n → digits (suc f) n ≡ digits f (n / 10) ++ (b'0' + n % 10) ∷ []
unfolding digits
digits_step f n h = ground arith

digits_one : (f n : ℕ) → n < 10 → digits f n ≡ (b'0' + n) ∷ []
unfolding digits
digits_one zero n h = ground arith
digits_one (suc f) n h = ground arith

-- One more digit behind what is scanned.
scan_digit :
    (limit m d : ℕ) (rest : Text)
    → d < 10
    → m * 10 + d ≤ limit
    → scan limit ((b'0' + d) ∷ rest) m ≡ scan limit rest (m * 10 + d)
unfolding scan
scan_digit limit m d rest h k = ground arith

scan_first :
    (limit n : ℕ) (rest : Text)
    → n < 10
    → n ≤ limit
    → scan limit ((b'0' + n) ∷ rest) 0 ≡ scan limit rest n
scan_first limit n rest h k =
    scan_digit limit 0 n rest h (omega arith) ∙ ap (scan limit rest) (omega arith)

scan-digits :
    (limit f n : ℕ) (rest : Text)
    → n ≤ f
    → n ≤ limit
    → scan limit (digits f n ++ rest) 0 ≡ scan limit rest n
scan-digits limit zero n rest h k =
    rw (digits_one zero n (omega arith)) (scan_first limit n rest (omega arith) k)
scan-digits limit (suc f) n rest h k = elim (Bool-cases (ltb n 10)) [
  | inl small ↦ rw (digits_one (suc f) n (ground arith)) (scan_first limit n rest (ground arith) k)
  | inr large ↦
      let ten : 10 ≤ n = ground arith in
      rw (digits_step f n ten, append_assoc)
        (scan-digits limit f (n / 10) ((b'0' + n % 10) ∷ rest) (omega arith) (omega arith)
          ∙ scan_digit limit (n / 10) (n % 10) rest (omega arith) (omega arith)
          ∙ ap (scan limit rest) (omega arith))
]

abbrev pub IsDigit : ℕ → Type 0
IsDigit c = (b'0' ≤ c) × (c ≤ b'9')

digits-IsDigit : (f n : ℕ) → All IsDigit (digits f n)
unfolding digits
digits-IsDigit zero n = (omega arith, tt)
digits-IsDigit (suc f) n = elim (Bool-cases (ltb n 10)) [
  | inl small ↦ rw small (ground arith, tt)
  | inr large ↦
      rw large (All-append IsDigit (digits f (n / 10)) _ (digits-IsDigit f (n / 10)) (omega arith))
]

digits-ne-nil : (f n : ℕ) → digits f n ≢ []
unfolding digits
digits-ne-nil zero n = λ e. cc e
digits-ne-nil (suc f) n = elim (Bool-cases (ltb n 10)) [
  | inl small ↦ rw small (λ e. cc e)
  | inr large ↦ rw large (concat-ne-nil _ (digits f (n / 10)))
]

read_digits-some :
    (limit : ℕ) (sign : ℕ → ℤ) (n : ℕ) (s : Text)
    → s ≢ []
    → scan limit s 0 ≡ some n
    → read_digits limit sign s ≡ some (sign n)
unfolding read_digits
read_digits-some limit sign n [] ne e = absurd (ne refl)
read_digits-some limit sign n (c ∷ s) ne e = rw (e, read_digits)

read_digits-display :
    (limit : ℕ) (sign : ℕ → ℤ) (n : ℕ)
    → n ≤ limit
    → read_digits limit sign (display_nat n) ≡ some (sign n)
unfolding display_nat
read_digits-display limit sign n h =
    read_digits-some limit sign n (digits n n) (digits-ne-nil n n) (
      ap (λ (s : Text). scan limit s 0) (sym (append-nil (digits n n)))
      ∙ scan-digits limit n n [] (omega arith) h
      ∙ unfold scan in refl)

parse_digits : (s : Text) → s ≢ [] → All IsDigit s → parse_i64 s ≡ read_digits max_i64 pos s
unfolding parse_i64
parse_digits [] ne h = absurd (ne refl)
parse_digits (c ∷ s) ne (d, h) = ground arith

-- Every `i64` is read back from its decimal text.
pub parse-display_i64 : (v : ℤ) → IsI64 v → parse_i64 (display_i64 v) ≡ some v
unfolding display_i64
parse-display_i64 (pos n) h =
    parse_digits (display_nat n) (unfold display_nat in digits-ne-nil n n)
      (unfold display_nat in digits-IsDigit n n)
    ∙ read_digits-display max_i64 pos n h.0
parse-display_i64 (negsuc n) h =
    unfold parse_i64 in read_digits-display (suc max_i64) negate (suc n) (omega arith)

pub display_nat-IsDigit : (n : ℕ) → All IsDigit (display_nat n)
unfolding display_nat
display_nat-IsDigit n = digits-IsDigit n n
