-- ===== src/Std/Decimal.antt =====
-- `i64`'s `Display` and `FromStr`.
pub mod RoundTrip
pub mod Range
use infernal_pf2e_parser_sim.Base.{
  ℕ, zero, suc, ◌+◌, ◌-◌, ◌*◌, ◌/◌, ◌%◌, Option, none, some, [], ◌∷◌, ◌++◌, ltb, ◌==◌, is_empty,
  if◌then◌else◌, ℤ, pos, negsuc, max_i64, ◌≡◌, refl,
}
use infernal_pf2e_parser_sim.Std.Text.{Text, codes, is_ascii_digit}

-- the decimal digits of `n`; each round divides `n` by ten, so a fuel of `n` is enough
digits : ℕ → ℕ → Text
digits zero n = (b'0' + n % 10) ∷ []
digits (suc f) n =
    let before = digits f (n / 10) in
    if ltb n 10 then (b'0' + n) ∷ [] else before ++ (b'0' + n % 10) ∷ []

unfoldable pub display_nat : ℕ → Text
unfolding digits
display_nat n = digits n n

unfoldable pub display_i64 : ℤ → Text
unfolding display_nat
display_i64 (pos n) = display_nat n
display_i64 (negsuc n) = b'-' ∷ display_nat (suc n)

-- Every digit multiplies what is read by ten and adds to it, and a magnitude above `limit` is the
-- overflow error.
unfoldable pub scan : ℕ → Text → ℕ → Option ℕ
unfolding is_ascii_digit
scan limit [] n = some n
scan limit (c ∷ s) n =
    let m = n * 10 + (c - b'0') in
    let rest = scan limit s m in
    if is_ascii_digit c then (if ltb limit m then none else rest) else none

abbrev negate : ℕ → ℤ
negate zero = pos 0
negate (suc n) = negsuc n

read_digits : ℕ → (ℕ → ℤ) → Text → Option ℤ
read_digits limit sign [] = none
read_digits limit sign (c ∷ s) = elim (scan limit (c ∷ s) 0) [
  | none ↦ none
  | some n ↦ some (sign n)
]

-- An optional sign, then at least one digit; `none` is a `ParseIntError`.
unfoldable pub parse_i64 : Text → Option ℤ
unfolding read_digits scan
parse_i64 [] = none
parse_i64 (c ∷ s) =
    if c == b'+'
    then read_digits max_i64 pos s
    else if c == b'-'
    then read_digits (suc max_i64) negate s
    else read_digits max_i64 pos (c ∷ s)

abbrev pub max_u64 : ℕ
max_u64 = 18446744073709551615

-- An optional plus, then at least one digit.
unfoldable pub parse_u64 : Text → Option ℕ
unfolding scan
parse_u64 [] = none
parse_u64 (c ∷ s) =
    if c == b'+' then (if is_empty s then none else scan max_u64 s 0) else scan max_u64 (c ∷ s) 0

parse_u64_test : parse_u64 (codes "18446744073709551616") ≡ none
unfolding parse_u64
parse_u64_test = refl

parse_i64_test : parse_i64 (codes "-9223372036854775808") ≡ some (negsuc max_i64)
unfolding parse_i64
parse_i64_test = refl

display_i64_test : display_i64 (negsuc 119) ≡ codes "-120"
unfolding display_i64
display_i64_test = refl
