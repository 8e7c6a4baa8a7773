-- ===== src/Std/Decimal/Range.antt =====
-- What `i64`'s `FromStr` accepts is within its type's range.
use infernal_pf2e_parser_sim.Base.{
  ℕ, zero, suc, ◌+◌, ◌-◌, ◌*◌, ◌≤◌, Option, none, some, [], ◌∷◌, ℤ, pos, max_i64, IsI64, ◌==◌,
  Bool-cases, inl, inr, ◌≡◌, arith, refl, subst,
}
use infernal_pf2e_parser_sim.Std.Text.{Text}
use infernal_pf2e_parser_sim.Std.Decimal.{scan, negate, read_digits, parse_i64}

scan-le : (limit : ℕ) (s : Text) (n m : ℕ) → n ≤ limit → scan limit s n ≡ some m → m ≤ limit
unfolding scan
scan-le limit [] n m h e = ground arith
scan-le limit (c ∷ s) n m h e = ground (arith, scan-le limit s (n * 10 + (c - b'0')) m)

scanned :
    (sign : ℕ → ℤ) (o : Option ℕ) (v : ℤ)
    → elim o [ none ↦ none | some n ↦ some (sign n) ] ≡ some v
    → (n : ℕ) × (o ≡ some n) × (sign n ≡ v)
scanned sign none v e = cc
scanned sign (some n) v e = (n, refl, cc)

read_digits-IsI64 :
    (limit : ℕ) (sign : ℕ → ℤ) (s : Text) (v : ℤ)
    → ((n : ℕ) → n ≤ limit → IsI64 (sign n))
    → read_digits limit sign s ≡ some v
    → IsI64 v
unfolding read_digits
read_digits-IsI64 limit sign [] v h e = cc
read_digits-IsI64 limit sign (c ∷ s) v h e =
    let (n, found, same) = scanned sign (scan limit (c ∷ s) 0) v e in
    subst IsI64 same (h n (scan-le limit (c ∷ s) 0 n (omega arith) found))

pos-IsI64 : (n : ℕ) → n ≤ max_i64 → IsI64 (pos n)
pos-IsI64 n h = (h, omega arith)

negate-IsI64 : (n : ℕ) → n ≤ suc max_i64 → IsI64 (negate n)
negate-IsI64 zero h = (omega arith, omega arith)
negate-IsI64 (suc n) h = (omega arith, omega arith)

-- An accepted text stands for a number in the range of `i64`.
pub parse_i64-IsI64 : (s : Text) (v : ℤ) → parse_i64 s ≡ some v → IsI64 v
unfolding parse_i64
parse_i64-IsI64 [] v e = cc
parse_i64-IsI64 (c ∷ s) v e = elim (Bool-cases (c == b'+')) [
  | inl plus ↦ read_digits-IsI64 max_i64 pos s v pos-IsI64 (rw plus at e)
  | inr no_plus ↦ elim (Bool-cases (c == b'-')) [
    | inl minus ↦ read_digits-IsI64 (suc max_i64) negate s v negate-IsI64 (rw (no_plus, minus) at e)
    | inr no_minus ↦ read_digits-IsI64 max_i64 pos (c ∷ s) v pos-IsI64 (rw (no_plus, no_minus) at e)
  ]
]
