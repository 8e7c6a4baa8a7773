-- ===== src/Std/Text/Trim.antt =====
-- Laws of text equality and of `trim`.
use infernal_pf2e_parser_sim.Base.{ℕ, true, false, [], ◌∷◌, ◌≡◌, refl, arith, Bool-cases, inl, inr}
use infernal_pf2e_parser_sim.Std.Text.{
  Text, text_eq, is_whitespace, trim, trim_start, trim_end, keep_end,
}

pub text_eq-eq : (s t : Text) → text_eq s t ≡ true → s ≡ t
unfolding text_eq
text_eq-eq [] [] h = refl
text_eq-eq [] (d ∷ t) h = cc
text_eq-eq (c ∷ s) [] h = cc
text_eq-eq (c ∷ s) (d ∷ t) h = ground (arith, text_eq-eq s t)

pub text_eq_refl : (s : Text) → text_eq s s ≡ true
unfolding text_eq
text_eq_refl [] = refl
text_eq_refl (c ∷ s) = ground (arith, text_eq_refl s)

-- Nothing but a character that is no white space stands first.
abbrev pub IsStart : Text → Type 0
IsStart [] = Unit
IsStart (c ∷ s) = is_whitespace c ≡ false

-- No white space at either end.
abbrev pub IsTrimmed : Text → Type 0
IsTrimmed s = trim s ≡ s

IsStart-trim_start : (s : Text) → IsStart (trim_start s)
unfolding trim_start
IsStart-trim_start [] = tt
IsStart-trim_start (c ∷ s) = elim (Bool-cases (is_whitespace c)) [
  | inl space ↦ rw space (IsStart-trim_start s)
  | inr other ↦ rw other other
]

pub trim_start_id : (s : Text) → IsStart s → trim_start s ≡ s
unfolding trim_start
trim_start_id [] h = refl
trim_start_id (c ∷ s) h = rw h

keep_end_idem : (c : ℕ) (t : Text) → trim_end t ≡ t → trim_end (keep_end c t) ≡ keep_end c t
unfolding trim_end
keep_end_idem c [] h = elim (Bool-cases (is_whitespace c)) [
  | inl space ↦ rw space refl
  | inr other ↦ rw (other, other) refl
]
keep_end_idem c (d ∷ t) h = rw (h, keep_end) refl

trim_end_idem : (s : Text) → trim_end (trim_end s) ≡ trim_end s
unfolding trim_end
trim_end_idem [] = refl
trim_end_idem (c ∷ s) = keep_end_idem c (trim_end s) (trim_end_idem s)

keep_end-IsStart : (c : ℕ) (t : Text) → is_whitespace c ≡ false → IsStart (keep_end c t)
unfolding keep_end
keep_end-IsStart c [] h = rw h h
keep_end-IsStart c (d ∷ t) h = h

trim_end-IsStart : (s : Text) → IsStart s → IsStart (trim_end s)
unfolding trim_end
trim_end-IsStart [] h = tt
trim_end-IsStart (c ∷ s) h = keep_end-IsStart c (trim_end s) h

trim-IsStart : (s : Text) → IsStart (trim s)
unfolding trim
trim-IsStart s = trim_end-IsStart (trim_start s) (IsStart-trim_start s)

-- What `trim` returns has no white space at either end.
pub trim-IsTrimmed : (s : Text) → IsTrimmed (trim s)
unfolding trim
trim-IsTrimmed s = rw (trim_start_id (trim s) (trim-IsStart s)) (trim_end_idem (trim_start s))

-- White space in front of a trimmed text is dropped.
pub trim_space : (s : Text) → IsTrimmed s → trim (b' ' ∷ s) ≡ s
unfolding trim is_whitespace
trim_space s h = h

pub IsTrimmed-IsStart : (s : Text) → IsTrimmed s → IsStart s
IsTrimmed-IsStart s h = rw h at (trim-IsStart s)
