-- ===== src/Std/Text/Split.antt =====
-- Laws of `split_once`, `split` and `join`.
use infernal_pf2e_parser_sim.Base.{
  ℕ, zero, suc, ◌<◌, none, some, List, [], ◌∷◌, ◌++◌, ◌≡◌, ◌≢◌, refl, ap, subst, ◌∙◌, arith, ◌==◌,
  Bool-cases, Option-cases, inl, inr, All, length, length-append,
}
use infernal_pf2e_parser_sim.Std.Text.{Text, strip_prefix, split_once, split_fuel, split, join}

strip_prefix_sound : (p s r : Text) → strip_prefix p s ≡ some r → s ≡ p ++ r
unfolding strip_prefix
strip_prefix_sound [] s r h = ground arith
strip_prefix_sound (p ∷ ps) [] r h = cc
strip_prefix_sound (p ∷ ps) (c ∷ s) r h = ground (arith, strip_prefix_sound ps s r)

pub strip_prefix-append : (p s : Text) → strip_prefix p (p ++ s) ≡ some s
unfolding strip_prefix
strip_prefix-append [] s = refl
strip_prefix-append (p ∷ ps) s = ground (arith, strip_prefix-append ps s)

-- The pieces and the match spell the text.
pub split_once_sound : (p s a b : Text) → split_once p s ≡ some (a, b) → s ≡ a ++ (p ++ b)
unfolding split_once
split_once_sound p [] a b h = cc
split_once_sound p (c ∷ s) a b h = elim (Option-cases (strip_prefix p (c ∷ s))) [
  | inl (r, e) ↦ ground (arith, strip_prefix_sound p (c ∷ s) r e)
  | inr e ↦ elim (Option-cases (split_once p s)) [
    | inl ((a', b'), e') ↦ ground (arith, split_once_sound p s a' b' e')
    | inr e' ↦ ground arith
  ]
]

-- A text free of the first character of the pattern holds no match.
abbrev pub Lacks : ℕ → Text → Type 0
Lacks c = All (λ d. d ≢ c)

-- The text in front of the first match of a character is free of it.
pub split_once-Lacks : (c : ℕ) (s a b : Text) → split_once (c ∷ []) s ≡ some (a, b) → Lacks c a
unfolding split_once strip_prefix
split_once-Lacks c [] a b h = cc
split_once-Lacks c (d ∷ s) a b h = elim (Bool-cases (c == d)) [
  | inl e ↦ let same : [] ≡ a = ground arith in subst (Lacks c) same tt
  | inr e ↦ elim (Option-cases (split_once (c ∷ []) s)) [
    | inl ((a', b'), e') ↦
        let same : d ∷ a' ≡ a = ground arith in
        subst (Lacks c) same (ground arith, split_once-Lacks c s a' b' e')
    | inr e' ↦ ground arith
  ]
]

pub split_once-append :
    (c : ℕ) (ps a b : Text) → Lacks c a → split_once (c ∷ ps) (a ++ (c ∷ (ps ++ b))) ≡ some (a, b)
unfolding split_once
split_once-append c ps [] b h = ground (arith, strip_prefix-append ps b)
split_once-append c ps (d ∷ a) b (hd, h) = ground (arith, split_once-append c ps a b h)

pub split_once-none : (c : ℕ) (ps a : Text) → Lacks c a → split_once (c ∷ ps) a ≡ none
unfolding split_once
split_once-none c ps [] h = refl
split_once-none c ps (d ∷ a) (hd, h) = ground (arith, split_once-none c ps a h)

-- Behind a match there is less text.
split_once_shorter :
    (c : ℕ) (ps s a b : Text) → split_once (c ∷ ps) s ≡ some (a, b) → length b < length s
split_once_shorter c ps s a b h =
    rw (split_once_sound (c ∷ ps) s a b h)
      (omega (arith, length-append {0} a (c ∷ (ps ++ b)), length-append {0} ps b))

module _ (f : ℕ) (p s : Text) where
  split_fuel-none : split_once p s ≡ none → split_fuel (suc f) p s ≡ s ∷ []
  unfolding split_fuel
  split_fuel-none e = rw (e, split_fuel)

  split_fuel-some :
      (a b : Text) → split_once p s ≡ some (a, b) → split_fuel (suc f) p s ≡ a ∷ split_fuel f p b
  unfolding split_fuel
  split_fuel-some a b e = rw (e, split_fuel)

-- Any two fuels above the text's length give the same pieces.
split_fuel_enough :
    (f g c : ℕ) (ps s : Text)
    → length s < f
    → length s < g
    → split_fuel f (c ∷ ps) s ≡ split_fuel g (c ∷ ps) s
split_fuel_enough zero g c ps s h k = absurd (omega arith)
split_fuel_enough (suc f) zero c ps s h k = absurd (omega arith)
split_fuel_enough (suc f) (suc g) c ps s h k = elim (Option-cases (split_once (c ∷ ps) s)) [
  | inr e ↦ rw (split_fuel-none f (c ∷ ps) s e, split_fuel-none g (c ∷ ps) s e)
  | inl ((a, b), e) ↦
      let shorter = split_once_shorter c ps s a b e in
      rw (split_fuel-some f (c ∷ ps) s a b e, split_fuel-some g (c ∷ ps) s a b e)
        (ap (◌∷◌ a) (split_fuel_enough f g c ps b (omega arith) (omega arith)))
]

-- What `split` does at the first match, and with no match.
pub split-some :
    (c : ℕ) (ps s a b : Text)
    → split_once (c ∷ ps) s ≡ some (a, b)
    → split (c ∷ ps) s ≡ a ∷ split (c ∷ ps) b
unfolding split
split-some c ps s a b e =
    let shorter = split_once_shorter c ps s a b e in
    split_fuel-some (length s) (c ∷ ps) s a b e
    ∙ ap (◌∷◌ a) (split_fuel_enough (length s) (suc (length b)) c ps b shorter (omega arith))

pub split_last : (p s : Text) → split_once p s ≡ none → split p s ≡ s ∷ []
unfolding split
split_last p s e = split_fuel-none (length s) p s e

-- The text up to the first match is the first piece, and the others are those of the rest.
pub split-append :
    (c : ℕ) (ps a b : Text)
    → Lacks c a
    → split (c ∷ ps) (a ++ (c ∷ (ps ++ b))) ≡ a ∷ split (c ∷ ps) b
split-append c ps a b h = split-some c ps _ a b (split_once-append c ps a b h)

pub split-none : (c : ℕ) (ps a : Text) → Lacks c a → split (c ∷ ps) a ≡ a ∷ []
split-none c ps a h = split_last (c ∷ ps) a (split_once-none c ps a h)

-- No piece holds a separator of one character.
split_once-Lacks_front : (c : ℕ) (s a b : Text) → split_once (c ∷ []) s ≡ some (a, b) → Lacks c a
unfolding split_once
split_once-Lacks_front c [] a b h = cc
split_once-Lacks_front c (d ∷ s) a b h = elim (Bool-cases (c == d)) [
  | inl same ↦ ground arith
  | inr other ↦ elim (Option-cases (split_once (c ∷ []) s)) [
    | inl ((a2, b2), e) ↦ ground (arith, split_once-Lacks_front c s a2 b2 e)
    | inr e ↦ ground arith
  ]
]

split_once-Lacks_all : (c : ℕ) (s : Text) → split_once (c ∷ []) s ≡ none → Lacks c s
unfolding split_once
split_once-Lacks_all c [] h = tt
split_once-Lacks_all c (d ∷ s) h = ground (arith, split_once-Lacks_all c s)

pub join-cons :
    (sep x y : Text) (ys : List Text) → join sep (x ∷ y ∷ ys) ≡ x ++ (sep ++ join sep (y ∷ ys))
unfolding join
join-cons sep x y ys = refl

-- The parts of a list of texts, joined by a separator that none of them holds, are its pieces.
pub split-join :
    (c : ℕ) (ps x : Text) (xs : List Text)
    → All (Lacks c) (x ∷ xs)
    → split (c ∷ ps) (join (c ∷ ps) (x ∷ xs)) ≡ x ∷ xs
unfolding join
split-join c ps x [] (h, _) = split-none c ps x h
split-join c ps x (y ∷ ys) (h, hs) =
    split-append c ps x (join (c ∷ ps) (y ∷ ys)) h ∙ ap (◌∷◌ x) (split-join c ps y ys hs)
