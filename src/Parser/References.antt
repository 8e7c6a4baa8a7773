-- ===== src/Parser/References.antt =====
-- `extract_bracketed_references`: the fuel of its loop, and the names it finds.
use infernal_pf2e_parser_sim.Base.{
  ℕ, zero, suc, ◌+◌, ◌≤◌, ◌<◌, none, some, List, [], ◌∷◌, ◌++◌, ◌≡◌, ◌≢◌, refl, sym, All-impl, ◌∙◌,
  ap, arith, is_empty, length, length-append, All, Option-cases, inl, inr, if◌then◌else◌, subst,
  append_assoc,
}
use infernal_pf2e_parser_sim.Std.Text.{Text, codes, trim, split_once}
use infernal_pf2e_parser_sim.Std.Text.Split.{Lacks, split_once-append, split_once_sound}
use infernal_pf2e_parser_sim.Parser.{bracketed_fuel, extract_bracketed_references}

abbrev pub opening : Text
opening = codes "[["

abbrev pub closing : Text
closing = codes "]]"

shorter : (p s a b : Text) → split_once p s ≡ some (a, b) → length b ≤ length s
shorter p s a b e =
    rw (split_once_sound p s a b e)
      (omega (arith, length-append {0} a (p ++ b), length-append {0} p b))

opening_shorter : (s a b : Text) → split_once opening s ≡ some (a, b) → length b < length s
opening_shorter s a b e =
    rw (split_once_sound opening s a b e) (omega (arith, length-append {0} a (opening ++ b)))

abbrev add_reference : Text → List Text → List Text
add_reference reference later = if is_empty reference then later else reference ∷ later

module _ (f : ℕ) (s : Text) where
  no_opening : split_once opening s ≡ none → bracketed_fuel (suc f) s ≡ []
  unfolding bracketed_fuel
  no_opening e = rw (e, bracketed_fuel)

  no_closing :
      (a b : Text)
      → split_once opening s ≡ some (a, b)
      → split_once closing b ≡ none
      → bracketed_fuel (suc f) s ≡ []
  unfolding bracketed_fuel
  no_closing a b e k = rw (e, bracketed_fuel) (rw k)

  one_round :
      (a b inside after : Text)
      → split_once opening s ≡ some (a, b)
      → split_once closing b ≡ some (inside, after)
      → bracketed_fuel (suc f) s ≡ add_reference (trim inside) (bracketed_fuel f after)
  unfolding bracketed_fuel
  one_round a b inside after e k = rw (e, bracketed_fuel) (rw k)

-- Any two fuels above the length of the remainder give the same references.
fuel_enough :
    (f g : ℕ) (s : Text) → length s < f → length s < g → bracketed_fuel f s ≡ bracketed_fuel g s
fuel_enough zero g s h k = absurd (omega arith)
fuel_enough (suc f) zero s h k = absurd (omega arith)
fuel_enough (suc f) (suc g) s h k = elim (Option-cases (split_once opening s)) [
  | inr e ↦ rw (no_opening f s e, no_opening g s e)
  | inl ((a, b), e) ↦ elim (Option-cases (split_once closing b)) [
    | inr e' ↦ rw (no_closing f s a b e e', no_closing g s a b e e')
    | inl ((inside, after), e') ↦
        let l = opening_shorter s a b e in
        let m = shorter closing b inside after e' in
        rw (one_round f s a b inside after e e', one_round g s a b inside after e e')
          (ap (add_reference (trim inside)) (fuel_enough f g after (omega arith) (omega arith)))
  ]
]

-- Running the loop longer than its bound changes nothing: it always ends by one of its tests.
pub extract_bracketed_references-enough :
    (extra : ℕ) (block : Text)
    → bracketed_fuel (suc (length block) + extra) block ≡ extract_bracketed_references block
unfolding extract_bracketed_references
extract_bracketed_references-enough extra block =
    fuel_enough (suc (length block) + extra) (suc (length block)) block (omega arith) (omega arith)

-- The text holds the reference between brackets, with white space round it at most.
pub record IsBracketed (block reference : Text) : Type 0 where
  pub before : Text
  pub inside : Text
  pub after : Text
  pub spells : block ≡ before ++ (opening ++ (inside ++ (closing ++ after)))
  pub trims : trim inside ≡ reference
  pub not_empty : reference ≢ []

IsBracketed-append :
    (front block : Text) (reference : Text)
    → IsBracketed block reference
    → IsBracketed (front ++ block) reference
IsBracketed-append front block reference h = record {
  before = front ++ h.before;
  inside = h.inside;
  after = h.after;
  spells = ap (◌++◌ front) h.spells ∙ rw append_assoc;
  trims = h.trims;
  not_empty = h.not_empty;
}

All-add_reference :
    (P : Text → Type 0) (reference : Text) (later : List Text)
    → (reference ≢ [] → P reference)
    → All P later
    → All P (add_reference reference later)
All-add_reference P [] later p h = h
All-add_reference P (c ∷ r) later p h = (p (λ e. cc e), h)

bracketed_fuel-IsBracketed : (f : ℕ) (s : Text) → All (IsBracketed s) (bracketed_fuel f s)
bracketed_fuel-IsBracketed zero s = unfold bracketed_fuel in tt
bracketed_fuel-IsBracketed (suc f) s = elim (Option-cases (split_once opening s)) [
  | inr e ↦ rw (no_opening f s e) tt
  | inl ((a, b), e) ↦ elim (Option-cases (split_once closing b)) [
    | inr e' ↦ rw (no_closing f s a b e e') tt
    | inl ((inside, after), e') ↦
        let whole =
          split_once_sound opening s a b e
          ∙ ap (λ (r : Text). a ++ (opening ++ r)) (split_once_sound closing b inside after e') in
        let front = a ++ (opening ++ (inside ++ closing)) in
        let regroup : s ≡ front ++ after = whole ∙ simp append_assoc in
        rw (one_round f s a b inside after e e') (
          All-add_reference (IsBracketed s) (trim inside) _
            (λ ne. record {
              before = a;
              inside = inside;
              after = after;
              spells = whole;
              trims = refl;
              not_empty = ne;
            })
            (All-impl (IsBracketed after) (IsBracketed s)
              (λ r h.
                subst (λ (t : Text). IsBracketed t r) (sym regroup)
                  (IsBracketed-append front after r h))
              _ (bracketed_fuel-IsBracketed f after)))
  ]
]

-- Every extracted reference stands in the block between double brackets, and is not empty.
pub extract_bracketed_references-IsBracketed :
    (block : Text) → All (IsBracketed block) (extract_bracketed_references block)
unfolding extract_bracketed_references
extract_bracketed_references-IsBracketed block =
    bracketed_fuel-IsBracketed (suc (length block)) block

add_reference_cons : (r : Text) (later : List Text) → r ≢ [] → add_reference r later ≡ r ∷ later
add_reference_cons [] later h = absurd (h refl)
add_reference_cons (c ∷ r) later h = refl

-- A name between double brackets is the first reference when no `[` stands in front and no `]`
-- inside, and the others are those of the text behind it.
pub extract_bracketed_references-append :
    (a inside after : Text)
    → Lacks b'[' a
    → Lacks b']' inside
    → trim inside ≢ []
    → extract_bracketed_references (a ++ (opening ++ (inside ++ (closing ++ after))))
      ≡ trim inside ∷ extract_bracketed_references after
unfolding extract_bracketed_references
extract_bracketed_references-append a inside after h k ne =
    let block = a ++ (opening ++ (inside ++ (closing ++ after))) in
    let rest = inside ++ (closing ++ after) in
    let e = split_once-append b'[' (codes "[") a rest h in
    let e' = split_once-append b']' (codes "]") inside after k in
    let l = opening_shorter block a rest e in
    let m = shorter closing rest inside after e' in
    one_round (length block) block a rest inside after e e'
    ∙ ap (add_reference (trim inside))
        (fuel_enough (length block) (suc (length after)) after (omega arith) (omega arith))
    ∙ add_reference_cons (trim inside) _ ne
