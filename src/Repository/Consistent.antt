-- ===== src/Repository/Consistent.antt =====
-- The constraints of migrations/0001_init.sql.
use infernal_pf2e_parser_sim.Base.{
  Bool, true, false, ◌||◌, ◌==◌, leb, length, ℤ, pos, negsuc, List, [], ◌∷◌, ◌++◌, any, ◌≡◌, refl,
  sym, ◌∙◌, arith, All, All-append, All-impl, Bool_clash, Bool-cases, inl, inr,
}
use infernal_pf2e_parser_sim.Std.Text.{Text, text_eq}
use infernal_pf2e_parser_sim.Std.Text.Trim.{text_eq-eq, text_eq_refl}
use infernal_pf2e_parser_sim.Repository.Schema.{
  RunKey, RunRow, CandidateRow, Tables, key_eq, eq_ℤ, has_run, has_candidate, rows_of,
}

eq_ℤ-eq : (a b : ℤ) → eq_ℤ a b ≡ true → a ≡ b
eq_ℤ-eq (pos a) (pos b) h = ground arith
eq_ℤ-eq (pos a) (negsuc b) h = cc
eq_ℤ-eq (negsuc a) (pos b) h = cc
eq_ℤ-eq (negsuc a) (negsuc b) h = ground arith

eq_ℤ_refl : (a : ℤ) → eq_ℤ a a ≡ true
eq_ℤ_refl (pos a) = ground arith
eq_ℤ_refl (negsuc a) = ground arith

pub key_eq-eq : (a b : RunKey) → key_eq a b ≡ true → a ≡ b
unfolding key_eq
key_eq-eq a b h = ground (
  arith,
  text_eq-eq a.document_id b.document_id,
  eq_ℤ-eq a.document_version b.document_version,
  text_eq-eq a.content_digest b.content_digest,
  text_eq-eq a.parser_version b.parser_version,
)

pub key_eq_refl : (k : RunKey) → key_eq k k ≡ true
unfolding key_eq
key_eq_refl k =
    rw
      (
        text_eq_refl k.document_id,
        eq_ℤ_refl k.document_version,
        text_eq_refl k.content_digest,
        text_eq_refl k.parser_version,
      )
      refl

module _ {A : Type 0} where
  pub any-append : (p : A → Bool) (xs ys : List A) → any p (xs ++ ys) ≡ (any p xs || any p ys)
  any-append p [] ys = refl
  any-append p (x ∷ xs) ys = ground (arith, any-append p xs ys)

  -- No two elements are equal by `eq`.
  abbrev pub IsDistinct : (A → A → Bool) → List A → Type 0
  IsDistinct eq [] = Unit
  IsDistinct eq (x ∷ xs) = (any (λ (y : A). eq y x) xs ≡ false) × IsDistinct eq xs

  pub IsDistinct-snoc :
      (eq : A → A → Bool)
      → ((a b : A) → eq a b ≡ eq b a)
      → (xs : List A) (x : A) → any (λ (y : A). eq y x) xs ≡ false
      → IsDistinct eq xs
      → IsDistinct eq (xs ++ x ∷ [])
  IsDistinct-snoc eq comm [] x h d = (refl, tt)
  IsDistinct-snoc eq comm (y ∷ xs) x h d = (
    any-append (λ (z : A). eq z y) xs (x ∷ []) ∙ ground (arith, comm x y, d.0),
    IsDistinct-snoc eq comm xs x (ground arith) d.1,
  )

  -- What stands behind elements is none of them.
  pub IsDistinct_later :
      (eq : A → A → Bool)
      → ((a b : A) → eq a b ≡ eq b a)
      → (xs : List A) (x : A) (ys : List A) → IsDistinct eq (xs ++ x ∷ ys)
      → any (λ (y : A). eq y x) xs ≡ false
  IsDistinct_later eq comm [] x ys d = refl
  IsDistinct_later eq comm (y ∷ xs) x ys d = ground (
    arith,
    comm x y,
    d.0,
    any-append (λ (z : A). eq z y) xs (x ∷ ys),
    IsDistinct_later eq comm xs x ys d.1,
  )

-- A Boolean test for equality is symmetric.
eq_comm :
    {A : Type 0} (eq : A → A → Bool)
    → ((a b : A) → eq a b ≡ true → a ≡ b)
    → ((a : A) → eq a a ≡ true)
    → (a b : A) → eq a b ≡ eq b a
eq_comm eq sound same a b = elim (Bool-cases (eq a b)) [
  | inl e ↦ rw (sound a b e) refl
  | inr e ↦ elim (Bool-cases (eq b a)) [
    | inl f ↦ Bool_clash (eq a a) (same a) (rw (sound b a f) at e)
    | inr f ↦ e ∙ sym f
  ]
]

pub key_eq_comm : (a b : RunKey) → key_eq a b ≡ key_eq b a
key_eq_comm = eq_comm key_eq key_eq-eq key_eq_refl

pub text_eq_comm : (a b : Text) → text_eq a b ≡ text_eq b a
text_eq_comm = eq_comm text_eq text_eq-eq text_eq_refl

abbrev run_eq : RunRow → RunRow → Bool
run_eq a b = key_eq a.key b.key

abbrev pub id_eq : CandidateRow → CandidateRow → Bool
id_eq a b = text_eq a.candidate_id b.candidate_id

-- the check of `parse_runs`, and that of `parsed_candidates`, whose confidence is in hundredths
abbrev pub StorableRun : RunRow → Type 0
StorableRun row = (length row.key.content_digest == 32) ≡ true

abbrev pub StorableRow : CandidateRow → Type 0
StorableRow row = leb row.confidence 100 ≡ true

-- The constraints of the migration: the primary keys of both tables, the reference of the second
-- to the first, and the check that each of them has. That a column is not null is in its type.
pub record IsConsistent (t : Tables) : Type 0 where
  pub digests : All StorableRun t.runs
  pub confidences : All StorableRow t.candidates
  pub owned : All (λ (r : CandidateRow). has_run r.key t.runs ≡ true) t.candidates
  pub runs : IsDistinct run_eq t.runs
  pub ids : IsDistinct id_eq t.candidates

-- Rows without a run cannot be.
pub rows_of-nil :
    (k : RunKey) (runs : List RunRow) (rows : List CandidateRow)
    → All (λ (r : CandidateRow). has_run r.key runs ≡ true) rows
    → has_run k runs ≡ false
    → rows_of k rows ≡ []
rows_of-nil k runs [] h none = refl
rows_of-nil k runs (r ∷ rows) (owned, h) none = elim (Bool-cases (key_eq r.key k)) [
  | inl e ↦ Bool_clash (has_run k runs) (rw (key_eq-eq r.key k e) at owned) none
  | inr e ↦ rw e (rows_of-nil k runs rows h none)
]

module _ (t : Tables) (c : IsConsistent t) where
  pub add_run-IsConsistent :
      (row : RunRow)
      → StorableRun row
      → has_run row.key t.runs ≡ false
      → IsConsistent (record t { runs = t.runs ++ row ∷ [] })
  add_run-IsConsistent row long new = record {
    digests = All-append StorableRun t.runs (row ∷ []) c.digests (long, tt);
    confidences = c.confidences;
    owned =
        All-impl _ _
          (λ (r : CandidateRow) h.
            any-append (λ (x : RunRow). key_eq x.key r.key) t.runs (row ∷ []) ∙ rw h refl)
          t.candidates c.owned;
    runs = IsDistinct-snoc run_eq (λ a b. key_eq_comm a.key b.key) t.runs row new c.runs;
    ids = c.ids;
  }

  pub add_candidate-IsConsistent :
      (row : CandidateRow)
      → StorableRow row
      → has_run row.key t.runs ≡ true
      → has_candidate row.candidate_id t.candidates ≡ false
      → IsConsistent (record t { candidates = t.candidates ++ row ∷ [] })
  add_candidate-IsConsistent row low run new = record {
    digests = c.digests;
    confidences = All-append StorableRow t.candidates (row ∷ []) c.confidences (low, tt);
    owned = All-append _ t.candidates (row ∷ []) c.owned (run, tt);
    runs = c.runs;
    ids =
        IsDistinct-snoc id_eq (λ a b. text_eq_comm a.candidate_id b.candidate_id) t.candidates row
          new c.ids;
  }
