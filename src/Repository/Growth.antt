-- ===== src/Repository/Growth.antt =====
-- Tables that only grow by new runs.
use infernal_pf2e_parser_sim.Base.{
  true, false, List, [], ◌∷◌, filter, filter-append, ◌≡◌, refl, ◌∙◌, All, append-nil, Bool_clash,
  Bool-cases, inl, inr,
}
use infernal_pf2e_parser_sim.Repository.Schema.{
  RunKey, RunRow, CandidateRow, Tables, together, key_eq, has_run, rows_of,
}
use infernal_pf2e_parser_sim.Repository.Consistent.{key_eq-eq, key_eq_refl, any-append}

-- the rows of a run in its table
abbrev pub runs_of : RunKey → List RunRow → List RunRow
runs_of k = filter (λ (r : RunRow). key_eq r.key k)

-- Runs stay, with all columns of their rows, and so do the candidates of each; only candidates of
-- new runs are added.
pub record Extends (t t' : Tables) : Type 0 where
  pub columns : (k : RunKey) → has_run k t.runs ≡ true → runs_of k t'.runs ≡ runs_of k t.runs
  pub runs : (k : RunKey) → has_run k t.runs ≡ true → has_run k t'.runs ≡ true
  pub rows :
      (k : RunKey) → has_run k t.runs ≡ true → rows_of k t'.candidates ≡ rows_of k t.candidates

pub Extends-refl : (t : Tables) → Extends t t
Extends-refl t = record { columns = λ k h. refl; runs = λ k h. h; rows = λ k h. refl }

pub Extends-trans : {s t v : Tables} → Extends s t → Extends t v → Extends s v
Extends-trans a b = record {
  columns = λ k h. b.columns k (a.runs k h) ∙ a.columns k h;
  runs = λ k h. b.runs k (a.runs k h);
  rows = λ k h. b.rows k (a.runs k h) ∙ a.rows k h;
}

-- A run that is not there was not there before.
pub absent_before :
    {t t' : Tables} (k : RunKey)
    → Extends t t'
    → has_run k t'.runs ≡ false
    → has_run k t.runs ≡ false
absent_before {t} {t'} k e new = elim (Bool-cases (has_run k t.runs)) [
  | inl h ↦ Bool_clash (has_run k t'.runs) (e.runs k h) new
  | inr h ↦ h
]

-- the rows of a transaction that belong to its own run
abbrev pub OfRun : RunKey → List CandidateRow → Type 0
OfRun k = All (λ (r : CandidateRow). r.key ≡ k)

pub rows_of_own : (k : RunKey) (rows : List CandidateRow) → OfRun k rows → rows_of k rows ≡ rows
rows_of_own k [] h = refl
rows_of_own k (r ∷ rows) (e, h) = rw (e, key_eq_refl k, rows_of_own k rows h) refl

rows_of_other :
    (k k' : RunKey) (rows : List CandidateRow)
    → OfRun k rows
    → key_eq k k' ≡ false
    → rows_of k' rows ≡ []
rows_of_other k k' [] h f = refl
rows_of_other k k' (r ∷ rows) (e, h) f = rw (e, f) (rows_of_other k k' rows h f)

runs_of_other :
    (k k' : RunKey) (runs : List RunRow)
    → All (λ (r : RunRow). r.key ≡ k) runs
    → key_eq k k' ≡ false
    → runs_of k' runs ≡ []
runs_of_other k k' [] h f = refl
runs_of_other k k' (r ∷ runs) (e, h) f = rw (e, f) (runs_of_other k k' runs h f)

-- Committing the rows of a new run extends the tables.
pub Extends-together :
    (t p : Tables) (k : RunKey)
    → All (λ (r : RunRow). r.key ≡ k) p.runs
    → OfRun k p.candidates
    → has_run k t.runs ≡ false
    → Extends t (together t p)
Extends-together t p k mine own new = record {
  columns = λ k' h.
      filter-append (λ (r : RunRow). key_eq r.key k') t.runs p.runs
      ∙ rw (runs_of_other k k' p.runs mine (other_key k' h)) (append-nil _);
  runs = λ k' h. any-append (λ (r : RunRow). key_eq r.key k') t.runs p.runs ∙ rw h refl;
  rows = λ k' h.
      filter-append (λ (r : CandidateRow). key_eq r.key k') t.candidates p.candidates
      ∙ rw (rows_of_other k k' p.candidates own (other_key k' h)) (append-nil _);
}
  where
    other_key : (k' : RunKey) → has_run k' t.runs ≡ true → key_eq k k' ≡ false
    other_key k' h = elim (Bool-cases (key_eq k k')) [
      | inl e ↦ Bool_clash (has_run k' t.runs) h (rw (key_eq-eq k k' e) at new)
      | inr e ↦ e
    ]
