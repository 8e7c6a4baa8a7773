-- ===== src/Repository/Retry.antt =====
-- A parse that is asked for again, and one whose source has changed under its version.
use infernal_pf2e_parser_sim.Base.{
  ℕ, append-nil, suc, Bool, true, false, ◌||◌, List, [], ◌∷◌, map, filter, is_empty, ◌≡◌, ◌⊎◌, inl,
  inr, refl, subst, sym, ◌∙◌, Bool-cases, Bool_clash, arith,
}
use mathlib.Core.List.{Permᴰ}
use mathlib.Core.List.Permᴰ
use infernal_pf2e_parser_sim.Std.Text.{Text, trim}
use infernal_pf2e_parser_sim.Std.Text.Trim.{text_eq-eq}
use infernal_pf2e_parser_sim.Std.Unicode.{Unicode}
use infernal_pf2e_parser_sim.Domain.{
  SourceReference, Candidate, ParseOutcome, CandidateError, source_digest_mismatch, repository,
}
use infernal_pf2e_parser_sim.Result.{Result, ok, err, ok-injective}
use infernal_pf2e_parser_sim.Codec.{Codec}
use infernal_pf2e_parser_sim.Repository.{
  Engine, arrive, check_digests, key_of, in_transaction, parse_once,
}
use infernal_pf2e_parser_sim.Repository.Schema.{
  ListCodec, RunKey, RunRow, Tables, has_run, same_version, digest_eq, key_eq,
}
use infernal_pf2e_parser_sim.Repository.Consistent.{IsConsistent, key_eq-eq, text_eq_comm}
use infernal_pf2e_parser_sim.Repository.Growth.{Extends, Extends-refl}
use infernal_pf2e_parser_sim.Repository.Laws.{
  IsPostgres, IsOpen, arrive-IsOpen, statement_cases, together_none, dropped_result,
}
use infernal_pf2e_parser_sim.Repository.Settled.{Serves, Promises, Serves-Extends, idle}
use infernal_pf2e_parser_sim.Repository.Outcome.{parse_once-Settled}

module _ (codec : Codec) (lists : ListCodec) where
  -- The tables determine the candidates of a run up to their order.
  Serves_agree :
      {t : Tables} {k : RunKey} {cs ds : List Candidate}
      → Serves codec lists t k cs
      → Serves codec lists t k ds
      → Permᴰ cs ds
  Serves_agree {t} {k} {cs} {ds} v w =
      let same : v.stored ≡ w.stored = ok-injective (sym v.loaded ∙ w.loaded) in
      Permᴰ.trans v.same (rw same (Permᴰ.symm w.same))

  module _ (engine : Engine) ⦃u : Unicode⦄ (law : IsPostgres engine) (version : Text)
      (source : SourceReference) where
    -- When a parse has succeeded, then every later parse of the same source that succeeds, on
    -- tables that have grown by any other runs meanwhile, says that the source was already
    -- processed and returns the same candidates, with the same identifiers, up to their order.
    pub parse_once-retried :
        (t0 t1 : Tables) (n0 n1 : ℕ) (first second : ParseOutcome)
        → IsConsistent t0
        → IsConsistent t1
        → (parse_once engine codec lists version source (idle t0 n0)).0 ≡ ok first
        → Extends (parse_once engine codec lists version source (idle t0 n0)).1.committed t1
        → (parse_once engine codec lists version source (idle t1 n1)).0 ≡ ok second
        → (second.source ≡ first.source)
          × (second.was_already_processed ≡ true)
          × Permᴰ first.candidates second.candidates
    parse_once-retried t0 t1 n0 n1 first second c0 c1 e0 grown e1 =
        let k = key_of version source in
        let s0 = parse_once-Settled codec lists engine law t0 source version n0 c0 in
        let s1 = parse_once-Settled codec lists engine law t1 source version n1 c1 in
        let promised = subst (Promises codec lists engine t0 k source _) e0 s0.promises in
        let promised' = subst (Promises codec lists engine t1 k source _) e1 s1.promises in
        let known = Serves-Extends codec lists grown promised.1 in
        (
          promised'.0 ∙ sym promised.0,
          elim (Bool-cases second.was_already_processed) [
            | inl h ↦ h
            | inr h ↦ Bool_clash (has_run k t1.runs) known.ran (promised'.2 h).0
          ],
          Serves_agree (Serves-Extends codec lists s1.extends known) promised'.1,
        )

-- One more row does not help.
digests-cons :
    {A : Type 0} (digest : List ℕ) (digest_of : A → List ℕ) (keep : A → Bool) (r : A) (rs : List A)
    → check_digests digest (map digest_of (filter keep rs)) ≡ err source_digest_mismatch
    → check_digests digest (map digest_of (filter keep (r ∷ rs))) ≡ err source_digest_mismatch
unfolding check_digests
digests-cons digest digest_of keep r rs h = elim (Bool-cases (keep r)) [
  | inr e ↦ rw e h
  | inl e ↦ elim (Bool-cases (digest_eq (digest_of r) digest)) [
    | inl f ↦ rw (e, f) h
    | inr f ↦ rw (e, f) refl
  ]
]

-- A digest of the version that is not that of the source.
any_digest :
    (other : RunKey) (id : Text) (version : _) (digest : List ℕ) (runs : List RunRow)
    → has_run other runs ≡ true
    → same_version id version other ≡ true
    → digest_eq other.content_digest digest ≡ false
    → check_digests digest (
        map
          (λ (r : RunRow). r.key.content_digest)
          (filter (λ (r : RunRow). same_version id version r.key) runs))
      ≡ err source_digest_mismatch
unfolding check_digests
any_digest other id version digest [] has same differ = cc
any_digest other id version digest (r ∷ runs) has same differ =
    elim (Bool-cases (key_eq r.key other)) [
      | inl e ↦ rw (key_eq-eq r.key other e, same, differ) refl
      | inr e ↦
          digests-cons digest (λ (r : RunRow). r.key.content_digest)
            (λ (r : RunRow). same_version id version r.key) r runs
            (any_digest other id version digest runs (rw e at has) same differ)
    ]

-- whether one of the operations up to the comparison of the digests fails
abbrev pub fails_early : Engine → ℕ → Bool
fails_early engine n = engine.fails n || engine.fails (suc n) || engine.fails (suc (suc n))

-- the mismatch of the digests, or the failure of such an operation
abbrev pub Mismatches : Engine → ℕ → Result CandidateError ParseOutcome → Type 0
Mismatches engine n r =
    (r ≡ err source_digest_mismatch) ⊎ ((r ≡ err repository) × (fails_early engine n ≡ true))

module _ (codec : Codec) (lists : ListCodec) (engine : Engine) ⦃u : Unicode⦄
    (law : IsPostgres engine) (version : Text) (source : SourceReference) where
  -- Once a run of a version is committed, in tables that keep their constraints, a parse of that
  -- version with another digest and a text that is not blank, under whatever parser version, ends
  -- with the mismatch of the digests, unless one of the first three operations on the database
  -- fails, and then with the repository's error. PostgreSQL and the other users of the tables are
  -- as `IsPostgres` says.
  pub parse_once-mismatch :
      (t0 : Tables) (n : ℕ) (other : RunKey)
      → IsConsistent t0
      → is_empty (trim source.source_text) ≡ false
      → has_run other t0.runs ≡ true
      → same_version source.document_id.canonical source.document_version other ≡ true
      → digest_eq other.content_digest source.content_digest ≡ false
      → Mismatches engine n (parse_once engine codec lists version source (idle t0 n)).0
  unfolding parse_once in_transaction
  parse_once-mismatch t0 n other c present has same differ =
      let o0 : IsOpen t0 (idle t0 n) = record {
        consistent = c;
        with_own = rw (together_none t0) c;
        extends = Extends-refl t0;
      } in
      let o1 = arrive-IsOpen engine law o0 in
      let o2 = arrive-IsOpen engine law o1 in
      let o3 = arrive-IsOpen engine law o2 in
      let t3 = (arrive engine (arrive engine (arrive engine (idle t0 n)))).committed in
      rw
        (
          present,
          dropped_result
              (in_transaction engine codec lists (key_of version source) source (idle t0 n)),
        )
        (statement_cases engine (λ x. Mismatches engine n x.0) _ _ (idle t0 n)
          (λ f. inr (refl, rw f refl))
          λ _.
            statement_cases engine (λ x. Mismatches engine n x.0) _ _ _
              (λ f. inr (refl, ground (arith, f)))
              λ _.
                statement_cases engine (λ x. Mismatches engine n x.0) _ _ _
                  (λ f. inr (refl, ground (arith, f)))
                  λ _.
                    rw
                      (
                        append-nil t3.runs,
                        any_digest other source.document_id.canonical source.document_version
                            source.content_digest t3.runs (o3.extends.runs other has) same differ,
                      )
                      (inl refl))

  -- Once two runs of a version are committed with different digests, in tables that keep their
  -- constraints, every parse of that version with a text that is not blank ends in the mismatch of
  -- the digests, whatever digest it comes with, unless one of the first three operations on the
  -- database fails, and then with the repository's error. PostgreSQL and the other users of the
  -- tables are as `IsPostgres` says.
  pub parse_once-stuck :
      (t0 : Tables) (n : ℕ) (one other : RunKey)
      → IsConsistent t0
      → is_empty (trim source.source_text) ≡ false
      → has_run one t0.runs ≡ true
      → has_run other t0.runs ≡ true
      → same_version source.document_id.canonical source.document_version one ≡ true
      → same_version source.document_id.canonical source.document_version other ≡ true
      → digest_eq one.content_digest other.content_digest ≡ false
      → Mismatches engine n (parse_once engine codec lists version source (idle t0 n)).0
  parse_once-stuck t0 n one other c present has_one has_other same_one same_other differ =
      elim (Bool-cases (digest_eq one.content_digest source.content_digest)) [
        | inr e ↦ parse_once-mismatch t0 n one c present has_one same_one e
        | inl e ↦
            let f = text_eq-eq one.content_digest source.content_digest e in
            parse_once-mismatch t0 n other c present has_other same_other (
              text_eq_comm other.content_digest source.content_digest
              ∙ subst (λ d. digest_eq d other.content_digest ≡ false) f differ)
      ]
