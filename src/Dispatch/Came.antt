-- ===== src/Dispatch/Came.antt =====
-- How far a dispatch came, and the repository behind it.
use infernal_pf2e_parser_sim.Base.{
  true, List, [], ◌∷◌, ◌++◌, map, ◌≡◌, ◌≢◌, ◌⊎◌, inl, inr, refl, sym, ap, Bool_clash, ◌∙◌,
}
use infernal_pf2e_parser_sim.Std.Text.{Text, text_eq}
use infernal_pf2e_parser_sim.Domain.{ParserError, SourceReference, Candidate, ParseOutcome}
use infernal_pf2e_parser_sim.Result.{Result, ok, ok-injective}
use infernal_pf2e_parser_sim.Codec.{Codec}
use infernal_pf2e_parser_sim.Kernel.{KernelPort, CandidateRepository, World, Call}
use infernal_pf2e_parser_sim.Dispatch.{DispatchOutcome, dispatch, parse_action}
use infernal_pf2e_parser_sim.Dispatch.Scope.{parse_input_scope}
use infernal_pf2e_parser_sim.Dispatch.Calls.{
  Submits, none_left, refused, accepted, Dispatches, unknown, malformed, not_parsed, not_admitted,
  admitted, admission, parse_at, dispatch-Explained,
}

module _ (codec : Codec) (port : KernelPort) where
  -- Calls that were made, up to the first refusal, are the first of the admissions.
  Submits-rest :
      {source : SourceReference} {h : List Call} {cs : List Candidate}
      {r : Result ParserError (Unit {0})} {calls : List Call}
      → Submits codec port source h cs r calls
      → (rest : List Call) × (calls ++ rest ≡ map (admission codec port source) cs)
        × (r ≡ ok tt → rest ≡ [])
  Submits-rest none_left = ([], refl, λ _. refl)
  Submits-rest {source} (refused {h} {c} {cs} e) =
      (map (admission codec port source) cs, refl, λ h. cc)
  Submits-rest {source} (accepted {h} {c} {cs} e s) =
      let (rest, made, all) = Submits-rest s in
      (rest, ap (λ calls. admission codec port source c ∷ calls) made, all)

  module _ {R : Type 0} (repository : CandidateRepository R) (action scope : Text)
      (w : World R) where
    -- a dispatch that came to the admissions
    pub record Came (r : Result ParserError DispatchOutcome) (st : R) (calls : List Call)
        : Type 0 where
      pub source : SourceReference
      pub outcome : ParseOutcome
      pub read : parse_input_scope codec scope ≡ ok source
      pub parsed : (parse_at codec port repository source w.store).0 ≡ ok outcome
      pub store : st ≡ (parse_at codec port repository source w.store).1
      pub rest : List Call
      pub made : calls ++ rest ≡ map (admission codec port outcome.source) outcome.candidates
      pub all :
          (o : DispatchOutcome)
          → r ≡ ok o
          → (rest ≡ []) × (o.was_already_processed ≡ outcome.was_already_processed)

    pub Dispatches-Came :
        {r : Result ParserError DispatchOutcome} {st : R} {calls : List Call}
        → Dispatches codec port repository action scope w r st calls
        → Came r st calls ⊎ ((calls ≡ []) × ((o : DispatchOutcome) → r ≢ ok o))
    Dispatches-Came (unknown _) = inr (refl, λ o h. cc)
    Dispatches-Came (malformed _ _) = inr (refl, λ o h. cc)
    Dispatches-Came (not_parsed _ _ _) = inr (refl, λ o h. cc)
    Dispatches-Came (not_admitted {source} {outcome} {e} {calls} known read parsed s) =
        let (rest, made, all) = Submits-rest s in
        inl (record {
          source = source;
          outcome = outcome;
          read = read;
          parsed = parsed;
          store = refl;
          rest = rest;
          made = made;
          all = λ o h. cc;
        })
    Dispatches-Came (admitted {source} {outcome} {calls} known read parsed s) =
        let (rest, made, all) = Submits-rest s in
        inl (record {
          source = source;
          outcome = outcome;
          read = read;
          parsed = parsed;
          store = refl;
          rest = rest;
          made = made;
          all = λ o h. (
            all refl,
            sym (ap (λ (o : DispatchOutcome). o.was_already_processed) (ok-injective h)),
          );
        })

module _ (codec : Codec) (port : KernelPort) {R : Type 0} (repository : CandidateRepository R)
    (action scope : Text) (w : World R) where
  -- the repository behind a request that it is asked about
  Dispatches-store :
      {r : Result ParserError DispatchOutcome} {st : R} {calls : List Call}
      {source : SourceReference}
      → text_eq action parse_action ≡ true
      → parse_input_scope codec scope ≡ ok source
      → Dispatches codec port repository action scope w r st calls
      → st ≡ (parse_at codec port repository source w.store).1
  Dispatches-store known read (unknown e) = Bool_clash (text_eq action parse_action) known e
  Dispatches-store known read (malformed _ e) = cc
  Dispatches-store known read (not_parsed {source} _ e _) =
      ap (λ (s : SourceReference). (parse_at codec port repository s w.store).1)
        (ok-injective (sym e ∙ read))
  Dispatches-store known read (not_admitted {source} _ e _ _) =
      ap (λ (s : SourceReference). (parse_at codec port repository s w.store).1)
        (ok-injective (sym e ∙ read))
  Dispatches-store known read (admitted {source} _ e _ _) =
      ap (λ (s : SourceReference). (parse_at codec port repository s w.store).1)
        (ok-injective (sym e ∙ read))

  pub dispatch-store :
      (source : SourceReference)
      → text_eq action parse_action ≡ true
      → parse_input_scope codec scope ≡ ok source
      → (dispatch codec repository port action scope w).1.store
        ≡ (parse_at codec port repository source w.store).1
  dispatch-store source known read =
      Dispatches-store known read (dispatch-Explained codec port repository action scope w).2
