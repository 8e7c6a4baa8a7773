-- ===== src/Dispatch/Calls.antt =====
-- What `dispatch` may ask of the kernel, as relations between its result and its calls.
use infernal_pf2e_parser_sim.Base.{
  true, false, List, [], ◌∷◌, ◌++◌, ◌≡◌, refl, sym, ◌∙◌, ap, subst, append-nil, append_assoc,
  length, inl, inr, Bool-cases,
}
use infernal_pf2e_parser_sim.Std.Text.{Text, text_eq}
use infernal_pf2e_parser_sim.Domain.{
  ParserError, CandidateError, unknown_action, candidate, SourceReference, Candidate, ParseOutcome,
}
use infernal_pf2e_parser_sim.Result.{Result, ok, err, Result-cases, map_err}
use infernal_pf2e_parser_sim.Codec.{Codec}
use infernal_pf2e_parser_sim.Kernel.{
  KernelPort, CandidateRepository, World, Call, submit_request, ask_parse_once,
}
use infernal_pf2e_parser_sim.Stateful.{◌>>=◌, >>=-ok, >>=-err}
use infernal_pf2e_parser_sim.Dispatch.{
  DispatchOutcome, submit_all, submit_outcome, handle_parse, dispatch, admit_action, parse_action,
}
use infernal_pf2e_parser_sim.Dispatch.Scope.{admit_scope_for, parse_input_scope, parser_version}

module _ (codec : Codec) (port : KernelPort) where
  -- the admission of one candidate
  abbrev pub admission : SourceReference → Candidate → Call
  admission source c = submit_request admit_action (admit_scope_for codec source c)

  abbrev pub answer_to : List Call → SourceReference → Candidate → Result ParserError (Unit {0})
  answer_to h source c = port.submit_request h admit_action (admit_scope_for codec source c)

  -- The candidates are submitted in order, each after the ones before it were accepted, and the
  -- first refusal is the last call.
  pub data Submits (source : SourceReference)
      : List Call → List Candidate → Result ParserError (Unit {0}) → List Call → Type 0 where
    none_left : {h : List Call} → Submits source h [] (ok tt) []
    refused :
        {h : List Call} {c : Candidate} {cs : List Candidate} {e : ParserError}
        → answer_to h source c ≡ err e
        → Submits source h (c ∷ cs) (err e) (admission source c ∷ [])
    accepted :
        {h : List Call} {c : Candidate} {cs : List Candidate} {r : Result ParserError (Unit {0})}
        {calls : List Call}
        → answer_to h source c ≡ ok tt
        → Submits source (h ++ admission source c ∷ []) cs r calls
        → Submits source h (c ∷ cs) r (admission source c ∷ calls)

  module _ {R : Type 0} (repository : CandidateRepository R) where
    submit_all-Submits :
        (source : SourceReference) (cs : List Candidate) (w : World R)
        → (calls : List Call) × ((submit_all codec repository port source cs w).1
            ≡ record w { calls = w.calls ++ calls })
          × Submits source w.calls cs (submit_all codec repository port source cs w).0 calls
    unfolding submit_all
    submit_all-Submits source [] w = ([], rw append-nil refl, none_left)
    submit_all-Submits source (c ∷ cs) w = elim (Result-cases (answer_to w.calls source c)) [
      | inr (e, refusal) ↦ (admission source c ∷ [], rw refusal refl, rw refusal (refused refusal))
      | inl (unit, acceptance) ↦
          let w1 = record w { calls = w.calls ++ admission source c ∷ [] } in
          let (calls, final, rest) = submit_all-Submits source cs w1 in
          (
            admission source c ∷ calls,
            rw acceptance (final ∙ rw append_assoc refl),
            rw acceptance (accepted acceptance rest),
          )
    ]

    abbrev pub parse_at : SourceReference → R → Result CandidateError ParseOutcome × R
    parse_at source store = repository.parse_once parser_version source store

    -- What a dispatch from `w` may return, the repository's state behind it, and its calls.
    pub data Dispatches (action scope : Text) (w : World R)
        : Result ParserError DispatchOutcome → R → List Call → Type 0 where
      unknown :
          text_eq action parse_action ≡ false
          → Dispatches action scope w (err (unknown_action action)) w.store []
      malformed :
          {e : ParserError}
          → text_eq action parse_action ≡ true
          → parse_input_scope codec scope ≡ err e
          → Dispatches action scope w (err e) w.store []
      not_parsed :
          {source : SourceReference} {e : CandidateError}
          → text_eq action parse_action ≡ true
          → parse_input_scope codec scope ≡ ok source
          → (parse_at source w.store).0 ≡ err e
          → Dispatches action scope w (err (candidate e)) (parse_at source w.store).1 []
      not_admitted :
          {source : SourceReference} {outcome : ParseOutcome} {e : ParserError} {calls : List Call}
          → text_eq action parse_action ≡ true
          → parse_input_scope codec scope ≡ ok source
          → (parse_at source w.store).0 ≡ ok outcome
          → Submits outcome.source w.calls outcome.candidates (err e) calls
          → Dispatches action scope w (err e) (parse_at source w.store).1 calls
      admitted :
          {source : SourceReference} {outcome : ParseOutcome} {calls : List Call}
          → text_eq action parse_action ≡ true
          → parse_input_scope codec scope ≡ ok source
          → (parse_at source w.store).0 ≡ ok outcome
          → Submits outcome.source w.calls outcome.candidates (ok tt) calls
          → Dispatches action scope w
              (ok (record {
                candidate_count = length outcome.candidates;
                was_already_processed = outcome.was_already_processed;
              }))
              (parse_at source w.store).1
              calls

    -- what is to be shown of a dispatch, from its result and its final state
    abbrev pub Explained :
        Text → Text → World R → Result ParserError DispatchOutcome × World R → Type 0
    Explained action scope w (r, w') =
        (calls : List Call) × (w'.calls ≡ w.calls ++ calls)
        × Dispatches action scope w r w'.store calls

    move_store :
        {action scope : Text} {w : World R} {st st' : R} {calls : List Call}
        (r : Result ParserError DispatchOutcome)
        → st ≡ st'
        → Dispatches action scope w r st calls
        → Dispatches action scope w r st' calls
    move_store {action} {scope} {w} {calls} r e =
        subst (λ (st : R). Dispatches action scope w r st calls) e

    module _ (action scope : Text) (w : World R) (known : text_eq action parse_action ≡ true) where
      module _ (source : SourceReference) (read : parse_input_scope codec scope ≡ ok source) where
        submit_outcome-Explained :
            (outcome : ParseOutcome)
            → (parse_at source w.store).0 ≡ ok outcome
            → Explained action scope w (
                submit_outcome codec repository port outcome
                  (record w { store = (parse_at source w.store).1 }))
        unfolding submit_outcome
        submit_outcome-Explained outcome parsed =
            let w1 = record w { store = (parse_at source w.store).1 } in
            let submit = submit_all codec repository port outcome.source outcome.candidates in
            let (calls, final, sub) = submit_all-Submits outcome.source outcome.candidates w1 in
            let calls_made = ap (λ (v : World R). v.calls) final in
            let kept = sym (ap (λ (v : World R). v.store) final) in
            elim (Result-cases (submit w1).0) [
              | inl (unit, e) ↦
                  rw (>>=-ok submit _ w1 e) (
                    calls,
                    calls_made,
                    move_store _ kept (admitted known read parsed (rw e at sub)),
                  )
              | inr (why, e) ↦ rw (>>=-err submit _ w1 e) (
                calls,
                calls_made,
                move_store _ kept (not_admitted known read parsed (rw e at sub)),
              )
            ]

        parsed-Explained : Explained action scope w (
            (ask_parse_once repository parser_version source
                >>= submit_outcome codec repository port)
              w)
        parsed-Explained =
            let ask = ask_parse_once repository parser_version source in
            elim (Result-cases (parse_at source w.store).0) [
              | inl (outcome, e) ↦
                  rw
                    (>>=-ok ask (submit_outcome codec repository port) w (ap (map_err candidate) e))
                    (submit_outcome-Explained outcome e)
              | inr (why, e) ↦
                  rw
                    (>>=-err ask (submit_outcome codec repository port) w
                      (ap (map_err candidate) e))
                    ([], rw append-nil refl, not_parsed known read e)
            ]

      handle_parse-Explained : Explained action scope w (handle_parse codec repository port scope w)
      unfolding handle_parse
      handle_parse-Explained = elim (Result-cases (parse_input_scope codec scope)) [
        | inl (source, e) ↦ rw e (parsed-Explained source e)
        | inr (why, e) ↦ rw e ([], rw append-nil refl, malformed known e)
      ]

    -- Whatever the kernel and the repository answer, a dispatch does one of five things: it
    -- refuses an unknown action, or a malformed scope, with no call and the repository untouched;
    -- passes on the repository's error with no call; ends at the first refused admission; or has
    -- every candidate's admission accepted, in order, and counts them.
    pub dispatch-Explained :
        (action scope : Text) (w : World R)
        → Explained action scope w (dispatch codec repository port action scope w)
    unfolding dispatch
    dispatch-Explained action scope w = elim (Bool-cases (text_eq action parse_action)) [
      | inl e ↦ rw e (handle_parse-Explained action scope w e)
      | inr e ↦ rw e ([], rw append-nil refl, unknown e)
    ]
