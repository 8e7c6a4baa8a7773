-- ===== src/Dispatch/Retried.antt =====
-- Two dispatches of one request over the repository in PostgreSQL.
use infernal_pf2e_parser_sim.Base.{
  ℕ, true, List, [], ◌++◌, map, ◌≡◌, inl, inr, sym, subst, ap, ◌∙◌, append-nil,
}
use mathlib.Core.List.{Permᴰ}
use mathlib.Core.List.Permᴰ
use infernal_pf2e_parser_sim.Std.Text.{Text}
use infernal_pf2e_parser_sim.Std.Unicode.{Unicode}
use infernal_pf2e_parser_sim.Domain.{ParserError, SourceReference}
use infernal_pf2e_parser_sim.Result.{Result, ok, ok-injective}
use infernal_pf2e_parser_sim.Codec.{Codec}
use infernal_pf2e_parser_sim.Kernel.{KernelPort, World, Call}
use infernal_pf2e_parser_sim.Dispatch.{DispatchOutcome, dispatch}
use infernal_pf2e_parser_sim.Dispatch.Scope.{parser_version}
use infernal_pf2e_parser_sim.Dispatch.Calls.{admission, dispatch-Explained}
use infernal_pf2e_parser_sim.Repository.{Engine, Session, parse_once, postgres}
use infernal_pf2e_parser_sim.Repository.Schema.{ListCodec, Tables}
use infernal_pf2e_parser_sim.Repository.Consistent.{IsConsistent}
use infernal_pf2e_parser_sim.Repository.Growth.{Extends}
use infernal_pf2e_parser_sim.Repository.Laws.{IsPostgres}
use infernal_pf2e_parser_sim.Repository.Settled.{idle}
use infernal_pf2e_parser_sim.Repository.Retry.{parse_once-retried}
use infernal_pf2e_parser_sim.Dispatch.Came.{Came, Dispatches-Came}

perm_map {ℓ} :
    {A B : Type ℓ} (f : A → B) {xs ys : List A} → Permᴰ xs ys → Permᴰ (map f xs) (map f ys)
perm_map f Permᴰ.nil = Permᴰ.nil
perm_map f (Permᴰ.cons e p) = Permᴰ.cons (ap f e) (perm_map f p)
perm_map f (Permᴰ.swap p q) = Permᴰ.swap (ap f p) (ap f q)
perm_map f (Permᴰ.trans p q) = Permᴰ.trans (perm_map f p) (perm_map f q)

module _ (codec : Codec) (lists : ListCodec) (engine : Engine) ⦃u : Unicode⦄
    (law : IsPostgres engine) (port : KernelPort) (action scope : Text) where
  -- a dispatch behind these calls, on these tables
  abbrev pub attempt : List Call → Tables → ℕ → Result ParserError DispatchOutcome × World Session
  attempt h t n =
      dispatch codec (postgres engine codec lists) port action scope
        (record { calls = h; store = idle t n })

  -- Two dispatches that came to the admissions were about the same candidates.
  come_again :
      (t0 t1 : Tables) (n0 n1 : ℕ) (h0 h1 : List Call)
      → IsConsistent t0
      → IsConsistent t1
      → {r0 r1 : Result ParserError DispatchOutcome} {s0 s1 : Session} {made again : List Call}
      → (first : Came codec port
          (postgres engine codec lists)
          action
          scope
          (record { calls = h0; store = idle t0 n0 })
          r0
          s0
          made)
      → (second : Came codec port
          (postgres engine codec lists)
          action
          scope
          (record { calls = h1; store = idle t1 n1 })
          r1
          s1
          again)
      → Extends s0.committed t1
      → (second.outcome.source ≡ first.outcome.source)
        × (second.outcome.was_already_processed ≡ true)
        × Permᴰ first.outcome.candidates second.outcome.candidates
  come_again t0 t1 n0 n1 h0 h1 c0 c1 first second grown =
      let source : second.source ≡ first.source = ok-injective (sym second.read ∙ first.read) in
      parse_once-retried codec lists engine law parser_version first.source t0 t1 n0 n1
        first.outcome second.outcome c0 c1 first.parsed
        (subst (λ (s : Session). Extends s.committed t1) first.store grown)
        (subst
          (λ (x : SourceReference).
            (parse_once engine codec lists parser_version x (idle t1 n1)).0 ≡ ok second.outcome)
          source second.parsed)

  -- A dispatch is tried on tables that keep their constraints, and whether or not it succeeds,
  -- tried again later, when the tables have grown by any other runs and still keep their
  -- constraints; let this one succeed. Then every admission that the first attempt made is among
  -- those of the second, word for word, the identifiers of the candidates included; if the first
  -- has succeeded as well, the second made the same admissions again, in some order, and knew that
  -- the source was already processed. PostgreSQL and the other users of the tables are as
  -- `IsPostgres` says.
  pub dispatch-retried :
      (t0 t1 : Tables) (n0 n1 : ℕ) (h0 h1 : List Call) (o : DispatchOutcome)
      → IsConsistent t0
      → IsConsistent t1
      → Extends (attempt h0 t0 n0).1.store.committed t1
      → (attempt h1 t1 n1).0 ≡ ok o
      → (made again rest : List Call) × ((attempt h0 t0 n0).1.calls ≡ h0 ++ made)
        × ((attempt h1 t1 n1).1.calls ≡ h1 ++ again)
        × Permᴰ (made ++ rest) again
        × ((before : DispatchOutcome)
            → (attempt h0 t0 n0).0 ≡ ok before
            → (rest ≡ []) × (o.was_already_processed ≡ true))
  dispatch-retried t0 t1 n0 n1 h0 h1 o c0 c1 grown success =
      let repository = postgres engine codec lists in
      let w0 : World Session = record { calls = h0; store = idle t0 n0 } in
      let w1 : World Session = record { calls = h1; store = idle t1 n1 } in
      let (made, e0, d0) = dispatch-Explained codec port repository action scope w0 in
      let (again, e1, d1) = dispatch-Explained codec port repository action scope w1 in
      elim (Dispatches-Came codec port repository action scope w1 d1) [
        | inr (_, never) ↦ elim (never o success) [ ]
        | inl second ↦ elim (Dispatches-Came codec port repository action scope w0 d0) [
          | inr (nothing, never) ↦ (
            made,
            again,
            again,
            e0,
            e1,
            rw nothing (Permᴰ.refl again),
            λ b h. elim (never b h) [ ],
          )
          | inl first ↦
              let (same_source, known, same) =
                come_again t0 t1 n0 n1 h0 h1 c0 c1 first second grown in
              let (complete, flag) = second.all o success in
              let whole : again
                  ≡ map (admission codec port second.outcome.source) second.outcome.candidates =
                sym (append-nil again)
                ∙ subst
                    (λ rest.
                      again ++ rest
                      ≡ map (admission codec port second.outcome.source) second.outcome.candidates)
                    complete second.made in
              (
                made,
                again,
                first.rest,
                e0,
                e1,
                rw (first.made, whole, same_source)
                    (perm_map (admission codec port first.outcome.source) same),
                λ b h. ((first.all b h).0, flag ∙ known),
              )
        ]
      ]
