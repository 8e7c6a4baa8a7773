-- ===== src/Startup/Follows.antt =====
-- The plan of a start, and what it is to follow a plan.
use infernal_pf2e_parser_sim.Base.{
  Bool, true, false, ◌&&◌, Option, none, some, List, [], ◌∷◌, ◌++◌, map, ◌≡◌, refl, sym, ap, ◌∙◌,
  subst, append-nil, append_assoc, map-append, if◌then◌else◌, inl, inr,
}
use infernal_pf2e_parser_sim.Std.Text.{Text}
use infernal_pf2e_parser_sim.Domain.{ParserError}
use infernal_pf2e_parser_sim.Result.{Result, ok, err, Result-cases, ok-injective}
use infernal_pf2e_parser_sim.Stateful.{pure, fail, lift, ◌>>=◌, >>=-ok, >>=-err}
use infernal_pf2e_parser_sim.Startup.{service_endpoint_env, pod_uid_env, enrollment_challenge_env}
use infernal_pf2e_parser_sim.Startup.Steps.{
  Step, Starting, ask, ask_challenge, submit_enrollment, subscribe, open_pool, check_connection,
  migrate,
}

pub data Kind : Type 0 where
  challenging enrolling subscribing opening checking migrating : Kind

abbrev pub kind : Step → Kind
kind (ask_challenge _ _ _) = challenging
kind (submit_enrollment _ _ _ _ _) = enrolling
kind (subscribe _) = subscribing
kind (open_pool _) = opening
kind check_connection = checking
kind migrate = migrating

abbrev pub is_some {ℓ} : {A : Type ℓ} → Option A → Bool
is_some none = false
is_some (some _) = true

-- the steps of a start, from its environment
abbrev pub enrolls : (Text → Option Text) → Bool
enrolls env = is_some (env service_endpoint_env) && is_some (env pod_uid_env)

abbrev pub challenge_plan : (Text → Option Text) → List Kind
challenge_plan env = if is_some (env enrollment_challenge_env) then [] else challenging ∷ []

abbrev pub enrollment_plan : (Text → Option Text) → List Kind
enrollment_plan env = if enrolls env then challenge_plan env ++ enrolling ∷ [] else []

abbrev pub plan : (Text → Option Text) → List Kind
plan env = enrollment_plan env ++ subscribing ∷ opening ∷ checking ∷ migrating ∷ []

Err_ok_clash {ℓ} :
    {A : Type 0} {P : Type ℓ} {e : ParserError} {a : A}
    → ◌≡◌ {A = Result ParserError A} (err e) (ok a)
    → P
Err_ok_clash h = cc

module _ {A : Type 0} where
  abbrev pub Anything : A → Type 0
  Anything _ = Unit

  -- A computation takes steps of these kinds, in this order, as far as it comes, and all of them
  -- if it succeeds, with a value of which `Q` holds.
  pub record Keeps (ks : List Kind) (Q : A → Type 0) (m : Starting A) (before : List Step)
      : Type 0 where
    pub steps : List Step
    pub after : (m before).1 ≡ before ++ steps
    pub rest : List Kind
    pub planned : map kind steps ++ rest ≡ ks
    pub done : (a : A) → (m before).0 ≡ ok a → (rest ≡ []) × Q a

  abbrev pub Follows : List Kind → (A → Type 0) → Starting A → Type 0
  Follows ks Q m = (before : List Step) → Keeps ks Q m before

  pub lift-Follows :
      (Q : A → Type 0) (r : Result ParserError A)
      → ((a : A) → r ≡ ok a → Q a)
      → Follows [] Q (lift r)
  lift-Follows Q r q before = record {
    steps = [];
    after = sym (append-nil before);
    rest = [];
    planned = refl;
    done = λ a e. (refl, q a e);
  }

  pub pure-Follows : (Q : A → Type 0) (a : A) → Q a → Follows [] Q (pure a)
  pure-Follows Q a q = lift-Follows Q (ok a) (λ b h. subst Q (ok-injective h) q)

  pub fail-Follows : (ks : List Kind) (Q : A → Type 0) (e : ParserError) → Follows ks Q (fail e)
  fail-Follows ks Q e before = record {
    steps = [];
    after = sym (append-nil before);
    rest = ks;
    planned = refl;
    done = λ a h. Err_ok_clash h;
  }

  pub ask-Follows :
      (Q : A → Type 0) (s : Step) (answer : List Step → Result ParserError A)
      → ((a : A) → Q a)
      → Follows (kind s ∷ []) Q (ask s answer)
  ask-Follows Q s answer q before = record {
    steps = s ∷ [];
    after = refl;
    rest = [];
    planned = refl;
    done = λ a e. (refl, q a);
  }

module _ {A B : Type 0} (ks ls : List Kind) (Q : A → Type 0) (P : B → Type 0) (m : Starting A)
    (f : A → Starting B) where
  pub chain-Follows :
      Follows ks Q m → ((a : A) → Q a → Follows ls P (f a)) → Follows (ks ++ ls) P (m >>= f)
  chain-Follows first next before =
      let k = first before in
      elim (Result-cases (m before).0) [
        | inr (why, e) ↦ record {
          steps = k.steps;
          after =
              ap (λ (x : Result ParserError B × List Step). x.1) (>>=-err m f before e) ∙ k.after;
          rest = k.rest ++ ls;
          planned = sym (append_assoc (map kind k.steps) k.rest ls) ∙ ap (λ xs. xs ++ ls) k.planned;
          done = λ b h.
              Err_ok_clash (
                sym (ap (λ (x : Result ParserError B × List Step). x.0) (>>=-err m f before e))
                ∙ h);
        }
        | inl (a, e) ↦
            let l = next a (k.done a e).1 (m before).1 in
            let whole = >>=-ok m f before e in
            record {
              steps = k.steps ++ l.steps;
              after =
                  ap (λ (x : Result ParserError B × List Step). x.1) whole
                  ∙ l.after
                  ∙ ap (λ xs. xs ++ l.steps) k.after
                  ∙ append_assoc before k.steps l.steps;
              rest = l.rest;
              planned =
                  rw
                    (
                      map-append kind k.steps l.steps,
                      append_assoc (map kind k.steps) (map kind l.steps) l.rest,
                      l.planned,
                    )
                    (ap (λ xs. xs ++ ls)
                      (sym (append-nil (map kind k.steps))
                        ∙ subst (λ (r : List Kind). map kind k.steps ++ r ≡ ks) (k.done a e).0
                            k.planned));
              done = λ b h.
                  l.done b (ap (λ (x : Result ParserError B × List Step). x.0) (sym whole) ∙ h);
            }
      ]
