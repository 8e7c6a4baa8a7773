-- ===== src/Startup/Steps.antt =====
-- What the process asks of the outside while it starts, and computations that ask.
use infernal_pf2e_parser_sim.Base.{ℕ, List, [], ◌∷◌, ◌++◌}
use infernal_pf2e_parser_sim.Std.Text.{Text}
use infernal_pf2e_parser_sim.Domain.{ParserError}
use infernal_pf2e_parser_sim.Result.{Result}
use infernal_pf2e_parser_sim.Stateful.{Stateful}

pub data Step : Type 0 where
  -- to a URL, for a pod, with its token
  ask_challenge : Text → Text → Text → Step
  -- to a URL, with a challenge, an endpoint, a pod and its token
  submit_enrollment : Text → List ℕ → Text → Text → Text → Step
  subscribe : Text → Step
  open_pool : Text → Step
  check_connection migrate : Step

-- the steps taken so far, oldest first
abbrev pub Starting : Type 0 → Type 0
Starting A = Stateful (List Step) ParserError A

-- A step is answered from the steps before it, and recorded.
abbrev pub ask : {A : Type 0} → Step → (List Step → Result ParserError A) → Starting A
ask step answer steps = (answer steps, steps ++ step ∷ [])
