-- ===== src/Stateful.antt =====
-- Computations that may fail, with their effects on a state: the effects stay when they fail.
use infernal_pf2e_parser_sim.Base.{◌≡◌, ap}
use infernal_pf2e_parser_sim.Result.{Result, ok, err}

abbrev pub Stateful : Type 0 → Type 0 → Type 0 → Type 0
Stateful S Err A = S → Result Err A × S

module _ {S Err : Type 0} where
  abbrev pub pure : {A : Type 0} → A → Stateful S Err A
  pure a s = (ok a, s)

  abbrev pub fail : {A : Type 0} → Err → Stateful S Err A
  fail e s = (err e, s)

  abbrev pub lift : {A : Type 0} → Result Err A → Stateful S Err A
  lift r s = (r, s)

  -- what a chain does with the result of its first part
  abbrev pub continue :
      {A B : Type 0} → (A → Stateful S Err B) → Result Err A → S → Result Err B × S
  continue f (ok a) s = f a s
  continue f (err e) s = (err e, s)

  infixl 5 ◌>>=◌ ◌>>◌
  abbrev pub ◌>>=◌ : {A B : Type 0} → Stateful S Err A → (A → Stateful S Err B) → Stateful S Err B
  ◌>>=◌ m f s = let (r, s') = m s in continue f r s'

  abbrev pub ◌>>◌ : {A B : Type 0} → Stateful S Err A → Stateful S Err B → Stateful S Err B
  m >> k = m >>= λ _. k

  -- A chain goes on with the value of its first part, or ends with its error.
  module _ {A B : Type 0} (m : Stateful S Err A) (f : A → Stateful S Err B) (s : S) where
    pub >>=-ok : {a : A} → (m s).0 ≡ ok a → (m >>= f) s ≡ f a (m s).1
    >>=-ok e = ap (λ (r : Result Err A). continue f r (m s).1) e

    pub >>=-err : {why : Err} → (m s).0 ≡ err why → (m >>= f) s ≡ (err why, (m s).1)
    >>=-err e = ap (λ (r : Result Err A). continue f r (m s).1) e
