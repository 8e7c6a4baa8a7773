-- ===== src/Result.antt =====
-- Rust's `Result`, with the error type first, and the chains that `?` makes of it.
use infernal_pf2e_parser_sim.Base.{◌≡◌, refl, ◌⊎◌, inl, inr, Option, none, some}

pub data Result {e a} (Err : Type e) (Val : Type a) : Type (e ⊔ a) where
  err : Err → Result Err Val
  ok : Val → Result Err Val

-- `Result::map_err`
abbrev pub map_err {e d a} :
    {Err : Type e} {Other : Type d} {Val : Type a}
    → (Err → Other)
    → Result Err Val
    → Result Other Val
map_err convert (err why) = err (convert why)
map_err convert (ok v) = ok v

-- `Option::ok_or`
abbrev pub ok_or {e a} : {Err : Type e} {Val : Type a} → Option Val → Err → Result Err Val
ok_or none why = err why
ok_or (some v) why = ok v

-- the early return of `?`
abbrev pub ◌>>=◌ {e a b} :
    {Err : Type e} {Val : Type a} {Next : Type b}
    → Result Err Val
    → (Val → Result Err Next)
    → Result Err Next
err why >>= next = err why
ok v >>= next = next v

-- the same by a name, for modules whose chains are of another kind
abbrev pub and_then {e a b} :
    {Err : Type e} {Val : Type a} {Next : Type b}
    → Result Err Val
    → (Val → Result Err Next)
    → Result Err Next
and_then r next = r >>= next

infixl 5 ◌>>=◌
pub Result-cases {e a} :
    {Err : Type e} {Val : Type a} (r : Result Err Val)
    → ((v : Val) × (r ≡ ok v)) ⊎ ((why : Err) × (r ≡ err why))
Result-cases (err why) = inr (why, refl)
Result-cases (ok v) = inl (v, refl)

pub err-injective {e a} :
    {Err : Type e} {Val : Type a} {w x : Err} → ◌≡◌ {A = Result Err Val} (err w) (err x) → w ≡ x
err-injective h = cc

pub ok-injective {e a} :
    {Err : Type e} {Val : Type a} {v w : Val} → ◌≡◌ {A = Result Err Val} (ok v) (ok w) → v ≡ w
ok-injective h = cc

-- A chain that succeeds has a first part that succeeds.
pub parts_of_chain {e a b} :
    {Err : Type e} {Val : Type a} {Next : Type b} {last : Next} (next : Val → Result Err Next)
    (first : Result Err Val)
    → (first >>= next) ≡ ok last
    → (v : Val) × (first ≡ ok v) × (next v ≡ ok last)
parts_of_chain next (err why) h = cc
parts_of_chain next (ok v) h = (v, refl, h)
