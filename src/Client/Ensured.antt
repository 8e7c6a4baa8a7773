-- ===== src/Client/Ensured.antt =====
-- What `ensure_subscription` finds or makes.
use infernal_pf2e_parser_sim.Base.{List, Bool, true, false, any, Bool-cases, ◌≡◌, inl, inr}
use infernal_pf2e_parser_sim.Std.Text.{Text, text_eq}
use infernal_pf2e_parser_sim.Domain.{ParserError}
use infernal_pf2e_parser_sim.Result.{Result, ok, err, Result-cases}
use infernal_pf2e_parser_sim.Wire.{Json, Subscription}
use infernal_pf2e_parser_sim.Client.{
  Signing, Serializer, Moment, active_subscriptions, create_subscription, ensure_subscription,
}

module _ (signing : Signing) (serializer : Serializer) (json : Json) (authority : Text) where
  abbrev pub listed_for : Text → List Subscription → Bool
  listed_for event_type = any (λ (s : Subscription). text_eq s.event_type event_type)

  -- The creation, at the second moment, is only asked for when the list, at the first, has no
  -- subscription of that type.
  pub data Ensured (event_type : Text) (m m' : Moment signing.Signed)
      : Result ParserError (Unit {0}) → Type 0 where
    listed :
        {subscriptions : List Subscription}
        → active_subscriptions signing serializer json authority m ≡ ok subscriptions
        → listed_for event_type subscriptions ≡ true
        → Ensured event_type m m' (ok tt)
    created :
        {subscriptions : List Subscription} {subscription : Subscription}
        → active_subscriptions signing serializer json authority m ≡ ok subscriptions
        → listed_for event_type subscriptions ≡ false
        → create_subscription signing serializer json authority event_type m' ≡ ok subscription
        → Ensured event_type m m' (ok tt)
    not_listed :
        {e : ParserError}
        → active_subscriptions signing serializer json authority m ≡ err e
        → Ensured event_type m m' (err e)
    not_created :
        {subscriptions : List Subscription} {e : ParserError}
        → active_subscriptions signing serializer json authority m ≡ ok subscriptions
        → listed_for event_type subscriptions ≡ false
        → create_subscription signing serializer json authority event_type m' ≡ err e
        → Ensured event_type m m' (err e)

  -- Ensuring a subscription succeeds exactly because the kernel lists an active one of that type,
  -- or lists none and creates one; it fails with the error of the listing or of the creation.
  pub ensure_subscription-Ensured :
      (event_type : Text) (m m' : Moment signing.Signed)
      → Ensured event_type m m'
          (ensure_subscription signing serializer json authority event_type m m')
  unfolding ensure_subscription
  ensure_subscription-Ensured event_type m m' =
      elim (Result-cases (active_subscriptions signing serializer json authority m)) [
        | inr (e, h) ↦ rw h (not_listed h)
        | inl (subscriptions, h) ↦ rw h (elim (Bool-cases (listed_for event_type subscriptions)) [
          | inl l ↦ rw l (listed h l)
          | inr l ↦
              rw l
                (elim (Result-cases
                  (create_subscription signing serializer json authority event_type m')) [
                    | inl (subscription, c) ↦ rw c (created h l c)
                    | inr (e, c) ↦ rw c (not_created h l c)
                  ])
        ])
      ]
