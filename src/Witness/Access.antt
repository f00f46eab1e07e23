-- ===== src/Witness/Access.antt =====
-- Who may change the witness's record: the router of witness-worker/src/worker.js.
use hosting_control_panel.Common.{
  ℕ, ◌≡◌, ◌≢◌, Bool, true, Option, [], Text, is_empty, Bool-cases, inl, inr, arith,
}
use hosting_control_panel.Witness.Platform.{Platform}
use hosting_control_panel.Witness.Worker.{
  Witness, Env, Input, Route, unknown, Response, route_token, worker_fetch,
}

-- A request changes the record only if it goes to one of the three routes, that route's token is set
-- and the request carries it.
pub worker_fetch_authorized :
    (matches : Text → Bool) (platform : Platform) (env : Env) (w : Witness) (route : Route)
    (input : Option Input) (now : ℕ) (nonce : Text) {w' : Witness} {r : Response}
    → worker_fetch matches platform env w route input now nonce ≡ (w', r)
    → w' ≢ w
    → (route ≢ unknown) × (route_token env route ≢ []) × (matches (route_token env route) ≡ true)
unfolding worker_fetch route_token
worker_fetch_authorized matches platform env w route input now nonce e changed =
    elim (Bool-cases (is_empty (route_token env route))) [
      | inl unset ↦ absurd (ground (arith, unset, e, changed))
      | inr set ↦ elim (Bool-cases (matches (route_token env route))) [
        | inr other ↦ absurd (ground (arith, set, other, e, changed))
        | inl carried ↦ ((λ u. ground (arith, set, u)), (λ u. ground (arith, set, u)), carried)
      ]
    ]
