-- ===== src/Billing/Keys/Examples.antt =====
-- A table whose first key was succeeded by a second one, on which the theorems about keys are applied.
use hosting_control_panel.Common.{
  ◌≡◌, refl, Bool, false, List, [], Text, text, text_eq, any, find, arith,
}
use hosting_control_panel.Billing.Payment.{ok}
use hosting_control_panel.Billing.Keys.Ring.{
  Key, NewKey, update_keys, insert_key, init_signing_key, rotate_signing_key, retire_signing_key,
  eligible_public_keys, initialized, rotated, was_retired,
}
use hosting_control_panel.Billing.Keys.Secrets.{IsRing, Reach, start, next, Reach-IsRing}
use hosting_control_panel.Billing.Keys.Refinement.{Lives, phases, Step-refines}
use hosting_control_panel.Billing.Keys.Overlap.{retire_withdraws_nothing}

abbrev fresh : Text → NewKey
fresh id = record {
  key_id = id;
  public_key = text "public";
  private_key_encrypted = text "sealed";
  expires_at = 9000000;
  overlap_hours = 1;
}

first : (ks : List Key) × (init_signing_key [] (fresh (text "a")) 0 ≡ ok ks)
unfolding init_signing_key insert_key any find
first = (_, refl)

second : (ks : List Key) × (rotate_signing_key first.0 (fresh (text "b")) (text "a") 1000 ≡ ok ks)
unfolding first rotate_signing_key insert_key update_keys any find text text_eq
second = (_, refl)

third : (p : List Key × Bool) × (retire_signing_key second.0 (text "a") false 4000000 ≡ ok p)
unfolding first second retire_signing_key update_keys find text text_eq
third = (_, refl)

second-Reach : Reach second.0
second-Reach =
    next (next start (initialized (fresh (text "a")) 0 first.1))
      (rotated (fresh (text "b")) (text "a") 1000 second.1)

Reach-IsRing_example : IsRing second.0
Reach-IsRing_example = Reach-IsRing second-Reach

Step-refines_example : Lives (phases second.0) (phases third.0.0)
Step-refines_example =
    Step-refines second-Reach (was_retired (text "a") false 4000000 third.0.1 third.1)

retire_withdraws_nothing_example :
    eligible_public_keys third.0.0 5000000 ≡ eligible_public_keys second.0 5000000
retire_withdraws_nothing_example =
    retire_withdraws_nothing (text "a") 4000000 5000000 third.0.1 second-Reach third.1 (omega arith)
