-- ===== src/Tests/DisplayExamples.antt =====
-- The text of an error.
use infernal_pf2e_parser_sim.Base.{◌≡◌, ◌≢◌, refl, arith}
use infernal_pf2e_parser_sim.Std.Text.{codes}
use infernal_pf2e_parser_sim.Std.Decimal.{display_nat}
use infernal_pf2e_parser_sim.Domain.{admission_not_accepted}
use infernal_pf2e_parser_sim.Domain.Display.{display}
use infernal_pf2e_parser_sim.Domain.Printed.{display_differs}

display_refused :
    display (admission_not_accepted 422)
    ≡ codes "pf2e.rules.admit submission was not accepted (status 422)"
unfolding display display_nat
display_refused = refl

-- The digits of one status begin with those of the other.
display_differs_example : display (admission_not_accepted 40) ≢ display (admission_not_accepted 409)
display_differs_example =
    display_differs (admission_not_accepted 40) (admission_not_accepted 409) (omega arith)
      (omega arith) (λ h. cc)
