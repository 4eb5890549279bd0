-- ===== src/Objective/Tests.antt =====
-- Objectives that are opened, kept and replaced, and the theorems about them.
use kratos_harness.Common.{
  ◌+◌, ◌≡◌, refl, true, false, none, some, Text, codes, text_beq, trim, trim_start, is_upper, map,
  if◌then◌else◌,
}
use kratos_harness.Grammar.{is_feature}
use kratos_harness.Objective.Lifecycle.{
  Status, Objective, Seen, Demand, Change, ObjectiveRefusal, ObjectiveDecision, dashed,
  drop_last_dash, slug_of, feature_identity, decide_present, decide_seen, decide_objective,
  complete_objective,
}
use kratos_harness.Objective.Named.{feature_identity-is_feature}
use kratos_harness.Objective.Opened.{IsOpened, decide_objective-IsOpened, decide_objective_again}

-- The folding of a text in ASCII
abbrev fold_ascii : Text → Text
fold_ascii s = map (λ c. if is_upper c then c + 32 else c) s

objectives : Unit {0}
unfolding text_beq trim trim_start dashed drop_last_dash slug_of feature_identity decide_present
    decide_seen decide_objective complete_objective
objectives = tt

abbrev cart : Objective
cart = record {
  feature = codes "add-cart";
  text = codes "Add cart!";
  status = Status.active;
  created_at = codes "t1";
  updated_at = codes "t1";
  revision = 1;
  budget = none;
}

abbrev demand_of : Text → Demand
demand_of text = record { text = text; replace = true; token_ceiling = none; now = codes "t1" }

cart_named : feature_identity fold_ascii (codes "Add cart!") ≡ some (codes "add-cart")
unfolding objectives
cart_named = refl

cart_opened :
    decide_objective fold_ascii Seen.absent (demand_of (codes " Add cart! "))
    ≡ ObjectiveDecision.recorded Change.created (codes "add-cart") cart none
unfolding objectives
cart_opened = refl

-- Without the demand to replace it, an active objective stays.
other_refused :
    decide_objective fold_ascii
      (Seen.present cart)
      (record (demand_of (codes "Pay")) { replace = false })
    ≡ ObjectiveDecision.refused ObjectiveRefusal.objetivo_divergente
unfolding objectives
other_refused = refl

unnameable_refused :
    decide_objective fold_ascii Seen.absent (demand_of (codes "!?"))
    ≡ ObjectiveDecision.refused ObjectiveRefusal.uso
unfolding objectives
unnameable_refused = refl

abbrev payment : Objective
payment = record cart { feature = codes "pay"; text = codes "Pay"; revision = 2 }

payment_replaces :
    decide_objective fold_ascii (Seen.present cart) (demand_of (codes "Pay"))
    ≡ ObjectiveDecision.recorded Change.replaced (codes "pay") payment (some cart)
unfolding objectives
payment_replaces = refl

cart_completed :
    complete_objective (Seen.present cart) (codes "t2")
    ≡ ObjectiveDecision.recorded Change.created
        (codes "add-cart")
        (record cart { status = Status.completed; updated_at = codes "t2"; revision = 2 })
        (some cart)
unfolding objectives
cart_completed = refl

feature_identity-is_feature_example : is_feature (codes "add-cart") ≡ true
feature_identity-is_feature_example =
    feature_identity-is_feature fold_ascii (codes "Add cart!") cart_named

decide_objective-IsOpened_example :
    IsOpened (Seen.present cart) (demand_of (codes "Pay")) Change.replaced payment (some cart)
    × (payment.status ≡ Status.active)
decide_objective-IsOpened_example =
    decide_objective-IsOpened fold_ascii (Seen.present cart) (demand_of (codes "Pay"))
      payment_replaces

decide_objective_again_example :
    decide_objective fold_ascii (Seen.present cart) (demand_of (codes " Add cart! "))
    ≡ ObjectiveDecision.unchanged (codes "add-cart") cart
decide_objective_again_example =
    decide_objective_again fold_ascii Seen.absent (demand_of (codes " Add cart! ")) cart_opened
