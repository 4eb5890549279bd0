-- ===== src/Objective/Opened.antt =====
-- What a recorded objective replaces, and that a demand can be repeated.
use kratos_harness.Common.{
  ◌+◌, ◌≡◌, true, false, Option, none, some, Text, ◌==◌, text_eq, text_iff, trim, arith,
}
use kratos_harness.Objective.Lifecycle.{
  Status, Objective, Seen, Demand, Change, ObjectiveDecision, is_active, named, decide_present,
  decide_seen, decide_objective,
}

-- What a recorded demand was allowed to do, by what was seen
abbrev pub IsOpened : Seen → Demand → Change → Objective → Option Objective → Type 0
IsOpened Seen.unreadable demand change new old = ⊥
IsOpened Seen.absent demand change new old =
    (change ≡ Change.created) × (new.revision ≡ 1) × (old ≡ none)
IsOpened (Seen.present current) demand change new old =
    (old ≡ some current)
    × (new.revision ≡ current.revision + 1)
    × ((current.text == trim demand.text) ≡ false)
    × (is_active current.status ≡ true → (demand.replace ≡ true) × (change ≡ Change.replaced))
    × (is_active current.status ≡ false → change ≡ Change.reopened)

module _ (fold : Text → Text) (demand : Demand) {change : Change} {feature : Text} {new : Objective}
    {old : Option Objective} where
  present-IsOpened :
      (name : Text) (current : Objective)
      → decide_present fold name (trim demand.text) current demand
        ≡ ObjectiveDecision.recorded change feature new old
      → IsOpened (Seen.present current) demand change new old
  unfolding decide_present
  present-IsOpened name current h = (
    ground arith,
    ground arith,
    ground arith,
    λ a. (ground arith, ground arith),
    λ a. ground arith,
  )

  seen-IsOpened :
      (name : Option Text) (seen : Seen)
      → decide_seen fold name (trim demand.text) seen demand
        ≡ ObjectiveDecision.recorded change feature new old
      → IsOpened seen demand change new old
  unfolding decide_seen
  seen-IsOpened none seen h = ground arith
  seen-IsOpened (some name) Seen.unreadable h = ground arith
  seen-IsOpened (some name) Seen.absent h = (ground arith, ground arith, ground arith)
  seen-IsOpened (some name) (Seen.present current) h = present-IsOpened name current h

  seen-state :
      (name : Option Text) (seen : Seen)
      → decide_seen fold name (trim demand.text) seen demand
        ≡ ObjectiveDecision.recorded change feature new old
      → (new.text ≡ trim demand.text)
        × (new.feature ≡ feature)
        × (new.status ≡ Status.active)
        × (name ≡ some feature)
  unfolding decide_seen decide_present
  seen-state none seen h = ground arith
  seen-state (some name) Seen.unreadable h = ground arith
  seen-state (some name) Seen.absent h = (ground arith, ground arith, ground arith, ground arith)
  seen-state (some name) (Seen.present current) h =
      (ground arith, ground arith, ground arith, ground arith)

  decided :
      (seen : Seen)
      → decide_objective fold seen demand ≡ ObjectiveDecision.recorded change feature new old
      → decide_seen fold (named fold (trim demand.text)) (trim demand.text) seen demand
        ≡ ObjectiveDecision.recorded change feature new old
  unfolding decide_objective
  decided seen h = ground arith

repeated :
    (fold : Text → Text) (demand : Demand) (new : Objective) (name : Text)
    → named fold (trim demand.text) ≡ some name
    → new.text ≡ trim demand.text
    → decide_objective fold (Seen.present new) demand ≡ ObjectiveDecision.unchanged new.feature new
unfolding decide_objective decide_seen decide_present
repeated fold demand new name n t = ground (arith, text_iff new.text (trim demand.text))

-- A demand that is recorded leaves an active objective, and it opens the first one, or follows the
-- one that is there under the next revision and with another text; an active objective is followed
-- only if its replacement was asked for, and a completed one is reopened.
pub decide_objective-IsOpened :
    (fold : Text → Text) (seen : Seen) (demand : Demand) {change : Change} {feature : Text}
    {new : Objective} {old : Option Objective}
    → decide_objective fold seen demand ≡ ObjectiveDecision.recorded change feature new old
    → IsOpened seen demand change new old × (new.status ≡ Status.active)
decide_objective-IsOpened fold seen demand h =
    let d = decided fold demand seen h in
    let (_, _, active, _) = seen-state fold demand (named fold (trim demand.text)) seen d in
    (seen-IsOpened fold demand (named fold (trim demand.text)) seen d, active)

-- A demand can be repeated: on the objective that it recorded, the same demand changes nothing.
pub decide_objective_again :
    (fold : Text → Text) (seen : Seen) (demand : Demand) {change : Change} {feature : Text}
    {new : Objective} {old : Option Objective}
    → decide_objective fold seen demand ≡ ObjectiveDecision.recorded change feature new old
    → decide_objective fold (Seen.present new) demand ≡ ObjectiveDecision.unchanged new.feature new
decide_objective_again fold seen demand {feature = feature} {new = new} h =
    let (text, _, _, name) =
      seen-state fold demand (named fold (trim demand.text)) seen (decided fold demand seen h) in
    repeated fold demand new feature name text
