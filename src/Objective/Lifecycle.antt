-- ===== src/Objective/Lifecycle.antt =====
-- `decideObjective` and `completeObjective` of packages/runtime/src/domain/objective/lifecycle.ts and
-- `featureIdentity` of packages/runtime/src/domain/objective/identity.ts.
use kratos_harness.Common.{
  ℕ, ◌+◌, Bool, true, false, ◌&&◌, ◌||◌, not, [], ◌∷◌, Option, none, some, Text, ◌==◌, nat_eq,
  text_eq, is_empty, is_lower, is_digit, trim, take, if◌then◌else◌,
}

pub data Status : Type 0 where
  active completed : Status

-- `FeatureStateV1`
pub record Objective : Type 0 where
  pub feature : Text
  pub text : Text
  pub status : Status
  pub created_at : Text
  pub updated_at : Text
  pub revision : ℕ
  pub budget : Option ℕ

-- `ObjectiveObservation`
pub data Seen : Type 0 where
  absent unreadable : Seen
  present : Objective → Seen

-- `ObjectiveRequest`
pub record Demand : Type 0 where
  pub text : Text
  pub replace : Bool
  pub token_ceiling : Option ℕ
  pub now : Text

pub data Change : Type 0 where
  created replaced reopened : Change

pub data ObjectiveRefusal : Type 0 where
  uso objetivo_divergente state_corrupt : ObjectiveRefusal

-- `ObjectiveDecision`
pub data ObjectiveDecision : Type 0 where
  recorded : Change → Text → Objective → Option Objective → ObjectiveDecision
  unchanged : Text → Objective → ObjectiveDecision
  refused : ObjectiveRefusal → ObjectiveDecision

abbrev pub is_active : Status → Bool
is_active Status.active = true
is_active Status.completed = false

-- `[a-z0-9]`
abbrev pub is_slug_letter : ℕ → Bool
is_slug_letter c = is_lower c || is_digit c

-- `.replace(/[^a-z0-9]+/gu, "-")`: the first character of a run becomes a dash, the others go.
unfoldable pub dashed : Bool → Text → Text
dashed inside [] = []
dashed inside (c ∷ s) = elim (is_slug_letter c) [
  | true ↦ c ∷ dashed false s
  | false ↦ elim inside [ true ↦ dashed true s | false ↦ b'-' ∷ dashed true s ]
]

-- `.replace(/^-/u, "")`
abbrev pub drop_dash : Text → Text
drop_dash [] = []
drop_dash (c ∷ s) = if c == b'-' then s else c ∷ s

-- `.replace(/-$/u, "")`
unfoldable pub drop_last_dash : Text → Text
drop_last_dash [] = []
drop_last_dash (c ∷ []) = if c == b'-' then [] else c ∷ []
drop_last_dash (c ∷ d ∷ s) = c ∷ drop_last_dash (d ∷ s)

-- What follows the decomposition, from the lower-case text without its marks
unfoldable pub slug_of : Text → Text
slug_of s = drop_last_dash (take 64 (drop_last_dash (drop_dash (dashed false s))))

module _ (fold : Text → Text) where
  -- `featureIdentity`; `fold` is `normalize("NFKD")`, the removal of the marks and `toLowerCase`,
  -- which the tables of Unicode define.
  unfoldable pub feature_identity : Text → Option Text
  feature_identity text =
      let slug = slug_of (fold text) in if is_empty slug then none else some slug

  -- `text === "" ? null : featureIdentity(text)`
  abbrev pub named : Text → Option Text
  named text = if is_empty text then none else feature_identity text

  -- `stateFor` of a demand
  abbrev pub objective_for : Text → Text → ℕ → Demand → Objective
  objective_for feature text revision demand = record {
    feature = feature;
    text = text;
    status = Status.active;
    created_at = demand.now;
    updated_at = demand.now;
    revision = revision;
    budget = demand.token_ceiling;
  }

  -- The branches of `decideObjective` with an objective
  unfoldable pub decide_present : Text → Text → Objective → Demand → ObjectiveDecision
  decide_present feature text current demand =
      if current.text == text
      then ObjectiveDecision.unchanged current.feature current
      else if is_active current.status && not demand.replace
      then ObjectiveDecision.refused ObjectiveRefusal.objetivo_divergente
      else ObjectiveDecision.recorded
          (if is_active current.status then Change.replaced else Change.reopened) feature
          (objective_for feature text (current.revision + 1) demand) (some current)

  -- The branches by what is seen
  unfoldable pub decide_seen : Option Text → Text → Seen → Demand → ObjectiveDecision
  decide_seen none text seen demand = ObjectiveDecision.refused ObjectiveRefusal.uso
  decide_seen (some feature) text Seen.unreadable demand =
      ObjectiveDecision.refused ObjectiveRefusal.state_corrupt
  decide_seen (some feature) text Seen.absent demand =
      ObjectiveDecision.recorded Change.created feature (objective_for feature text 1 demand) none
  decide_seen (some feature) text (Seen.present current) demand =
      decide_present feature text current demand

  abbrev pub is_unreadable : Seen → Bool
  is_unreadable Seen.unreadable = true
  is_unreadable _ = false

  -- `decideObjective`
  unfoldable pub decide_objective : Seen → Demand → ObjectiveDecision
  decide_objective seen demand =
      if is_unreadable seen
      then ObjectiveDecision.refused ObjectiveRefusal.state_corrupt
      else decide_seen (named (trim demand.text)) (trim demand.text) seen demand

-- `completeObjective`
unfoldable pub complete_objective : Seen → Text → ObjectiveDecision
complete_objective (Seen.present current) now =
    if is_active current.status
    then ObjectiveDecision.recorded Change.created current.feature
        (record current {
          status = Status.completed;
          updated_at = now;
          revision = current.revision + 1;
        })
        (some current)
    else ObjectiveDecision.unchanged current.feature current
complete_objective seen now = ObjectiveDecision.refused ObjectiveRefusal.uso
