-- ===== src/Escalation.antt =====
-- packages/core/src/escalation.ts: which approver the cost of an action needs, on top of the
-- sensitivity ladder. Amounts are integers in one minor unit, as the source documents; NaN and the
-- infinities are `not_finite`.
pub mod Order
pub mod Bands
mod Tests
use hearthold.Prelude.{
  ℕ, Bool, true, false, not, Option, none, some, List, [], ◌∷◌, leb, get_or, ◌==◌, if◌then◌else◌,
  ◌||◌, ◌&&◌, Text, codes, ◌===◌, starts_with, is_filled,
}
use hearthold.Prelude.Int.{ℤ, pos, leb_ℤ, ltb_ℤ, max_ℤ}
use hearthold.Security.{
  Sensitivity, public, AuthzTier, standing, challenge, human, multifactor, rank, required_tier,
}

pub record SpendAllowance : Type 0 where
  pub self_limit : ℤ
  pub notify_above : Option ℤ
  pub parent_multifactor_above : Option ℤ
  pub unit_label : Option Text

pub record ControlEntry : Type 0 where
  pub action : Text
  pub resource_prefix : Option Text

pub record ControlAllowance : Type 0 where
  pub self_approve : Option (List ControlEntry)

abbrev pub entries_of : Option ControlAllowance → List ControlEntry
entries_of none = []
entries_of (some a) = get_or a.self_approve []

-- `resourcePrefix === undefined || '' || resource.startsWith(resourcePrefix)`
abbrev pub covers : Option Text → Text → Bool
covers none resource = true
covers (some prefix) resource = not (is_filled prefix) || starts_with prefix resource

-- The loop over the entries; the last argument is what remains of them.
unfoldable pub scan_entries : Text → Text → List ControlEntry → AuthzTier
scan_entries action resource [] = human
scan_entries action resource (e ∷ es) =
    if e.action === action && covers e.resource_prefix resource
    then challenge
    else scan_entries action resource es

unfoldable pub tier_for_control_act : Text → Option Text → Option ControlAllowance → AuthzTier
unfolding scan_entries
tier_for_control_act action resource allowance =
    scan_entries action (get_or resource []) (entries_of allowance)

pub data Cost : Type 0 where
  finite : ℤ → Cost
  not_finite : Cost

-- `Math.max(0, allowance?.selfLimit ?? 0)`
abbrev pub self_limit_of : Option SpendAllowance → ℤ
self_limit_of none = pos 0
self_limit_of (some a) = max_ℤ (pos 0) a.self_limit

-- `Math.max(0, allowance?.notifyAbove ?? 0)`
abbrev pub notify_above_of : Option SpendAllowance → ℤ
notify_above_of none = pos 0
notify_above_of (some a) = max_ℤ (pos 0) (get_or a.notify_above (pos 0))

abbrev pub multifactor_above_of : Option SpendAllowance → Option ℤ
multifactor_above_of none = none
multifactor_above_of (some a) = a.parent_multifactor_above

-- `mfAbove !== undefined && cost > Math.max(mfAbove, selfLimit)`
abbrev past_multifactor : ℤ → Option ℤ → ℤ → Bool
past_multifactor cost none self = false
past_multifactor cost (some mf) self = ltb_ℤ (max_ℤ mf self) cost

-- The tests of `tierForCost` on a finite cost, over the three lines of the allowance.
tier_within : ℤ → ℤ → ℤ → Option ℤ → AuthzTier
tier_within cost notify self mf =
    if leb_ℤ cost (pos 0)
    then standing
    else if leb_ℤ cost notify
    then standing
    else if leb_ℤ cost self
    then challenge
    else if past_multifactor cost mf self
    then multifactor
    else human

unfoldable pub tier_for_cost : Cost → Option SpendAllowance → AuthzTier
unfolding tier_within
tier_for_cost not_finite allowance = standing
tier_for_cost (finite cost) allowance =
    tier_within cost (notify_above_of allowance) (self_limit_of allowance)
      (multifactor_above_of allowance)

-- `Math.max` on tiers.
abbrev max_tier : AuthzTier → AuthzTier → AuthzTier
max_tier a b = if leb (rank a) (rank b) then b else a

unfoldable pub required_tier_with_cost : Sensitivity → Cost → Option SpendAllowance → AuthzTier
unfolding tier_for_cost
required_tier_with_cost sensitivity cost allowance =
    max_tier (required_tier sensitivity) (tier_for_cost cost allowance)

pub data EscalationBand : Type 0 where
  standing_band agent parent : EscalationBand

unfoldable pub band_for_tier : AuthzTier → EscalationBand
band_for_tier tier =
    if leb (rank tier) (rank standing)
    then standing_band
    else if rank tier == rank challenge
    then agent
    else parent

pub record FamilyTopology : Type 0 where
  pub agent_did : Text
  pub parent_did : Text

unfoldable pub approver_for_tier : AuthzTier → FamilyTopology → Option Text
unfolding band_for_tier
approver_for_tier tier topology = elim (band_for_tier tier) [
  | standing_band ↦ none
  | agent ↦ some topology.agent_did
  | parent ↦ some topology.parent_did
]

pub record EscalationInput : Type 0 where
  pub sensitivity : Option Sensitivity
  pub cost : Option Cost
  pub allowance : Option SpendAllowance
  pub topology : FamilyTopology

-- The prose `reason` is left out: it is for logs, and no caller reads it.
pub record EscalationDecision : Type 0 where
  pub tier : AuthzTier
  pub band : EscalationBand
  pub approver_did : Option Text

unfoldable pub decide_escalation : EscalationInput → EscalationDecision
unfolding required_tier_with_cost band_for_tier approver_for_tier
decide_escalation input =
    let sensitivity = get_or input.sensitivity public in
    let cost = get_or input.cost (finite (pos 0)) in
    let tier = required_tier_with_cost sensitivity cost input.allowance in
    record {
      tier = tier;
      band = band_for_tier tier;
      approver_did = approver_for_tier tier input.topology;
    }
