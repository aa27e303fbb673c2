-- ===== src/Escalation/Tests.antt =====
-- Runs of the escalation ladder.
use hearthold.Prelude.{
  List, ◌≤◌, ◌↔◌, ◌⊎◌, arith, ℕ, ◌≡◌, refl, some, none, codes, get_or, [], ◌∷◌, ◌===◌, starts_with,
}
use hearthold.Prelude.Int.{pos}
use hearthold.Security.{level, public, high, human, challenge, multifactor, required_tier}
use hearthold.Escalation.Bands.{
  IsGiven, IsAboveLimits, tier_for_control_act_iff, decide_escalation-parent_iff,
  not_finite-unapproved,
}
use hearthold.Escalation.{
  ControlEntry, SpendAllowance, ControlAllowance, FamilyTopology, EscalationInput, finite,
  not_finite, decide_escalation, parent, standing_band, tier_for_control_act,
}

abbrev family : FamilyTopology
family = record { agent_did = codes "did:a"; parent_did = codes "did:p" }

abbrev allowance : SpendAllowance
allowance = record {
  self_limit = pos 500;
  notify_above = some (pos 20);
  parent_multifactor_above = some (pos 9000);
  unit_label = none;
}

abbrev spend : ℕ → EscalationInput
spend n = record {
  sensitivity = some public;
  cost = some (finite (pos n));
  allowance = some allowance;
  topology = family;
}

bands_run :
    ((decide_escalation (spend 20)).band ≡ standing_band)
    × ((decide_escalation (spend 21)).approver_did ≡ some (codes "did:a"))
    × ((decide_escalation (spend 501)).approver_did ≡ some (codes "did:p"))
    × ((decide_escalation (spend 9001)).tier ≡ multifactor)
    × ((decide_escalation (record (spend 1) { sensitivity = some high })).band ≡ parent)
    × ((decide_escalation (record (spend 1) { cost = some not_finite })).band ≡ standing_band)
unfolding decide_escalation required_tier
bands_run = (refl, refl, refl, refl, refl, refl)

abbrev grants : ControlAllowance
grants = record {
  self_approve =
      some (record { action = codes "grant"; resource_prefix = some (codes "kb:") } ∷ []);
}

control_runs :
    (tier_for_control_act (codes "grant") (some (codes "kb:7")) (some grants) ≡ challenge)
    × (tier_for_control_act (codes "grant") (some (codes "vault")) (some grants) ≡ human)
    × (tier_for_control_act (codes "revoke") none (some grants) ≡ human)
unfolding tier_for_control_act ◌===◌ starts_with
control_runs = (refl, refl, refl)

abbrev tighter : SpendAllowance
tighter = record allowance { self_limit = pos 400; parent_multifactor_above = some (pos 8000) }

abbrev entries : List ControlEntry
entries = record { action = codes "grant"; resource_prefix = none } ∷ []

abbrev listing : ControlAllowance
listing = record { self_approve = some entries }

denies_by_default :
    (tier_for_control_act (codes "delete") none none ≡ human)
    × (tier_for_control_act (codes "delete") none (some (record { self_approve = none })) ≡ human)
unfolding tier_for_control_act ◌===◌ starts_with
denies_by_default = (refl, refl)

tier_for_control_act_iff_example :
    ((tier_for_control_act (codes "grant") (some (codes "kb")) (some listing) ≡ challenge)
      ↔ IsGiven (codes "grant") (some (codes "kb")) (some listing))
    × ((tier_for_control_act (codes "grant") (some (codes "kb")) (some listing) ≡ human)
        ↔ ¬ IsGiven (codes "grant") (some (codes "kb")) (some listing))
tier_for_control_act_iff_example =
    tier_for_control_act_iff (codes "grant") (some (codes "kb")) (some listing)

decide_escalation-parent_iff_example : ((decide_escalation (spend 501)).band ≡ parent) ↔ (
    (level high ≤ level (get_or (spend 501).sensitivity public))
    ⊎ IsAboveLimits (spend 501).cost (spend 501).allowance)
decide_escalation-parent_iff_example = decide_escalation-parent_iff (spend 501)

not_finite-unapproved_example :
    (decide_escalation (record (spend 1) { cost = some not_finite })).approver_did ≡ none
not_finite-unapproved_example =
    not_finite-unapproved (record (spend 1) { cost = some not_finite }) public refl refl
      (omega arith)
