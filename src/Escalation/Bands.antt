-- ===== src/Escalation/Bands.antt =====
-- Who approves: the bands of packages/core/src/escalation.ts, and the control allowance.
use hearthold.Prelude.{
  ◌≤◌, ◌≡◌, ◌↔◌, ◌⊎◌, true, arith, Option, none, some, List, [], ◌∷◌, Text, Bool-cases, ◌&&◌,
  ===_iff, inl, inr, ◌===◌, refl, get_or, sym, subst, ◌∙◌, Option-cases,
}
use hearthold.Prelude.Int.{ℤ, pos, ◌≤ℤ◌}
use hearthold.Security.{
  Sensitivity, low, high, public, level, rank, standing, challenge, human, required_tier,
}
use hearthold.Escalation.{
  Cost, ControlAllowance, SpendAllowance, ControlEntry, covers, entries_of, scan_entries,
  tier_for_control_act, finite, not_finite, self_limit_of, notify_above_of, EscalationInput,
  decide_escalation, standing_band, agent, parent,
}

-- Some entry names the action and covers the resource.
pub data IsListed (action resource : Text) : List ControlEntry → Type 0 where
  here :
      {e : ControlEntry} {es : List ControlEntry}
      → e.action ≡ action
      → covers e.resource_prefix resource ≡ true
      → IsListed action resource (e ∷ es)
  there :
      {e : ControlEntry} {es : List ControlEntry}
      → IsListed action resource es
      → IsListed action resource (e ∷ es)

scan→IsListed :
    (action resource : Text) (es : List ControlEntry)
    → scan_entries action resource es ≡ challenge
    → IsListed action resource es
unfolding scan_entries
scan→IsListed action resource [] h = absurd (ground arith)
scan→IsListed action resource (e ∷ es) h =
    elim (Bool-cases (e.action === action && covers e.resource_prefix resource)) [
      | inl hit ↦ here ((===_iff e.action action).0 (ground arith)) (ground arith)
      | inr miss ↦ there (scan→IsListed action resource es (rw miss at h))
    ]

IsListed→scan :
    {action resource : Text} {es : List ControlEntry}
    → IsListed action resource es
    → scan_entries action resource es ≡ challenge
unfolding scan_entries
IsListed→scan {action} {resource} (here {e} named cover) =
    ground (arith, (===_iff e.action action).1 named)
IsListed→scan (there l) = ground (arith, IsListed→scan l)

scan_tiers :
    (action resource : Text) (es : List ControlEntry)
    → (scan_entries action resource es ≡ challenge) ⊎ (scan_entries action resource es ≡ human)
unfolding scan_entries
scan_tiers action resource [] = inr refl
scan_tiers action resource (e ∷ es) = ground (arith, scan_tiers action resource es)

scan_iff :
    (action resource : Text) (es : List ControlEntry)
    → ((scan_entries action resource es ≡ challenge) ↔ IsListed action resource es)
      × ((scan_entries action resource es ≡ human) ↔ ¬ IsListed action resource es)
scan_iff action resource es = (
  (scan→IsListed action resource es, IsListed→scan),
  (
    λ h l. ground (arith, IsListed→scan l),
    λ out. elim (scan_tiers action resource es) [
      | inl hit ↦ absurd (out (scan→IsListed action resource es hit))
      | inr miss ↦ miss
    ],
  ),
)

-- An allowance is given, it has a list, and the list has an entry for the act; an act without a
-- resource is one on the empty resource.
pub record IsGiven (action : Text) (resource : Option Text) (allowance : Option ControlAllowance)
    : Type 0 where
  pub given : ControlAllowance
  pub entries : List ControlEntry
  pub is_given : allowance ≡ some given
  pub has_entries : given.self_approve ≡ some entries
  pub listed : IsListed action (get_or resource []) entries

not-IsListed : {action resource : Text} → ¬ IsListed action resource []
not-IsListed l = elim l [ ]

IsListed-of :
    (action : Text) (resource : Option Text) (allowance : Option ControlAllowance)
    → IsGiven action resource allowance
    → IsListed action (get_or resource []) (entries_of allowance)
IsListed-of action resource allowance g = rw (g.is_given, g.has_entries) g.listed

IsGiven-of :
    (action : Text) (resource : Option Text) (allowance : Option ControlAllowance)
    → IsListed action (get_or resource []) (entries_of allowance)
    → IsGiven action resource allowance
IsGiven-of action resource none l = absurd (not-IsListed l)
IsGiven-of action resource (some a) l = elim (Option-cases a.self_approve) [
  | inl off ↦ absurd (not-IsListed (rw off at l))
  | inr (es, on) ↦ record {
    given = a;
    entries = es;
    is_given = refl;
    has_entries = on;
    listed = rw on at l;
  }
]

-- A control act needs the agent's own tier exactly when an allowance is given whose list has an
-- entry with the same action and with a prefix, if it has one, that starts the resource; in every
-- other case, and so without an allowance or without a list, it needs the human's tier.
pub tier_for_control_act_iff :
    (action : Text) (resource : Option Text) (allowance : Option ControlAllowance)
    → ((tier_for_control_act action resource allowance ≡ challenge)
        ↔ IsGiven action resource allowance)
      × ((tier_for_control_act action resource allowance ≡ human)
          ↔ ¬ IsGiven action resource allowance)
unfolding tier_for_control_act
tier_for_control_act_iff action resource allowance =
    let (own, other) = scan_iff action (get_or resource []) (entries_of allowance) in
    (
      (
        λ h. IsGiven-of action resource allowance (own.0 h),
        λ g. own.1 (IsListed-of action resource allowance g),
      ),
      (
        λ h g. other.0 h (IsListed-of action resource allowance g),
        λ out. other.1 (λ l. out (IsGiven-of action resource allowance l)),
      ),
    )

-- The action is priced above what the allowance lets the agent approve.
pub record IsOverLimit (c : ℤ) (a : Option SpendAllowance) : Type 0 where
  pub priced : pos 1 ≤ℤ c
  pub over_notify : ¬ (c ≤ℤ notify_above_of a)
  pub over_self : ¬ (c ≤ℤ self_limit_of a)

-- The cost is a finite number above the limits.
pub IsAboveLimits : Option Cost → Option SpendAllowance → Type 0
IsAboveLimits cost a = (c : ℤ) × (cost ≡ some (finite c)) × IsOverLimit c a

over-parent :
    (i : EscalationInput) (c : ℤ)
    → i.cost ≡ some (finite c)
    → ((decide_escalation i).band ≡ parent)
      ↔ ((level high ≤ level (get_or i.sensitivity public)) ⊎ IsOverLimit c i.allowance)
unfolding decide_escalation required_tier
over-parent i c e = (λ h. ground (arith, e), λ h. ground (arith, e))

-- A cost that is absent or no finite number leaves the decision to the sensitivity.
free-parent :
    (i : EscalationInput)
    → (i.cost ≡ none) ⊎ (i.cost ≡ some not_finite)
    → ((decide_escalation i).band ≡ parent) ↔ (level high ≤ level (get_or i.sensitivity public))
unfolding decide_escalation required_tier
free-parent i e = (λ h. ground (arith, e), λ h. ground (arith, e))

-- For every input, the band is the parent's exactly when the sensitivity, PUBLIC where it is not
-- given, is HIGH or above, or the cost is given, is a finite number, is positive, and is above both
-- the notify line and the self limit.
pub decide_escalation-parent_iff :
    (i : EscalationInput)
    → ((decide_escalation i).band ≡ parent)
      ↔ ((level high ≤ level (get_or i.sensitivity public)) ⊎ IsAboveLimits i.cost i.allowance)
unfolding IsAboveLimits
decide_escalation-parent_iff i = elim (Option-cases i.cost) [
  | inl absent ↦ by_sensitivity (inl absent)
  | inr (not_finite, e) ↦ by_sensitivity (inr e)
  | inr (finite c, e) ↦
      (λ h. priced c e ((over-parent i c e).0 h), λ h. (over-parent i c e).1 (back c e h))
]
  where
    unpriced : (c : ℤ) → (i.cost ≡ none) ⊎ (i.cost ≡ some not_finite) → i.cost ≡ some (finite c) → ⊥
    unpriced c (inl e) k = cc
    unpriced c (inr e) k = cc

    same : (d c : ℤ) → some (finite d) ≡ some (finite c) → d ≡ c
    same d c h = cc

    by_sensitivity :
        (i.cost ≡ none) ⊎ (i.cost ≡ some not_finite)
        → ((decide_escalation i).band ≡ parent)
          ↔ ((level high ≤ level (get_or i.sensitivity public)) ⊎ IsAboveLimits i.cost i.allowance)
    by_sensitivity e = (
      λ h. inl ((free-parent i e).0 h),
      λ h. elim h [
        | inl high_up ↦ (free-parent i e).1 high_up
        | inr (c, priced_at, over) ↦ absurd (unpriced c e priced_at)
      ],
    )

    priced :
        (c : ℤ)
        → i.cost ≡ some (finite c)
        → (level high ≤ level (get_or i.sensitivity public)) ⊎ IsOverLimit c i.allowance
        → (level high ≤ level (get_or i.sensitivity public)) ⊎ IsAboveLimits i.cost i.allowance
    priced c e (inl h) = inl h
    priced c e (inr over) = inr (c, e, over)

    back :
        (c : ℤ)
        → i.cost ≡ some (finite c)
        → (level high ≤ level (get_or i.sensitivity public)) ⊎ IsAboveLimits i.cost i.allowance
        → (level high ≤ level (get_or i.sensitivity public)) ⊎ IsOverLimit c i.allowance
    back c e (inl h) = inl h
    back c e (inr (d, k, over)) =
        inr (subst (λ x. IsOverLimit x i.allowance) (same d c (sym k ∙ e)) over)

-- The approver belongs to the band: nobody for standing, the agent, or the parent.
pub decide_escalation-approver :
    (i : EscalationInput)
    → let d = decide_escalation i in
      ((d.band ≡ standing_band) × (d.approver_did ≡ none) × (rank d.tier ≤ rank standing))
      ⊎ ((d.band ≡ agent) × (d.approver_did ≡ some i.topology.agent_did) × (d.tier ≡ challenge))
      ⊎ ((d.band ≡ parent)
          × (d.approver_did ≡ some i.topology.parent_did)
          × (rank human ≤ rank d.tier))
unfolding decide_escalation
decide_escalation-approver i = ground arith

-- A cost that is no finite number asks for no approval at all, whatever the allowance, when the
-- action touches nothing above LOW.
pub not_finite-unapproved :
    (i : EscalationInput) (s : Sensitivity)
    → i.cost ≡ some not_finite
    → i.sensitivity ≡ some s
    → level s ≤ level low
    → (decide_escalation i).approver_did ≡ none
unfolding decide_escalation required_tier
not_finite-unapproved i s h k le = ground arith
