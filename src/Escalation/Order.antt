-- ===== src/Escalation/Order.antt =====
-- The cost axis of packages/core/src/escalation.ts: order in the cost and in the allowance.
use hearthold.Prelude.{
  ◌≤◌, ◌≡◌, true, arith, Option, none, some, false, Bool, leb→le, le→leb, if◌then◌else◌,
}
use hearthold.Prelude.Int.{ℤ, pos, ◌≤ℤ◌, leb_ℤ}
use hearthold.Security.{AuthzTier, rank, standing, challenge, human, multifactor}
use hearthold.Escalation.{
  SpendAllowance, Cost, finite, not_finite, tier_for_cost, tier_within, past_multifactor,
  self_limit_of, notify_above_of, multifactor_above_of,
}

-- A higher cost never needs a lower tier, whatever the allowance.
pub tier_for_cost_mono :
    (a : Option SpendAllowance) (c d : ℤ)
    → c ≤ℤ d
    → rank (tier_for_cost (finite c) a) ≤ rank (tier_for_cost (finite d) a)
unfolding tier_for_cost
tier_for_cost_mono none c d h = ground arith
tier_for_cost_mono (some a) c d h = ground arith

-- The multifactor line of the first allowance is set, and no higher, wherever that of the second is.
abbrev LineLe : Option ℤ → Option ℤ → Type 0
LineLe m none = Unit
LineLe none (some n) = ⊥
LineLe (some m) (some n) = m ≤ℤ n

-- The first allowance leaves no more to the agent than the second, line by line. Having no
-- allowance compares as one of limits 0.
pub record IsTighter (a b : Option SpendAllowance) : Type 0 where
  pub self_limit : self_limit_of a ≤ℤ self_limit_of b
  pub notify_above : notify_above_of a ≤ℤ notify_above_of b
  pub multifactor : LineLe (multifactor_above_of a) (multifactor_above_of b)

-- The ladder of `tier_within` over the results of its tests.
ladder : Bool → Bool → Bool → Bool → AuthzTier
ladder free routine own second =
    if free
    then standing
    else if routine
    then standing
    else if own
    then challenge
    else if second
    then multifactor
    else human

ladder_antitone :
    (free r r' o o' s s' : Bool)
    → (r ≡ true → r' ≡ true)
    → (o ≡ true → o' ≡ true)
    → (s' ≡ true → s ≡ true)
    → rank (ladder free r' o' s') ≤ rank (ladder free r o s)
unfolding ladder
ladder_antitone true r r' o o' s s' h k p = omega arith
ladder_antitone false r r' o o' s s' h k p = ground arith

leb_ℤ_trans : (c m n : ℤ) → m ≤ℤ n → leb_ℤ c m ≡ true → leb_ℤ c n ≡ true
leb_ℤ_trans c m n h k = le→leb _ _ (omega (arith, leb→le _ _ k))

past_multifactor_antitone :
    (c l l' : ℤ) (m m' : Option ℤ)
    → l ≤ℤ l'
    → LineLe m m'
    → past_multifactor c m' l' ≡ true
    → past_multifactor c m l ≡ true
past_multifactor_antitone c l l' m none h line k = cc
past_multifactor_antitone c l l' none (some n) h line k = absurd line
past_multifactor_antitone c l l' (some m) (some n) h line k = ground arith

tier_within_antitone :
    (c n n' l l' : ℤ) (m m' : Option ℤ)
    → n ≤ℤ n'
    → l ≤ℤ l'
    → LineLe m m'
    → rank (tier_within c n' l' m') ≤ rank (tier_within c n l m)
unfolding tier_within ladder
tier_within_antitone c n n' l l' m m' h k line =
    ladder_antitone (leb_ℤ c (pos 0)) (leb_ℤ c n) (leb_ℤ c n') (leb_ℤ c l) (leb_ℤ c l')
      (past_multifactor c m l) (past_multifactor c m' l') (leb_ℤ_trans c n n' h)
      (leb_ℤ_trans c l l' k) (past_multifactor_antitone c l l' m m' k line)

-- A tighter allowance never lowers the tier that a cost needs.
pub tier_for_cost_antitone :
    (a b : Option SpendAllowance) (c : Cost)
    → IsTighter a b
    → rank (tier_for_cost c b) ≤ rank (tier_for_cost c a)
unfolding tier_for_cost
tier_for_cost_antitone a b not_finite h = omega arith
tier_for_cost_antitone a b (finite c) h =
    tier_within_antitone c (notify_above_of a) (notify_above_of b) (self_limit_of a)
      (self_limit_of b) (multifactor_above_of a) (multifactor_above_of b) h.notify_above
      h.self_limit h.multifactor
