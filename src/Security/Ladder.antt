-- ===== src/Security/Ladder.antt =====
-- The tier ladder and the proof-of-human ladder of packages/core/src/security.ts.
use hearthold.Prelude.{◌≤◌, ◌≡◌, ◌↔◌, true, arith}
use hearthold.Prelude.Int.{ℤ, pos, ◌≤ℤ◌}
use hearthold.Security.{
  Sensitivity, public, low, medium, high, sealed, level, AuthzTier, standing, challenge, human,
  multifactor, rank, clears_sensitivity, clearance_ceiling, required_tier, required_level_for,
}

required_tier-le :
    (t : AuthzTier) (s : Sensitivity)
    → clears_sensitivity t s ≡ true
    → rank (required_tier s) ≤ rank t
unfolding required_tier
required_tier-le standing s h = ground arith
required_tier-le challenge s h = ground arith
required_tier-le human s h = ground arith
required_tier-le multifactor s h = ground arith

clears_of_le :
    (t : AuthzTier) (s : Sensitivity)
    → rank (required_tier s) ≤ rank t
    → clears_sensitivity t s ≡ true
unfolding required_tier
clears_of_le standing s h = ground arith
clears_of_le challenge s h = ground arith
clears_of_le human s h = ground arith
clears_of_le multifactor s h = ground arith

-- A tier clears a sensitivity exactly when it ranks at least as high as the tier that
-- `required_tier` computes for it: the required tier is the least one that clears.
pub required_tier-least :
    (t : AuthzTier) (s : Sensitivity)
    → (clears_sensitivity t s ≡ true) ↔ (rank (required_tier s) ≤ rank t)
required_tier-least t s = (required_tier-le t s, clears_of_le t s)

-- A tier clears a sensitivity exactly when the sensitivity is at most the ceiling that
-- `clearance_ceiling` gives for disclosures over several artefacts.
pub clearance_ceiling-agrees :
    (t : AuthzTier) (s : Sensitivity)
    → (clears_sensitivity t s ≡ true) ↔ (level s ≤ level (clearance_ceiling t))
unfolding clears_sensitivity clearance_ceiling
clearance_ceiling-agrees standing s = ground arith
clearance_ceiling-agrees challenge s = ground arith
clearance_ceiling-agrees human s = ground arith
clearance_ceiling-agrees multifactor s = ground arith

-- The two ladders agree on the five sensitivities: no human proof is needed exactly where a
-- standing delegation clears, and the second level exactly where nothing below multifactor clears.
pub required_level-agrees :
    (s : Sensitivity)
    → ((required_level_for (pos (level s)) ≡ 0) ↔ (required_tier s ≡ standing))
      × ((required_level_for (pos (level s)) ≡ 2) ↔ (required_tier s ≡ multifactor))
unfolding required_level_for required_tier
required_level-agrees public = ground arith
required_level-agrees low = ground arith
required_level-agrees medium = ground arith
required_level-agrees high = ground arith
required_level-agrees sealed = ground arith

-- A higher number never needs a lower proof-of-human level.
pub required_level_mono : (a b : ℤ) → a ≤ℤ b → required_level_for a ≤ required_level_for b
unfolding required_level_for
required_level_mono a b h = ground arith
