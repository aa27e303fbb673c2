-- ===== src/Security.antt =====
-- packages/core/src/security.ts: sensitivity, authorization tiers, and the release decision. A
-- reason string is a constructor of `Reason` with the values that the string shows.
pub mod Ladder
pub mod Release
mod Tests
use hearthold.Prelude.{ℕ, Bool, true, false, not, Option, none, some, List, [], ◌∷◌, leb, get_or}
use hearthold.Prelude.{◌==◌, if◌then◌else◌}
use hearthold.Prelude.Int.{ℤ, pos, leb_ℤ}

pub data Sensitivity : Type 0 where
  public low medium high sealed : Sensitivity

-- The numeric value of a sensitivity.
abbrev pub level : Sensitivity → ℕ
level public = 0
level low = 1
level medium = 2
level high = 3
level sealed = 4

pub data AuthzTier : Type 0 where
  standing challenge human multifactor : AuthzTier

-- The numeric value of a tier.
abbrev pub rank : AuthzTier → ℕ
rank standing = 1
rank challenge = 2
rank human = 3
rank multifactor = 4

-- `DEFAULT_SENSITIVITY`, `HUMAN_CONFIRM_BELOW`
abbrev pub default_sensitivity : Sensitivity
default_sensitivity = sealed

abbrev pub human_confirm_below : Sensitivity
human_confirm_below = medium

-- `CLEARANCE[tier]`
clearance : AuthzTier → Sensitivity
clearance standing = low
clearance challenge = medium
clearance human = high
clearance multifactor = sealed

unfoldable pub clears_sensitivity : AuthzTier → Sensitivity → Bool
unfolding clearance
clears_sensitivity tier sensitivity =
    if level sensitivity == level public
    then true
    else leb (level sensitivity) (level (clearance tier))

unfoldable pub clearance_ceiling : AuthzTier → Sensitivity
unfolding clearance
clearance_ceiling tier = clearance tier

-- The proof-of-human level, over any number.
unfoldable pub required_level_for : ℤ → ℕ
required_level_for sensitivity =
    if leb_ℤ (pos (level sealed)) sensitivity
    then 2
    else if leb_ℤ (pos (level medium)) sensitivity
    then 1
    else 0

-- `tiers.find(p)`
find_tier : (AuthzTier → Bool) → List AuthzTier → Option AuthzTier
find_tier p [] = none
find_tier p (t ∷ ts) = if p t then some t else find_tier p ts

unfoldable pub required_tier : Sensitivity → AuthzTier
unfolding find_tier clears_sensitivity
required_tier sensitivity =
    get_or
      (find_tier (λ t. clears_sensitivity t sensitivity)
        (standing ∷ challenge ∷ human ∷ multifactor ∷ []))
      multifactor

pub data DisclosureMode : Type 0 where
  attestation selective redacted full predicate local_render : DisclosureMode

pub record ReleaseContext : Type 0 where
  pub sensitivity : Sensitivity
  pub tier : AuthzTier
  pub delegation_valid : Bool
  pub mode : DisclosureMode
  pub disclosure_satisfiable : Bool

pub data Reason : Type 0 where
  public_artefact no_delegation clears : Reason
  insufficient : AuthzTier → Sensitivity → Reason
  unsatisfiable : DisclosureMode → Reason

pub record ReleaseDecision : Type 0 where
  pub allow : Bool
  pub reason : Reason

unfoldable pub decide_release : ReleaseContext → ReleaseDecision
unfolding clears_sensitivity
decide_release ctx =
    if level ctx.sensitivity == level public
    then record { allow = true; reason = public_artefact }
    else if not ctx.delegation_valid
    then record { allow = false; reason = no_delegation }
    else if not (clears_sensitivity ctx.tier ctx.sensitivity)
    then record { allow = false; reason = insufficient ctx.tier ctx.sensitivity }
    else if not ctx.disclosure_satisfiable
    then record { allow = false; reason = unsatisfiable ctx.mode }
    else record { allow = true; reason = clears }

unfoldable pub relax_needs_confirmation : Sensitivity → Bool
relax_needs_confirmation target = leb (level target) (level human_confirm_below)
