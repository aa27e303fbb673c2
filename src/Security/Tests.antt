-- ===== src/Security/Tests.antt =====
-- Runs of the release decision.
use hearthold.Prelude.{◌↔◌, ◌⊎◌, ◌≡◌, refl, true, false}
use hearthold.Prelude.Int.{negsuc}
use hearthold.Security.Release.{IsCleared, decide_release_iff}
use hearthold.Security.{
  public, low, medium, sealed, standing, challenge, human, multifactor, attestation, ReleaseContext,
  clears, insufficient, decide_release, required_tier, required_level_for, relax_needs_confirmation,
}

abbrev request : ReleaseContext
request = record {
  sensitivity = sealed;
  tier = human;
  delegation_valid = true;
  mode = attestation;
  disclosure_satisfiable = true;
}

decide_release_runs :
    (decide_release request ≡ record { allow = false; reason = insufficient human sealed })
    × (decide_release (record request { tier = multifactor })
        ≡ record { allow = true; reason = clears })
    × (decide_release (record request { sensitivity = low; tier = standing })
        ≡ record { allow = true; reason = clears })
unfolding decide_release
decide_release_runs = (refl, refl, refl)

ladders_run :
    (required_tier medium ≡ challenge)
    × (required_level_for (negsuc 3) ≡ 0)
    × (relax_needs_confirmation medium ≡ true)
    × (relax_needs_confirmation sealed ≡ false)
unfolding required_tier required_level_for relax_needs_confirmation
ladders_run = (refl, refl, refl, refl)

decide_release_iff_example :
    ((decide_release request).allow ≡ true) ↔ ((request.sensitivity ≡ public) ⊎ IsCleared request)
decide_release_iff_example = decide_release_iff request
