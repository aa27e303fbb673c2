-- ===== src/Security/Release.antt =====
-- The release decision of packages/core/src/security.ts, on every branch.
use hearthold.Prelude.{◌≤◌, ◌≡◌, ◌↔◌, ◌⊎◌, true, arith}
use hearthold.Security.{
  Sensitivity, public, level, rank, ReleaseContext, required_tier, decide_release,
}
use hearthold.Security.Ladder.{required_tier-least}

level-public : (s : Sensitivity) → (level s ≡ level public) → s ≡ public
level-public public h = ground arith
level-public _ h = absurd (omega arith)

-- What is asked of a release that is not public.
pub record IsCleared (ctx : ReleaseContext) : Type 0 where
  pub delegated : ctx.delegation_valid ≡ true
  pub tier_suffices : rank (required_tier ctx.sensitivity) ≤ rank ctx.tier
  pub satisfiable : ctx.disclosure_satisfiable ≡ true

allow→IsCleared :
    (ctx : ReleaseContext)
    → (decide_release ctx).allow ≡ true
    → (ctx.sensitivity ≡ public) ⊎ IsCleared ctx
unfolding decide_release
allow→IsCleared ctx h =
    ground (arith, level-public ctx.sensitivity, (required_tier-least ctx.tier ctx.sensitivity).0)

IsCleared→allow :
    (ctx : ReleaseContext)
    → (ctx.sensitivity ≡ public) ⊎ IsCleared ctx
    → (decide_release ctx).allow ≡ true
unfolding decide_release
IsCleared→allow ctx h = ground (arith, (required_tier-least ctx.tier ctx.sensitivity).1)

-- A release is allowed exactly when the artefact is public, or the delegation is valid, the tier
-- reaches the required tier of the sensitivity, and the disclosure mode can be satisfied.
pub decide_release_iff :
    (ctx : ReleaseContext)
    → ((decide_release ctx).allow ≡ true) ↔ ((ctx.sensitivity ≡ public) ⊎ IsCleared ctx)
decide_release_iff ctx = (allow→IsCleared ctx, IsCleared→allow ctx)
