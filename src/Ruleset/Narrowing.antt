-- ===== src/Ruleset/Narrowing.antt =====
-- Which transitions of a guardianship need the member's acknowledgment
-- (packages/core/src/ruleset.ts).
use hearthold.Prelude.{
  Bool, true, false, not, ◌||◌, Option, none, some, List, [], ◌∷◌, ◌++◌, map, Text, get_or, ℕ, suc,
  is_filled, eq_opt_iff, ===_iff, text_leb_refl, any, ltb, every-includes_iff, Subset, ◌≡◌, ◌≢◌,
  refl, arith, and-split,
}
use hearthold.Prelude.Int.{leb_ℤ, ◌≤ℤ◌, pos}
use hearthold.Ruleset.{
  SignedRuleset, RulesetStatus, revoked, active, superseded, AssuranceTier, is_revoked, tier_of,
  assurance_level, assurance_lowered, valid_until_narrows, guardianship_narrows_or_equal,
  widens_into_private_scope, Warden, signed, verify_ruleset, verify_member_ack, ruleset_id,
  link_holds, amends, pinned, serves, serve_from, operative_ordered, operative_ruleset, ordered,
}

module _ (p : List (Text × AssuranceTier)) where
  not_lowered_refl :
      (vs : List Text)
      → any (λ v. ltb (assurance_level (tier_of p v)) (assurance_level (tier_of p v))) vs ≡ false
  not_lowered_refl [] = refl
  not_lowered_refl (v ∷ vs) = ground (arith, not_lowered_refl vs)

assurance_lowered_refl : (a : Option (List (Text × AssuranceTier))) → assurance_lowered a a ≡ false
unfolding assurance_lowered
assurance_lowered_refl a =
    not_lowered_refl (get_or a []) (map (λ e. e.0) (get_or a []) ++ map (λ e. e.0) (get_or a []))

valid_until_narrows_refl : (t : Option Text) → valid_until_narrows t t ≡ true
unfolding valid_until_narrows
valid_until_narrows_refl none = refl
valid_until_narrows_refl (some t) = text_leb_refl t

-- A version of the same scope narrows or equals the one before.
restates :
    (prev next : SignedRuleset)
    → next.ceiling ≡ prev.ceiling
    → next.capabilities ≡ prev.capabilities
    → next.valid_until ≡ prev.valid_until
    → guardianship_narrows_or_equal prev next ≡ true
unfolding guardianship_narrows_or_equal
restates prev next ceiling capabilities until =
    rw (ceiling, capabilities, until)
      (ground (
        arith,
        assurance_lowered_refl prev.capabilities.assurance,
        valid_until_narrows_refl prev.valid_until,
        (every-includes_iff (get_or prev.capabilities.kinds [])
              (get_or prev.capabilities.kinds [])).1
            (λ a m. m),
        (every-includes_iff (get_or prev.capabilities.verbs [])
              (get_or prev.capabilities.verbs [])).1
            (λ a m. m),
      ))

-- The second version follows the first, both signed by `s`.
pub record Follows (w : Warden) (s : Text) (i : ℕ) (prev next : SignedRuleset) : Type 0 where
  pub signed_by : verify_ruleset w next ≡ signed s
  pub version : next.version ≡ pos (suc i)
  pub linked : next.previous ≡ some (ruleset_id w prev)
  pub subject : prev.subject ≡ next.subject

Follows-serves :
    (w : Warden) (s : Text) (i : ℕ) (prev next : SignedRuleset)
    → Follows w s i prev next
    → guardianship_narrows_or_equal prev next ≡ true
    → serves w (some s) (some prev) i next ≡ true
unfolding serves link_holds amends widens_into_private_scope
Follows-serves w s i prev next k narrows = ground (
  arith,
  k.signed_by,
  k.version,
  (===_iff s s).1 refl,
  (eq_opt_iff next.previous (some (ruleset_id w prev))).1 k.linked,
  (eq_opt_iff prev.subject next.subject).1 k.subject,
  narrows,
)

revoking_narrows :
    (old copy : SignedRuleset)
    → copy.status ≡ revoked
    → guardianship_narrows_or_equal old copy ≡ true
unfolding guardianship_narrows_or_equal
revoking_narrows old copy h = ground (arith, h)

starts :
    (w : Warden) (s : Text) (old : SignedRuleset)
    → verify_ruleset w old ≡ signed s
    → old.version ≡ pos 1
    → old.previous ≡ none
    → verify_member_ack w old ≡ true
    → serves w none none 0 old ≡ true
unfolding serves link_holds amends
starts w s old signed_old first genesis ack = ground (arith, signed_old, first, genesis, ack)

-- A governor can widen a guardianship without the member: on a chain of a first version that the
-- member acknowledged, a revoked version and an active one of the revoked one's scope, each of the two
-- signed by the first one's signer, naming its predecessor and the first one's member, and numbered
-- next, the third is in force where the first one's signer is the expected one or none is expected,
-- whatever its scope and whether or not the member has acknowledged the last two.
pub revoked_copy-unacknowledged :
    (w : Warden) (expected : Option Text) (s : Text) (old copy again : SignedRuleset)
    → verify_ruleset w old ≡ signed s
    → old.version ≡ pos 1
    → old.previous ≡ none
    → verify_member_ack w old ≡ true
    → pinned w expected s ≡ true
    → Follows w s 1 old copy
    → copy.status ≡ revoked
    → Follows w s 2 copy again
    → again.status ≡ active
    → again.ceiling ≡ copy.ceiling
    → again.capabilities ≡ copy.capabilities
    → again.valid_until ≡ copy.valid_until
    → operative_ruleset w expected (old ∷ copy ∷ again ∷ []) ≡ some again
unfolding operative_ruleset operative_ordered serve_from ordered
revoked_copy-unacknowledged w expected s old copy again signed_old first genesis ack pin k revoking
      k' live ceiling capabilities until =
    let second = Follows-serves w s 1 old copy k (revoking_narrows old copy revoking) in
    let third =
      Follows-serves w s 2 copy again k' (restates copy again ceiling capabilities until) in
    let start = starts w s old signed_old first genesis ack in
    ground (arith, signed_old, first, k.version, k'.version, pin, start, second, third, live)

-- The second version gives no more than the first.
pub record IsNarrower (prev next : SignedRuleset) : Type 0 where
  pub ceiling : next.ceiling ≤ℤ prev.ceiling
  pub kinds : Subset (get_or next.capabilities.kinds []) (get_or prev.capabilities.kinds [])
  pub verbs : Subset (get_or next.capabilities.verbs []) (get_or prev.capabilities.verbs [])
  pub until : valid_until_narrows prev.valid_until next.valid_until ≡ true
  pub assurance : assurance_lowered prev.capabilities.assurance next.capabilities.assurance ≡ false

not_revoked : (s : RulesetStatus) → s ≢ revoked → is_revoked s ≡ false
not_revoked active h = refl
not_revoked superseded h = refl
not_revoked revoked h = absurd (h refl)

narrows→IsNarrower :
    (prev next : SignedRuleset)
    → next.status ≢ revoked
    → guardianship_narrows_or_equal prev next ≡ true
    → IsNarrower prev next
unfolding guardianship_narrows_or_equal
narrows→IsNarrower prev next live h =
    let (ceiling, h1) =
      and-split (leb_ℤ next.ceiling prev.ceiling) _
        (or-right _ _ (not_revoked next.status live) h) in
    let (kinds, h2) = and-split _ _ h1 in
    let (verbs, h3) = and-split _ _ h2 in
    let (until, assurance) =
      and-split _ (not (assurance_lowered prev.capabilities.assurance next.capabilities.assurance))
        h3 in
    record {
      ceiling = ground (arith, ceiling);
      kinds =
          (every-includes_iff (get_or prev.capabilities.kinds [])
              (get_or next.capabilities.kinds [])).0
            kinds;
      verbs =
          (every-includes_iff (get_or prev.capabilities.verbs [])
              (get_or next.capabilities.verbs [])).0
            verbs;
      until = until;
      assurance = ground (arith, assurance);
    }
  where
    or-right : (a b : Bool) → a ≡ false → (a || b) ≡ true → b ≡ true
    or-right a b h k = ground arith

-- A version that is not revoked and follows a guardianship of the same member without counting as
-- widening has no higher ceiling, lists no further kinds and verbs, ends no later and lowers no
-- assurance.
pub unacknowledged-IsNarrower :
    (prev next : SignedRuleset)
    → is_filled (get_or next.subject []) ≡ true
    → next.status ≢ revoked
    → widens_into_private_scope (some prev) next ≡ false
    → (prev.subject ≡ next.subject) × IsNarrower prev next
unfolding widens_into_private_scope
unacknowledged-IsNarrower prev next filled live h = (
  (eq_opt_iff prev.subject next.subject).0 (ground (arith, filled)),
  narrows→IsNarrower prev next live (ground (arith, filled)),
)
