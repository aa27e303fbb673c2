-- ===== src/Ruleset.antt =====
-- packages/core/src/ruleset.ts: the signed, versioned law of an actor, its verification, the
-- amendment rule for guardianships, and the two authorizations that read it. The node's signature
-- check and the hash are parameters; `ruleset_json` gives the JSON that a ruleset was read from.
-- The capabilities that this file only carries (custody, allowances) are part of that JSON.
pub mod Narrowing
pub mod Chains
pub mod Guardian
mod Tests
use hearthold.Prelude.{
  ℕ, zero, suc, ◌+◌, Bool, true, false, not, ◌&&◌, ◌||◌, Option, none, some, List, [], ◌∷◌, ◌++◌,
  map, Text, get_or, is_some, is_filled, eq_opt, text_leb, before_hash, any, ltb, ◌===◌,
  if◌then◌else◌, includes, includes_all,
}
use hearthold.Prelude.Int.{ℤ, pos, leb_ℤ, ltb_ℤ, eqb_ℤ}
use hearthold.Json.{Json, canonicalize}
use hearthold.Attenuation.{Proof, signer_of_proof}

pub data RulesetStatus : Type 0 where
  active superseded revoked : RulesetStatus

pub data AssuranceTier : Type 0 where
  factor1 factor2 : AssuranceTier

pub record RulesetCapabilities : Type 0 where
  pub kinds : Option (List Text)
  pub verbs : Option (List Text)
  pub assurance : Option (List (Text × AssuranceTier))

-- A ruleset with its signatures.
pub record SignedRuleset : Type 0 where
  pub actor : Text
  pub actor_kind : Text
  pub resource : Option Text
  pub version : ℤ
  pub previous : Option Text
  pub capabilities : RulesetCapabilities
  pub ceiling : ℤ
  pub status : RulesetStatus
  pub subject : Option Text
  pub valid_until : Option Text
  pub proof : Option Proof
  pub member_ack : Option Proof

pub data RulesetFault : Type 0 where
  unsigned no_signer bad_signature : RulesetFault
  empty_chain other_signer non_contiguous actor_changed broken_link unacknowledged : RulesetFault
  wrong_governor : RulesetFault

-- The signer, or what failed.
pub data RulesetCheck : Type 0 where
  signed : Text → RulesetCheck
  failed : RulesetFault → RulesetCheck

abbrev pub is_revoked : RulesetStatus → Bool
is_revoked revoked = true
is_revoked _ = false

abbrev pub is_active : RulesetStatus → Bool
is_active active = true
is_active _ = false

-- `assurance?.[verb]`
unfoldable pub tier_of : List (Text × AssuranceTier) → Text → Option AssuranceTier
tier_of [] verb = none
tier_of ((k, t) ∷ rest) verb = if k === verb then some t else tier_of rest verb

abbrev pub assurance_level : Option AssuranceTier → ℕ
assurance_level none = 0
assurance_level (some factor1) = 1
assurance_level (some factor2) = 2

unfoldable pub assurance_lowered :
    Option (List (Text × AssuranceTier)) → Option (List (Text × AssuranceTier)) → Bool
assurance_lowered prev next =
    let p = get_or prev [] in
    let n = get_or next [] in
    any (λ v. ltb (assurance_level (tier_of n v)) (assurance_level (tier_of p v)))
      (map (λ e. e.0) p ++ map (λ e. e.0) n)

unfoldable pub valid_until_narrows : Option Text → Option Text → Bool
valid_until_narrows none next = true
valid_until_narrows (some p) none = false
valid_until_narrows (some p) (some n) = text_leb n p

unfoldable pub guardianship_narrows_or_equal : SignedRuleset → SignedRuleset → Bool
guardianship_narrows_or_equal prev next =
    is_revoked next.status
    || (leb_ℤ next.ceiling prev.ceiling
        && (includes_all (get_or prev.capabilities.kinds []) (get_or next.capabilities.kinds [])
            && (includes_all (get_or prev.capabilities.verbs []) (get_or next.capabilities.verbs [])
                && (valid_until_narrows prev.valid_until next.valid_until
                    && not (
                        assurance_lowered prev.capabilities.assurance
                          next.capabilities.assurance)))))

-- `!next.subject` holds of an absent and of an empty subject.
unfoldable pub widens_into_private_scope : Option SignedRuleset → SignedRuleset → Bool
widens_into_private_scope prev next =
    if not (is_filled (get_or next.subject [])) then false else elim prev [
      | none ↦ true
      | some p ↦
          if not (eq_opt p.subject next.subject)
          then true
          else not (guardianship_narrows_or_equal p next)
    ]

insert_version : SignedRuleset → List SignedRuleset → List SignedRuleset
insert_version r [] = r ∷ []
insert_version r (s ∷ ss) =
    if leb_ℤ r.version s.version then r ∷ s ∷ ss else s ∷ insert_version r ss

-- `[...chain].sort((a, b) => a.version - b.version)`, which is stable.
unfoldable pub ordered : List SignedRuleset → List SignedRuleset
unfolding insert_version
ordered [] = []
ordered (r ∷ rs) = insert_version r (ordered rs)

-- The last of a list that starts with `r`.
abbrev pub last_of : SignedRuleset → List SignedRuleset → SignedRuleset
last_of r [] = r
last_of r (s ∷ ss) = last_of s ss

-- The node, the hash and the JSON form. A signature check that throws returns none.
pub record Warden : Type 0 where
  pub verify_proof : SignedRuleset → Option Bool
  pub sha256 : Text → Text
  pub ruleset_json : SignedRuleset → Json

module _ (w : Warden) where
  -- On JSON, `stableStringify` writes the canonical form.
  unfoldable pub ruleset_id : SignedRuleset → Text
  ruleset_id r = w.sha256 (canonicalize (w.ruleset_json r))

  unfoldable pub verify_ruleset : SignedRuleset → RulesetCheck
  verify_ruleset r =
      if not (is_some r.proof)
      then failed unsigned
      else if not (is_filled (signer_of_proof r.proof))
      then failed no_signer
      else if not (get_or (w.verify_proof (record r { member_ack = none })) false)
      then failed bad_signature
      else signed (signer_of_proof r.proof)

  unfoldable pub verify_member_ack : SignedRuleset → Bool
  verify_member_ack r =
      is_some r.member_ack
      && (is_filled (get_or r.subject [])
          && (get_or (w.verify_proof (record r { proof = r.member_ack; member_ack = none })) false
              && signer_of_proof r.member_ack === get_or r.subject []))

  -- The genesis has no predecessor; another version names its predecessor's id.
  unfoldable pub link_holds : Option SignedRuleset → SignedRuleset → Bool
  link_holds none r = not (is_some r.previous)
  link_holds (some p) r = eq_opt r.previous (some (ruleset_id p))

  -- The amendment rule.
  unfoldable pub amends : Option SignedRuleset → SignedRuleset → Bool
  amends prev r = not (widens_into_private_scope prev r && not (verify_member_ack r))

  abbrev pub same_signer : Option Text → Text → Bool
  same_signer none s = true
  same_signer (some signer) s = s === signer

  abbrev pub same_actor : SignedRuleset → SignedRuleset → Bool
  same_actor first r = r.actor === first.actor && r.actor_kind === first.actor_kind

  -- One round of `verifyRulesetChain`, on the version at index `i`.
  unfoldable pub check_version :
      Option Text → SignedRuleset → Option SignedRuleset → ℕ → SignedRuleset → RulesetCheck
  check_version signer first prev i r = elim (verify_ruleset r) [
    | failed f ↦ failed f
    | signed s ↦
        if not (same_signer signer s)
        then failed other_signer
        else if not (eqb_ℤ r.version (pos (suc i)))
        then failed non_contiguous
        else if not (same_actor first r)
        then failed actor_changed
        else if not (link_holds prev r)
        then failed broken_link
        else if not (amends prev r)
        then failed unacknowledged
        else signed s
  ]

  unfoldable pub verify_from :
      Text → SignedRuleset → SignedRuleset → ℕ → List SignedRuleset → RulesetCheck
  verify_from signer first prev i [] = signed signer
  verify_from signer first prev i (r ∷ rs) =
      elim (check_version (some signer) first (some prev) i r) [
        | failed f ↦ failed f
        | signed s ↦ verify_from signer first r (suc i) rs
      ]

  -- `opts.expectedSigner && signer !== opts.expectedSigner`, turned round.
  abbrev pub pinned : Option Text → Text → Bool
  pinned none s = true
  pinned (some e) s = not (is_filled e) || s === e

  abbrev pub pin_governor : Option Text → RulesetCheck → RulesetCheck
  pin_governor expected (failed f) = failed f
  pin_governor expected (signed s) = if pinned expected s then signed s else failed wrong_governor

  unfoldable pub verify_ordered : Option Text → List SignedRuleset → RulesetCheck
  verify_ordered expected [] = failed empty_chain
  verify_ordered expected (r ∷ rs) = elim (check_version none r none 0 r) [
    | failed f ↦ failed f
    | signed s ↦ pin_governor expected (verify_from s r r 1 rs)
  ]

  unfoldable pub verify_ruleset_chain : Option Text → List SignedRuleset → RulesetCheck
  verify_ruleset_chain expected chain = verify_ordered expected (ordered chain)

  -- The conditions of a round of `operativeRuleset` that do not stop it.
  unfoldable pub serves : Option Text → Option SignedRuleset → ℕ → SignedRuleset → Bool
  serves signer prev i r = elim (verify_ruleset r) [
    | failed f ↦ false
    | signed s ↦
        same_signer signer s
        && (eqb_ℤ r.version (pos (suc i)) && (link_holds prev r && amends prev r))
  ]

  -- The last valid version, from a valid one on.
  unfoldable pub serve_from : Text → SignedRuleset → ℕ → List SignedRuleset → SignedRuleset
  serve_from signer prev i [] = prev
  serve_from signer prev i (r ∷ rs) =
      let rest = serve_from signer r (suc i) rs in
      if serves (some signer) (some prev) i r then rest else prev

  abbrev pub if_active : SignedRuleset → Option SignedRuleset
  if_active r = if is_active r.status then some r else none

  abbrev pub signer_from : RulesetCheck → Text
  signer_from (failed f) = []
  signer_from (signed s) = s

  unfoldable pub operative_ordered : Option Text → List SignedRuleset → Option SignedRuleset
  operative_ordered expected [] = none
  operative_ordered expected (r ∷ rs) =
      let signer = signer_from (verify_ruleset r) in
      if not (serves none none 0 r)
      then none
      else if not (pinned expected signer)
      then none
      else if_active (serve_from signer r 1 rs)

  unfoldable pub operative_ruleset : Option Text → List SignedRuleset → Option SignedRuleset
  operative_ruleset expected chain = operative_ordered expected (ordered chain)

  abbrev pub head_of : List SignedRuleset → Option SignedRuleset
  head_of [] = none
  head_of (r ∷ rs) = if_active (last_of r rs)

  unfoldable pub active_ruleset : Option Text → List SignedRuleset → Option SignedRuleset
  active_ruleset expected chain = elim (verify_ruleset_chain expected chain) [
    | failed f ↦ none
    | signed s ↦ head_of (ordered chain)
  ]
