-- ===== src/Ruleset/Guardian.antt =====
-- `authorizeGuardianRead` and `authorizeActor` of packages/core/src/ruleset.ts: the two questions
-- that are put to a chain.
use hearthold.Prelude.{
  Bool, true, false, not, ◌&&◌, Option, none, some, List, [], Text, get_or, is_filled, eq_opt,
  eq_opt_iff, text_leb, if◌then◌else◌, ◌===◌, ===_iff, includes, ◌≡◌, ◌↔◌, arith, Option-cases, inl,
  inr,
}
use hearthold.Prelude.Int.{ℤ, ltb_ℤ}
use hearthold.Ruleset.{
  SignedRuleset, Warden, AssuranceTier, tier_of, operative_ruleset, active_ruleset, active,
}
use hearthold.Ruleset.Chains.{IsConsented, operative_ruleset-IsConsented}

pub record GuardianReadRequest : Type 0 where
  pub governor : Text
  pub subject : Text
  pub kind : Option Text
  pub sensitivity : Option ℤ
  pub at : Text

pub data GuardianRead : Type 0 where
  allowed no_edge expired out_of_scope : GuardianRead

-- `operative.validUntil && req.at > operative.validUntil`
unfoldable pub is_over : Option Text → Text → Bool
is_over none at = false
is_over (some until) at = is_filled until && not (text_leb at until)

-- `req.kind && caps.kinds && !caps.kinds.includes(req.kind)`
unfoldable pub kind_outside : Option Text → Option (List Text) → Bool
kind_outside none kinds = false
kind_outside (some k) none = false
kind_outside (some k) (some ks) = is_filled k && not (includes ks k)

-- `req.sensitivity !== undefined && req.sensitivity > ceiling`
unfoldable pub is_above : Option ℤ → ℤ → Bool
is_above none ceiling = false
is_above (some s) ceiling = ltb_ℤ ceiling s

unfoldable pub judge_read : GuardianReadRequest → SignedRuleset → GuardianRead
judge_read req r =
    if not (r.actor === req.governor && eq_opt r.subject (some req.subject))
    then no_edge
    else if is_over r.valid_until req.at
    then expired
    else if kind_outside req.kind r.capabilities.kinds
    then out_of_scope
    else if is_above req.sensitivity r.ceiling
    then out_of_scope
    else allowed

pub record ActorRequest : Type 0 where
  pub verb : Text
  pub kind : Option Text
  pub sensitivity : Option ℤ

pub data ActorAuthz : Type 0 where
  within : Option AssuranceTier → ActorAuthz
  no_ruleset wrong_verb wrong_kind above_ceiling : ActorAuthz

-- `caps.verbs && !caps.verbs.includes(req.verb)`
unfoldable pub verb_outside : Text → Option (List Text) → Bool
verb_outside verb none = false
verb_outside verb (some vs) = not (includes vs verb)

unfoldable pub judge_actor : ActorRequest → SignedRuleset → ActorAuthz
judge_actor req r =
    if verb_outside req.verb r.capabilities.verbs
    then wrong_verb
    else if kind_outside req.kind r.capabilities.kinds
    then wrong_kind
    else if is_above req.sensitivity r.ceiling
    then above_ceiling
    else within (tier_of (get_or r.capabilities.assurance []) req.verb)

module _ (w : Warden) where
  unfoldable pub authorize_guardian_read : List SignedRuleset → GuardianReadRequest → GuardianRead
  authorize_guardian_read chain req = elim (operative_ruleset w (some req.governor) chain) [
    | none ↦ no_edge
    | some r ↦ judge_read req r
  ]

  unfoldable pub authorize_actor : Option Text → List SignedRuleset → ActorRequest → ActorAuthz
  authorize_actor expected chain req = elim (active_ruleset w expected chain) [
    | none ↦ no_ruleset
    | some r ↦ judge_actor req r
  ]

  -- What an allowed read rests on.
  pub record IsGuardianship (chain : List SignedRuleset) (req : GuardianReadRequest) : Type 0 where
    pub law : SignedRuleset
    pub operative : operative_ruleset w (some req.governor) chain ≡ some law
    pub active_edge : law.status ≡ active
    pub governor : law.actor ≡ req.governor
    pub subject : law.subject ≡ some req.subject
    pub consented : IsConsented w law
    pub unexpired : is_over law.valid_until req.at ≡ false
    pub in_scope : kind_outside req.kind law.capabilities.kinds ≡ false
    pub below_ceiling : is_above req.sensitivity law.ceiling ≡ false

judge_read-allowed :
    (req : GuardianReadRequest) (r : SignedRuleset)
    → judge_read req r ≡ allowed
    → (r.actor ≡ req.governor)
      × (r.subject ≡ some req.subject)
      × (is_over r.valid_until req.at ≡ false)
      × (kind_outside req.kind r.capabilities.kinds ≡ false)
      × (is_above req.sensitivity r.ceiling ≡ false)
unfolding judge_read
judge_read-allowed req r h =
    ground (arith, (===_iff r.actor req.governor).0, (eq_opt_iff r.subject (some req.subject)).0)

-- When a governor's read of a named member is allowed, an active ruleset pinned to that governor
-- names this governor and this member, has not expired, covers the kind and the sensitivity, and
-- goes back to the member's own acknowledgment by steps that narrow or revoke.
pub authorize_guardian_read_sound :
    (w : Warden) (chain : List SignedRuleset) (req : GuardianReadRequest)
    → is_filled req.subject ≡ true
    → authorize_guardian_read w chain req ≡ allowed
    → IsGuardianship w chain req
unfolding authorize_guardian_read
authorize_guardian_read_sound w chain req filled h =
    elim (Option-cases (operative_ruleset w (some req.governor) chain)) [
      | inl off ↦ absurd (ground (arith, off))
      | inr (r, on) ↦
          let (actor, subject, over, kind, above) = judge_read-allowed req r (ground (arith, on)) in
          let (consent, live) =
            operative_ruleset-IsConsented w (some req.governor) chain r on (rw subject filled) in
          record {
            law = r;
            operative = on;
            active_edge = live;
            governor = actor;
            subject = subject;
            consented = consent;
            unexpired = over;
            in_scope = kind;
            below_ceiling = above;
          }
    ]

-- An actor is authorized with an assurance exactly when a ruleset is active, covers the verb, the
-- kind and the sensitivity, and asks that assurance of the verb.
pub authorize_actor_iff :
    (w : Warden) (expected : Option Text) (chain : List SignedRuleset) (req : ActorRequest)
    (tier : Option AssuranceTier)
    → (authorize_actor w expected chain req ≡ within tier) ↔ (
        (r : SignedRuleset) × (active_ruleset w expected chain ≡ some r)
        × (verb_outside req.verb r.capabilities.verbs ≡ false)
        × (kind_outside req.kind r.capabilities.kinds ≡ false)
        × (is_above req.sensitivity r.ceiling ≡ false)
        × (tier_of (get_or r.capabilities.assurance []) req.verb ≡ tier))
unfolding authorize_actor judge_actor
authorize_actor_iff w expected chain req tier = (
  λ h. elim (Option-cases (active_ruleset w expected chain)) [
    | inl off ↦ absurd (ground (arith, off))
    | inr (r, on) ↦
        let k : (verb_outside req.verb r.capabilities.verbs ≡ false)
            × (kind_outside req.kind r.capabilities.kinds ≡ false)
            × (is_above req.sensitivity r.ceiling ≡ false)
            × (within (tier_of (get_or r.capabilities.assurance []) req.verb) ≡ within tier) =
          ground (arith, on) in
        (
          r,
          on,
          k.0,
          k.1,
          k.2,
          within-injective (tier_of (get_or r.capabilities.assurance []) req.verb) tier k.3,
        )
  ],
  λ (r, on, verb, kind, above, e). ground (arith, on, verb, kind, above, e),
)
  where
    within-injective : (a b : Option AssuranceTier) → within a ≡ within b → a ≡ b
    within-injective a b h = cc
