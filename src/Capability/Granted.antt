-- ===== src/Capability/Granted.antt =====
-- Handles that packages/core/src/capability-chain.ts mints and delegates, and what its verifier says
-- of their chains.
use hearthold.Prelude.{
  ℕ, suc, ◌≤◌, Bool, true, Option, none, some, [], Text, codes, get_or, is_filled, ◌===◌, ===_iff,
  bind-some, guard-some, ◌≡◌, ◌≢◌, refl, sym, ap, ◌∙◌, subst, arith,
}
use hearthold.Prelude.Int.{ℤ}
use hearthold.Json.{Json}
use hearthold.Attenuation.{normalize_authority_set}
use hearthold.Attenuation.Verify.{Verifier, passed, verify_attenuation_chain}
use hearthold.Attenuation.Keymaster.{IsKeymaster}
use hearthold.Attenuation.Issue.{Keymaster, IssuedVc, IssueVcArgs, issue_vc}
use hearthold.Attenuation.Issued.{at, issue_vc-IsMinted, IsShown}
use hearthold.Attenuation.RoundTrip.{Issued, root, child, other, issued-verifies}
use hearthold.Capability.{
  Caveats, HearthholdCapability, caveats_narrow, capability_narrows, normalize_caveats,
  ceiling_within,
}
use hearthold.Capability.Narrows.{caveats_narrow-IsNarrower, caveats_narrow_trans}
use hearthold.Capability.Normal.{normalize_caveats-faithful_iff}
use hearthold.Capability.Issuance.{
  CapabilityHandle, CapabilitySpec, capability_of, spec_args, mint_root_capability,
  delegate_capability, ChainOptions, chain_options, caveats_narrow_caught, verify_capability_chain,
}

numeric : (c p : Option ℤ) → ceiling_within c p ≡ true → (n : ℤ) × (p ≡ some n)
numeric none p h = absurd (ground arith)
numeric (some c) none h = absurd (ground arith)
numeric (some c) (some p) h = (p, refl)

-- Committed forms narrow as the caveats do.
normal-narrows :
    (locale_le : Text → Text → Bool) (c p : Caveats)
    → caveats_narrow c p ≡ true
    → c.kinds ≢ some []
    → caveats_narrow (normalize_caveats locale_le c) (normalize_caveats locale_le p) ≡ true
normal-narrows locale_le c p h kinds =
    let k = (caveats_narrow-IsNarrower c p).0 h in
    let (n, parent) = numeric c.ceiling p.ceiling k.ceiling in
    let down = (normalize_caveats-faithful_iff locale_le p n parent).0 in
    let (m, own) = own_ceiling c.ceiling p.ceiling k.ceiling in
    let up = (normalize_caveats-faithful_iff locale_le c m own).1.1 kinds in
    caveats_narrow_trans (normalize_caveats locale_le c) c (normalize_caveats locale_le p) up
      (caveats_narrow_trans c p (normalize_caveats locale_le p) h down)
  where
    own_ceiling : (c p : Option ℤ) → ceiling_within c p ≡ true → (n : ℤ) × (c ≡ some n)
    own_ceiling none p h = absurd (ground arith)
    own_ceiling (some c) p h = (c, refl)

module _ {W : Type 0} (km : Keymaster W Caveats) (laws : IsKeymaster km) (sha256 : Text → Text)
    (to_json : Caveats → Json) (locale_le : Text → Text → Bool) (opts : ChainOptions) where
  abbrev pub verifier_at : W → Verifier Caveats
  verifier_at w = at km laws sha256 to_json (chain_options opts) w

  -- A handle's hop is disclosed as issued, and live.
  abbrev pub IsPresented : W → CapabilityHandle → Text → Type 0
  IsPresented w h issuer = IsShown km laws sha256 to_json (chain_options opts) w h.issued issuer

  -- The handles that a sequence of calls has given, each with the number of its hops: a root that the
  -- expected issuer mints, and a child that is delegated from one that is there. Any other issuance
  -- may come between.
  pub data Granted : W → CapabilityHandle → ℕ → Type 0 where
    minted :
        (name holder salt issuer : Text) (spec : CapabilitySpec) {w w' : W} {h : CapabilityHandle}
        → mint_root_capability km sha256 to_json locale_le name holder spec salt w ≡ some (h, w')
        → km.did_of w name ≡ some issuer
        → is_filled issuer ≡ true
        → ((r : Text) → opts.expected_root_issuer ≡ some r → is_filled r ≡ true → issuer ≡ r)
        → IsPresented w' h issuer
        → Granted w' h 1
    delegated :
        (name holder salt : Text) (spec : CapabilitySpec) (parent : CapabilityHandle) (n : ℕ)
        {w w' : W} {h : CapabilityHandle}
        → Granted w parent n
        → delegate_capability km sha256 to_json locale_le name parent holder spec salt w
          ≡ some (h, w')
        → is_filled parent.capability.controller ≡ true
        → spec.caveats.kinds ≢ some []
        → IsPresented w' h parent.capability.controller
        → Granted w' h (suc n)
    between :
        (others : IssueVcArgs Caveats) (salt : Text) (x : IssuedVc Caveats) {n : ℕ} {w w' : W}
        {h : CapabilityHandle}
        → Granted w h n
        → issue_vc km sha256 to_json others salt w ≡ some (x, w')
        → Granted w' h n

  -- What a handle says of its credential.
  pub record IsHandle (h : CapabilityHandle) : Type 0 where
    pub same_id : h.issued.vc_did ≡ h.capability.id
    pub same_holder : h.issued.holder ≡ h.capability.controller
    pub same_authority : h.issued.authority_set ≡ normalize_authority_set h.capability.authority
    pub same_caveats : h.issued.caveats ≡ some (normalize_caveats locale_le h.capability.caveats)

  handle-injective :
      (a b : CapabilityHandle) (x y : W)
      → ◌≡◌ {A = Option (CapabilityHandle × W)} (some (a, x)) (some (b, y))
      → (a ≡ b) × (x ≡ y)
  handle-injective a b x y h = (cc, cc)

  -- The handle of an issuance says what was issued.
  issued-IsHandle :
      (name holder salt : Text) (spec : CapabilitySpec) (parent : Option (IssuedVc Caveats))
      (id : Option Text) (w w' : W) (vc : IssuedVc Caveats)
      → issue_vc km sha256 to_json
          (spec_args km sha256 to_json locale_le name holder spec parent)
          salt
          w
        ≡ some (vc, w')
      → IsHandle (record { issued = vc; capability = capability_of spec vc.vc_did holder id })
  issued-IsHandle name holder salt spec parent id w w' vc h =
      let k =
        issue_vc-IsMinted km laws sha256 to_json (chain_options opts)
          (spec_args km sha256 to_json locale_le name holder spec parent) salt w w' vc h in
      record {
        same_id = refl;
        same_holder = sym (ap (λ (x : IssuedVc Caveats). x.holder) k.result);
        same_authority = sym (ap (λ (x : IssuedVc Caveats). x.authority_set) k.result);
        same_caveats = sym (ap (λ (x : IssuedVc Caveats). x.caveats) k.result);
      }

  -- A minted or delegated handle, and the issuance behind it.
  IsOf :
      CapabilityHandle
      → Text
      → Text
      → Text
      → CapabilitySpec
      → Option (IssuedVc Caveats)
      → W
      → W
      → Type 0
  IsOf h name holder salt spec parent w w' =
      (issue_vc km sha256 to_json (spec_args km sha256 to_json locale_le name holder spec parent)
          salt w
        ≡ some (h.issued, w'))
      × IsHandle h

  mint-IsOf :
      (name holder salt : Text) (spec : CapabilitySpec) (w w' : W) (h : CapabilityHandle)
      → mint_root_capability km sha256 to_json locale_le name holder spec salt w ≡ some (h, w')
      → IsOf h name holder salt spec none w w'
  unfolding mint_root_capability IsOf
  mint-IsOf name holder salt spec w w' h e =
      let (issued, made, rest) =
        bind-some
          (issue_vc km sha256 to_json (spec_args km sha256 to_json locale_le name holder spec none)
            salt w)
          _ e in
      let (same, end) = handle-injective _ h issued.1 w' rest in
      (
        made
            ∙ ap (λ (x : CapabilityHandle). some (x.issued, issued.1)) same
            ∙ ap (λ x. some (h.issued, x)) end,
        subst IsHandle same
            (issued-IsHandle name holder salt spec none none w issued.1 issued.0 made),
      )

  -- What a delegation has checked.
  delegate-IsOf :
      (name holder salt : Text) (spec : CapabilitySpec) (parent h : CapabilityHandle) (w w' : W)
      → delegate_capability km sha256 to_json locale_le name parent holder spec salt w
        ≡ some (h, w')
      → (km.did_of w name ≡ some parent.capability.controller)
        × (capability_narrows h.capability parent.capability ≡ true)
        × (h.capability.caveats ≡ spec.caveats)
        × IsOf h name holder salt spec (some parent.issued) w w'
  unfolding delegate_capability IsOf capability_narrows
  delegate-IsOf name holder salt spec parent h w w' e =
      let (issuer, identity, e1) = bind-some (km.did_of w name) _ e in
      let (by, e2) = guard-some (issuer === parent.capability.controller) _ e1 in
      let (narrow, e3) =
        guard-some
          (capability_narrows
            (capability_of spec (codes "urn:pending") holder (some parent.capability.id))
            parent.capability)
          _ e2 in
      let (issued, made, rest) =
        bind-some
          (issue_vc km sha256 to_json
            (spec_args km sha256 to_json locale_le name holder spec (some parent.issued)) salt w)
          _ e3 in
      let (same, end) = handle-injective _ h issued.1 w' rest in
      (
        identity ∙ ap some ((===_iff issuer parent.capability.controller).0 by),
        subst (λ (x : CapabilityHandle). capability_narrows x.capability parent.capability ≡ true)
            same narrow,
        sym (ap (λ (x : CapabilityHandle). x.capability.caveats) same),
        (
          made
              ∙ ap (λ (x : CapabilityHandle). some (x.issued, issued.1)) same
              ∙ ap (λ x. some (h.issued, x)) end,
          subst IsHandle same (
              issued-IsHandle name holder salt spec (some parent.issued) (some parent.capability.id)
                w issued.1 issued.0 made),
        ),
      )

  -- The verifier's narrowing of the committed caveats is the one of the capabilities.
  caught-narrows :
      (spec : CapabilitySpec) (parent : CapabilityHandle)
      → IsHandle parent
      → caveats_narrow spec.caveats parent.capability.caveats ≡ true
      → spec.caveats.kinds ≢ some []
      → (narrows : Option Caveats → Option Caveats → Bool)
      → some caveats_narrow_caught ≡ some narrows
      → narrows (some (normalize_caveats locale_le spec.caveats)) parent.issued.caveats ≡ true
  unfolding caveats_narrow_caught
  caught-narrows spec parent k h kinds narrows e =
      subst
        (λ (f : Option Caveats → Option Caveats → Bool).
          f (some (normalize_caveats locale_le spec.caveats)) parent.issued.caveats ≡ true)
        (narrows-injective caveats_narrow_caught narrows e)
        (rw (k.same_caveats)
          (normal-narrows locale_le spec.caveats parent.capability.caveats h kinds))
    where
      narrows-injective : (f g : Option Caveats → Option Caveats → Bool) → some f ≡ some g → f ≡ g
      narrows-injective f g h = cc

  capability_narrows-caveats :
      (c p : HearthholdCapability)
      → capability_narrows c p ≡ true
      → caveats_narrow c.caveats p.caveats ≡ true
  unfolding capability_narrows
  capability_narrows-caveats c p h = ground arith

  Granted-Issued :
      (w : W) (h : CapabilityHandle) (n : ℕ)
      → Granted w h n
      → Issued km laws sha256 to_json (chain_options opts) w h.issued n × IsHandle h
  unfolding IsOf
  Granted-Issued _ _ _
        (minted name holder salt issuer spec {w} {w'} {h} e identity filled expected shown) =
      let (made, is) = mint-IsOf name holder salt spec w w' h e in
      (
        root name holder salt issuer spec.authority
            (some (normalize_caveats locale_le spec.caveats)) made identity filled expected shown,
        is,
      )
  Granted-Issued _ _ _
        (delegated name holder salt spec parent n {w} {w'} {h} before e filled kinds shown) =
      let (prior, known) = Granted-Issued w parent n before in
      let (identity, narrow, same, of) = delegate-IsOf name holder salt spec parent h w w' e in
      (
        child name holder salt parent.capability.controller spec.authority
            (some (normalize_caveats locale_le spec.caveats)) parent.issued n prior of.0 identity
            filled (sym known.same_holder)
            (caught-narrows spec parent known
              (subst (λ x. caveats_narrow x parent.capability.caveats ≡ true) same
                (capability_narrows-caveats h.capability parent.capability narrow))
              kinds)
            shown,
        of.1,
      )
  Granted-Issued _ _ _ (between others salt x {n} {w} {w'} {h} before e) =
      let (prior, known) = Granted-Issued w h n before in (other others salt x prior e, known)

-- A chain of handles that were minted and delegated verifies, with a keymaster that keeps its laws
-- and within the hop bound, where the minter is the expected root issuer if one is expected, the
-- minter's DID and the DID of every delegating controller are not empty, no delegation has an empty
-- array of kinds, and each hop is disclosed as issued and live. It is accepted under the last
-- handle's id, with its controller and the normal forms of its authority and caveats, whatever other
-- issuances came between or since.
pub granted-verifies :
    {W : Type 0} (km : Keymaster W Caveats) (laws : IsKeymaster km) (sha256 : Text → Text)
    (to_json : Caveats → Json) (locale_le : Text → Text → Bool) (opts : ChainOptions) (w : W)
    (h : CapabilityHandle) (n : ℕ)
    → Granted km laws sha256 to_json locale_le opts w h n
    → n ≤ get_or opts.max_hops 64
    → verify_capability_chain
        (verifier_at km laws sha256 to_json locale_le opts w)
        opts
        h.capability.id
      ≡ passed (record {
        chain_length = n;
        holder = h.capability.controller;
        leaf_authority_set = some (normalize_authority_set h.capability.authority);
        leaf_caveats = some (normalize_caveats locale_le h.capability.caveats);
      })
unfolding verify_capability_chain
granted-verifies km laws sha256 to_json locale_le opts w h n granted short =
    let (issued, is) = Granted-Issued km laws sha256 to_json locale_le opts w h n granted in
    ap (verify_attenuation_chain (verifier_at km laws sha256 to_json locale_le opts w))
      (sym is.same_id)
    ∙ issued-verifies km laws sha256 to_json (chain_options opts) w h.issued n issued short
    ∙ rw (is.same_holder, is.same_authority, is.same_caveats) refl
