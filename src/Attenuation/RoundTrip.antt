-- ===== src/Attenuation/RoundTrip.antt =====
-- `issueVc` and `verifyAttenuationChain` of packages/core/src/attenuation.ts together: chains
-- that issuances build, and what the verifier says of them.
use hearthold.Prelude.{
  ℕ, suc, ◌≤◌, Bool, true, Option, none, some, [], ◌∷◌, Text, get_or, is_filled, length, ◌≡◌, refl,
  sym, ap, ◌∙◌, subst, arith,
}
use hearthold.Prelude.Int.{succ_ℤ}
use hearthold.Json.{Json}
use hearthold.Attenuation.{AuthoritySet, AuthoritySetPayload, normalize_authority_set, signer_of}
use hearthold.Attenuation.Sets.{IsWithin, is_subset_iff}
use hearthold.Attenuation.Verify.{Hop, VerifyOptions, passed, accept, verify_attenuation_chain}
use hearthold.Attenuation.Hops.{IsLink, origin, link}
use hearthold.Attenuation.Completeness.{verify_attenuation_chain_complete}
use hearthold.Attenuation.Keymaster.{IsKeymaster}
use hearthold.Attenuation.Issue.{Keymaster, IssuedVc, IssueVcArgs, may_issue, plain_args, issue_vc}
use hearthold.Attenuation.Issued.{
  at, IsMinted, issue_vc-IsMinted, minted-Extends, IsShown, Stands, Stands-Extends, minted-Stands,
  minted_hop, payload_of,
}

module _ {W C : Type 0} (km : Keymaster W C) (laws : IsKeymaster km) (sha256 : Text → Text)
    (to_json : C → Json) (opts : VerifyOptions C) where
  -- What a sequence of issuances has left: a credential, and how many hops are behind it with it.
  -- Each is disclosed and live; the first is made by the expected root, each next one by the holder
  -- of its parent, with caveats that pass the verifier's narrowing. Any other issuance may come
  -- between.
  pub data Issued : W → IssuedVc C → ℕ → Type 0 where
    root :
        (name holder salt issuer : Text) (a : AuthoritySet) (caveats : Option C) {w w' : W}
        {vc : IssuedVc C}
        → issue_vc km sha256 to_json (plain_args name holder a caveats none) salt w ≡ some (vc, w')
        → km.did_of w name ≡ some issuer
        → is_filled issuer ≡ true
        → ((r : Text) → opts.expected_root_issuer ≡ some r → is_filled r ≡ true → issuer ≡ r)
        → IsShown km laws sha256 to_json opts w' vc issuer
        → Issued w' vc 1
    child :
        (name holder salt issuer : Text) (a : AuthoritySet) (caveats : Option C)
        (parent : IssuedVc C) (n : ℕ) {w w' : W} {vc : IssuedVc C}
        → Issued w parent n
        → issue_vc km sha256 to_json (plain_args name holder a caveats (some parent)) salt w
          ≡ some (vc, w')
        → km.did_of w name ≡ some issuer
        → is_filled issuer ≡ true
        → issuer ≡ parent.holder
        → ((narrows : Option C → Option C → Bool)
            → opts.caveat_narrows ≡ some narrows
            → narrows caveats parent.caveats ≡ true)
        → IsShown km laws sha256 to_json opts w' vc issuer
        → Issued w' vc (suc n)
    other :
        (others : IssueVcArgs C) (salt : Text) (x : IssuedVc C) {n : ℕ} {w w' : W} {vc : IssuedVc C}
        → Issued w vc n
        → issue_vc km sha256 to_json others salt w ≡ some (x, w')
        → Issued w' vc n

  identity-same :
      (w : W) (name a b : Text) → km.did_of w name ≡ some a → km.did_of w name ≡ some b → a ≡ b
  identity-same w name a b h k = cc

  payload-injective : (a b : AuthoritySetPayload C) → some a ≡ some b → a ≡ b
  payload-injective a b h = cc

  -- A root that is issued stands.
  root-Stands :
      (name holder salt : Text) (a : AuthoritySet) (caveats : Option C) (w w' : W) (vc : IssuedVc C)
      (k : IsMinted km laws sha256 to_json opts
        (plain_args name holder a caveats none)
        salt
        w
        vc
        w')
      → is_filled k.issuer ≡ true
      → ((r : Text) → opts.expected_root_issuer ≡ some r → is_filled r ≡ true → k.issuer ≡ r)
      → IsShown km laws sha256 to_json opts w' vc k.issuer
      → Stands km laws sha256 to_json opts w' vc 1
  root-Stands name holder salt a caveats w w' vc k filled expected shown =
      minted-Stands km laws sha256 to_json opts name holder salt a caveats none w w' vc k filled
        shown []
        (λ did version good.
          origin good (record { last = refl; counter = refl; no_parent = refl; root = expected }))

  module _ (name holder salt : Text) (a : AuthoritySet) (caveats : Option C) (parent : IssuedVc C)
      (w w' : W) (vc : IssuedVc C)
      (k : IsMinted km laws sha256 to_json opts
        (plain_args name holder a caveats (some parent))
        salt
        w
        vc
        w')
      (filled : is_filled k.issuer ≡ true)
      (shown : IsShown km laws sha256 to_json opts w' vc k.issuer) where
    abbrev child_hop : Hop C
    child_hop =
        minted_hop km laws sha256 to_json opts name holder salt a caveats (some parent) w w' vc k
          filled shown

    within : IsWithin vc.authority_set parent.authority_set
    unfolding may_issue
    within =
        subst (λ x. IsWithin x parent.authority_set)
          (ap (λ (x : IssuedVc C). x.authority_set) k.result)
          ((is_subset_iff (normalize_authority_set a) parent.authority_set).0 k.allowed)

    -- A child that the holder of its parent issued is linked to the parent's hop.
    child-IsLink :
        (n : ℕ) (p : Stands km laws sha256 to_json opts w' parent n)
        → signer_of k.asrt ≡ k.issuer
        → k.issuer ≡ parent.holder
        → ((narrows : Option C → Option C → Bool)
            → opts.caveat_narrows ≡ some narrows
            → narrows caveats parent.caveats ≡ true)
        → IsLink (at km laws sha256 to_json opts w') child_hop p.hop
    child-IsLink n p by holds narrow = record {
      counter = ap succ_ℤ (sym p.same_counter);
      commitment = ap some (sym p.same_commitment);
      lineage = sym p.same_lineage;
      delegator = λ _. by ∙ holds ∙ sym p.same_holder;
      authority = λ c q hc hq.
          subst (λ (x : AuthoritySetPayload C). IsWithin c.authority_set x.authority_set)
            (payload-injective (payload_of km laws sha256 to_json opts parent) q
              (sym p.same_reveal ∙ hq))
            (subst (λ (x : AuthoritySetPayload C). IsWithin x.authority_set parent.authority_set)
              (payload-injective (payload_of km laws sha256 to_json opts vc) c hc) within);
      caveats = λ c q narrows hc hq given.
          subst (λ (x : AuthoritySetPayload C). narrows c.caveats x.caveats ≡ true)
            (payload-injective (payload_of km laws sha256 to_json opts parent) q
              (sym p.same_reveal ∙ hq))
            (subst (λ (x : AuthoritySetPayload C). narrows x.caveats parent.caveats ≡ true)
              (payload-injective (payload_of km laws sha256 to_json opts vc) c hc)
              (subst (λ x. narrows x parent.caveats ≡ true)
                (ap (λ (x : IssuedVc C). x.caveats) k.result) (narrow narrows given)));
    }

    child-Stands :
        (n : ℕ) (p : Stands km laws sha256 to_json opts w' parent n)
        → k.issuer ≡ parent.holder
        → ((narrows : Option C → Option C → Bool)
            → opts.caveat_narrows ≡ some narrows
            → narrows caveats parent.caveats ≡ true)
        → Stands km laws sha256 to_json opts w' vc (suc n)
    child-Stands n p holds narrow =
        subst (λ m. Stands km laws sha256 to_json opts w' vc (suc m)) p.depth
          (minted-Stands km laws sha256 to_json opts name holder salt a caveats (some parent) w w'
            vc k filled shown (p.hop ∷ p.rest)
            (λ did version good.
              link parent.pin good refl p.pinned (child-IsLink n p good.by_controller holds narrow)
                p.chain))

  Issued-Stands :
      (w : W) (vc : IssuedVc C) (n : ℕ) → Issued w vc n → Stands km laws sha256 to_json opts w vc n
  Issued-Stands _ _ _
        (root name holder salt issuer a caveats {w} {w'} {vc} h identity filled expected shown) =
      let k =
        issue_vc-IsMinted km laws sha256 to_json opts (plain_args name holder a caveats none) salt w
          w' vc h in
      let same = identity-same w name issuer k.issuer identity k.identity in
      root-Stands name holder salt a caveats w w' vc k (subst (λ x. is_filled x ≡ true) same filled)
        (subst (λ x. (r : Text) → opts.expected_root_issuer ≡ some r → is_filled r ≡ true → x ≡ r)
          same expected)
        (subst (λ x. IsShown km laws sha256 to_json opts w' vc x) same shown)
  Issued-Stands _ _ _
        (child name holder salt issuer a caveats parent n {w} {w'} {vc} before h identity filled
          holds narrow shown) =
      let k =
        issue_vc-IsMinted km laws sha256 to_json opts
          (plain_args name holder a caveats (some parent)) salt w w' vc h in
      let same = identity-same w name issuer k.issuer identity k.identity in
      let p =
        Stands-Extends km laws sha256 to_json opts w w' parent n
          (minted-Extends km laws sha256 to_json opts
            (plain_args name holder a caveats (some parent)) salt w w' vc k)
          (Issued-Stands w parent n before) in
      child-Stands name holder salt a caveats parent w w' vc k
        (subst (λ x. is_filled x ≡ true) same filled)
        (subst (λ x. IsShown km laws sha256 to_json opts w' vc x) same shown) n p (sym same ∙ holds)
        narrow
  Issued-Stands _ _ _ (other others salt x {n} {w} {w'} {vc} before h) =
      let k = issue_vc-IsMinted km laws sha256 to_json opts others salt w w' x h in
      Stands-Extends km laws sha256 to_json opts w w' vc n
        (minted-Extends km laws sha256 to_json opts others salt w w' x k)
        (Issued-Stands w vc n before)

  accept-issued :
      (w : W) (vc : IssuedVc C) (n : ℕ) (k : Stands km laws sha256 to_json opts w vc n)
      → accept (at km laws sha256 to_json opts w) k.hop (length (k.hop ∷ k.rest)) ≡ record {
        chain_length = n;
        holder = vc.holder;
        leaf_authority_set = some vc.authority_set;
        leaf_caveats = vc.caveats;
      }
  unfolding accept
  accept-issued w vc n k = ground (arith, k.depth, k.same_holder, k.same_reveal)

-- A chain that issuances built verifies, with a keymaster that keeps its laws and within the hop
-- bound, where no issuance of it uses the test knobs, each issuer's DID is not empty, the first issuer
-- is the expected root where one is expected, each next issuer is the holder that its parent names,
-- with caveats that pass the verifier's narrowing where it has one, and each hop is disclosed as
-- issued and live. It is accepted with the chain's length and the holder, the authority and the
-- caveats that its last credential was issued with, whatever other issuances came between or since.
pub issued-verifies :
    {W C : Type 0} (km : Keymaster W C) (laws : IsKeymaster km) (sha256 : Text → Text)
    (to_json : C → Json) (opts : VerifyOptions C) (w : W) (vc : IssuedVc C) (n : ℕ)
    → Issued km laws sha256 to_json opts w vc n
    → n ≤ get_or opts.max_hops 64
    → verify_attenuation_chain (at km laws sha256 to_json opts w) vc.vc_did
      ≡ passed (record {
        chain_length = n;
        holder = vc.holder;
        leaf_authority_set = some vc.authority_set;
        leaf_caveats = vc.caveats;
      })
issued-verifies km laws sha256 to_json opts w vc n issued short =
    let k = Issued-Stands km laws sha256 to_json opts w vc n issued in
    (verify_attenuation_chain_complete (at km laws sha256 to_json opts w) k.latest).0
      (subst (λ m. m ≤ get_or opts.max_hops 64) (sym k.depth) short)
    ∙ ap passed (accept-issued km laws sha256 to_json opts w vc n k)
