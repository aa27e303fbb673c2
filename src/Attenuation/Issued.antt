-- ===== src/Attenuation/Issued.antt =====
-- The round trip of packages/core/src/attenuation.ts: what `issueVc` has issued,
-- `verifyAttenuationChain` accepts.
use hearthold.Prelude.{
  ℕ, suc, true, Option, none, some, List, ◌∷◌, Text, get_or, is_some, is_filled, length, guard-some,
  bind-some, ◌≡◌, refl, sym, ap, ◌∙◌, subst, inl,
}
use hearthold.Json.{Json}
use hearthold.Attenuation.{
  AuthoritySet, AuthoritySetPayload, PrevPin, AttenuationAssertion, normalize_authority_set, commit,
}
use hearthold.Attenuation.Verify.{Doc, Hop, Verifier, VerifyOptions, reveal_of, status_of, live}
use hearthold.Attenuation.Hops.{IsHop, IsLink, IsOrigin, IsPinned, Chain, origin, link}
use hearthold.Attenuation.Keymaster.{IsKeymaster}
use hearthold.Attenuation.Issue.{
  Meta, Keymaster, IssuedVc, IssueVcArgs, may_issue, assertion_body, pic_for, payload_for,
  issued_for, commitment_for, plain_args, write_pic, issue_vc,
}

module _ {W C : Type 0} (km : Keymaster W C) (laws : IsKeymaster km) (sha256 : Text → Text)
    (to_json : C → Json) (opts : VerifyOptions C) where
  -- The verifier over a state of the node.
  abbrev pub at : W → Verifier C
  at w = record {
    resolve_did = km.resolve_did w;
    verify_proof = km.verify_proof;
    sha256 = sha256;
    to_json = to_json;
    opts = opts;
  }

  -- Whatever resolves in the first state resolves to the same in the second.
  abbrev pub Extends : W → W → Type 0
  Extends w w' =
      (did : Text) (version : Option ℕ) (d : Doc)
      → km.resolve_did w did version ≡ some d
      → km.resolve_did w' did version ≡ some d

  hop-Extends :
      (w w' : W) (did : Text) (version : Option ℕ) (hop : Hop C)
      → Extends w w'
      → IsHop (at w) did version hop
      → IsHop (at w') did version hop
  hop-Extends w w' did version hop ext k = record {
    doc = k.doc;
    resolved = ext did version k.doc k.resolved;
    named = k.named;
    controlled = k.controlled;
    filled = k.filled;
    carried = k.carried;
    claimed = k.claimed;
    has_proof = k.has_proof;
    signed = k.signed;
    by_controller = k.by_controller;
    same_commitment = k.same_commitment;
    same_parent = k.same_parent;
    same_counter = k.same_counter;
    same_lineage = k.same_lineage;
    states = k.states;
    revealed = k.revealed;
    disclosed = k.disclosed;
    committed = k.committed;
    status = k.status;
  }

  IsLink-Extends :
      (w w' : W) (child parent : Hop C) → IsLink (at w) child parent → IsLink (at w') child parent
  IsLink-Extends w w' child parent k = record {
    counter = k.counter;
    commitment = k.commitment;
    lineage = k.lineage;
    delegator = k.delegator;
    authority = k.authority;
    caveats = k.caveats;
  }

  IsOrigin-Extends : (w w' : W) (hop : Hop C) → IsOrigin (at w) hop → IsOrigin (at w') hop
  IsOrigin-Extends w w' hop k = record {
    last = k.last;
    counter = k.counter;
    no_parent = k.no_parent;
    root = k.root;
  }

  chain-resolves :
      (w : W) {did : Text} {version : Option ℕ} {hop : Hop C} {rest : List (Hop C)}
      → Chain (at w) did version hop rest
      → (d : Doc) × (km.resolve_did w did version ≡ some d)
  chain-resolves w (origin good end) = (good.doc, good.resolved)
  chain-resolves w (link pin good prev pinned linked c) = (good.doc, good.resolved)

  doc-injective : (a b : Doc) → some a ≡ some b → a ≡ b
  doc-injective a b h = cc

  pinned-Extends :
      (w w' : W) (pin : PrevPin) (d : Doc)
      → Extends w w'
      → km.resolve_did w pin.did (some pin.version_sequence) ≡ some d
      → IsPinned (at w) pin
      → IsPinned (at w') pin
  pinned-Extends w w' pin d ext found pinned e found' =
      let same =
        doc-injective d e (sym (ext pin.did (some pin.version_sequence) d found) ∙ found') in
      ap (λ (x : Doc). x.version_id) (sym same) ∙ pinned d found

  -- A chain stays one.
  chain-Extends :
      (w w' : W) {did : Text} {version : Option ℕ} {hop : Hop C} {rest : List (Hop C)}
      → Extends w w'
      → Chain (at w) did version hop rest
      → Chain (at w') did version hop rest
  chain-Extends w w' ext (origin {did} {version} {hop} good end) =
      origin (hop-Extends w w' did version hop ext good) (IsOrigin-Extends w w' hop end)
  chain-Extends w w' ext (link {did} {version} {child} {parent} pin good prev pinned linked c) =
      let (d, found) = chain-resolves w c in
      link pin (hop-Extends w w' did version child ext good) prev
        (pinned-Extends w w' pin d ext found pinned) (IsLink-Extends w w' child parent linked)
        (chain-Extends w w' ext c)

  -- The calls of an issuance that returned.
  pub record IsMinted (args : IssueVcArgs C) (salt : Text) (w : W) (vc : IssuedVc C) (w' : W)
      : Type 0 where
    pub issuer : Text
    pub did : Text
    pub made : W
    pub asrt : AttenuationAssertion
    pub meta : Meta
    pub identity : km.did_of w args.issuer_name ≡ some issuer
    pub allowed : may_issue args (normalize_authority_set args.authority_set) ≡ true
    pub encrypted :
        km.encrypt_json w args.issuer_name (payload_for args salt) args.holder ≡ some (did, made)
    pub signed :
        km.add_proof made
          (get_or args.forge_assertion_with args.issuer_name)
          (assertion_body args issuer did (commitment_for km sha256 to_json args salt))
        ≡ some asrt
    pub merged :
        km.merge_data made did (pic_for args did (commitment_for km sha256 to_json args salt) asrt)
        ≡ some w'
    pub headed : km.head w' did ≡ some meta
    pub result : issued_for args salt did (commitment_for km sha256 to_json args salt) meta ≡ vc

  pair-injective :
      (a b : IssuedVc C) (x y : W)
      → ◌≡◌ {A = Option (IssuedVc C × W)} (some (a, x)) (some (b, y))
      → (a ≡ b) × (x ≡ y)
  pair-injective a b x y h = (cc, cc)

  pub issue_vc-IsMinted :
      (args : IssueVcArgs C) (salt : Text) (w w' : W) (vc : IssuedVc C)
      → issue_vc km sha256 to_json args salt w ≡ some (vc, w')
      → IsMinted args salt w vc w'
  unfolding issue_vc write_pic
  issue_vc-IsMinted args salt w w' vc h =
      let (issuer, identity, h1) = bind-some (km.did_of w args.issuer_name) _ h in
      let (allowed, h2) =
        guard-some (may_issue args (normalize_authority_set args.authority_set)) _ h1 in
      let (made, encrypted, h3) =
        bind-some (km.encrypt_json w args.issuer_name (payload_for args salt) args.holder) _ h2 in
      let (asrt, signed, h4) =
        bind-some
          (km.add_proof made.1 (get_or args.forge_assertion_with args.issuer_name)
            (assertion_body args issuer made.0 (commitment_for km sha256 to_json args salt)))
          _ h3 in
      let (w'', merged, h5) =
        bind-some
          (km.merge_data made.1 made.0
            (pic_for args made.0 (commitment_for km sha256 to_json args salt) asrt))
          _ h4 in
      let (meta, headed, h6) = bind-some (km.head w'' made.0) _ h5 in
      let (same, end) =
        pair-injective
          (issued_for args salt made.0 (commitment_for km sha256 to_json args salt) meta) vc w'' w'
          h6 in
      record {
        issuer = issuer;
        did = made.0;
        made = made.1;
        asrt = asrt;
        meta = meta;
        identity = identity;
        allowed = allowed;
        encrypted = encrypted;
        signed = signed;
        merged = merged ∙ ap some end;
        headed = subst (λ x. km.head x made.0 ≡ some meta) end headed;
        result = same;
      }

  pub minted-Extends :
      (args : IssueVcArgs C) (salt : Text) (w w' : W) (vc : IssuedVc C)
      → IsMinted args salt w vc w'
      → Extends w w'
  minted-Extends args salt w w' vc k did version d h =
      laws.keeps_merged k.made w' k.did did
        (pic_for args k.did (commitment_for km sha256 to_json args salt) k.asrt) version d
        (λ e.
          other
            (laws.is_new w k.made args.issuer_name args.holder k.did (payload_for args salt) version
              k.encrypted)
            (subst (λ x. km.resolve_did w x version ≡ some d) (sym e) h))
        k.merged
        (laws.keeps_made w k.made args.issuer_name args.holder k.did did (payload_for args salt)
          version d k.encrypted h)
    where
      other : km.resolve_did w k.did version ≡ none → km.resolve_did w k.did version ≡ some d → ⊥
      other a b = cc

  -- The disclosure that a presenter gives of an issued credential.
  abbrev pub payload_of : IssuedVc C → AuthoritySetPayload C
  payload_of vc = record { authority_set = vc.authority_set; salt = vc.salt; caveats = vc.caveats }

  payload-injective : (a b : AuthoritySetPayload C) → some a ≡ some b → a ≡ b
  payload-injective a b h = cc

  -- A credential is disclosed as issued, and live under the verifier's status check.
  pub record IsShown (w : W) (vc : IssuedVc C) (issuer : Text) : Type 0 where
    pub disclosed : reveal_of (at w) vc.vc_did ≡ some (payload_of vc)
    pub standing : status_of (at w) (payload_of vc) issuer ≡ live

  -- The hop that an issuance has published.
  abbrev pub hop_for :
      IssueVcArgs C → Text → Text → AttenuationAssertion → IssuedVc C → Text → Hop C
  hop_for args salt did asrt vc issuer = record {
    did = did;
    controller = issuer;
    pic = pic_for args did (commitment_for km sha256 to_json args salt) asrt;
    assertion = asrt;
    reveal = some (payload_of vc);
  }

  -- What stands of an issued credential in a state of the node: its chain, at its pinned version,
  -- with its own fields on the leaf.
  pub record Stands (w : W) (vc : IssuedVc C) (n : ℕ) : Type 0 where
    pub hop : Hop C
    pub rest : List (Hop C)
    pub latest : Chain (at w) vc.vc_did none hop rest
    pub chain : Chain (at w) vc.pin.did (some vc.pin.version_sequence) hop rest
    pub depth : length (hop ∷ rest) ≡ n
    pub pinned : IsPinned (at w) vc.pin
    pub same_lineage : hop.pic.lineage_id ≡ vc.lineage_id
    pub same_counter : hop.pic.counter ≡ vc.counter
    pub same_commitment : hop.pic.authority_commitment ≡ vc.authority_commitment
    pub same_holder : hop.assertion.holder ≡ vc.holder
    pub same_reveal : hop.reveal ≡ some (payload_of vc)

  pub Stands-Extends :
      (w w' : W) (vc : IssuedVc C) (n : ℕ) → Extends w w' → Stands w vc n → Stands w' vc n
  Stands-Extends w w' vc n ext k =
      let (d, found) = chain-resolves w k.chain in
      record {
        hop = k.hop;
        rest = k.rest;
        latest = chain-Extends w w' ext k.latest;
        chain = chain-Extends w w' ext k.chain;
        depth = k.depth;
        pinned = pinned-Extends w w' vc.pin d ext found k.pinned;
        same_lineage = k.same_lineage;
        same_counter = k.same_counter;
        same_commitment = k.same_commitment;
        same_holder = k.same_holder;
        same_reveal = k.same_reveal;
      }

  module _ (name holder salt : Text) (a : AuthoritySet) (caveats : Option C)
      (parent : Option (IssuedVc C)) (w w' : W) (vc : IssuedVc C)
      (k : IsMinted (plain_args name holder a caveats parent) salt w vc w')
      (filled : is_filled k.issuer ≡ true) (shown : IsShown w' vc k.issuer) where
    abbrev pub args : IssueVcArgs C
    args = plain_args name holder a caveats parent

    abbrev pub commitment : Text
    commitment = commitment_for km sha256 to_json args salt

    abbrev pub minted_hop : Hop C
    minted_hop = hop_for args salt k.did k.asrt vc k.issuer

    -- The published hop is good at every version at which it resolves to its document.
    minted-IsHop :
        (version : Option ℕ) (v : Text)
        → km.resolve_did w' k.did version
          ≡ some (record {
            version_id = some v;
            controller = some k.issuer;
            pic = some (pic_for args k.did commitment k.asrt);
          })
        → IsHop (at w') k.did version minted_hop
    minted-IsHop version v found =
        let (p, e, by, good) =
          laws.signs k.made name k.issuer (assertion_body args k.issuer k.did commitment) k.asrt
            (laws.keeps_identity w k.made name name k.issuer holder k.did (payload_for args salt)
              k.encrypted k.identity)
            k.signed in
        record {
          doc = record {
            version_id = some v;
            controller = some k.issuer;
            pic = some (pic_for args k.did commitment k.asrt);
          };
          resolved = found;
          named = refl;
          controlled = refl;
          filled = filled;
          carried = refl;
          claimed = refl;
          has_proof = ap (λ (x : AttenuationAssertion). is_some x.proof) e;
          signed = good;
          by_controller = by;
          same_commitment = ap (λ (x : AttenuationAssertion). x.authority_commitment) e;
          same_parent = ap (λ (x : AttenuationAssertion). x.parent_authority_commitment) e;
          same_counter = ap (λ (x : AttenuationAssertion). x.counter) e;
          same_lineage = ap (λ (x : AttenuationAssertion). x.lineage_id) e;
          states = ap (λ (x : AttenuationAssertion). x.statement) e;
          revealed =
              sym shown.disclosed
              ∙ ap (λ (x : IssuedVc C). reveal_of (at w') x.vc_did) (sym k.result);
          disclosed = λ _. refl;
          committed = λ q h.
              subst
                (λ (x : AuthoritySetPayload C).
                  commit sha256 to_json x.authority_set x.salt x.caveats ≡ commitment)
                (ap payload_of k.result ∙ payload-injective (payload_of vc) q h) refl;
          status = λ q h asked. inl (
              subst (λ (x : AuthoritySetPayload C). status_of (at w') x k.issuer ≡ live)
                (payload-injective (payload_of vc) q h) shown.standing);
        }

    -- The node resolves the published block, at the head and at the version that is pinned.
    published :
        (version : Text) × (n : ℕ) × (k.meta
          ≡ record { version_id = some version; version_sequence = some n })
        × (let doc : Doc = record {
          version_id = some version;
          controller = some k.issuer;
          pic = some (pic_for args k.did commitment k.asrt);
        } in
            (km.resolve_did w' k.did none ≡ some doc)
            × (km.resolve_did w' k.did (some n) ≡ some doc))
    published =
        laws.publishes w k.made w' name k.issuer holder k.did (payload_for args salt)
          (pic_for args k.did commitment k.asrt) k.meta k.identity k.encrypted k.merged k.headed

    pub minted-holder : k.asrt.holder ≡ holder
    minted-holder =
        let (p, e, by, good) =
          laws.signs k.made name k.issuer (assertion_body args k.issuer k.did commitment) k.asrt
            (laws.keeps_identity w k.made name name k.issuer holder k.did (payload_for args salt)
              k.encrypted k.identity)
            k.signed in
        ap (λ (x : AttenuationAssertion). x.holder) e

    -- What an issuance gives, when there is a whole chain for its hop wherever that hop is good.
    pub minted-Stands :
        (rest : List (Hop C))
        → ((did : Text) (version : Option ℕ)
            → IsHop (at w') did version minted_hop
            → Chain (at w') did version minted_hop rest)
        → Stands w' vc (suc (length rest))
    minted-Stands rest whole =
        let (version, n, headed, resolves) = published in
        let latest = resolves.0 in
        let pinned = resolves.1 in
        let pin_eq : vc.pin ≡ record { did = k.did; version_id = version; version_sequence = n } =
          ap (λ (x : IssuedVc C). x.pin) (sym k.result)
          ∙ ap (λ (m : Meta). (issued_for args salt k.did commitment m).pin) headed in
        let did_eq : k.did ≡ vc.vc_did = ap (λ (x : IssuedVc C). x.vc_did) k.result in
        let at_pin = whole k.did (some n) (minted-IsHop (some n) version pinned) in
        let at_head = whole k.did none (minted-IsHop none version latest) in
        record {
          hop = minted_hop;
          rest = rest;
          latest = subst (λ d. Chain (at w') d none minted_hop rest) did_eq at_head;
          chain =
              subst (λ (p : PrevPin). Chain (at w') p.did (some p.version_sequence) minted_hop rest)
                (sym pin_eq) at_pin;
          depth = refl;
          pinned =
              subst (λ (p : PrevPin). IsPinned (at w') p) (sym pin_eq)
                λ d found.
                  ap (λ (x : Doc). x.version_id) (sym (doc-injective _ d (sym pinned ∙ found)));
          same_lineage = ap (λ (x : IssuedVc C). x.lineage_id) k.result;
          same_counter = ap (λ (x : IssuedVc C). x.counter) k.result;
          same_commitment = ap (λ (x : IssuedVc C). x.authority_commitment) k.result;
          same_holder = minted-holder ∙ ap (λ (x : IssuedVc C). x.holder) k.result;
          same_reveal = refl;
        }
