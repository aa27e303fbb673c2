-- ===== src/Attenuation/Issue.antt =====
-- `issueVc` of packages/core/src/attenuation.ts. The keymaster is a parameter, with a state of a
-- type `W`; a call that throws returns none. The fresh salt is an argument.
use hearthold.Prelude.{
  ℕ, Bool, true, false, ◌||◌, Option, none, some, [], Text, get_or, ◌>>=◌, ◌>>◌, guard,
}
use hearthold.Prelude.Int.{ℤ, pos, succ_ℤ}
use hearthold.Json.{Json}
use hearthold.Attenuation.{
  AuthoritySet, AuthoritySetPayload, PrevPin, AttenuationAssertion, PicBlock,
  normalize_authority_set, is_subset, commit, attenuation_statement,
}
use hearthold.Attenuation.Verify.{Doc}

-- What `resolveDID` says of the version that it resolves.
pub record Meta : Type 0 where
  pub version_id : Option Text
  pub version_sequence : Option ℕ

-- The node behind a wallet. `did_of` is the DID of a wallet name, empty where its document has no
-- id; `encrypt_json` makes an asset of the named identity.
pub record Keymaster (W C : Type 0) : Type 0 where
  pub did_of : W → Text → Option Text
  pub encrypt_json : W → Text → AuthoritySetPayload C → Text → Option (Text × W)
  pub add_proof : W → Text → AttenuationAssertion → Option AttenuationAssertion
  pub merge_data : W → Text → PicBlock → Option W
  pub head : W → Text → Option Meta
  pub resolve_did : W → Text → Option ℕ → Option Doc
  pub verify_proof : AttenuationAssertion → Option Bool

pub record IssuedVc (C : Type 0) : Type 0 where
  pub vc_did : Text
  pub lineage_id : Text
  pub counter : ℤ
  pub authority_set : AuthoritySet
  pub salt : Text
  pub caveats : Option C
  pub authority_commitment : Text
  pub pin : PrevPin
  pub holder : Text

-- The arguments, with the knobs by which the source's tests build artefacts to be rejected.
pub record IssueVcArgs (C : Type 0) : Type 0 where
  pub issuer_name : Text
  pub holder : Text
  pub authority_set : AuthoritySet
  pub caveats : Option C
  pub parent : Option (IssuedVc C)
  pub forge_assertion_with : Option Text
  pub override_counter : Option ℤ
  pub override_parent_commitment : Option (Option Text)
  pub override_lineage_id : Option Text
  pub override_prev : Option (Option PrevPin)
  pub skip_subset_guard : Bool

-- An issuance without the knobs of the tests.
abbrev pub plain_args :
    {C : Type 0} → Text → Text → AuthoritySet → Option C → Option (IssuedVc C) → IssueVcArgs C
plain_args name holder a caveats parent = record {
  issuer_name = name;
  holder = holder;
  authority_set = a;
  caveats = caveats;
  parent = parent;
  forge_assertion_with = none;
  override_counter = none;
  override_parent_commitment = none;
  override_lineage_id = none;
  override_prev = none;
  skip_subset_guard = false;
}

module _ {C : Type 0} where
  abbrev pub counter_for : IssueVcArgs C → ℤ
  counter_for args =
      get_or args.override_counter (elim args.parent [ none ↦ pos 0 | some p ↦ succ_ℤ p.counter ])

  abbrev pub parent_commitment_for : IssueVcArgs C → Option Text
  parent_commitment_for args =
      get_or args.override_parent_commitment
        (elim args.parent [ none ↦ none | some p ↦ some p.authority_commitment ])

  abbrev pub prev_for : IssueVcArgs C → Option PrevPin
  prev_for args = get_or args.override_prev (elim args.parent [ none ↦ none | some p ↦ some p.pin ])

  abbrev pub lineage_for : IssueVcArgs C → Text → Text
  lineage_for args did =
      get_or args.override_lineage_id (elim args.parent [ none ↦ did | some p ↦ p.lineage_id ])

  -- A child that is not within its parent is refused.
  unfoldable pub may_issue : IssueVcArgs C → AuthoritySet → Bool
  may_issue args a = elim args.parent [
    | none ↦ true
    | some p ↦ args.skip_subset_guard || is_subset a p.authority_set
  ]

  abbrev pub assertion_body : IssueVcArgs C → Text → Text → Text → AttenuationAssertion
  assertion_body args issuer did commitment = record {
    issuer = issuer;
    holder = args.holder;
    statement = attenuation_statement;
    lineage_id = lineage_for args did;
    counter = counter_for args;
    authority_commitment = commitment;
    parent_authority_commitment = parent_commitment_for args;
    proof = none;
  }

  abbrev pub pic_for : IssueVcArgs C → Text → Text → AttenuationAssertion → PicBlock
  pic_for args did commitment asrt = record {
    lineage_id = lineage_for args did;
    counter = counter_for args;
    prev_credential = prev_for args;
    authority_commitment = commitment;
    parent_authority_commitment = parent_commitment_for args;
    attenuation_assertion = some asrt;
  }

  abbrev pub payload_for : IssueVcArgs C → Text → AuthoritySetPayload C
  payload_for args salt = record {
    authority_set = normalize_authority_set args.authority_set;
    salt = salt;
    caveats = args.caveats;
  }

  abbrev pub issued_for : IssueVcArgs C → Text → Text → Text → Meta → IssuedVc C
  issued_for args salt did commitment meta = record {
    vc_did = did;
    lineage_id = lineage_for args did;
    counter = counter_for args;
    authority_set = normalize_authority_set args.authority_set;
    salt = salt;
    caveats = args.caveats;
    authority_commitment = commitment;
    pin = record {
      did = did;
      version_id = get_or meta.version_id [];
      version_sequence = get_or meta.version_sequence 0;
    };
    holder = args.holder;
  }

module _ {W C : Type 0} (km : Keymaster W C) (sha256 : Text → Text) (to_json : C → Json) where
  abbrev pub commitment_for : IssueVcArgs C → Text → Text
  commitment_for args salt =
      commit sha256 to_json (normalize_authority_set args.authority_set) salt args.caveats

  -- From the block on: it is written, and the version that carries it is pinned.
  unfoldable pub write_pic :
      IssueVcArgs C → Text → Text → AttenuationAssertion → W → Option (IssuedVc C × W)
  write_pic args salt did asrt w = do
    w' ← km.merge_data w did (pic_for args did (commitment_for args salt) asrt)
    meta ← km.head w' did
    some (issued_for args salt did (commitment_for args salt) meta, w')

  unfoldable pub issue_vc : IssueVcArgs C → Text → W → Option (IssuedVc C × W)
  issue_vc args salt w = do
    issuer ← km.did_of w args.issuer_name
    guard (may_issue args (normalize_authority_set args.authority_set))
    made ← km.encrypt_json w args.issuer_name (payload_for args salt) args.holder
    asrt ←
        km.add_proof made.1 (get_or args.forge_assertion_with args.issuer_name)
          (assertion_body args issuer made.0 (commitment_for args salt))
    write_pic args salt made.0 asrt made.1
