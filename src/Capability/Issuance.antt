-- ===== src/Capability/Issuance.antt =====
-- packages/core/src/capability-chain.ts: capabilities that are minted, delegated, disclosed and
-- verified over the chains of attenuation.ts. The keymaster is a parameter, the fresh salt an
-- argument; a call that throws returns none.
use hearthold.Prelude.{
  ℕ, Bool, false, Option, none, some, List, [], ◌∷◌, ◌++◌, Text, codes, if◌then◌else◌, ◌===◌, ◌>>=◌,
  ◌>>◌, guard,
}
use hearthold.Json.{Json}
use hearthold.Attenuation.{AuthoritySet, AuthoritySetPayload}
use hearthold.Attenuation.Verify.{
  Verifier, VerifyOptions, HopStatus, Verdict, Accepted, verify_attenuation_chain,
}
use hearthold.Attenuation.Issue.{Keymaster, IssuedVc, IssueVcArgs, plain_args, issue_vc}
use hearthold.Capability.{
  Caveats, HearthholdCapability, caveats_narrow, capability_narrows, normalize_caveats,
}

pub record CapabilityHandle : Type 0 where
  pub issued : IssuedVc Caveats
  pub capability : HearthholdCapability

pub record CapabilitySpec : Type 0 where
  pub invocation_target : Text
  pub authority : AuthoritySet
  pub caveats : Caveats

-- The capability of a specification, with its id, its holder and its parent.
abbrev pub capability_of : CapabilitySpec → Text → Text → Option Text → HearthholdCapability
capability_of spec id holder parent = record {
  id = id;
  controller = holder;
  parent_capability = parent;
  invocation_target = spec.invocation_target;
  authority = spec.authority;
  caveats = spec.caveats;
}

module _ {W : Type 0} (km : Keymaster W Caveats) (sha256 : Text → Text) (to_json : Caveats → Json)
    (locale_le : Text → Text → Bool) where
  abbrev pub spec_args :
      Text → Text → CapabilitySpec → Option (IssuedVc Caveats) → IssueVcArgs Caveats
  spec_args issuer_name holder spec parent =
      plain_args issuer_name holder spec.authority (some (normalize_caveats locale_le spec.caveats))
        parent

  unfoldable pub mint_root_capability :
      Text → Text → CapabilitySpec → Text → W → Option (CapabilityHandle × W)
  mint_root_capability issuer_name holder spec salt w = do
    issued ← issue_vc km sha256 to_json (spec_args issuer_name holder spec none) salt w
    some (
      record { issued = issued.0; capability = capability_of spec issued.0.vc_did holder none },
      issued.1,
    )

  unfoldable pub delegate_capability :
      Text → CapabilityHandle → Text → CapabilitySpec → Text → W → Option (CapabilityHandle × W)
  delegate_capability issuer_name parent holder child salt w = do
    issuer ← km.did_of w issuer_name
    guard (issuer === parent.capability.controller)
    guard (
        capability_narrows
          (capability_of child (codes "urn:pending") holder (some parent.capability.id))
          parent.capability)
    issued ←
        issue_vc km sha256 to_json (spec_args issuer_name holder child (some parent.issued)) salt w
    some (
      record {
        issued = issued.0;
        capability = capability_of child issued.0.vc_did holder (some parent.capability.id);
      },
      issued.1,
    )

abbrev reveal_of : CapabilityHandle → AuthoritySetPayload Caveats
reveal_of h = record {
  authority_set = h.issued.authority_set;
  salt = h.issued.salt;
  caveats = h.issued.caveats;
}

-- What is disclosed, by the DID of the hop: the last entry of a DID counts.
abbrev pub Disclosures : Type 0
Disclosures = List (Text × AuthoritySetPayload Caveats)

unfoldable pub disclosure_for : Disclosures → Text → Option (AuthoritySetPayload Caveats)
disclosure_for [] did = none
disclosure_for ((d, p) ∷ rest) did =
    let later = disclosure_for rest did in
    elim later [ some q ↦ some q | none ↦ if d === did then some p else none ]

unfoldable pub disclose_chain : List CapabilityHandle → Disclosures
disclose_chain [] = []
disclose_chain (h ∷ hs) = (h.issued.vc_did, reveal_of h) ∷ disclose_chain hs

pub record ChainCapabilityGrant : Type 0 where
  pub handle : CapabilityHandle
  pub ancestor_disclosures : Disclosures

unfoldable pub disclosed_for : ChainCapabilityGrant → Disclosures
unfolding disclose_chain
disclosed_for g = g.ancestor_disclosures ++ disclose_chain (g.handle ∷ [])

-- The narrowing that a chain is checked with; it throws on absent caveats, which is caught.
unfoldable pub caveats_narrow_caught : Option Caveats → Option Caveats → Bool
caveats_narrow_caught (some child) (some parent) = caveats_narrow child parent
caveats_narrow_caught _ _ = false

-- The options of `verifyCapabilityChain`, which adds the narrowing of caveats.
pub record ChainOptions : Type 0 where
  pub expected_root_issuer : Option Text
  pub disclosed : Option (Text → Option (AuthoritySetPayload Caveats))
  pub max_hops : Option ℕ
  pub require_full_disclosure : Bool
  pub require_status : Bool
  pub check_hop_status : Option (Option Caveats → Text → HopStatus)

abbrev pub chain_options : ChainOptions → VerifyOptions Caveats
chain_options opts = record {
  expected_root_issuer = opts.expected_root_issuer;
  disclosed = opts.disclosed;
  max_hops = opts.max_hops;
  require_disclosure = opts.require_full_disclosure;
  caveat_narrows = some caveats_narrow_caught;
  require_status = opts.require_status;
  check_hop_status = opts.check_hop_status;
  require_delegator_binding = none;
}

abbrev pub capability_verifier : Verifier Caveats → ChainOptions → Verifier Caveats
capability_verifier v opts = record v { opts = chain_options opts }

unfoldable pub verify_capability_chain :
    Verifier Caveats → ChainOptions → Text → Verdict (Accepted Caveats)
verify_capability_chain v opts leaf_vc_did =
    verify_attenuation_chain (capability_verifier v opts) leaf_vc_did
