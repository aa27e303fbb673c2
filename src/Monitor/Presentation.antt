-- ===== src/Monitor/Presentation.antt =====
-- `resolveChainInvocation` and `makeHopStatusChecker` of packages/core/src/invocation-monitor.ts, on
-- `verifyCapabilityChain` of packages/core/src/capability-chain.ts. A disclosed caveat set is read as
-- `Caveats`, and `caveats_json` gives the JSON that it was read from. The challenge gate keeps a
-- state of a type `G`.
use hearthold.Prelude.{
  ℕ, Bool, true, false, not, ◌&&◌, ◌||◌, Option, none, some, Text, get_or, is_some, any, is_filled,
  ◌===◌, if◌then◌else◌, includes,
}
use hearthold.Prelude.Int.{ℤ, pos}
use hearthold.Json.{Json}
use hearthold.Attenuation.{AuthoritySet, AttenuationAssertion, signer_of_proof}
use hearthold.Attenuation.Verify.{
  Verifier, Doc, Accepted, Verdict, passed, rejected, fault, Check, HopStatus, live, revoked,
  unavailable, no_status, verify_attenuation_chain,
}
use hearthold.Capability.Issuance.{chain_options}
use hearthold.Capability.{Caveats, CapabilityStatus, target_within}
use hearthold.StatusList
use hearthold.StatusList.{Codec, SignedStatusList, StatusCheck, Resolver}
use hearthold.Monitor.{
  CapabilityInvocation, ChainPresentation, InvocationAct, SignedHolderProof, VerifiedLeaf,
}

-- The parts of the context, with the host's functions, that resolving a chain uses.
pub record ResolveContext (G : Type 0) : Type 0 where
  pub resolve_did : Text → Option ℕ → Option Doc
  pub verify_assertion : AttenuationAssertion → Option Bool
  pub verify_holder_proof : SignedHolderProof → Option Bool
  pub sha256 : Text → Text
  pub caveats_json : Caveats → Json
  pub codec : Codec
  pub resolve_list : Text → Option (Option SignedStatusList)
  pub verify_list : SignedStatusList → Option Bool
  pub now : ℤ
  pub expected_root_issuer : Text
  pub require_status : Bool
  pub status_max_age_ms : Option ℤ
  pub from_did : Option Text
  pub require_challenge : Option (G → Text → Bool × G)

-- Why an invocation is refused, one constructor for each reason of the source.
pub data Refusal : Type 0 where
  no_chain no_root unbound_leaf no_ceiling no_holder_proof unbound_proof stale_challenge : Refusal
  bad_holder_proof wrong_holder wrong_sender wrong_action wrong_target : Refusal
  no_presentation invalid_presentation no_responder no_credential malformed no_id : Refusal
  not_subject irrevocable status_unknown capability_revoked : Refusal
  invalid_chain : Check → Text → Option ℤ → Refusal

pub data Resolved : Type 0 where
  resolved : VerifiedLeaf → Resolved
  refused : Refusal → Resolved
  threw : Resolved

-- The act lies within the authority of the leaf.
unfoldable pub check_act : InvocationAct → VerifiedLeaf → Resolved
check_act act leaf =
    if not (includes leaf.authority.operations act.action)
    then refused wrong_action
    else if not (any (λ r. act.target === r || target_within act.target r) leaf.authority.resources)
    then refused wrong_target
    else resolved leaf

module _ {G : Type 0} (ctx : ResolveContext G) where
  -- The resolver of a hop's status list, whose signer must be the hop's own controller.
  abbrev pub resolver_of : CapabilityStatus → Text → Resolver
  resolver_of status controller = record {
    codec = ctx.codec;
    resolve_list = ctx.resolve_list;
    verify_list = ctx.verify_list;
    status_list_credential = status.status_list_credential;
    expected_issuer = controller;
    max_age_ms = get_or ctx.status_max_age_ms (pos 30000);
  }

  abbrev pub hop_status : StatusCheck → HopStatus
  hop_status s = if not s.available then unavailable else if s.revoked then revoked else live

  -- The resolver is new for each hop, so its cache is empty.
  unfoldable pub check_hop_status : Option Caveats → Text → HopStatus
  check_hop_status none controller = no_status
  check_hop_status (some caveats) controller = elim caveats.status [
    | none ↦ no_status
    | some status ↦
        hop_status
          (StatusList.check (resolver_of status controller) none ctx.now status.status_list_index).0
  ]

  abbrev pub chain_verifier : ChainPresentation → Verifier Caveats
  chain_verifier cp = record {
    resolve_did = ctx.resolve_did;
    verify_proof = ctx.verify_assertion;
    sha256 = ctx.sha256;
    to_json = ctx.caveats_json;
    opts = chain_options (record {
      expected_root_issuer = some ctx.expected_root_issuer;
      disclosed = some cp.disclosed;
      max_hops = none;
      require_full_disclosure = true;
      require_status = ctx.require_status;
      check_hop_status = some check_hop_status;
    });
  }

  unfoldable pub verify_capability_chain : ChainPresentation → Verdict (Accepted Caveats)
  verify_capability_chain cp = verify_attenuation_chain (chain_verifier cp) cp.leaf_vc_did

  -- `ctx.fromDid && ctx.fromDid !== holder`, turned round.
  unfoldable pub sender_holds : Text → Bool
  sender_holds holder = elim ctx.from_did [
    | none ↦ true
    | some sender ↦ not (is_filled sender) || sender === holder
  ]

  -- From the signature of the holder proof on.
  unfoldable pub check_signed : InvocationAct → SignedHolderProof → VerifiedLeaf → Resolved
  check_signed act hp leaf =
      if not (get_or (ctx.verify_holder_proof hp) false)
      then refused bad_holder_proof
      else if not (signer_of_proof hp.proof === leaf.holder)
      then refused wrong_holder
      else if not (sender_holds leaf.holder)
      then refused wrong_sender
      else check_act act leaf

  -- The gate burns the challenge; with no gate every challenge passes.
  unfoldable pub ask_gate : G → Text → Bool × G
  ask_gate g challenge = elim ctx.require_challenge [
    | none ↦ (true, g)
    | some gate ↦ gate g challenge
  ]

  abbrev pub after_gate : Bool × G → Resolved → Resolved × G
  after_gate (true, g) r = (r, g)
  after_gate (false, g) r = (refused stale_challenge, g)

  unfoldable pub check_holder : InvocationAct → ChainPresentation → VerifiedLeaf → G → Resolved × G
  check_holder act cp leaf g = elim cp.holder_proof [
    | none ↦ (refused no_holder_proof, g)
    | some hp ↦
        if not (is_some hp.proof)
        then (refused no_holder_proof, g)
        else if not (hp.leaf_vc_did === cp.leaf_vc_did && hp.txn === act.txn)
        then (refused unbound_proof, g)
        else after_gate (ask_gate g hp.challenge) (check_signed act hp leaf)
  ]

  abbrev pub leaf_of : ChainPresentation → Text → AuthoritySet → Caveats → VerifiedLeaf
  leaf_of cp holder authority caveats = record {
    id = cp.leaf_vc_did;
    holder = holder;
    authority = authority;
    caveats = caveats;
  }

  -- The verified chain binds a holder, an authority and caveats with a numeric ceiling.
  unfoldable pub bind_leaf :
      ChainPresentation → Text → Option AuthoritySet → Option Caveats → Option VerifiedLeaf
  bind_leaf cp holder (some authority) (some caveats) =
      if is_filled holder then some (leaf_of cp holder authority caveats) else none
  bind_leaf cp holder _ _ = none

  unfoldable pub check_bound :
      InvocationAct → ChainPresentation → Option VerifiedLeaf → G → Resolved × G
  check_bound act cp none g = (refused unbound_leaf, g)
  check_bound act cp (some leaf) g =
      if is_some leaf.caveats.ceiling then check_holder act cp leaf g else (refused no_ceiling, g)

  unfoldable pub check_chain : InvocationAct → ChainPresentation → G → Resolved × G
  check_chain act cp g = elim (verify_capability_chain cp) [
    | fault ↦ (threw, g)
    | rejected c did n ↦ (refused (invalid_chain c did n), g)
    | passed r ↦ check_bound act cp (bind_leaf cp r.holder r.leaf_authority_set r.leaf_caveats) g
  ]

  unfoldable pub resolve_chain_invocation : CapabilityInvocation → G → Resolved × G
  resolve_chain_invocation inv g = elim inv.chain [
    | none ↦ (refused no_chain, g)
    | some cp ↦
        if not (is_filled ctx.expected_root_issuer)
        then (refused no_root, g)
        else check_chain inv.act cp g
  ]
