-- ===== src/Monitor/SingleHop.antt =====
-- `resolveInvocation` and `verifyInvocation` of packages/core/src/invocation-monitor.ts: the
-- capability is read from one verified presentation.
use hearthold.Prelude.{
  not, ◌&&◌, Option, none, some, List, [], ◌∷◌, Text, codes, get_or, is_some, is_filled, eq_opt,
  ◌===◌, if◌then◌else◌,
}
use hearthold.Attenuation.{AuthoritySet}
use hearthold.Capability.{Caveats}
use hearthold.SpentTxns.{SpentTxnStore}
use hearthold.StatusList
use hearthold.StatusList.{StatusCheck}
use hearthold.Prove.{
  Claims, DisclosedCredential, ProofOptions, ProofResult, Response, field_of, verify_proof,
}
use hearthold.Monitor.{
  CapabilityInvocation, InvocationAct, InvocationContext, VerifiedLeaf, Outcome,
  authorize_invocation,
}
use hearthold.Monitor.Presentation.{
  ResolveContext, Refusal, Resolved, resolved, refused, threw, no_root, no_ceiling, wrong_sender,
  no_presentation, invalid_presentation, no_responder, no_credential, malformed, no_id, not_subject,
  irrevocable, status_unknown, capability_revoked, check_act, ask_gate, after_gate, resolver_of,
  sender_holds,
}

-- The context of the chain path, with the node's answer to a response and the schema asked for.
pub record PresentationContext (G : Type 0) : Type 0 where
  pub base : ResolveContext G
  pub verify_response : Text → Option Response
  pub authorization_schema : Text

-- `disclosed.find((d) => d.claims.type === AUTHORIZATION_TYPE)`
unfoldable pub find_authorization : List DisclosedCredential → Option DisclosedCredential
find_authorization [] = none
find_authorization (d ∷ ds) =
    if eq_opt (field_of d.claims.fields (codes "type")) (some (codes "HearthholdAuthorization"))
    then some d
    else find_authorization ds

-- `… ?? proof.disclosed[0]`
unfoldable pub auth_credential : List DisclosedCredential → Option DisclosedCredential
auth_credential [] = none
auth_credential (d ∷ ds) = some (get_or (find_authorization (d ∷ ds)) d)

abbrev pub both_lists : Option (List Text) → Option (List Text) → Option AuthoritySet
both_lists (some ops) (some res) = some (record { operations = ops; resources = res })
both_lists _ _ = none

-- The authority of the claims, if its two parts are arrays.
abbrev pub authority_of : Claims → Option AuthoritySet
authority_of c = elim c.authority [ none ↦ none | some a ↦ both_lists a.operations a.resources ]

-- The leaf that a credential gives, if its shape is right and its subject presents it.
unfoldable pub leaf_from : DisclosedCredential → Text → AuthoritySet → Caveats → Resolved
leaf_from d responder authority caveats =
    if not (is_some caveats.ceiling)
    then refused no_ceiling
    else if not (is_filled d.credential_did)
    then refused no_id
    else if not (is_filled d.subject && d.subject === responder)
    then refused not_subject
    else resolved (record {
      id = d.credential_did;
      holder = responder;
      authority = authority;
      caveats = caveats;
    })

unfoldable pub read_leaf : Option DisclosedCredential → Text → Resolved
read_leaf none responder = refused no_credential
read_leaf (some d) responder = elim (authority_of d.claims) [
  | none ↦ refused malformed
  | some a ↦ elim d.claims.caveats [ none ↦ refused malformed | some c ↦ leaf_from d responder a c ]
]

module _ {G : Type 0} (ctx : PresentationContext G) where
  abbrev pub judge_status : StatusCheck → VerifiedLeaf → Resolved
  judge_status s leaf =
      if not s.available
      then refused status_unknown
      else if s.revoked
      then refused capability_revoked
      else resolved leaf

  -- The list of the capability's own status pointer, signed by the trusted root.
  unfoldable pub check_revocation : VerifiedLeaf → Resolved
  check_revocation leaf = elim leaf.caveats.status [
    | none ↦ if ctx.base.require_status then refused irrevocable else resolved leaf
    | some status ↦
        judge_status
          (StatusList.check (resolver_of ctx.base status ctx.base.expected_root_issuer) none
            ctx.base.now status.status_list_index).0
          leaf
  ]

  abbrev pub and_then : Resolved → (VerifiedLeaf → Resolved) → Resolved
  and_then (resolved leaf) f = f leaf
  and_then (refused r) f = refused r
  and_then threw f = threw

  -- From the credential on.
  unfoldable pub enforce : InvocationAct → List DisclosedCredential → Text → Resolved
  enforce act disclosed responder =
      and_then (read_leaf (auth_credential disclosed) responder) λ leaf.
        if sender_holds ctx.base leaf.holder
        then and_then (check_act act leaf) check_revocation
        else refused wrong_sender

  unfoldable pub check_answer : InvocationAct → ProofResult → G → Resolved × G
  check_answer act proof g =
      if is_some proof.fault
      then (refused invalid_presentation, g)
      else if not (is_filled (get_or proof.responder []))
      then (refused no_responder, g)
      else after_gate ctx.base (ask_gate ctx.base g proof.challenge)
          (enforce act proof.disclosed (get_or proof.responder []))

  abbrev pub proof_options : ProofOptions
  proof_options = record {
    trusted_issuers = some (ctx.base.expected_root_issuer ∷ []);
    trust_registry = none;
    schema = some ctx.authorization_schema;
    required_claims = none;
  }

  -- A verification that throws is caught, and refused like one that fails.
  unfoldable pub resolve_invocation : CapabilityInvocation → G → Resolved × G
  resolve_invocation inv g =
      let response = get_or inv.presentation [] in
      if not (is_filled response)
      then (refused no_presentation, g)
      else if not (is_filled ctx.base.expected_root_issuer)
      then (refused no_root, g)
      else elim (verify_proof proof_options (ctx.verify_response response)) [
        | none ↦ (refused invalid_presentation, g)
        | some proof ↦ check_answer inv.act proof g
      ]

-- What `verifyInvocation` answers: a refusal, the outcome of the authorization, or a throw.
pub data Verification (S : Type 0) : Type 0 where
  denied : Refusal → Verification S
  judged : Outcome S → Verification S
  failed : Verification S

module _ {G S : Type 0} (ctx : PresentationContext G) (store : SpentTxnStore S) where
  abbrev pub judge_resolved :
      CapabilityInvocation → InvocationContext → S → Resolved → Verification S
  judge_resolved inv ictx s (resolved leaf) = judged (authorize_invocation store inv ictx leaf s)
  judge_resolved inv ictx s (refused r) = denied r
  judge_resolved inv ictx s threw = failed

  unfoldable pub verify_invocation :
      CapabilityInvocation → InvocationContext → G → S → Verification S × G
  verify_invocation inv ictx g s =
      let r = resolve_invocation ctx inv g in (judge_resolved inv ictx s r.0, r.1)
