-- ===== src/Monitor/Verified.antt =====
-- What the single-hop path of packages/core/src/invocation-monitor.ts has established when it
-- returns a leaf, and when it allows an act.
use hearthold.Prelude.{
  true, false, none, some, List, [], ◌∷◌, Text, get_or, is_filled, includes, ===_iff, ◌≡◌, refl,
  sym, ap, ◌∙◌, subst, arith, Bool-cases, Option-cases, inl, inr, if◌then◌else◌,
}
use hearthold.Capability.{Caveats, CapabilityStatus}
use hearthold.SpentTxns.{SpentTxnStore, IsLedger}
use hearthold.StatusList
use hearthold.StatusList.{StatusCheck}
use hearthold.Prove.{
  DisclosedCredential, ProofResult, Response, verify_proof, result_of, disclosures,
}
use hearthold.Prove.Sound.{IsTrusted, listed, registered, IsProved, verify_proof_sound}
use hearthold.Monitor.{
  CapabilityInvocation, InvocationAct, InvocationContext, VerifiedLeaf, Outcome, allow,
  authorize_invocation,
}
use hearthold.Monitor.Authorize.{IsAuthorized, authorize_invocation_sound}
use hearthold.Monitor.Presentation.{
  Resolved, resolved, refused, threw, check_act, ask_gate, resolver_of, sender_holds, wrong_sender,
}
use hearthold.Monitor.Resolve.{IsWithinLeaf, check_act_sound, after_gate_sound}
use hearthold.Monitor.SingleHop.{
  PresentationContext, auth_credential, read_leaf, judge_status, check_revocation, and_then,
  enforce, check_answer, proof_options, resolve_invocation, judged, judge_resolved,
  verify_invocation,
}
use hearthold.Monitor.Leaf.{
  IsLeafOf, read_leaf-IsLeafOf, some-injective, auth_credential-All, resolved-injective,
}

module _ {G : Type 0} (ctx : PresentationContext G) where
  trusted-root :
      (issuer : Text)
      → IsTrusted (proof_options ctx) issuer
      → issuer ≡ ctx.base.expected_root_issuer
  unfolding includes
  trusted-root issuer (listed l given m) =
      let only = some-injective (ctx.base.expected_root_issuer ∷ []) l given in
      sym ((===_iff ctx.base.expected_root_issuer issuer).0 (ground (arith, only)))
  trusted-root issuer (registered ask r given answered h) = absurd (ground arith)

  -- A leaf stands: its own status list is available and has it not revoked, or it has no pointer and
  -- none is asked for.
  pub data IsStanding (leaf : VerifiedLeaf) : Type 0 where
    unlisted : leaf.caveats.status ≡ none → ctx.base.require_status ≡ false → IsStanding leaf
    not_revoked :
        (status : CapabilityStatus)
        → leaf.caveats.status ≡ some status
        → (StatusList.check
            (resolver_of ctx.base status ctx.base.expected_root_issuer)
            none
            ctx.base.now
            status.status_list_index).0
          ≡ record { available = true; revoked = false }
        → IsStanding leaf

  status-eq :
      (s : StatusCheck)
      → s.available ≡ true
      → s.revoked ≡ false
      → s ≡ record { available = true; revoked = false }
  status-eq s a r = cc

  judge_status-resolved :
      (s : StatusCheck) (leaf out : VerifiedLeaf)
      → judge_status ctx s leaf ≡ resolved out
      → (leaf ≡ out) × (s ≡ record { available = true; revoked = false })
  judge_status-resolved s leaf out h =
      (resolved-injective leaf out (ground arith), status-eq s (ground arith) (ground arith))

  check_revocation-IsStanding :
      (leaf out : VerifiedLeaf)
      → check_revocation ctx leaf ≡ resolved out
      → (leaf ≡ out) × IsStanding leaf
  unfolding check_revocation
  check_revocation-IsStanding leaf out h = elim (Option-cases leaf.caveats.status) [
    | inl off ↦
        (resolved-injective leaf out (ground (arith, off)), unlisted off (ground (arith, off)))
    | inr (status, on) ↦
        let (same, standing) =
          judge_status-resolved
            (StatusList.check (resolver_of ctx.base status ctx.base.expected_root_issuer) none
              ctx.base.now status.status_list_index).0
            leaf out (ground (arith, on)) in
        (same, not_revoked status on standing)
  ]

  and_then-resolved :
      (r : Resolved) (f : VerifiedLeaf → Resolved) (out : VerifiedLeaf)
      → and_then ctx r f ≡ resolved out
      → (leaf : VerifiedLeaf) × (r ≡ resolved leaf) × (f leaf ≡ resolved out)
  and_then-resolved (resolved leaf) f out h = (leaf, refl, h)
  and_then-resolved (refused r) f out h = absurd (ground arith)
  and_then-resolved threw f out h = absurd (ground arith)

  -- What the enforcement of the disclosed credentials has found.
  pub record IsEnforced (act : InvocationAct) (ds : List DisclosedCredential) (responder : Text)
      (leaf : VerifiedLeaf) : Type 0 where
    pub credential : DisclosedCredential
    pub chosen : auth_credential ds ≡ some credential
    pub leaf_of : IsLeafOf credential responder leaf
    pub sent_by_holder : sender_holds ctx.base leaf.holder ≡ true
    pub within_leaf : IsWithinLeaf act leaf
    pub standing : IsStanding leaf

  enforce-IsEnforced :
      (act : InvocationAct) (ds : List DisclosedCredential) (responder : Text) (out : VerifiedLeaf)
      → enforce ctx act ds responder ≡ resolved out
      → IsEnforced act ds responder out
  unfolding enforce
  enforce-IsEnforced act ds responder out h =
      let (leaf, read, rest) =
        and_then-resolved (read_leaf (auth_credential ds) responder)
          (λ l.
            if sender_holds ctx.base l.holder
            then and_then ctx (check_act act l) (check_revocation ctx)
            else refused wrong_sender)
          out h in
      let (d, chosen, leaf_of) = read_leaf-IsLeafOf (auth_credential ds) responder leaf read in
      let k : (sender_holds ctx.base leaf.holder ≡ true)
          × (and_then ctx (check_act act leaf) (check_revocation ctx) ≡ resolved out) =
        ground (arith, rest) in
      let (same, acted, revocation) =
        and_then-resolved (check_act act leaf) (check_revocation ctx) out k.1 in
      let (e1, within) = check_act_sound act leaf same acted in
      let (e2, standing) = check_revocation-IsStanding same out revocation in
      subst (IsEnforced act ds responder) (e1 ∙ e2) (record {
        credential = d;
        chosen = chosen;
        leaf_of = leaf_of;
        sent_by_holder = k.0;
        within_leaf = within;
        standing = subst IsStanding (sym e1) standing;
      })

  -- What a leaf that the single-hop path resolves has passed.
  pub record IsPresented (inv : CapabilityInvocation) (leaf : VerifiedLeaf) (g : G) : Type 0 where
    pub response : Response
    pub answered : ctx.verify_response (get_or inv.presentation []) ≡ some response
    pub proved : IsProved (proof_options ctx) response
    pub fresh : (ask_gate ctx.base g (get_or response.challenge [])).0 ≡ true
    pub responds : is_filled (get_or response.responder []) ≡ true
    pub enforced : IsEnforced inv.act (disclosures response) (get_or response.responder []) leaf
    pub by_root : enforced.credential.issuer ≡ ctx.base.expected_root_issuer

  check_answer-resolved :
      (act : InvocationAct) (proof : ProofResult) (leaf : VerifiedLeaf) (g : G)
      → (check_answer ctx act proof g).0 ≡ resolved leaf
      → (proof.fault ≡ none)
        × (is_filled (get_or proof.responder []) ≡ true)
        × ((ask_gate ctx.base g proof.challenge).0 ≡ true)
        × (enforce ctx act proof.disclosed (get_or proof.responder []) ≡ resolved leaf)
  unfolding check_answer
  check_answer-resolved act proof leaf g h = elim (Option-cases proof.fault) [
    | inr (f, faulty) ↦ absurd (ground (arith, faulty))
    | inl ok ↦ elim (Bool-cases (is_filled (get_or proof.responder []))) [
      | inr empty ↦ absurd (ground (arith, ok, empty))
      | inl filled ↦
          let (fresh, rest) =
            after_gate_sound ctx.base (ask_gate ctx.base g proof.challenge)
              (enforce ctx act proof.disclosed (get_or proof.responder [])) leaf
              (ground (arith, ok, filled)) in
          (ok, filled, fresh, rest)
    ]
  ]

  resolve_invocation-answer :
      (inv : CapabilityInvocation) (leaf : VerifiedLeaf) (g : G)
      → (resolve_invocation ctx inv g).0 ≡ resolved leaf
      → (proof : ProofResult) × (verify_proof
            (proof_options ctx)
            (ctx.verify_response (get_or inv.presentation []))
          ≡ some proof)
        × ((check_answer ctx inv.act proof g).0 ≡ resolved leaf)
  unfolding resolve_invocation
  resolve_invocation-answer inv leaf g h =
      elim (Option-cases
        (verify_proof (proof_options ctx) (ctx.verify_response (get_or inv.presentation [])))) [
          | inl off ↦ absurd (ground (arith, off))
          | inr (proof, verified) ↦ (proof, verified, ground (arith, verified))
        ]

-- When the single-hop path resolves to a leaf, the node's answer to the presentation is a good
-- proof, its challenge is one that the gate took, and the leaf is read from a disclosed credential
-- that the trusted root issued, with an id and a numeric ceiling, whose subject is the responder; the
-- act lies within the leaf's authority, the sender is its holder, and it is not revoked.
pub resolve_invocation_sound :
    {G : Type 0} (ctx : PresentationContext G) (inv : CapabilityInvocation) (leaf : VerifiedLeaf)
    (g : G)
    → (resolve_invocation ctx inv g).0 ≡ resolved leaf
    → IsPresented ctx inv leaf g
resolve_invocation_sound ctx inv leaf g h =
    let (proof, verified, checked) = resolve_invocation-answer ctx inv leaf g h in
    let ok = check_answer-resolved ctx inv.act proof leaf g checked in
    let (res, answered, same, proved) =
      verify_proof_sound (proof_options ctx) (ctx.verify_response (get_or inv.presentation []))
        proof verified ok.0 in
    let (fault, responds, fresh, enforced) =
      check_answer-resolved ctx inv.act (result_of res none) leaf g
        (subst (λ p. (check_answer ctx inv.act p g).0 ≡ resolved leaf) same checked) in
    let k =
      enforce-IsEnforced ctx inv.act (disclosures res) (get_or res.responder []) leaf enforced in
    record {
      response = res;
      answered = answered;
      proved = proved;
      fresh = fresh;
      responds = responds;
      enforced = k;
      by_root = trusted-root ctx k.credential.issuer (
          auth_credential-All (λ d. IsTrusted (proof_options ctx) d.issuer) (disclosures res)
            k.credential proved.trusted k.chosen);
    }

judged-leaf :
    {G S : Type 0} (ctx : PresentationContext G) (store : SpentTxnStore S)
    (inv : CapabilityInvocation) (ictx : InvocationContext) (s : S) (r : Resolved) (out : Outcome S)
    → judge_resolved ctx store inv ictx s r ≡ judged out
    → (leaf : VerifiedLeaf) × (r ≡ resolved leaf)
      × (judged (authorize_invocation store inv ictx leaf s) ≡ judged out)
judged-leaf ctx store inv ictx s (resolved leaf) out h = (leaf, refl, h)
judged-leaf ctx store inv ictx s (refused r) out h = absurd (ground arith)
judged-leaf ctx store inv ictx s threw out h = absurd (ground arith)

-- When `verify_invocation` allows an act, it has resolved to a leaf as above, and the act is
-- authorized under that leaf.
pub verify_invocation_sound :
    {G S : Type 0} (ctx : PresentationContext G) (store : SpentTxnStore S) (ledger : IsLedger store)
    (inv : CapabilityInvocation) (ictx : InvocationContext) (g : G) (s : S) (out : Outcome S)
    (c : Caveats)
    → (verify_invocation ctx store inv ictx g s).0 ≡ judged out
    → out.decision ≡ some (allow c)
    → (leaf : VerifiedLeaf) × IsPresented ctx inv leaf g
      × IsAuthorized store ledger inv ictx leaf s out.ledger
unfolding verify_invocation
verify_invocation_sound {G} {S} ctx store ledger inv ictx g s out c h allowed =
    let (leaf, found, same) =
      judged-leaf ctx store inv ictx s (resolve_invocation ctx inv g).0 out h in
    let e = judged-injective (authorize_invocation store inv ictx leaf s) out same in
    let allows : (authorize_invocation store inv ictx leaf s).decision ≡ some (allow c) =
      ap (λ (o : Outcome S). o.decision) e ∙ allowed in
    (
      leaf,
      resolve_invocation_sound ctx inv leaf g found,
      subst (λ (o : Outcome S). IsAuthorized store ledger inv ictx leaf s o.ledger) e
          (authorize_invocation_sound store ledger inv ictx leaf s c allows),
    )
  where
    judged-injective : (a b : Outcome S) → judged a ≡ judged b → a ≡ b
    judged-injective a b h = cc
