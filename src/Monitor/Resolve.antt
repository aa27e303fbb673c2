-- ===== src/Monitor/Resolve.antt =====
-- What `resolveChainInvocation` of packages/core/src/invocation-monitor.ts has established when it
-- returns a leaf.
use hearthold.Prelude.{
  Bool, true, false, ◌&&◌, ◌||◌, Option, none, some, ◌∷◌, Text, is_some, any, is_filled, ◌===◌,
  ===_iff, ◌≡◌, refl, arith, Bool-cases, inl, inr, Option-cases, sym, ap, includes, and-split,
}
use hearthold.Attenuation.{AuthoritySet, signer_of_proof}
use hearthold.Attenuation.Verify.{
  Accepted, Verdict, passed, rejected, fault, verify_attenuation_chain,
}
use hearthold.Attenuation.Soundness.{IsAccepted, verify_attenuation_chain-sound}
use hearthold.Attenuation.Authority.{
  Grants, IsDelegated, AllLive, accepted-Grants, Chain-IsDelegated, Chain-AllLive,
}
use hearthold.Capability.{Caveats, target_within}
use hearthold.Monitor.{
  CapabilityInvocation, ChainPresentation, InvocationAct, SignedHolderProof, VerifiedLeaf,
}
use hearthold.Monitor.Discharges.{get_or-true}
use hearthold.Monitor.Presentation.{
  ResolveContext, Resolved, resolved, check_act, check_signed, check_holder, check_bound,
  check_chain, ask_gate, after_gate, bind_leaf, leaf_of, chain_verifier, verify_capability_chain,
  sender_holds, resolve_chain_invocation, check_hop_status,
}

-- The act names an operation of the authority, and a target within one of its resources.
pub record IsWithinLeaf (act : InvocationAct) (leaf : VerifiedLeaf) : Type 0 where
  pub operation : includes leaf.authority.operations act.action ≡ true
  pub target :
      any (λ r. act.target === r || target_within act.target r) leaf.authority.resources ≡ true

pub check_act_sound :
    (act : InvocationAct) (leaf out : VerifiedLeaf)
    → check_act act leaf ≡ resolved out
    → (leaf ≡ out) × IsWithinLeaf act leaf
unfolding check_act
check_act_sound act leaf out h = elim (Bool-cases (includes leaf.authority.operations act.action)) [
  | inr off ↦ absurd (ground (arith, off))
  | inl op ↦
      elim (Bool-cases
        (any (λ r. act.target === r || target_within act.target r) leaf.authority.resources)) [
          | inr off ↦ absurd (ground (arith, op, off))
          | inl on ↦ (ground (arith, op, on), record { operation = op; target = on })
        ]
]

module _ {G : Type 0} (ctx : ResolveContext G) where
  -- The holder's proof of this invocation.
  pub record IsHeld (act : InvocationAct) (cp : ChainPresentation) (leaf : VerifiedLeaf)
      (hp : SignedHolderProof) (g : G) : Type 0 where
    pub same_leaf : hp.leaf_vc_did ≡ cp.leaf_vc_did
    pub same_txn : hp.txn ≡ act.txn
    pub fresh : (ask_gate ctx g hp.challenge).0 ≡ true
    pub verifies : ctx.verify_holder_proof hp ≡ some true
    pub by_holder : signer_of_proof hp.proof ≡ leaf.holder
    pub sent_by_holder : sender_holds ctx leaf.holder ≡ true

  check_signed_sound :
      (act : InvocationAct) (hp : SignedHolderProof) (leaf out : VerifiedLeaf)
      → check_signed ctx act hp leaf ≡ resolved out
      → (ctx.verify_holder_proof hp ≡ some true)
        × (signer_of_proof hp.proof ≡ leaf.holder)
        × (sender_holds ctx leaf.holder ≡ true)
        × (check_act act leaf ≡ resolved out)
  unfolding check_signed
  check_signed_sound act hp leaf out h = ground (
    arith,
    get_or-true (ctx.verify_holder_proof hp),
    (===_iff (signer_of_proof hp.proof) leaf.holder).0,
  )

  pub after_gate_sound :
      (b : Bool × G) (r : Resolved) (out : VerifiedLeaf)
      → (after_gate ctx b r).0 ≡ resolved out
      → (b.0 ≡ true) × (r ≡ resolved out)
  after_gate_sound (true, g) r out h = (refl, h)
  after_gate_sound (false, g) r out h = absurd (ground arith)

  check_holder_sound :
      (act : InvocationAct) (cp : ChainPresentation) (leaf out : VerifiedLeaf) (g : G)
      → (check_holder ctx act cp leaf g).0 ≡ resolved out
      → (hp : SignedHolderProof) × (cp.holder_proof ≡ some hp)
        × IsHeld act cp leaf hp g
        × (check_act act leaf ≡ resolved out)
  unfolding check_holder
  check_holder_sound act cp leaf out g h = elim (Option-cases cp.holder_proof) [
    | inl off ↦ absurd (ground (arith, off))
    | inr (hp, on) ↦
        let bound : (is_some hp.proof ≡ true)
            × ((hp.leaf_vc_did === cp.leaf_vc_did && hp.txn === act.txn) ≡ true)
            × ((after_gate ctx (ask_gate ctx g hp.challenge) (check_signed ctx act hp leaf)).0
                ≡ resolved out) =
          ground (arith, on) in
        let (is_leaf, is_txn) = and-split _ _ bound.1 in
        let (fresh, signed) =
          after_gate_sound (ask_gate ctx g hp.challenge) (check_signed ctx act hp leaf) out
            bound.2 in
        let (verifies, signer, sender, act_ok) = check_signed_sound act hp leaf out signed in
        (
          hp,
          on,
          record {
            same_leaf = (===_iff hp.leaf_vc_did cp.leaf_vc_did).0 is_leaf;
            same_txn = (===_iff hp.txn act.txn).0 is_txn;
            fresh = fresh;
            verifies = verifies;
            by_holder = signer;
            sent_by_holder = sender;
          },
          act_ok,
        )
  ]

  bind_leaf_sound :
      (cp : ChainPresentation) (holder : Text) (a : Option AuthoritySet) (c : Option Caveats)
      (leaf : VerifiedLeaf)
      → bind_leaf ctx cp holder a c ≡ some leaf
      → (leaf.id ≡ cp.leaf_vc_did)
        × (leaf.holder ≡ holder)
        × (a ≡ some leaf.authority)
        × (c ≡ some leaf.caveats)
  unfolding bind_leaf
  bind_leaf_sound cp holder (some a) (some c) leaf h =
      let e : (is_filled holder ≡ true) × (leaf_of ctx cp holder a c ≡ leaf) = ground arith in
      (
        ap (λ l. l.id) (sym e.1),
        ap (λ l. l.holder) (sym e.1),
        ap (λ l. some l.authority) e.1,
        ap (λ l. some l.caveats) e.1,
      )
  bind_leaf_sound cp holder (some a) none leaf h = absurd (ground arith)
  bind_leaf_sound cp holder none c leaf h = absurd (ground arith)

  -- What a resolved leaf has passed.
  pub record IsResolved (inv : CapabilityInvocation) (leaf : VerifiedLeaf) (g : G) : Type 0 where
    pub cp : ChainPresentation
    pub result : Accepted Caveats
    pub holder_proof : SignedHolderProof
    pub chain : inv.chain ≡ some cp
    pub rooted : is_filled ctx.expected_root_issuer ≡ true
    pub accepted : verify_attenuation_chain (chain_verifier ctx cp) cp.leaf_vc_did ≡ passed result
    pub same_id : leaf.id ≡ cp.leaf_vc_did
    pub same_holder : leaf.holder ≡ result.holder
    pub same_authority : result.leaf_authority_set ≡ some leaf.authority
    pub same_caveats : result.leaf_caveats ≡ some leaf.caveats
    pub has_ceiling : is_some leaf.caveats.ceiling ≡ true
    pub held_by : cp.holder_proof ≡ some holder_proof
    pub held : IsHeld inv.act cp leaf holder_proof g
    pub within_leaf : IsWithinLeaf inv.act leaf

  check_bound-some :
      (act : InvocationAct) (cp : ChainPresentation) (o : Option VerifiedLeaf) (out : VerifiedLeaf)
      (g : G)
      → (check_bound ctx act cp o g).0 ≡ resolved out
      → (leaf : VerifiedLeaf) × (o ≡ some leaf)
        × (is_some leaf.caveats.ceiling ≡ true)
        × ((check_holder ctx act cp leaf g).0 ≡ resolved out)
  unfolding check_bound
  check_bound-some act cp none out g h = absurd (ground arith)
  check_bound-some act cp (some leaf) out g h = elim (Bool-cases (is_some leaf.caveats.ceiling)) [
    | inl on ↦ (leaf, refl, on, ground (arith, on))
    | inr off ↦ absurd (ground (arith, off))
  ]

  check_chain-passed :
      (act : InvocationAct) (cp : ChainPresentation) (v : Verdict (Accepted Caveats))
      (out : VerifiedLeaf) (g : G)
      → verify_capability_chain ctx cp ≡ v
      → (check_chain ctx act cp g).0 ≡ resolved out
      → (r : Accepted Caveats) × (verify_capability_chain ctx cp ≡ passed r)
        × ((check_bound ctx act cp
              (bind_leaf ctx cp r.holder r.leaf_authority_set r.leaf_caveats)
              g).0
            ≡ resolved out)
  unfolding check_chain
  check_chain-passed act cp fault out g e h = absurd (ground (arith, e))
  check_chain-passed act cp (rejected c d n) out g e h = absurd (ground (arith, e))
  check_chain-passed act cp (passed r) out g e h = (r, e, ground (arith, e))

  resolve-chain :
      (inv : CapabilityInvocation) (out : VerifiedLeaf) (g : G)
      → (resolve_chain_invocation ctx inv g).0 ≡ resolved out
      → (cp : ChainPresentation) × (inv.chain ≡ some cp)
        × (is_filled ctx.expected_root_issuer ≡ true)
        × ((check_chain ctx inv.act cp g).0 ≡ resolved out)
  unfolding resolve_chain_invocation
  resolve-chain inv out g h = elim (Option-cases inv.chain) [
    | inl off ↦ absurd (ground (arith, off))
    | inr (cp, on) ↦ elim (Bool-cases (is_filled ctx.expected_root_issuer)) [
      | inl filled ↦ (cp, on, filled, ground (arith, on, filled))
      | inr empty ↦ absurd (ground (arith, on, empty))
    ]
  ]

  resolve_chain-IsResolved :
      (inv : CapabilityInvocation) (out : VerifiedLeaf) (g : G)
      → (resolve_chain_invocation ctx inv g).0 ≡ resolved out
      → IsResolved inv out g
  unfolding verify_capability_chain
  resolve_chain-IsResolved inv out g h =
      let (cp, on, filled, h1) = resolve-chain inv out g h in
      let (r, accepted, h2) =
        check_chain-passed inv.act cp (verify_capability_chain ctx cp) out g refl h1 in
      let (leaf, bound, ceiling, h3) =
        check_bound-some inv.act cp (bind_leaf ctx cp r.holder r.leaf_authority_set r.leaf_caveats)
          out g h2 in
      let (hp, has, held, h4) = check_holder_sound inv.act cp leaf out g h3 in
      let (same, within) = check_act_sound inv.act leaf out h4 in
      let (i, o, a, c) =
        bind_leaf_sound cp r.holder r.leaf_authority_set r.leaf_caveats leaf bound in
      rw (← same) (record {
        cp = cp;
        result = r;
        holder_proof = hp;
        chain = on;
        rooted = filled;
        accepted = accepted;
        same_id = i;
        same_holder = o;
        same_authority = a;
        same_caveats = c;
        has_ceiling = ceiling;
        held_by = has;
        held = held;
        within_leaf = within;
      })

-- When a chain invocation resolves to a leaf, the trusted root is set and the chain verifies with
-- every hop disclosed; the leaf is that chain's credential, holder, authority and caveats, with a
-- numeric ceiling; its holder signed a proof for this credential, this transaction and a challenge
-- that the gate took; and the act is an operation of the leaf's, on a target within its resources.
pub resolve_chain_invocation_sound :
    {G : Type 0} (ctx : ResolveContext G) (inv : CapabilityInvocation) (out : VerifiedLeaf) (g : G)
    → (resolve_chain_invocation ctx inv g).0 ≡ resolved out
    → IsResolved ctx inv out g
resolve_chain_invocation_sound ctx inv out g h = resolve_chain-IsResolved ctx inv out g h

-- One chain from the leaf to the trusted root, on which the leaf's authority rests.
pub record IsRootGranted {G : Type 0} (ctx : ResolveContext G) (cp : ChainPresentation)
    (r : Accepted Caveats) (leaf : VerifiedLeaf) : Type 0 where
  pub accepted : IsAccepted (chain_verifier ctx cp) cp.leaf_vc_did r
  pub grants : Grants (chain_verifier ctx cp) leaf.authority (accepted.hop ∷ accepted.rest)
  pub delegated :
      IsDelegated (chain_verifier ctx cp) ctx.expected_root_issuer accepted.hop accepted.rest
  pub all_live :
      ctx.require_status ≡ true
      → AllLive (chain_verifier ctx cp) (check_hop_status ctx) (accepted.hop ∷ accepted.rest)

-- When a chain invocation resolves to a leaf, there is one accepted chain for it such that the
-- leaf's authority is within the authority of every hop, the trusted root controls the origin,
-- each other hop is controlled by the holder that its parent names, and, where a status is
-- required, the status check of every hop, against its own controller, finds it live.
pub resolved-root-granted :
    {G : Type 0} (ctx : ResolveContext G) (inv : CapabilityInvocation) (out : VerifiedLeaf) (g : G)
    → (resolve_chain_invocation ctx inv g).0 ≡ resolved out
    → (k : IsResolved ctx inv out g) × IsRootGranted ctx k.cp k.result out
resolved-root-granted ctx inv out g h =
    let k = resolve_chain_invocation_sound ctx inv out g h in
    let v = chain_verifier ctx k.cp in
    let l = verify_attenuation_chain-sound v k.cp.leaf_vc_did k.result k.accepted in
    (
      k,
      record {
        accepted = l;
        grants = accepted-Grants v k.cp.leaf_vc_did k.result out.authority refl k.same_authority l;
        delegated = Chain-IsDelegated v ctx.expected_root_issuer refl k.rooted (λ e. cc) l.chain;
        all_live = λ status. Chain-AllLive v (check_hop_status ctx) refl status refl l.chain;
      },
    )
