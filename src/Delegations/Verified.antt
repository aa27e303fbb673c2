-- ===== src/Delegations/Verified.antt =====
-- What an accepted delegation of packages/warden/src/delegations.ts has shown.
use hearthold.Prelude.{
  Bool, true, false, not, ◌&&◌, ◌||◌, Option, none, some, List, [], ◌∷◌, Text, codes, get_or,
  is_some, is_filled, includes, ◌===◌, ===_iff, All, ◌≡◌, refl, sym, ap, ◌∙◌, subst, arith,
  Bool-cases, Option-cases, inl, inr, and-split,
}
use hearthold.Prove.{
  DisclosedCredential, field_of, ProofResult, Response, disclosures, verify_proof, result_of,
}
use hearthold.Prove.Sound.{IsTrusted, listed, registered, IsProved, verify_proof_sound}
use hearthold.Delegations.{
  legacy_delegation_kinds, Delegation, delegated, declined, DelegationFault, stale_challenge,
  not_verified, wrong_presenter, WardenNode, warden_did, proof_options, read_delegation, ask,
  after_ask, check_delegation, verify_delegation_presentation,
}

module _ {G : Type 0} (gate : Option (G → Text → Bool × G)) (node : WardenNode) where
  -- What an accepted delegation rests on.
  pub record IsDelegate (presentation holder : Text) (g g' : G) (kinds : List Text)
      (member : Option Text) : Type 0 where
    pub warden : Text
    pub schema : Text
    pub response : Response
    pub first : DisclosedCredential
    pub rest : List DisclosedCredential
    pub identity : warden_did node ≡ some warden
    pub answered : node.verify_response presentation ≡ some response
    pub proved : IsProved (proof_options warden schema) response
    pub presented : get_or response.responder [] ≡ holder
    pub fresh : ask gate g (get_or response.challenge []) ≡ (true, g')
    pub disclosed : disclosures response ≡ first ∷ rest
    pub by_warden : first.issuer ≡ warden
    pub subject : first.subject ≡ holder
    pub covers : kinds ≡ get_or first.claims.kinds legacy_delegation_kinds
    pub serves : member ≡ field_of first.claims.fields (codes "member")

  trusted-warden :
      (warden schema issuer : Text)
      → IsTrusted (proof_options warden schema) issuer
      → issuer ≡ warden
  unfolding includes
  trusted-warden warden schema issuer (listed l given m) =
      sym ((===_iff warden issuer).0 (ground (arith, only (warden ∷ []) l given)))
    where
      only : (a b : List Text) → some a ≡ some b → a ≡ b
      only a b h = cc
  trusted-warden warden schema issuer (registered a r given answered h) = absurd (ground arith)

  delegated-injective :
      (a b : List Text) (m n : Option Text) → delegated a m ≡ delegated b n → (a ≡ b) × (m ≡ n)
  delegated-injective a b m n h = (cc, cc)

  read_delegation-first :
      (ds : List DisclosedCredential) (responder : Text) (kinds : List Text) (member : Option Text)
      → read_delegation ds responder ≡ delegated kinds member
      → (d : DisclosedCredential) × (rest : List DisclosedCredential) × (ds ≡ d ∷ rest)
        × (d.subject ≡ responder)
        × (get_or d.claims.kinds legacy_delegation_kinds ≡ kinds)
        × (field_of d.claims.fields (codes "member") ≡ member)
  unfolding read_delegation
  read_delegation-first [] responder kinds member h = absurd (ground arith)
  read_delegation-first (d ∷ ds) responder kinds member h =
      let k : ((is_filled d.subject && d.subject === responder) ≡ true)
          × (delegated (get_or d.claims.kinds legacy_delegation_kinds)
                (field_of d.claims.fields (codes "member"))
              ≡ delegated kinds member) =
        ground arith in
      let (filled, same) = and-split (is_filled d.subject) (d.subject === responder) k.0 in
      let (ks, m) = delegated-injective _ kinds _ member k.1 in
      (d, ds, refl, (===_iff d.subject responder).0 same, ks, m)

  after_ask-delegated :
      (a : Bool × G) (d : Delegation) (kinds : List Text) (member : Option Text) (g' : G)
      → after_ask gate a d ≡ (delegated kinds member, g')
      → (a ≡ (true, g')) × (d ≡ delegated kinds member)
  after_ask-delegated (true, g) d kinds member g' h =
      (ap (λ (x : Delegation × G). (true, x.1)) h, ap (λ (x : Delegation × G). x.0) h)
  after_ask-delegated (false, g) d kinds member g' h =
      absurd (stale (ap (λ (x : Delegation × G). x.0) h))
    where
      stale : declined stale_challenge ≡ delegated kinds member → ⊥
      stale e = cc

  check_delegation-delegated :
      (proof : ProofResult) (holder : Text) (g g' : G) (kinds : List Text) (member : Option Text)
      → check_delegation gate proof holder g ≡ (delegated kinds member, g')
      → (proof.fault ≡ none)
        × (get_or proof.responder [] ≡ holder)
        × (ask gate g proof.challenge ≡ (true, g'))
        × (read_delegation proof.disclosed (get_or proof.responder []) ≡ delegated kinds member)
  unfolding check_delegation
  check_delegation-delegated proof holder g g' kinds member h =
      elim (Bool-cases (is_some proof.fault || not (is_filled (get_or proof.responder [])))) [
        | inl bad ↦
            let e : check_delegation gate proof holder g ≡ (declined not_verified, g) =
              ground (arith, bad) in
            absurd (clash not_verified (ap (λ (x : Delegation × G). x.0) (sym e ∙ h)))
        | inr good ↦ elim (Bool-cases (get_or proof.responder [] === holder)) [
          | inr other ↦
              let e : check_delegation gate proof holder g ≡ (declined wrong_presenter, g) =
                ground (arith, good, other) in
              absurd (clash wrong_presenter (ap (λ (x : Delegation × G). x.0) (sym e ∙ h)))
          | inl mine ↦
              let d = read_delegation proof.disclosed (get_or proof.responder []) in
              let e : check_delegation gate proof holder g
                  ≡ after_ask gate (ask gate g proof.challenge) d =
                ground (arith, good, mine) in
              let (asked, read) =
                after_ask-delegated (ask gate g proof.challenge) d kinds member g' (sym e ∙ h) in
              (
                ground (arith, good),
                (===_iff (get_or proof.responder []) holder).0 mine,
                asked,
                read,
              )
        ]
      ]
    where
      clash : (f : DelegationFault) → declined f ≡ delegated kinds member → ⊥
      clash f e = cc

  out-injective : (a b : Delegation × G) → some a ≡ some b → a ≡ b
  out-injective a b h = cc

  -- The proof behind an accepted delegation.
  checked-proof :
      (presentation holder : Text) (g g' : G) (kinds : List Text) (member : Option Text)
      → verify_delegation_presentation gate node presentation holder g
        ≡ some (delegated kinds member, g')
      → (warden : Text) × (schema : Text) × (proof : ProofResult) × (warden_did node ≡ some warden)
        × (verify_proof (proof_options warden schema) (node.verify_response presentation)
            ≡ some proof)
        × (check_delegation gate proof holder g ≡ (delegated kinds member, g'))
  unfolding verify_delegation_presentation
  checked-proof presentation holder g g' kinds member h =
      elim (Bool-cases (is_filled presentation)) [
        | inr off ↦ absurd (ground (arith, off))
        | inl on ↦ elim (Option-cases (warden_did node)) [
          | inl threw ↦ absurd (ground (arith, on, threw))
          | inr ([], missing) ↦ absurd (ground (arith, on, missing))
          | inr (c ∷ cs, found) ↦ elim (Option-cases node.delegation_schema) [
            | inl gone ↦ absurd (ground (arith, on, found, gone))
            | inr (schema, named) ↦
                elim (Option-cases (
                  verify_proof (proof_options (c ∷ cs) schema)
                    (node.verify_response presentation))) [
                      | inl failed ↦ absurd (ground (arith, on, found, named, failed))
                      | inr (proof, verified) ↦
                          let e : verify_delegation_presentation gate node presentation holder g
                              ≡ some (check_delegation gate proof holder g) =
                            ground (arith, on, found, named, verified) in
                          (c ∷ cs, schema, proof, found, verified, out-injective _ _ (sym e ∙ h))
                    ]
          ]
        ]
      ]

-- A delegation that is accepted is disclosed by a proof that the warden's own DID has issued, which
-- the expected holder has given in answer to a challenge that the gate took; it is the first of the
-- disclosed credentials, its subject is that holder, and the kinds are the ones it names, or the
-- legacy kinds where it names none.
pub verify_delegation_presentation_sound :
    {G : Type 0} (gate : Option (G → Text → Bool × G)) (node : WardenNode)
    (presentation holder : Text) (g g' : G) (kinds : List Text) (member : Option Text)
    → verify_delegation_presentation gate node presentation holder g
      ≡ some (delegated kinds member, g')
    → IsDelegate gate node presentation holder g g' kinds member
verify_delegation_presentation_sound gate node presentation holder g g' kinds member h =
    let (warden, schema, proof, identity, verified, checked) =
      checked-proof gate node presentation holder g g' kinds member h in
    let ok = check_delegation-delegated gate node proof holder g g' kinds member checked in
    let (res, answered, same, proved) =
      verify_proof_sound (proof_options warden schema) (node.verify_response presentation) proof
        verified ok.0 in
    let (fault, presented, fresh, read) =
      check_delegation-delegated gate node (result_of res none) holder g g' kinds member (
        subst (λ p. check_delegation gate p holder g ≡ (delegated kinds member, g')) same
          checked) in
    let (d, rest, disclosed, subject, covers, serves) =
      read_delegation-first gate node (disclosures res) (get_or res.responder []) kinds member
        read in
    record {
      warden = warden;
      schema = schema;
      response = res;
      first = d;
      rest = rest;
      identity = identity;
      answered = answered;
      proved = proved;
      presented = presented;
      fresh = fresh;
      disclosed = disclosed;
      by_warden =
          trusted-warden gate node warden schema d.issuer
            (subst
              (All (λ (x : DisclosedCredential). IsTrusted (proof_options warden schema) x.issuer))
              disclosed proved.trusted).0;
      subject = subject ∙ presented;
      covers = sym covers;
      serves = sym serves;
    }
