-- ===== src/Prove/Sound.antt =====
-- What a proof that `verifyProof` of packages/core/src/prove.ts accepts has shown.
use hearthold.Prelude.{
  ◌≤◌, true, Option, none, some, List, [], ◌∷◌, Text, codes, get_or, All, includes, ◌≡◌, ◌≢◌, refl,
  sym, ◌∙◌, arith, Bool-cases, Option-cases, inl, inr,
}
use hearthold.TrustRegistry.{TrustEvaluator, AuthorizationQuery, AuthorizationResult}
use hearthold.Prove.{
  DisclosedCredential, Response, ProofResult, ProofOptions, disclosures, is_trusted, all_trusted,
  has_claims, check_proof, verify_proof, result_of,
}

-- Where the trust in an issuer comes from.
pub data IsTrusted (opts : ProofOptions) (issuer : Text) : Type 0 where
  listed :
      (l : List Text)
      → opts.trusted_issuers ≡ some l
      → includes l issuer ≡ true
      → IsTrusted opts issuer
  registered :
      (ask : TrustEvaluator) (r : AuthorizationResult)
      → opts.trust_registry ≡ some ask
      → ask (record {
        entity_id = issuer;
        action = codes "issue";
        resource = opts.schema;
        authority_id = none;
      })
        ≡ some r
      → r.authorized ≡ true
      → IsTrusted opts issuer

is_trusted→IsTrusted :
    (opts : ProofOptions) (issuer : Text)
    → is_trusted opts issuer ≡ some true
    → IsTrusted opts issuer
unfolding is_trusted includes
is_trusted→IsTrusted opts issuer h =
    elim (Bool-cases (includes (get_or opts.trusted_issuers []) issuer)) [
      | inl on ↦ elim (Option-cases opts.trusted_issuers) [
        | inl off ↦ absurd (ground (arith, on, off))
        | inr (l, given) ↦ listed l given (ground (arith, on, given))
      ]
      | inr out ↦ elim (Option-cases opts.trust_registry) [
        | inl off ↦ absurd (ground (arith, out, off))
        | inr (ask, given) ↦ elim (Option-cases (ask query)) [
          | inl threw ↦ absurd (ground (arith, out, given, threw))
          | inr (r, answered) ↦
              registered ask r given answered (ground (arith, out, given, answered))
        ]
      ]
    ]
  where
    query : AuthorizationQuery
    query = record {
      entity_id = issuer;
      action = codes "issue";
      resource = opts.schema;
      authority_id = none;
    }

all_trusted-All :
    (opts : ProofOptions) (ds : List DisclosedCredential)
    → all_trusted opts ds ≡ some true
    → All (λ d. IsTrusted opts d.issuer) ds
unfolding all_trusted
all_trusted-All opts [] h = tt
all_trusted-All opts (d ∷ ds) h =
    (is_trusted→IsTrusted opts d.issuer (ground arith), all_trusted-All opts ds (ground arith))

-- What a proof that passes every check has shown.
pub record IsProved (opts : ProofOptions) (res : Response) : Type 0 where
  pub matched : res.matched ≡ true
  pub asked : res.requested ≢ 0
  pub satisfied : res.requested ≤ res.fulfilled
  pub trusted : All (λ d. IsTrusted opts d.issuer) (disclosures res)
  pub claimed : has_claims opts.required_claims (disclosures res) ≡ true

pub check_proof→IsProved :
    (opts : ProofOptions) (res : Response) → check_proof opts res ≡ some none → IsProved opts res
unfolding check_proof
check_proof→IsProved opts res h = record {
  matched = ground arith;
  asked = λ e. ground (arith, e);
  satisfied = ground arith;
  trusted = all_trusted-All opts (disclosures res) (ground arith);
  claimed = ground arith;
}

-- A proof that holds answers a challenge that asked for something and was satisfied, every
-- credential that it discloses is from an issuer that the list or the registry trusts, the required
-- claims are present, and the result names the response's responder, challenge and disclosures.
pub verify_proof_sound :
    (opts : ProofOptions) (answer : Option Response) (out : ProofResult)
    → verify_proof opts answer ≡ some out
    → out.fault ≡ none
    → (res : Response) × (answer ≡ some res) × (out ≡ result_of res none) × IsProved opts res
unfolding verify_proof
verify_proof_sound opts none out h holds = absurd (ground arith)
verify_proof_sound opts (some res) out h holds = elim (Option-cases (check_proof opts res)) [
  | inl threw ↦ absurd (ground (arith, threw))
  | inr (none, passed) ↦ (
    res,
    refl,
    some-injective out (result_of res none) (sym h ∙ ground (arith, passed)),
    check_proof→IsProved opts res passed,
  )
  | inr (some fault, failed) ↦ absurd (ground (arith, failed, holds))
]
  where
    some-injective : (a b : ProofResult) → some a ≡ some b → a ≡ b
    some-injective a b h = cc
