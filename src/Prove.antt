-- ===== src/Prove.antt =====
-- packages/core/src/prove.ts: a presentation that answers a challenge, and its verification against
-- trusted issuers. The claims of a credential are its string fields, with the authority and the
-- caveats that a capability carries and the kinds of a delegation. The node's `verifyResponse` and
-- `createChallenge` are parameters.
pub mod Sound
pub mod Burned
mod Tests
use hearthold.Prelude.{
  ℕ, zero, suc, Bool, true, false, not, ◌&&◌, ◌||◌, Option, none, some, List, [], ◌∷◌, map, Text,
  codes, get_or, is_some, is_filled, eq_opt, every, any, length, ltb, ◌==◌, ◌===◌, if◌then◌else◌,
  includes,
}
use hearthold.Capability.{Caveats}
use hearthold.SpentTxns.{SpentTxnStore}
use hearthold.TrustRegistry.{TrustEvaluator, AuthorizationQuery}
use hearthold.ChallengeStore.{ProofRequest}

-- The credential request of a challenge; `issuers` is left out where nobody is named.
pub record CredentialRequest : Type 0 where
  pub schema : Text
  pub issuers : Option (List Text)

abbrev credential_request : ProofRequest → CredentialRequest
credential_request r = record {
  schema = r.schema;
  issuers = elim r.trusted_issuers [ none ↦ none | some [] ↦ none | some (i ∷ is) ↦ some (i ∷ is) ];
}

unfoldable pub request_composite_proof :
    (List CredentialRequest → Option Text) → List ProofRequest → Option Text
request_composite_proof create_challenge reqs = create_challenge (map credential_request reqs)

unfoldable pub request_proof : (List CredentialRequest → Option Text) → ProofRequest → Option Text
unfolding request_composite_proof
request_proof create_challenge req = request_composite_proof create_challenge (req ∷ [])

-- An `authority` object; a part that is no array is none.
pub record RawAuthority : Type 0 where
  pub operations : Option (List Text)
  pub resources : Option (List Text)

pub record Claims : Type 0 where
  pub fields : List (Text × Text)
  pub authority : Option RawAuthority
  pub caveats : Option Caveats
  pub kinds : Option (List Text)

unfoldable pub field_of : List (Text × Text) → Text → Option Text
field_of [] k = none
field_of ((j, v) ∷ rest) k = if j === k then some v else field_of rest k

-- `delete claims[k]`
unfoldable pub without : Text → List (Text × Text) → List (Text × Text)
without k [] = []
without k ((j, v) ∷ rest) = let kept = without k rest in if j === k then kept else (j, v) ∷ kept

pub data TrustClass : Type 0 where
  issued witnessed composite : TrustClass

pub record DisclosedCredential : Type 0 where
  pub credential_did : Text
  pub issuer : Text
  pub subject : Text
  pub trust_class : TrustClass
  pub claims : Claims

-- A presented credential, as `verifyResponse` returns it.
pub record Presented : Type 0 where
  pub issuer : Option Text
  pub subject : Option Claims

-- The answer of `verifyResponse`: `vcs` has the DIDs of the credentials.
pub record Response : Type 0 where
  pub vcs : List (Option Text)
  pub vps : List Presented
  pub challenge : Option Text
  pub responder : Option Text
  pub matched : Bool
  pub fulfilled : ℕ
  pub requested : ℕ

pub data ProofFault : Type 0 where
  no_trust_source unsatisfied untrusted_issuer missing_claims already_spent : ProofFault

pub record ProofResult : Type 0 where
  pub fault : Option ProofFault
  pub responder : Option Text
  pub challenge : Text
  pub disclosed : List DisclosedCredential

pub record ProofOptions : Type 0 where
  pub trusted_issuers : Option (List Text)
  pub trust_registry : Option TrustEvaluator
  pub schema : Option Text
  pub required_claims : Option (List (Text × Text))

abbrev no_claims : Claims
no_claims = record { fields = []; authority = none; caveats = none; kinds = none }

-- `tc === 'witnessed' || tc === 'composite' ? tc : 'issued'`
unfoldable pub trust_class_of : Option Text → TrustClass
trust_class_of tc =
    if eq_opt tc (some (codes "witnessed"))
    then witnessed
    else if eq_opt tc (some (codes "composite"))
    then composite
    else issued

unfoldable pub disclose_one : Option Text → Presented → DisclosedCredential
disclose_one vc vp =
    let all = get_or vp.subject no_claims in
    record {
      credential_did = get_or vc [];
      issuer = get_or vp.issuer [];
      subject = get_or (field_of all.fields (codes "id")) [];
      trust_class =
          trust_class_of (field_of (without (codes "id") all.fields) (codes "trustClass"));
      claims = record all { fields = without (codes "id") all.fields };
    }

-- The credentials paired by position, while the two arrays are of one length.
unfoldable pub disclose_pairs : List (Option Text) → List Presented → List DisclosedCredential
disclose_pairs vcs [] = []
disclose_pairs [] (p ∷ ps) = disclose_one none p ∷ disclose_pairs [] ps
disclose_pairs (c ∷ cs) (p ∷ ps) = disclose_one c p ∷ disclose_pairs cs ps

unfoldable pub disclosures : Response → List DisclosedCredential
disclosures res =
    if length res.vcs == length res.vps
    then disclose_pairs res.vcs res.vps
    else disclose_pairs [] res.vps

-- `isTrusted`; none where the registry throws.
unfoldable pub is_trusted : ProofOptions → Text → Option Bool
is_trusted opts issuer =
    if includes (get_or opts.trusted_issuers []) issuer
    then some true
    else elim opts.trust_registry [
      | none ↦ some false
      | some registry ↦
          elim (registry (record {
            entity_id = issuer;
            action = codes "issue";
            resource = opts.schema;
            authority_id = none;
          })) [ none ↦ none | some r ↦ some r.authorized ]
    ]

-- `Promise.all`, then `every`: every issuer is asked, and one that throws makes the whole throw.
unfoldable pub all_trusted : ProofOptions → List DisclosedCredential → Option Bool
all_trusted opts [] = some true
all_trusted opts (d ∷ ds) =
    let rest = all_trusted opts ds in
    elim (is_trusted opts d.issuer) [
      | none ↦ none
      | some b ↦ elim rest [ none ↦ none | some bs ↦ some (b && bs) ]
    ]

-- One disclosed credential has every required claim.
unfoldable pub has_claims : Option (List (Text × Text)) → List DisclosedCredential → Bool
has_claims none ds = true
has_claims (some required) ds =
    any (λ d. every (λ c. eq_opt (field_of d.claims.fields c.0) (some c.1)) required) ds

-- The truthy transactions of the credentials.
abbrev txn_of : DisclosedCredential → List Text → List Text
txn_of d rest =
    let t = get_or (field_of d.claims.fields (codes "txn")) [] in
    if is_filled t then t ∷ rest else rest

-- `[...new Set(...)]`: the first of each.
unfoldable pub distinct : List Text → List Text → List Text
distinct seen [] = []
distinct seen (t ∷ ts) =
    let kept = distinct (t ∷ seen) ts in
    let skipped = distinct seen ts in if includes seen t then skipped else t ∷ kept

unfoldable pub all_txns : List DisclosedCredential → List Text
all_txns [] = []
all_txns (d ∷ ds) = txn_of d (all_txns ds)

unfoldable pub txns_of : List DisclosedCredential → List Text
txns_of ds = distinct [] (all_txns ds)

module _ {S : Type 0} (store : SpentTxnStore S) where
  open store use {is_spent, mark_spent}

  -- Whether some transaction is spent already; none where the ledger throws.
  unfoldable pub any_spent : S → List Text → Option Bool
  any_spent s [] = some false
  any_spent s (t ∷ ts) =
      let rest = any_spent s ts in
      elim (is_spent s t) [ none ↦ none | some true ↦ some true | some false ↦ rest ]

  -- The marks, one after the other; a mark that throws leaves those before it.
  unfoldable pub mark_all : S → List Text → Bool × S
  mark_all s [] = (true, s)
  mark_all s (t ∷ ts) = elim (mark_spent s t) [ none ↦ (false, s) | some s' ↦ mark_all s' ts ]

abbrev pub result_of : Response → Option ProofFault → ProofResult
result_of res fault = record {
  fault = fault;
  responder = res.responder;
  challenge = get_or res.challenge [];
  disclosed = disclosures res;
}

-- The checks before the single-use ledger: none where the registry throws, else the first fault.
unfoldable pub check_proof : ProofOptions → Response → Option (Option ProofFault)
check_proof opts res =
    if not (is_some opts.trusted_issuers) && not (is_some opts.trust_registry)
    then some (some no_trust_source)
    else if not res.matched || (ltb res.fulfilled res.requested || res.requested == 0)
    then some (some unsatisfied)
    else elim (all_trusted opts (disclosures res)) [
      | none ↦ none
      | some trusted ↦
          if not trusted
          then some (some untrusted_issuer)
          else if not (has_claims opts.required_claims (disclosures res))
          then some (some missing_claims)
          else some none
    ]

-- `verifyProof` without a ledger, on what `verifyResponse` answers; none where a call throws.
unfoldable pub verify_proof : ProofOptions → Option Response → Option ProofResult
verify_proof opts none = none
verify_proof opts (some res) = elim (check_proof opts res) [
  | none ↦ none
  | some fault ↦ some (result_of res fault)
]

module _ {S : Type 0} (store : SpentTxnStore S) where
  abbrev marked : Response → Bool × S → Option ProofResult × S
  marked res (true, s) = (some (result_of res none), s)
  marked res (false, s) = (none, s)

  -- The end of `verifyProof` where a ledger is given.
  unfoldable pub burn_txns : Response → S → Option ProofResult × S
  burn_txns res s = elim (any_spent store s (txns_of (disclosures res))) [
    | none ↦ (none, s)
    | some true ↦ (some (result_of res (some already_spent)), s)
    | some false ↦ marked res (mark_all store s (txns_of (disclosures res)))
  ]

  -- `verifyProof` with a ledger of spent transactions.
  unfoldable pub verify_proof_once : ProofOptions → Option Response → S → Option ProofResult × S
  verify_proof_once opts none s = (none, s)
  verify_proof_once opts (some res) s = elim (check_proof opts res) [
    | none ↦ (none, s)
    | some (some fault) ↦ (some (result_of res (some fault)), s)
    | some none ↦ burn_txns res s
  ]
