-- ===== src/Attenuation/Tests.antt =====
-- A chain of two hops through the verifier, attacks on it, and the theorems at that chain.
use hearthold.Prelude.{
  ℕ, ◌≤◌, ◌<◌, ◌≡◌, refl, true, Option, none, some, [], ◌∷◌, Text, codes, ◌===◌, includes,
  includes_all, text_leb, before_hash, is_filled, if◌then◌else◌, length,
}
use hearthold.Prelude.Sorting.{unique_sorted}
use hearthold.Prelude.Int.{pos}
use hearthold.Json.{str, canonicalize, string_items}
use hearthold.Attenuation.{
  AuthoritySet, AuthoritySetPayload, PrevPin, Proof, PicBlock, is_subset, commit, signer_of,
  attenuation_statement,
}
use hearthold.Attenuation.Sets.{IsWithin, is_subset_iff}
use hearthold.Attenuation.Verify.{
  Doc, Verifier, VerifyOptions, Accepted, passed, rejected, verify_attenuation_chain, walk, proceed,
  check_hop, check_assertion, check_disclosure, check_status, check_link, check_origin, pin_holds,
  agrees, commitment_holds, within_parent, caveats_within, root_holds, accept, HopStatus, live,
  revoked, hop_revoked, wider_authority, too_deep, wrong_delegator,
}
use hearthold.Attenuation.Soundness.{IsAccepted, verify_attenuation_chain-sound}
use hearthold.Attenuation.Authority.{
  Grants, IsDelegated, AllLive, verify-attenuates, verify-delegates, verify-revocable,
}
use hearthold.Attenuation.Completeness.{verify_attenuation_chain_complete}

-- What a run of the verifier unfolds.
running : Unit {0}
unfolding verify_attenuation_chain walk proceed check_hop check_assertion check_disclosure
    check_status check_link check_origin pin_holds agrees commitment_holds within_parent
    caveats_within root_holds accept commit is_subset unique_sorted canonicalize string_items
    signer_of ◌===◌ includes includes_all text_leb before_hash
running = tt

abbrev same_text : Text → Text
same_text s = s

abbrev wide : AuthoritySet
wide = record { operations = codes "r" ∷ codes "w" ∷ []; resources = codes "v" ∷ [] }

abbrev narrow : AuthoritySet
narrow = record { operations = codes "r" ∷ codes "r" ∷ []; resources = codes "v" ∷ [] }

abbrev committed : AuthoritySet → Text
committed a = commit same_text str a (codes "s") none

abbrev opened : AuthoritySet → AuthoritySetPayload Text
opened a = record { authority_set = a; salt = codes "s"; caveats = none }

abbrev signed_by : Text → Option Proof
signed_by did = some (record { verification_method = did; proof_value = did; created = [] })

abbrev block : Text → Text → ℕ → Option PrevPin → AuthoritySet → Option Text → PicBlock
block issuer holder n prev a parent = record {
  lineage_id = codes "1";
  counter = pos n;
  prev_credential = prev;
  authority_commitment = committed a;
  parent_authority_commitment = parent;
  attenuation_assertion = some (record {
    issuer = issuer;
    holder = holder;
    statement = attenuation_statement;
    lineage_id = codes "1";
    counter = pos n;
    authority_commitment = committed a;
    parent_authority_commitment = parent;
    proof = signed_by issuer;
  });
}

abbrev pin : PrevPin
pin = record { did = codes "1"; version_id = codes "a"; version_sequence = 2 }

-- The credential `1` is issued by `S` to `E`; the credential `2` by `issuer` to `F`.
abbrev node : Text → AuthoritySet → Text → Option ℕ → Option Doc
node issuer a did version =
    if did === codes "1"
    then some (record {
      version_id = some (codes "a");
      controller = some (codes "S");
      pic = some (block (codes "S") (codes "E") 0 none wide none);
    })
    else if did === codes "2"
    then some (record {
      version_id = some (codes "b");
      controller = some issuer;
      pic = some (block issuer (codes "F") 1 (some pin) a (some (committed wide)));
    })
    else none

abbrev all_live : Option Text → Text → HopStatus
all_live caveats controller = live

abbrev options : (Option Text → Text → HopStatus) → AuthoritySet → VerifyOptions Text
options check a = record {
  expected_root_issuer = some (codes "S");
  disclosed = some (λ did. if did === codes "1" then some (opened wide) else some (opened a));
  max_hops = none;
  require_disclosure = true;
  caveat_narrows = none;
  require_status = true;
  check_hop_status = some check;
  require_delegator_binding = none;
}

abbrev verifier : Text → AuthoritySet → (Option Text → Text → HopStatus) → Verifier Text
verifier issuer a check = record {
  resolve_did = node issuer a;
  verify_proof = λ x. some (is_filled x.issuer);
  sha256 = same_text;
  to_json = str;
  opts = options check a;
}

abbrev honest : Verifier Text
honest = verifier (codes "E") narrow all_live

abbrev outcome : Accepted Text
outcome = record {
  chain_length = 2;
  holder = codes "F";
  leaf_authority_set = some narrow;
  leaf_caveats = none;
}

accepts : verify_attenuation_chain honest (codes "2") ≡ passed outcome
unfolding running
accepts = refl

-- The root is revoked, the child is wider than its parent, and a stranger issues the child.
rejects :
    (verify_attenuation_chain
        (verifier (codes "E") narrow (λ c d. if d === codes "S" then revoked else live))
        (codes "2")
      ≡ rejected hop_revoked (codes "1") (some (pos 0)))
    × (verify_attenuation_chain
          (verifier (codes "E") (record wide { resources = codes "x" ∷ [] }) all_live)
          (codes "2")
        ≡ rejected wider_authority (codes "2") (some (pos 1)))
    × (verify_attenuation_chain (verifier (codes "M") narrow all_live) (codes "2")
        ≡ rejected wrong_delegator (codes "2") (some (pos 1)))
unfolding running
rejects = (refl, refl, refl)

abbrev shuffled : AuthoritySet
shuffled = record {
  operations = codes "w" ∷ codes "r" ∷ codes "w" ∷ [];
  resources = codes "v" ∷ [];
}

to_shuffled : IsWithin wide shuffled
unfolding running
to_shuffled = is_within wide shuffled refl
  where
    is_within : (a b : AuthoritySet) → is_subset a b ≡ true → IsWithin a b
    is_within a b = (is_subset_iff a b).0

from_shuffled : IsWithin shuffled wide
unfolding running
from_shuffled = (is_subset_iff shuffled wide).0 refl

verify_attenuation_chain-sound_example : IsAccepted honest (codes "2") outcome
verify_attenuation_chain-sound_example =
    verify_attenuation_chain-sound honest (codes "2") outcome accepts

verify-attenuates_example :
    (k : IsAccepted honest (codes "2") outcome) × (a : AuthoritySet) × (outcome.leaf_authority_set
      ≡ some a)
    × Grants honest a (k.hop ∷ k.rest)
verify-attenuates_example = verify-attenuates honest (codes "2") outcome refl accepts

verify-delegates_example :
    (k : IsAccepted honest (codes "2") outcome) × IsDelegated honest (codes "S") k.hop k.rest
verify-delegates_example =
    verify-delegates honest (codes "2") (codes "S") outcome refl refl (λ e. cc) accepts

verify-revocable_example :
    (k : IsAccepted honest (codes "2") outcome) × AllLive honest all_live (k.hop ∷ k.rest)
verify-revocable_example =
    verify-revocable honest all_live (codes "2") outcome refl refl refl accepts

verify_attenuation_chain_complete_example :
    let k = verify_attenuation_chain-sound honest (codes "2") outcome accepts in
    let n = length (k.hop ∷ k.rest) in
    (n ≤ 64 → verify_attenuation_chain honest (codes "2") ≡ passed (accept honest k.hop n))
    × (64 < n
        → (d : Text) × (verify_attenuation_chain honest (codes "2") ≡ rejected too_deep d none))
verify_attenuation_chain_complete_example =
    verify_attenuation_chain_complete honest
      (verify_attenuation_chain-sound honest (codes "2") outcome accepts).chain
