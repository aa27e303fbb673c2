-- ===== src/Monitor/Tests.antt =====
-- One act through the monitor: a chain of one hop, an authorization with a discharge, and the
-- theorems at them.
use hearthold.Prelude.{
  ◌≡◌, ◌≢◌, ◌↔◌, refl, Bool, true, false, Option, none, some, List, [], ◌∷◌, Text, codes, arith,
  ◌===◌, starts_with, text_leb, includes, includes_all, before_hash,
}
use hearthold.Prelude.Int.{pos}
use hearthold.Prelude.Sorting.{unique_sorted}
use hearthold.Json.{Json, str, canonicalize, string_items}
use hearthold.Attenuation.{
  AuthoritySet, Proof, PicBlock, is_subset, commit, signer_of, attenuation_statement,
}
use hearthold.Attenuation.Verify.{
  verify_attenuation_chain, walk, proceed, check_hop, check_assertion, check_disclosure,
  check_status, check_link, check_origin, pin_holds, agrees, commitment_holds, within_parent,
  caveats_within, root_holds, accept,
}
use hearthold.Capability.{Caveats, ThirdPartyCaveat, target_within}
use hearthold.SpentTxns.{memory_spent_txn_store, memory_is_spent, memory_mark_spent}
use hearthold.SpentTxns.Laws.{memory-IsLedger}
use hearthold.Monitor.{
  CapabilityInvocation, InvocationContext, InvocationAct, Discharge, ChainPresentation,
  SignedHolderProof, VerifiedLeaf, allow, deny, replay, needs_discharge, policy_consent,
  authorize_invocation, judge, settle, burn, exceeds, has_expired, human_gate, unmet_caveats,
  with_policy, has_valid_discharge, discharges_caveat, discharge_digest, subject_of,
}
use hearthold.Monitor.Discharges.{IsDischarged, has_valid_discharge_iff}
use hearthold.Monitor.Authorize.{
  IsAuthorized, authorize_invocation_sound, authorize_invocation-refusal,
}
use hearthold.Monitor.Presentation.{
  ResolveContext, resolved, resolve_chain_invocation, check_chain, check_bound, check_holder,
  check_signed, check_act, ask_gate, bind_leaf, sender_holds, verify_capability_chain,
  check_hop_status,
}
use hearthold.Monitor.Resolve.{
  IsResolved, IsRootGranted, resolve_chain_invocation_sound, resolved-root-granted,
}

running : Unit {0}
unfolding authorize_invocation judge settle burn exceeds has_expired human_gate unmet_caveats
    with_policy has_valid_discharge discharges_caveat discharge_digest memory_is_spent
    memory_mark_spent resolve_chain_invocation check_chain check_bound check_holder check_signed
    check_act ask_gate bind_leaf sender_holds verify_capability_chain check_hop_status target_within
    starts_with verify_attenuation_chain walk proceed check_hop check_assertion check_disclosure
    check_status check_link check_origin pin_holds agrees commitment_holds within_parent
    caveats_within root_holds accept commit is_subset unique_sorted canonicalize string_items
    signer_of ◌===◌ includes includes_all text_leb before_hash
running = tt

abbrev same_text : Text → Text
same_text s = s

abbrev proof_of : Text → Option Proof
proof_of did = some (record { verification_method = did; proof_value = did; created = [] })

abbrev pub caveats : Caveats
caveats = record {
  ceiling = some (pos 3);
  kinds = none;
  owner = some (codes "O");
  audience = none;
  expires = none;
  single_use = some true;
  requires_discharge =
      some (record { by = codes "O"; predicate = codes "p"; location = none } ∷ []);
  status = none;
}

abbrev authority : AuthoritySet
authority = record { operations = codes "r" ∷ []; resources = codes "v" ∷ [] }

abbrev pub leaf : VerifiedLeaf
leaf = record { id = codes "1"; holder = codes "E"; authority = authority; caveats = caveats }

abbrev pub act : InvocationAct
act = record {
  action = codes "r";
  target = codes "v/x";
  claim = codes "c";
  spec_kind = codes "k";
  reveal = none;
  nonce = codes "n";
  txn = codes "t";
}

abbrev pub ctx : InvocationContext
ctx = record {
  verify_discharge = λ d. some true;
  sha256 = same_text;
  date_parse = λ t. none;
  now = pos 5;
  sensitivity = some (pos 3);
  requires_human_at = some (pos 3);
  owner = none;
}

abbrev pub bare : CapabilityInvocation
bare = record { presentation = none; chain = none; act = act; discharges = none }

abbrev issued : ThirdPartyCaveat
issued = record { by = codes "O"; predicate = codes "p"; location = none }

abbrev consent_to : ThirdPartyCaveat → Discharge
consent_to cav = record {
  by = cav.by;
  predicate = some cav.predicate;
  txn = codes "t";
  digest = some (discharge_digest same_text (subject_of bare cav ctx leaf));
  proof = proof_of cav.by;
}

abbrev pub inv : CapabilityInvocation
inv = record bare {
  discharges = some (consent_to issued ∷ consent_to (policy_consent (codes "O")) ∷ []);
}

abbrev spent_after : List Text
spent_after = codes "cap:1" ∷ codes "t" ∷ []

allows :
    ((authorize_invocation memory_spent_txn_store inv ctx leaf []).decision ≡ some (allow caveats))
    × ((authorize_invocation memory_spent_txn_store inv ctx leaf []).ledger ≡ spent_after)
unfolding running
allows = (refl, refl)

refuses :
    ((authorize_invocation memory_spent_txn_store inv ctx leaf spent_after).decision
      ≡ some (deny replay))
    × ((authorize_invocation memory_spent_txn_store bare ctx leaf []).decision
        ≡ some (needs_discharge (issued ∷ policy_consent (codes "O") ∷ [])))
unfolding running
refuses = (refl, refl)

discharges : has_valid_discharge inv issued ctx leaf ≡ true
unfolding running
discharges = refl

has_valid_discharge_iff_example :
    (has_valid_discharge inv issued ctx leaf ≡ true) ↔ IsDischarged inv issued ctx leaf
has_valid_discharge_iff_example = has_valid_discharge_iff inv issued ctx leaf

authorize_invocation_sound_example :
    IsAuthorized memory_spent_txn_store memory-IsLedger inv ctx leaf []
      (authorize_invocation memory_spent_txn_store inv ctx leaf []).ledger
authorize_invocation_sound_example =
    authorize_invocation_sound memory_spent_txn_store memory-IsLedger inv ctx leaf [] caveats
      allows.0

not_allowed :
    (c : Caveats)
    → (authorize_invocation memory_spent_txn_store bare ctx leaf []).decision ≢ some (allow c)
not_allowed c h = ground (arith, refuses.1)

answers : (authorize_invocation memory_spent_txn_store bare ctx leaf []).decision ≢ none
answers h = ground (arith, refuses.1)

authorize_invocation-refusal_example :
    (authorize_invocation memory_spent_txn_store bare ctx leaf []).ledger ≡ []
authorize_invocation-refusal_example =
    authorize_invocation-refusal memory_spent_txn_store memory-IsLedger bare ctx leaf [] not_allowed
      answers

abbrev caveats_json : Caveats → Json
caveats_json c = str (codes "j")

abbrev committed : Text
committed = commit same_text caveats_json authority (codes "s") (some caveats)

abbrev block : PicBlock
block = record {
  lineage_id = codes "1";
  counter = pos 0;
  prev_credential = none;
  authority_commitment = committed;
  parent_authority_commitment = none;
  attenuation_assertion = some (record {
    issuer = codes "S";
    holder = codes "E";
    statement = attenuation_statement;
    lineage_id = codes "1";
    counter = pos 0;
    authority_commitment = committed;
    parent_authority_commitment = none;
    proof = proof_of (codes "S");
  });
}

abbrev holder_proof : SignedHolderProof
holder_proof = record {
  challenge = codes "q";
  leaf_vc_did = codes "1";
  txn = codes "t";
  proof = proof_of (codes "E");
}

abbrev presented : ChainPresentation
presented = record {
  leaf_vc_did = codes "1";
  disclosed =
      λ did. some (record { authority_set = authority; salt = codes "s"; caveats = some caveats });
  holder_proof = some holder_proof;
}

abbrev chained : CapabilityInvocation
chained = record inv { chain = some presented }

-- The gate takes the challenge `q` once.
abbrev resolve_ctx : ResolveContext Bool
resolve_ctx = record {
  resolve_did = λ did version.
      some (record { version_id = none; controller = some (codes "S"); pic = some block });
  verify_assertion = λ a. some true;
  verify_holder_proof = λ h. some true;
  sha256 = same_text;
  caveats_json = caveats_json;
  codec = record { gzip = same_text; gunzip = λ t. some t };
  resolve_list = λ did. none;
  verify_list = λ l. none;
  now = pos 5;
  expected_root_issuer = codes "S";
  require_status = false;
  status_max_age_ms = none;
  from_did = some (codes "E");
  require_challenge = some (λ live challenge. (live, false));
}

resolves : (resolve_chain_invocation resolve_ctx chained true).0 ≡ resolved leaf
unfolding running
resolves = refl

resolve_chain_invocation_sound_example : IsResolved resolve_ctx chained leaf true
resolve_chain_invocation_sound_example =
    resolve_chain_invocation_sound resolve_ctx chained leaf true resolves

resolved-root-granted_example :
    (k : IsResolved resolve_ctx chained leaf true) × IsRootGranted resolve_ctx k.cp k.result leaf
resolved-root-granted_example = resolved-root-granted resolve_ctx chained leaf true resolves
