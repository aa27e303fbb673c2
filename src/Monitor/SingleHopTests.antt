-- ===== src/Monitor/SingleHopTests.antt =====
-- One act through the single-hop path of the monitor, and the theorems at it.
use hearthold.Prelude.{
  ◌≡◌, refl, Bool, true, false, none, some, List, [], ◌∷◌, Text, codes, ◌===◌, starts_with,
  text_leb, includes, includes_all, before_hash,
}
use hearthold.Prelude.Int.{pos}
use hearthold.Prelude.Sorting.{unique_sorted}
use hearthold.Json.{str}
use hearthold.Attenuation.{AuthoritySet, is_subset}
use hearthold.Capability.{Caveats, target_within}
use hearthold.SpentTxns.{memory_spent_txn_store, memory_is_spent, memory_mark_spent}
use hearthold.SpentTxns.Laws.{memory-IsLedger}
use hearthold.Prove.{
  Response, field_of, without, trust_class_of, disclose_one, disclose_pairs, disclosures,
  is_trusted, all_trusted, has_claims, check_proof, verify_proof,
}
use hearthold.Monitor.{
  CapabilityInvocation, InvocationContext, VerifiedLeaf, Outcome, allow, authorize_invocation,
  judge, settle, burn, exceeds, has_expired, human_gate, unmet_caveats, with_policy,
  has_valid_discharge, discharges_caveat, discharge_digest,
}
use hearthold.Monitor.Authorize.{IsAuthorized}
use hearthold.Monitor.Presentation.{
  ResolveContext, resolved, refused, wrong_sender, check_act, ask_gate, sender_holds,
}
use hearthold.Monitor.SingleHop.{
  PresentationContext, find_authorization, auth_credential, leaf_from, read_leaf, check_revocation,
  enforce, check_answer, resolve_invocation, judged, verify_invocation,
}
use hearthold.Monitor.Verified.{IsPresented, verify_invocation_sound}

running : Unit {0}
unfolding authorize_invocation judge settle burn exceeds has_expired human_gate unmet_caveats
    with_policy has_valid_discharge discharges_caveat discharge_digest memory_is_spent
    memory_mark_spent check_act ask_gate sender_holds target_within starts_with is_subset
    unique_sorted ◌===◌ includes includes_all text_leb before_hash field_of without trust_class_of
    disclose_one disclose_pairs disclosures is_trusted all_trusted has_claims check_proof
    verify_proof find_authorization auth_credential leaf_from read_leaf check_revocation enforce
    check_answer resolve_invocation verify_invocation
running = tt

abbrev same_text : Text → Text
same_text s = s

abbrev caveats : Caveats
caveats = record {
  ceiling = some (pos 3);
  kinds = none;
  owner = none;
  audience = none;
  expires = none;
  single_use = none;
  requires_discharge = none;
  status = none;
}

abbrev authority : AuthoritySet
authority = record { operations = codes "r" ∷ []; resources = codes "v" ∷ [] }

abbrev leaf : VerifiedLeaf
leaf = record { id = codes "1"; holder = codes "E"; authority = authority; caveats = caveats }

abbrev inv : CapabilityInvocation
inv = record {
  presentation = some (codes "p");
  chain = none;
  act = record {
    action = codes "r";
    target = codes "v/x";
    claim = codes "c";
    spec_kind = codes "k";
    reveal = none;
    nonce = codes "n";
    txn = codes "t";
  };
  discharges = none;
}

abbrev response : Response
response = record {
  vcs = some (codes "1") ∷ [];
  vps =
      record {
        issuer = some (codes "S");
        subject = some (record {
          fields = (codes "id", codes "E") ∷ (codes "type", codes "HearthholdAuthorization") ∷ [];
          authority =
              some
                (record { operations = some (codes "r" ∷ []); resources = some (codes "v" ∷ []) });
          caveats = some caveats;
          kinds = none;
        });
      }
      ∷ [];
  challenge = some (codes "q");
  responder = some (codes "E");
  matched = true;
  fulfilled = 1;
  requested = 1;
}

-- The gate takes the challenge once.
abbrev base : ResolveContext Bool
base = record {
  resolve_did = λ did version. none;
  verify_assertion = λ a. none;
  verify_holder_proof = λ h. none;
  sha256 = same_text;
  caveats_json = λ c. str (codes "j");
  codec = record { gzip = same_text; gunzip = λ t. some t };
  resolve_list = λ did. none;
  verify_list = λ l. none;
  now = pos 5;
  expected_root_issuer = codes "S";
  require_status = false;
  status_max_age_ms = none;
  from_did = some (codes "E");
  require_challenge = some (λ live challenge. (live, false));
}

abbrev ctx : PresentationContext Bool
ctx = record {
  base = base;
  verify_response = λ p. some response;
  authorization_schema = codes "schema";
}

abbrev ictx : InvocationContext
ictx = record {
  verify_discharge = λ d. some true;
  sha256 = same_text;
  date_parse = λ t. none;
  now = pos 5;
  sensitivity = some (pos 2);
  requires_human_at = some (pos 3);
  owner = none;
}

-- The act resolves to its leaf; sent by another, it is refused.
resolves :
    ((resolve_invocation ctx inv true).0 ≡ resolved leaf)
    × ((resolve_invocation
          (record ctx { base = record base { from_did = some (codes "M") } })
          inv
          true).0
        ≡ refused wrong_sender)
unfolding running
resolves = (refl, refl)

abbrev outcome : Outcome (List Text)
outcome = record { decision = some (allow caveats); ledger = codes "t" ∷ [] }

allows : (verify_invocation ctx memory_spent_txn_store inv ictx true []).0 ≡ judged outcome
unfolding running
allows = refl

verify_invocation_sound_example :
    (l : VerifiedLeaf) × IsPresented ctx inv l true
    × IsAuthorized memory_spent_txn_store memory-IsLedger inv ictx l [] outcome.ledger
verify_invocation_sound_example =
    verify_invocation_sound ctx memory_spent_txn_store memory-IsLedger inv ictx true [] outcome
      caveats allows refl
