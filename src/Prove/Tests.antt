-- ===== src/Prove/Tests.antt =====
-- A response with one scroll, and the theorems at it.
use hearthold.Prelude.{◌≡◌, ◌≢◌, refl, true, none, some, [], ◌∷◌, codes, ◌===◌, includes}
use hearthold.SpentTxns.{memory_spent_txn_store, memory_is_spent, memory_mark_spent}
use hearthold.SpentTxns.Laws.{memory-IsLedger}
use hearthold.Prove.{
  Response, ProofOptions, already_spent, untrusted_issuer, field_of, without, trust_class_of,
  disclose_one, disclose_pairs, disclosures, is_trusted, all_trusted, has_claims, distinct,
  all_txns, txns_of, any_spent, mark_all, check_proof, result_of, verify_proof, burn_txns,
  verify_proof_once,
}
use hearthold.Prove.Burned.{burned-never-accepted}

running : Unit {0}
unfolding field_of without trust_class_of disclose_one disclose_pairs disclosures is_trusted
    all_trusted has_claims distinct all_txns txns_of any_spent mark_all check_proof verify_proof
    burn_txns verify_proof_once memory_is_spent memory_mark_spent ◌===◌ includes
running = tt

abbrev scroll : Response
scroll = record {
  vcs = some (codes "1") ∷ [];
  vps =
      record {
        issuer = some (codes "I");
        subject = some (record {
          fields = (codes "id", codes "R") ∷ (codes "txn", codes "t") ∷ [];
          authority = none;
          caveats = none;
          kinds = none;
        });
      }
      ∷ [];
  challenge = some (codes "c");
  responder = some (codes "R");
  matched = true;
  fulfilled = 1;
  requested = 1;
}

abbrev options : ProofOptions
options = record {
  trusted_issuers = some (codes "I" ∷ []);
  trust_registry = none;
  schema = none;
  required_claims = some ((codes "txn", codes "t") ∷ []);
}

proves : verify_proof options (some scroll) ≡ some (result_of scroll none)
unfolding running
proves = refl

-- Another issuer is not trusted, and the scroll burns.
burns :
    (verify_proof (record options { trusted_issuers = some [] }) (some scroll)
      ≡ some (result_of scroll (some untrusted_issuer)))
    × ((verify_proof_once memory_spent_txn_store options (some scroll) []).0
        ≡ some (result_of scroll none))
    × ((verify_proof_once memory_spent_txn_store options (some scroll) (codes "t" ∷ [])).0
        ≡ some (result_of scroll (some already_spent)))
unfolding running
burns = (refl, refl, refl)

discloses : includes (all_txns (disclosures scroll)) (codes "t") ≡ true
unfolding running
discloses = refl

again :
    (verify_proof_once memory_spent_txn_store options
      (some scroll)
      (verify_proof_once memory_spent_txn_store options (some scroll) []).1).0
    ≡ some (result_of scroll (some already_spent))
unfolding running
again = refl

burned-never-accepted_example : (result_of scroll (some already_spent)).fault ≢ none
burned-never-accepted_example =
    burned-never-accepted memory_spent_txn_store memory-IsLedger options options scroll scroll []
      (verify_proof_once memory_spent_txn_store options (some scroll) []).1 (result_of scroll none)
      (result_of scroll (some already_spent)) (codes "t") burns.1 refl discloses discloses
      (λ t h. h) again
