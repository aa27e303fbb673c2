-- ===== src/Attenuation/IssueTests.antt =====
-- A root and a delegated child issued on the empty wallet, and what the verifier says of them.
use hearthold.Prelude.{
  ◌≡◌, refl, true, Option, none, some, [], ◌∷◌, Text, codes, ◌===◌, if◌then◌else◌, get_or, arith,
  includes, includes_all, text_leb, before_hash,
}
use hearthold.Prelude.Sorting.{unique_sorted}
use hearthold.Prelude.Int.{pos}
use hearthold.Json.{str, canonicalize, string_items}
use hearthold.Attenuation.{AuthoritySet, AuthoritySetPayload, is_subset, commit, signer_of}
use hearthold.Attenuation.Verify.{VerifyOptions, passed, verify_attenuation_chain, HopStatus, live}
use hearthold.Attenuation.Issue.{Keymaster, IssuedVc, may_issue, plain_args, write_pic, issue_vc}
use hearthold.Attenuation.Issued.{at}
use hearthold.Attenuation.RoundTrip.{Issued, root, child, issued-verifies}
use hearthold.Attenuation.Wallet.{
  Docs, put, identity, make, write, head_of, wallet, wallet-IsKeymaster,
}

running : Unit {0}
unfolding is_subset commit unique_sorted canonicalize string_items signer_of ◌===◌ includes
    includes_all text_leb before_hash may_issue write_pic issue_vc put identity make write head_of
    wallet
running = tt

abbrev same_text : Text → Text
same_text s = s

abbrev node : Keymaster Docs Text
node = wallet

abbrev wide : AuthoritySet
wide = record { operations = codes "w" ∷ codes "r" ∷ []; resources = codes "v" ∷ [] }

abbrev narrow : AuthoritySet
narrow = record { operations = codes "r" ∷ codes "r" ∷ []; resources = codes "v" ∷ [] }

abbrev empty : Docs
empty did = none

abbrev no_vc : IssuedVc Text
no_vc = record {
  vc_did = [];
  lineage_id = [];
  counter = pos 0;
  authority_set = wide;
  salt = [];
  caveats = none;
  authority_commitment = [];
  pin = record { did = []; version_id = []; version_sequence = 0 };
  holder = [];
}

-- The Sovereign `S` issues to `E`, with the salt `1`.
abbrev first : IssuedVc Text × Docs
first =
    get_or
      (issue_vc node same_text str (plain_args (codes "S") (codes "E") wide none none) (codes "1")
        empty)
      (no_vc, empty)

-- `E` issues to `F`, with the salt `2`.
abbrev second : IssuedVc Text × Docs
second =
    get_or
      (issue_vc node same_text str (plain_args (codes "E") (codes "F") narrow none (some first.0))
        (codes "2") first.1)
      (no_vc, empty)

abbrev all_live : Option Text → Text → HopStatus
all_live caveats controller = live

abbrev shown : IssuedVc Text → AuthoritySetPayload Text
shown vc = record { authority_set = vc.authority_set; salt = vc.salt; caveats = vc.caveats }

abbrev options : VerifyOptions Text
options = record {
  expected_root_issuer = some (codes "S");
  disclosed =
      some (λ did. if did === codes "1" then some (shown first.0) else some (shown second.0));
  max_hops = none;
  require_disclosure = true;
  caveat_narrows = none;
  require_status = true;
  check_hop_status = some all_live;
  require_delegator_binding = none;
}

first_issued : Issued node wallet-IsKeymaster same_text str options first.1 first.0 1
unfolding running
first_issued =
    root (codes "S") (codes "E") (codes "1") (codes "S") wide none {w = empty} refl refl refl
      (λ r e f. cc) (record { disclosed = refl; standing = refl })

second_issued : Issued node wallet-IsKeymaster same_text str options second.1 second.0 2
unfolding running
second_issued =
    child (codes "E") (codes "F") (codes "2") (codes "E") narrow none first.0 1 first_issued refl
      refl refl refl (λ n e. cc) (record { disclosed = refl; standing = refl })

issued-verifies_example :
    verify_attenuation_chain
      (at node wallet-IsKeymaster same_text str options second.1)
      second.0.vc_did
    ≡ passed (record {
      chain_length = 2;
      holder = second.0.holder;
      leaf_authority_set = some second.0.authority_set;
      leaf_caveats = second.0.caveats;
    })
issued-verifies_example =
    issued-verifies node wallet-IsKeymaster same_text str options second.1 second.0 2 second_issued
      (omega arith)
