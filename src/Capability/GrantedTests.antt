-- ===== src/Capability/GrantedTests.antt =====
-- A root capability and a delegated one on the empty wallet, and what the verifier says of them.
use hearthold.Prelude.{
  ◌≡◌, refl, arith, Bool, true, false, Option, none, some, [], ◌∷◌, Text, codes, ◌===◌, get_or,
  is_some, includes, includes_all, text_leb, before_hash, starts_with,
}
use hearthold.Prelude.Sorting.{unique_sorted}
use hearthold.Prelude.Int.{pos}
use hearthold.Json.{Json, str, canonicalize, string_items}
use hearthold.Attenuation.{normalize_authority_set, is_subset, commit, signer_of}
use hearthold.Attenuation.Verify.{HopStatus, live, passed}
use hearthold.Attenuation.Issue.{Keymaster, may_issue, write_pic, issue_vc}
use hearthold.Attenuation.Wallet.{
  Docs, put, identity, make, write, head_of, wallet, wallet-IsKeymaster,
}
use hearthold.Capability.{
  Caveats, caveats_narrow, capability_narrows, normalize_caveats, target_within,
}
use hearthold.Capability.Issuance.{
  CapabilityHandle, CapabilitySpec, capability_of, mint_root_capability, delegate_capability,
  disclosure_for, disclose_chain, disclosed_for, ChainOptions, verify_capability_chain,
}
use hearthold.Capability.Granted.{Granted, minted, delegated, verifier_at, granted-verifies}

running : Unit {0}
unfolding is_subset commit unique_sorted canonicalize string_items signer_of ◌===◌ includes
    includes_all text_leb before_hash starts_with may_issue write_pic issue_vc put identity make
    write head_of wallet caveats_narrow capability_narrows normalize_caveats target_within
    mint_root_capability delegate_capability disclosure_for disclose_chain disclosed_for
running = tt

abbrev same_text : Text → Text
same_text s = s

abbrev any_order : Text → Text → Bool
any_order a b = true

abbrev caveats_json : Caveats → Json
caveats_json c = str (codes "j")

abbrev node : Keymaster Docs Caveats
node = wallet

abbrev empty : Docs
empty did = none

abbrev caveats : Caveats
caveats = record {
  ceiling = some (pos 3);
  kinds = none;
  owner = none;
  audience = none;
  expires = none;
  single_use = none;
  requires_discharge = none;
  status = none;
}

abbrev vault : CapabilitySpec
vault = record {
  invocation_target = codes "v";
  authority = record { operations = codes "w" ∷ codes "r" ∷ []; resources = codes "v" ∷ [] };
  caveats = caveats;
}

abbrev shelf : CapabilitySpec
shelf = record {
  invocation_target = codes "v/s";
  authority = record { operations = codes "r" ∷ []; resources = codes "v" ∷ [] };
  caveats = record caveats { kinds = some (codes "k" ∷ []) };
}

abbrev no_handle : CapabilityHandle
no_handle = record {
  issued = record {
    vc_did = [];
    lineage_id = [];
    counter = pos 0;
    authority_set = vault.authority;
    salt = [];
    caveats = none;
    authority_commitment = [];
    pin = record { did = []; version_id = []; version_sequence = 0 };
    holder = [];
  };
  capability = capability_of vault [] [] none;
}

-- The Sovereign `S` mints for `E`, with the salt `1`.
abbrev first : CapabilityHandle × Docs
first =
    get_or
      (mint_root_capability node same_text caveats_json any_order (codes "S") (codes "E") vault
        (codes "1") empty)
      (no_handle, empty)

-- `E` delegates to `F`, with the salt `2`.
abbrev second : CapabilityHandle × Docs
second =
    get_or
      (delegate_capability node same_text caveats_json any_order (codes "E") first.0 (codes "F")
        shelf (codes "2") first.1)
      (no_handle, empty)

-- Nobody but the holder delegates, and nobody widens.
refuses :
    (is_some (
        delegate_capability node same_text caveats_json any_order
          (codes "M")
          first.0
          (codes "F")
          shelf
          (codes "2")
          first.1)
      ≡ false)
    × (is_some (
          delegate_capability node same_text caveats_json any_order
            (codes "F")
            second.0
            (codes "G")
            vault
            (codes "3")
            second.1)
        ≡ false)
unfolding running
refuses = (refl, refl)

abbrev all_live : Option Caveats → Text → HopStatus
all_live c controller = live

-- The leaf's holder discloses the root that it was given, and its own leaf.
abbrev options : ChainOptions
options = record {
  expected_root_issuer = some (codes "S");
  disclosed = some (
      disclosure_for (
        disclosed_for
          (record { handle = second.0; ancestor_disclosures = disclose_chain (first.0 ∷ []) })));
  max_hops = none;
  require_full_disclosure = true;
  require_status = true;
  check_hop_status = some all_live;
}

first_granted :
    Granted node wallet-IsKeymaster same_text caveats_json any_order options first.1 first.0 1
unfolding running
first_granted =
    minted (codes "S") (codes "E") (codes "1") (codes "S") vault {w = empty} refl refl refl
      (λ r e f. cc) (record { disclosed = refl; standing = refl })

second_granted :
    Granted node wallet-IsKeymaster same_text caveats_json any_order options second.1 second.0 2
unfolding running
second_granted =
    delegated (codes "E") (codes "F") (codes "2") shelf first.0 1 first_granted refl refl
      (λ e. ground arith) (record { disclosed = refl; standing = refl })

granted-verifies_example :
    verify_capability_chain
      (verifier_at node wallet-IsKeymaster same_text caveats_json any_order options second.1)
      options
      second.0.capability.id
    ≡ passed (record {
      chain_length = 2;
      holder = second.0.capability.controller;
      leaf_authority_set = some (normalize_authority_set second.0.capability.authority);
      leaf_caveats = some (normalize_caveats any_order second.0.capability.caveats);
    })
granted-verifies_example =
    granted-verifies node wallet-IsKeymaster same_text caveats_json any_order options second.1
      second.0 2 second_granted (omega arith)
