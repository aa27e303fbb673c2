-- ===== src/Guardianship/Tests.antt =====
-- A guardian's reads of a member's artefacts, who watches the member, and the theorems at them.
use hearthold.Prelude.{
  ◌≡◌, ◌⊎◌, ◌↔◌, refl, true, Option, none, some, List, [], ◌∷◌, Text, codes, ◌===◌, get_or,
  text_leb, includes, includes_all, before_hash, All,
}
use hearthold.Prelude.Int.{pos}
use hearthold.Json.{str, canonicalize}
use hearthold.Attenuation.{Proof}
use hearthold.Ruleset.{
  SignedRuleset, active, Warden, ordered, ruleset_id, verify_ruleset, verify_member_ack, link_holds,
  amends, check_version, verify_from, verify_ordered, verify_ruleset_chain, serves, serve_from,
  operative_ordered, operative_ruleset, active_ruleset, widens_into_private_scope,
  guardianship_narrows_or_equal, valid_until_narrows, assurance_lowered, tier_of,
}
use hearthold.Ruleset.Guardian.{
  GuardianRead, no_edge, expired, out_of_scope, authorize_guardian_read, judge_read, is_over,
  kind_outside, is_above,
}
use hearthold.Guardianship.{
  record_receipt, edge_key, set_edge, lookup_edge, chain_for, replace_chain, append_version,
  EdgeFile, governor_in, edges_over, show, is_over_member, active_among, active_guardianships,
  Artefact, get_artefact, granted, not_available, refused, owner_of, request_for, receipt_for,
  read_authorized, guardian_read,
}
use hearthold.Guardianship.Receipts.{
  IsGranted, IsTold, guardian_read-IsGranted, guardian_read-IsTold,
}
use hearthold.Guardianship.Edges.{Among}
use hearthold.Guardianship.Watching.{IsWatching, active_guardianships-Watch}

running : Unit {0}
unfolding ordered ruleset_id verify_ruleset verify_member_ack link_holds amends check_version
    verify_from verify_ordered verify_ruleset_chain serves serve_from operative_ordered
    operative_ruleset active_ruleset widens_into_private_scope guardianship_narrows_or_equal
    valid_until_narrows assurance_lowered tier_of authorize_guardian_read judge_read is_over
    kind_outside is_above canonicalize ◌===◌ text_leb includes includes_all before_hash
    record_receipt edge_key set_edge lookup_edge chain_for replace_chain append_version governor_in
    edges_over active_among active_guardianships get_artefact read_authorized guardian_read
running = tt

abbrev proof_of : Text → Option Proof
proof_of did = some (record { verification_method = did; proof_value = did; created = [] })

-- Ids are the previous id with a letter, so that a version can name its predecessor.
abbrev warden : Warden
warden = record {
  verify_proof = λ r. some true;
  sha256 = λ t. t;
  ruleset_json = λ r. str (get_or r.previous (codes "g"));
}

abbrev genesis : SignedRuleset
genesis = record {
  actor = codes "G";
  actor_kind = codes "k";
  resource = none;
  version = pos 1;
  previous = none;
  capabilities = record {
    kinds = some (codes "map" ∷ []);
    verbs = some (codes "read" ∷ []);
    assurance = none;
  };
  ceiling = pos 2;
  status = active;
  subject = some (codes "M");
  valid_until = some (codes "2027");
  proof = proof_of (codes "G");
  member_ack = proof_of (codes "M");
}

abbrev lower : SignedRuleset
lower = record genesis {
  version = pos 2;
  previous = some (codes "\"g\"");
  ceiling = pos 1;
  member_ack = none;
}

abbrev chain : List SignedRuleset
chain = lower ∷ genesis ∷ []

abbrev map_of : Artefact
map_of = record {
  id = codes "a";
  kind = codes "map";
  sensitivity = pos 1;
  owner = some (codes "M");
  ciphertext = codes "x";
}

-- It is of a kind that the guardianship does not cover.
abbrev diary : Artefact
diary = record map_of { id = codes "b"; kind = codes "diary" }

abbrev vault : List Artefact
vault = map_of ∷ diary ∷ []

abbrev unseal : Text → Option Text
unseal t = some t

reads :
    ((guardian_read warden unseal none vault chain
        (codes "G")
        (codes "M")
        (codes "a")
        (codes "2026")
        none).0
      ≡ some (granted (codes "x")))
    × ((guardian_read warden unseal none vault chain
          (codes "G")
          (codes "M")
          (codes "a")
          (codes "2026")
          none).1
        ≡ some (receipt_for (codes "G") (codes "M") (codes "2026") map_of (codes "a") ∷ []))
unfolding running
reads = (refl, refl)

guardian_read-IsGranted_example :
    IsGranted warden unseal none vault chain
      (codes "G")
      (codes "M")
      (codes "a")
      (codes "2026")
      (codes "x")
      none
      (guardian_read warden unseal none vault chain
        (codes "G")
        (codes "M")
        (codes "a")
        (codes "2026")
        none).1
guardian_read-IsGranted_example =
    guardian_read-IsGranted warden unseal none vault chain (codes "G") (codes "M") (codes "a")
      (codes "2026") (codes "x") none refl reads.0

diary_hidden :
    (get_artefact vault (codes "b") ≡ some diary)
    × (authorize_guardian_read warden chain
          (request_for (codes "G") (codes "M") (codes "2026") diary)
        ≡ out_of_scope)
unfolding running
diary_hidden = (refl, refl)

-- With no edge, an artefact of the member is told from one that does not exist.
stranger_told :
    (guardian_read warden unseal none vault []
        (codes "G")
        (codes "M")
        (codes "a")
        (codes "2026")
        none
      ≡ (some (refused no_edge), none))
    × (guardian_read warden unseal none vault []
          (codes "G")
          (codes "M")
          (codes "z")
          (codes "2026")
          none
        ≡ (some not_available, none))
unfolding running
stranger_told = (refl, refl)

guardian_read-IsTold_example :
    ((guardian_read warden unseal none vault []
          (codes "G")
          (codes "M")
          (codes "a")
          (codes "2026")
          none
        ≡ (some not_available, none))
      ↔ ((a : Artefact)
          → get_artefact vault (codes "a") ≡ some a
          → owner_of none a ≡ some (codes "M")
          → authorize_guardian_read warden [] (request_for (codes "G") (codes "M") (codes "2026") a)
            ≡ out_of_scope))
    × ((g : GuardianRead)
        → (g ≡ no_edge) ⊎ (g ≡ expired)
        → (guardian_read warden unseal none vault []
              (codes "G")
              (codes "M")
              (codes "a")
              (codes "2026")
              none
            ≡ (some (refused g), none))
          ↔ IsTold warden unseal none vault [] (codes "G") (codes "M") (codes "a") (codes "2026") g)
guardian_read-IsTold_example =
    guardian_read-IsTold warden unseal none vault [] (codes "G") (codes "M") (codes "a")
      (codes "2026") none

abbrev file : EdgeFile
file =
    append_version (append_version none (codes "G") (codes "M") genesis) (codes "G") (codes "M")
      lower

shows :
    active_guardianships warden file (codes "M") ≡ show warden (codes "G") (codes "M") lower ∷ []
unfolding running
shows = refl

active_guardianships-Watch_example :
    All
      (IsWatching warden (codes "M") (get_or file []))
      (active_guardianships warden file (codes "M"))
    × ((g : Text) (stored : List SignedRuleset) (law : SignedRuleset)
        → Among (edge_key g (codes "M"), stored) (get_or file [])
        → operative_ruleset warden (some g) stored ≡ some law
        → is_over_member warden g (codes "M") law ≡ true
        → Among (show warden g (codes "M") law) (active_guardianships warden file (codes "M")))
active_guardianships-Watch_example = active_guardianships-Watch warden file (codes "M") refl
