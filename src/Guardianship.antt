-- ===== src/Guardianship.antt =====
-- packages/warden/src/guardianship.ts: the stores of guardianship chains and of receipts, what
-- watches a member, and a guardian's read of an artefact. A file is what it parses to, none where it
-- does not, and writing one succeeds. The vault is the list of its artefacts, and unsealing a
-- parameter.
pub mod Receipts
pub mod Edges
pub mod Watching
mod Tests
use hearthold.Prelude.{
  Bool, true, false, not, ◌&&◌, Option, none, some, List, [], ◌∷◌, ◌++◌, Text, codes, get_or,
  eq_opt, starts_with, if◌then◌else◌, ◌===◌, ◌==◌,
}
use hearthold.Prelude.Int.{ℤ}
use hearthold.Ruleset.{SignedRuleset, Warden, operative_ruleset}
use hearthold.Ruleset.Guardian.{
  GuardianReadRequest, GuardianRead, allowed, no_edge, expired, out_of_scope,
  authorize_guardian_read,
}

pub record GuardianReceipt : Type 0 where
  pub guardian : Text
  pub subject : Text
  pub artefact_id : Text
  pub kind : Text
  pub at : Text

abbrev pub ReceiptFile : Type 0
ReceiptFile = Option (List GuardianReceipt)

unfoldable pub record_receipt : ReceiptFile → GuardianReceipt → ReceiptFile
record_receipt file r = some (get_or file [] ++ r ∷ [])

unfoldable pub filter_receipts : Text → List GuardianReceipt → List GuardianReceipt
filter_receipts member [] = []
filter_receipts member (r ∷ rs) =
    let kept = filter_receipts member rs in if r.subject === member then r ∷ kept else kept

-- `GuardianReceiptStore.forSubject`
unfoldable pub receipts_for : ReceiptFile → Text → List GuardianReceipt
unfolding filter_receipts
receipts_for file member = filter_receipts member (get_or file [])

unfoldable pub edge_key : Text → Text → Text
edge_key governor member = governor ++ codes "|" ++ member

-- The chains by the key of their edge.
abbrev pub Edges : Type 0
Edges = List (Text × List SignedRuleset)

abbrev pub EdgeFile : Type 0
EdgeFile = Option Edges

unfoldable pub lookup_edge : Edges → Text → List SignedRuleset
lookup_edge [] key = []
lookup_edge ((k, c) ∷ es) key = let others = lookup_edge es key in if k === key then c else others

unfoldable pub set_edge : Edges → Text → List SignedRuleset → Edges
set_edge [] key chain = (key, chain) ∷ []
set_edge ((k, c) ∷ es) key chain =
    let changed = set_edge es key chain in if k === key then (k, chain) ∷ es else (k, c) ∷ changed

-- `GuardianshipStore.chain`
unfoldable pub chain_for : EdgeFile → Text → Text → List SignedRuleset
unfolding edge_key lookup_edge
chain_for file governor member = lookup_edge (get_or file []) (edge_key governor member)

unfoldable pub replace_chain : EdgeFile → Text → Text → List SignedRuleset → EdgeFile
unfolding edge_key set_edge
replace_chain file governor member chain =
    some (set_edge (get_or file []) (edge_key governor member) chain)

unfoldable pub append_version : EdgeFile → Text → Text → SignedRuleset → EdgeFile
unfolding replace_chain chain_for
append_version file governor member version =
    replace_chain file governor member (chain_for file governor member ++ version ∷ [])

-- `k.slice(0, k.length - subject.length - 1)`, where the key ends with the separator and the member:
-- none where it does not.
unfoldable pub governor_in : Text → Text → Option Text
governor_in suffix [] = none
governor_in suffix (c ∷ key) =
    let rest = governor_in suffix key in
    if (c ∷ key) === suffix then some [] else elim rest [ none ↦ none | some g ↦ some (c ∷ g) ]

abbrev pub Watch : Type 0
Watch = Text × List SignedRuleset

-- `GuardianshipStore.forSubject`
unfoldable pub edges_over : Text → Edges → List Watch
unfolding governor_in
edges_over member [] = []
edges_over member ((k, c) ∷ es) =
    let others = edges_over member es in
    elim (governor_in (codes "|" ++ member) k) [ none ↦ others | some g ↦ (g, c) ∷ others ]

-- `k.slice(governor.length + 1)`, where the key starts with the governor and the separator: none where
-- it does not.
unfoldable pub member_in : Text → Text → Option Text
member_in [] key = some key
member_in (p ∷ prefix) [] = none
member_in (p ∷ prefix) (c ∷ key) = let rest = member_in prefix key in if p == c then rest else none

-- `GuardianshipStore.forGovernor`
unfoldable pub edges_of : Text → Edges → List Watch
unfolding member_in
edges_of governor [] = []
edges_of governor ((k, c) ∷ es) =
    let others = edges_of governor es in
    elim (member_in (governor ++ codes "|") k) [ none ↦ others | some m ↦ (m, c) ∷ others ]

pub record ActiveGuardianship : Type 0 where
  pub governor : Text
  pub subject : Text
  pub kinds : Option (List Text)
  pub ceiling : ℤ
  pub valid_until : Option Text

module _ (w : Warden) where
  abbrev pub is_over_member : Text → Text → SignedRuleset → Bool
  is_over_member governor member law = eq_opt law.subject (some member) && law.actor === governor

  abbrev pub show : Text → Text → SignedRuleset → ActiveGuardianship
  show governor member law = record {
    governor = governor;
    subject = member;
    kinds = law.capabilities.kinds;
    ceiling = law.ceiling;
    valid_until = law.valid_until;
  }

  unfoldable pub active_among : Text → List Watch → List ActiveGuardianship
  active_among member [] = []
  active_among member ((governor, chain) ∷ es) =
      let others = active_among member es in
      elim (operative_ruleset w (some governor) chain) [
        | none ↦ others
        | some law ↦
            if is_over_member governor member law then show governor member law ∷ others else others
      ]

  unfoldable pub active_guardianships : EdgeFile → Text → List ActiveGuardianship
  unfolding active_among edges_over
  active_guardianships file member = active_among member (edges_over member (get_or file []))

pub record Artefact : Type 0 where
  pub id : Text
  pub kind : Text
  pub sensitivity : ℤ
  pub owner : Option Text
  pub ciphertext : Text

-- `VaultStore.get`
unfoldable pub get_artefact : List Artefact → Text → Option Artefact
get_artefact [] id = none
get_artefact (a ∷ vault) id = if a.id === id then some a else get_artefact vault id

-- A refusal of the governor's own edge is told; every other one is `not_available`.
pub data Reading : Type 0 where
  granted : Text → Reading
  not_available : Reading
  refused : GuardianRead → Reading

-- `artefact.owner ?? config.sovereignDid`
abbrev pub owner_of : Option Text → Artefact → Option Text
owner_of sovereign a = elim a.owner [ some o ↦ some o | none ↦ sovereign ]

abbrev pub request_for : Text → Text → Text → Artefact → GuardianReadRequest
request_for governor member at a = record {
  governor = governor;
  subject = member;
  kind = some a.kind;
  sensitivity = some a.sensitivity;
  at = at;
}

abbrev pub receipt_for : Text → Text → Text → Artefact → Text → GuardianReceipt
receipt_for governor member at a id = record {
  guardian = governor;
  subject = member;
  artefact_id = id;
  kind = a.kind;
  at = at;
}

module _ (w : Warden) (unseal : Text → Option Text) (sovereign : Option Text) where
  -- The receipt is written before the artefact is unsealed.
  abbrev reveal : Artefact → GuardianReceipt → ReceiptFile → Option Reading × ReceiptFile
  reveal a r file = (
    elim (unseal a.ciphertext) [ none ↦ none | some face ↦ some (granted face) ],
    record_receipt file r,
  )

  unfoldable pub read_authorized :
      GuardianRead → Artefact → GuardianReceipt → ReceiptFile → Option Reading × ReceiptFile
  unfolding record_receipt
  read_authorized allowed a r file = reveal a r file
  read_authorized no_edge a r file = (some (refused no_edge), file)
  read_authorized expired a r file = (some (refused expired), file)
  read_authorized out_of_scope a r file = (some not_available, file)

  -- The answer, none where unsealing throws, and the receipts.
  unfoldable pub guardian_read :
      List Artefact
      → List SignedRuleset
      → Text
      → Text
      → Text
      → Text
      → ReceiptFile
      → Option Reading × ReceiptFile
  unfolding read_authorized get_artefact
  guardian_read vault chain governor member id at file = elim (get_artefact vault id) [
    | none ↦ (some not_available, file)
    | some a ↦
        if eq_opt (owner_of sovereign a) (some member)
        then read_authorized (authorize_guardian_read w chain (request_for governor member at a)) a
            (receipt_for governor member at a id) file
        else (some not_available, file)
  ]
