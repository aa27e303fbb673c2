-- ===== src/Monitor.antt =====
-- packages/core/src/invocation-monitor.ts: the check that every invocation of a capability crosses.
-- The node's signature checks, the hash, the clock, `Date.parse` and the status lists are
-- parameters; the ledger is any store with the interface of SpentTxns. `authorize_invocation` is one
-- step on it, with no other call between its reads and its marks; Monitor/Overlap has the gaps. The arguments of an act are
-- the strings that the source makes of them, and its reveal list if it is an array.
pub mod Discharges
pub mod Authorize
pub mod Overlap
pub mod Replay
pub mod Presentation
pub mod Resolve
pub mod SingleHop
pub mod Leaf
pub mod Verified
mod Tests
mod SingleHopTests
mod OverlapTests
use hearthold.Prelude.{
  ℕ, Bool, true, false, not, ◌&&◌, ◌||◌, Option, none, some, List, [], ◌∷◌, ◌++◌, Text, codes,
  get_or, is_some, any, eq_opt, is_filled, before_hash, ◌===◌, if◌then◌else◌, includes,
}
use hearthold.Prelude.Int.{ℤ, pos, negsuc, leb_ℤ, ltb_ℤ}
use hearthold.Json.{Json, str, num, arr, Items, nil, cons, canonicalize}
use hearthold.Attenuation.{AuthoritySet, AuthoritySetPayload, Proof, signer_of_proof}
use hearthold.Capability.{Caveats, ThirdPartyCaveat, target_within}
use hearthold.SpentTxns.{SpentTxnStore}

pub record DischargeSubject : Type 0 where
  pub txn : Text
  pub predicate : Text
  pub claim : Text
  pub kind : Text
  pub owner : Text
  pub audience : Text
  pub sensitivity : ℤ
  pub reveal : Option (List ℤ)

insert_number : ℤ → List ℤ → List ℤ
insert_number n [] = n ∷ []
insert_number n (m ∷ ms) = if leb_ℤ n m then n ∷ m ∷ ms else m ∷ insert_number n ms

-- `.sort((a, b) => a - b)`
sort_numbers : List ℤ → List ℤ
unfolding insert_number
sort_numbers [] = []
sort_numbers (n ∷ ns) = insert_number n (sort_numbers ns)

number_items : List ℤ → Items
number_items [] = nil
number_items (n ∷ ns) = cons (num n) (number_items ns)

-- The JSON text of an array of strings and numbers is its canonical form.
unfoldable pub discharge_digest : (Text → Text) → DischargeSubject → Text
unfolding sort_numbers number_items
discharge_digest sha256 s = sha256 (
    canonicalize (
      arr (
        cons (str s.txn) (
          cons (str s.predicate) (
            cons (str s.claim) (
              cons (str s.kind) (
                cons (str s.owner) (
                  cons (str s.audience) (
                    cons (num s.sensitivity)
                      (cons (arr (number_items (sort_numbers (get_or s.reveal [])))) nil))))))))))

pub record InvocationAct : Type 0 where
  pub action : Text
  pub target : Text
  pub claim : Text
  pub spec_kind : Text
  pub reveal : Option (List ℤ)
  pub nonce : Text
  pub txn : Text

pub record Discharge : Type 0 where
  pub by : Text
  pub predicate : Option Text
  pub txn : Text
  pub digest : Option Text
  pub proof : Option Proof

pub record SignedHolderProof : Type 0 where
  pub challenge : Text
  pub leaf_vc_did : Text
  pub txn : Text
  pub proof : Option Proof

pub record ChainPresentation : Type 0 where
  pub leaf_vc_did : Text
  pub disclosed : Text → Option (AuthoritySetPayload Caveats)
  pub holder_proof : Option SignedHolderProof

pub record CapabilityInvocation : Type 0 where
  pub presentation : Option Text
  pub chain : Option ChainPresentation
  pub act : InvocationAct
  pub discharges : Option (List Discharge)

pub record VerifiedLeaf : Type 0 where
  pub id : Text
  pub holder : Text
  pub authority : AuthoritySet
  pub caveats : Caveats

-- The parts of the context, with the host's functions, that authorizing an act uses.
pub record InvocationContext : Type 0 where
  pub verify_discharge : Discharge → Option Bool
  pub sha256 : Text → Text
  pub date_parse : Text → Option ℤ
  pub now : ℤ
  pub sensitivity : Option ℤ
  pub requires_human_at : Option ℤ
  pub owner : Option Text

-- Why an act is denied, one constructor for each `deny` of `authorizeInvocation`.
pub data DenyReason : Type 0 where
  replay expired single_use_spent over_ceiling no_owner : DenyReason

pub data InvocationDecision : Type 0 where
  allow : Caveats → InvocationDecision
  deny : DenyReason → InvocationDecision
  needs_discharge : List ThirdPartyCaveat → InvocationDecision

-- `by` and `predicate` of a caveat that is not met.
abbrev pub unmet_of : ThirdPartyCaveat → ThirdPartyCaveat
unmet_of c = record { by = c.by; predicate = c.predicate; location = none }

abbrev pub policy_consent : Text → ThirdPartyCaveat
policy_consent owner = record { by = owner; predicate = codes "human-consent"; location = none }

-- `leaf.caveats.owner ?? ctx.owner`
abbrev pub owner_of : InvocationContext → VerifiedLeaf → Option Text
owner_of ctx leaf = elim leaf.caveats.owner [ none ↦ ctx.owner | some o ↦ some o ]

-- What a discharge of the caveat must be a digest of, for this act.
abbrev pub subject_of :
    CapabilityInvocation → ThirdPartyCaveat → InvocationContext → VerifiedLeaf → DischargeSubject
subject_of inv cav ctx leaf = record {
  txn = inv.act.txn;
  predicate = cav.predicate;
  claim = inv.act.claim;
  kind = inv.act.spec_kind;
  owner = get_or (owner_of ctx leaf) [];
  audience = get_or leaf.caveats.audience leaf.holder;
  sensitivity = get_or ctx.sensitivity (negsuc 0);
  reveal = inv.act.reveal;
}

-- The tests of the loop's body on one discharge.
unfoldable pub discharges_caveat :
    InvocationContext → Text → Text → ThirdPartyCaveat → Discharge → Bool
discharges_caveat ctx txn expected cav d =
    d.by === cav.by
    && (d.txn === txn
        && (eq_opt d.predicate (some cav.predicate)
            && (eq_opt d.digest (some expected)
                && (is_some d.proof
                    && (get_or (ctx.verify_discharge d) false
                        && signer_of_proof d.proof === cav.by)))))

unfoldable pub has_valid_discharge :
    CapabilityInvocation → ThirdPartyCaveat → InvocationContext → VerifiedLeaf → Bool
has_valid_discharge inv cav ctx leaf =
    let expected = discharge_digest ctx.sha256 (subject_of inv cav ctx leaf) in
    any (discharges_caveat ctx inv.act.txn expected cav) (get_or inv.discharges [])

-- An absent or empty expiry does not expire; one that is no date has expired.
unfoldable pub has_expired : InvocationContext → Option Text → Bool
has_expired ctx none = false
has_expired ctx (some []) = false
has_expired ctx (some (c ∷ cs)) = elim (ctx.date_parse (c ∷ cs)) [
  | none ↦ true
  | some exp ↦ leb_ℤ exp ctx.now
]

-- `ctx.sensitivity > leaf.caveats.ceiling`; a comparison with no number is false.
unfoldable pub exceeds : Option ℤ → Option ℤ → Bool
exceeds (some s) (some c) = ltb_ℤ c s
exceeds _ _ = false

-- The policy gate is on at or above the line.
unfoldable pub human_gate : InvocationContext → Bool
human_gate ctx = elim ctx.requires_human_at [
  | none ↦ false
  | some line ↦ elim ctx.sensitivity [ none ↦ false | some s ↦ leb_ℤ line s ]
]

-- The caveats of a list that no discharge of the invocation satisfies.
unfoldable pub unmet_caveats :
    CapabilityInvocation
    → InvocationContext
    → VerifiedLeaf
    → List ThirdPartyCaveat
    → List ThirdPartyCaveat
unmet_caveats inv ctx leaf [] = []
unmet_caveats inv ctx leaf (c ∷ cs) =
    let rest = unmet_caveats inv ctx leaf cs in
    if has_valid_discharge inv c ctx leaf then rest else unmet_of c ∷ rest

-- `unmet.some((u) => u.by === owner && u.predicate === POLICY_CONSENT_PREDICATE)`
abbrev asks_already : Text → List ThirdPartyCaveat → Bool
asks_already owner unmet =
    any (λ u. u.by === owner && u.predicate === (policy_consent owner).predicate) unmet

-- The list with the policy's caveat; none when the gate is on and no owner is named.
unfoldable pub with_policy :
    CapabilityInvocation
    → InvocationContext
    → VerifiedLeaf
    → List ThirdPartyCaveat
    → Option (List ThirdPartyCaveat)
with_policy inv ctx leaf unmet =
    let owner = get_or (owner_of ctx leaf) [] in
    if not (human_gate ctx)
    then some unmet
    else if not (is_filled owner)
    then none
    else if asks_already owner unmet || has_valid_discharge inv (policy_consent owner) ctx leaf
    then some unmet
    else some (unmet ++ policy_consent owner ∷ [])

-- The ledger key of a capability.
abbrev pub capability_key : VerifiedLeaf → Text
capability_key leaf = codes "cap:" ++ leaf.id

-- What a call leaves: its answer, none where it throws, and the ledger.
pub record Outcome (S : Type 0) : Type 0 where
  pub decision : Option InvocationDecision
  pub ledger : S

module _ {S : Type 0} (store : SpentTxnStore S) where
  open store use {is_spent, mark_spent}

  abbrev pub is_single_use : VerifiedLeaf → Bool
  is_single_use leaf = get_or leaf.caveats.single_use false

  -- The burn of an allowed act, and of its capability.
  unfoldable pub burn : CapabilityInvocation → VerifiedLeaf → S → Outcome S
  burn inv leaf s = elim (mark_spent s inv.act.txn) [
    | none ↦ record { decision = none; ledger = s }
    | some marked ↦
        if is_single_use leaf
        then elim (mark_spent marked (capability_key leaf)) [
          | none ↦ record { decision = none; ledger = marked }
          | some both ↦ record { decision = some (allow leaf.caveats); ledger = both }
        ]
        else record { decision = some (allow leaf.caveats); ledger = marked }
  ]

  -- From the caveats on: what is unmet is asked for, else the act is burned.
  unfoldable pub settle :
      CapabilityInvocation → VerifiedLeaf → S → Option (List ThirdPartyCaveat) → Outcome S
  settle inv leaf s none = record { decision = some (deny no_owner); ledger = s }
  settle inv leaf s (some []) = burn inv leaf s
  settle inv leaf s (some (u ∷ us)) = record {
    decision = some (needs_discharge (u ∷ us));
    ledger = s;
  }

  abbrev pub cap_spent : VerifiedLeaf → S → Option Bool
  cap_spent leaf s = if is_single_use leaf then is_spent s (capability_key leaf) else some false

  -- From the lifetime of the capability on.
  unfoldable pub judge : CapabilityInvocation → InvocationContext → VerifiedLeaf → S → Outcome S
  judge inv ctx leaf s =
      if has_expired ctx leaf.caveats.expires
      then record { decision = some (deny expired); ledger = s }
      else elim (cap_spent leaf s) [
        | none ↦ record { decision = none; ledger = s }
        | some true ↦ record { decision = some (deny single_use_spent); ledger = s }
        | some false ↦
            if exceeds ctx.sensitivity leaf.caveats.ceiling
            then record { decision = some (deny over_ceiling); ledger = s }
            else settle inv leaf s (
                with_policy inv ctx leaf
                  (unmet_caveats inv ctx leaf (get_or leaf.caveats.requires_discharge [])))
      ]

  unfoldable pub authorize_invocation :
      CapabilityInvocation → InvocationContext → VerifiedLeaf → S → Outcome S
  authorize_invocation inv ctx leaf s = elim (is_spent s inv.act.txn) [
    | none ↦ record { decision = none; ledger = s }
    | some true ↦ record { decision = some (deny replay); ledger = s }
    | some false ↦ judge inv ctx leaf s
  ]
