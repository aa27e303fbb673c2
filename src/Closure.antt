-- ===== src/Closure.antt =====
-- packages/core/src/closure.ts: the operations that are kept so that a credential can be verified
-- again, each chain cut at a pinned version. The source of documents and operations is a parameter;
-- a call that throws returns none. A version sequence is a natural number, or not a number. An
-- operation has its tags; its content is left out.
pub mod Cuts
mod Tests
use hearthold.Prelude.{
  ℕ, zero, suc, ◌+◌, Bool, true, false, not, ◌&&◌, ◌||◌, Option, none, some, List, [], ◌∷◌, ◌++◌,
  Text, length, ltb, ◌==◌, ◌===◌, eq_opt, is_filled, is_some, get_or, any, if◌then◌else◌, ◌>>=◌,
  ◌>>◌, guard,
}

pub data VerificationGoal : Type 0 where
  signed_by : Text → VerificationGoal
  -- The issuer, the charter and the charter's issuer.
  signed_by_authorized : Text → Text → Text → VerificationGoal

pub data PinRole : Type 0 where
  credential schema issuer authority_credential authority_issuer : PinRole

pub record OpPin : Type 0 where
  pub did : Text
  pub role : PinRole
  pub version_sequence : ℕ
  pub version_id : Text

pub record GatekeeperEvent : Type 0 where
  pub did : Option Text
  pub opid : Option Text

abbrev pub Ops : Type 0
Ops = List (Text × List GatekeeperEvent)

pub record KeepClosure : Type 0 where
  pub goal : VerificationGoal
  pub pins : List OpPin
  pub ops : Ops
  pub total_ops : ℕ

pub record ClosureInput : Type 0 where
  pub credential_did : Text
  pub schema_did : Text
  pub signed_at : Text
  pub authority_signed_at : Option Text

-- What resolves of a DID.
pub record Resolution : Type 0 where
  pub version_sequence : Option ℕ
  pub version_id : Option Text
  pub id : Option Text

pub record ClosureSource : Type 0 where
  pub resolve_did : Text → Option Text → Option Resolution
  pub export_did : Text → Option (List (List GatekeeperEvent))

-- An empty time is none.
abbrev given_time : Option Text → Option Text
given_time none = none
given_time (some []) = none
given_time (some (c ∷ cs)) = some (c ∷ cs)

abbrev filled : Option Text → Option Text
filled none = none
filled (some []) = none
filled (some (c ∷ cs)) = some (c ∷ cs)

unfoldable pub pin_version : ClosureSource → Text → Option Text → Option (ℕ × Text)
pin_version source did time = do
  doc ← source.resolve_did did (given_time time)
  guard (is_some (filled doc.id))
  seq ← doc.version_sequence
  version ← filled doc.version_id
  some (seq, version)

-- `batch.find((chain) => chain.some((ev) => ev.did === did))`
unfoldable pub find_chain : Text → List (List GatekeeperEvent) → List GatekeeperEvent
find_chain did [] = []
find_chain did (c ∷ cs) =
    let others = find_chain did cs in
    if any (λ (e : GatekeeperEvent). eq_opt e.did (some did)) c then c else others

-- The chain of the requested DID, empty where it is not identified.
unfoldable pub chain_of : Text → List (List GatekeeperEvent) → List GatekeeperEvent
unfolding find_chain
chain_of did (c ∷ []) = c
chain_of did [] = []
chain_of did (c ∷ d ∷ cs) = find_chain did (c ∷ d ∷ cs)

-- `full.slice(0, n)`
unfoldable pub first : ℕ → List GatekeeperEvent → List GatekeeperEvent
first zero es = []
first (suc n) [] = []
first (suc n) (e ∷ es) = e ∷ first n es

unfoldable pub last : List GatekeeperEvent → Option GatekeeperEvent
last [] = none
last (e ∷ []) = some e
last (e ∷ f ∷ es) = last (f ∷ es)

-- `!(lastOpid && versionId && lastOpid !== versionId)`
unfoldable pub ends_at : Text → GatekeeperEvent → Bool
ends_at version e =
    not (is_filled (get_or e.opid [])) || (not (is_filled version) || get_or e.opid [] === version)

unfoldable pub kept_ops : ClosureSource → Text → ℕ → Text → Option (List GatekeeperEvent)
unfolding chain_of first last ends_at
kept_ops source did seq version = do
  batch ← source.export_did did
  guard (not (length (chain_of did batch) == 0))
  guard (not (ltb (length (chain_of did batch)) seq))
  end ← last (first seq (chain_of did batch))
  guard (ends_at version end)
  some (first seq (chain_of did batch))

-- `ops[did] = …`
unfoldable pub set_ops : Ops → Text → List GatekeeperEvent → Ops
set_ops [] did cut = (did, cut) ∷ []
set_ops ((d, c) ∷ ops) did cut =
    let changed = set_ops ops did cut in if d === did then (d, cut) ∷ ops else (d, c) ∷ changed

unfoldable pub ops_of : Ops → Text → Option (List GatekeeperEvent)
ops_of [] did = none
ops_of ((d, c) ∷ ops) did = if d === did then some c else ops_of ops did

unfoldable pub total : Ops → ℕ
total [] = 0
total ((d, c) ∷ ops) = total ops + length c

abbrev pub Kept : Type 0
Kept = List OpPin × Ops

unfoldable pub keep : ClosureSource → Text → PinRole → Option Text → Kept → Option Kept
keep source did role time kept = do
  pinned ← pin_version source did time
  cut ← kept_ops source did pinned.0 pinned.1
  some (
    kept.0
        ++ record { did = did; role = role; version_sequence = pinned.0; version_id = pinned.1 }
          ∷ [],
    set_ops kept.1 did cut,
  )

abbrev pub issuer_of : VerificationGoal → Text
issuer_of (signed_by i) = i
issuer_of (signed_by_authorized i c a) = i

-- The credential, its schema and the issuer to its signing version.
unfoldable pub keep_signed : ClosureSource → ClosureInput → VerificationGoal → Option Kept
unfolding keep
keep_signed source input goal = do
  one ← keep source input.credential_did credential none ([], [])
  two ← keep source input.schema_did schema none one
  keep source (issuer_of goal) issuer (some input.signed_at) two

-- The charter and its issuer's chain.
unfoldable pub keep_authority : ClosureSource → ClosureInput → VerificationGoal → Kept → Option Kept
unfolding keep
keep_authority source input (signed_by i) kept = some kept
keep_authority source input (signed_by_authorized i charter by) kept = do
  four ← keep source charter authority_credential none kept
  keep source by authority_issuer input.authority_signed_at four

unfoldable pub compute_keep_closure :
    ClosureInput → VerificationGoal → ClosureSource → Option KeepClosure
unfolding keep_signed keep_authority total
compute_keep_closure input goal source = do
  signed ← keep_signed source input goal
  kept ← keep_authority source input goal signed
  some (record { goal = goal; pins = kept.0; ops = kept.1; total_ops = total kept.1 })
