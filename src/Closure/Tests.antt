-- ===== src/Closure/Tests.antt =====
-- The closures of a credential for the two goals, and the theorem at one of them.
use hearthold.Prelude.{
  ◌≡◌, refl, none, some, [], ◌∷◌, Text, codes, ◌===◌, is_some, false, if◌then◌else◌, get_or,
}
use hearthold.Closure.{
  signed_by, signed_by_authorized, GatekeeperEvent, KeepClosure, ClosureInput, ClosureSource,
  pin_version, find_chain, chain_of, first, last, ends_at, kept_ops, set_ops, ops_of, total, keep,
  keep_signed, keep_authority, compute_keep_closure,
}
use hearthold.Closure.Cuts.{IsKept, reach, roles, compute_keep_closure-Reaches}

running : Unit {0}
unfolding pin_version find_chain chain_of first last ends_at kept_ops set_ops ops_of total keep
    keep_signed keep_authority compute_keep_closure reach ◌===◌
running = tt

abbrev op : Text → Text → GatekeeperEvent
op did id = record { did = some did; opid = some id }

-- Every chain has two operations, and a dependency's chain rides in first. At a time it is the first
-- version that resolves.
abbrev source : ClosureSource
source = record {
  resolve_did = λ did time.
      if is_some time
      then some (record { version_sequence = some 1; version_id = some (codes "a"); id = some did })
      else some
          (record { version_sequence = some 2; version_id = some (codes "b"); id = some did });
  export_did = λ did.
      some
        ((op (codes "N") (codes "x") ∷ []) ∷ (op did (codes "a") ∷ op did (codes "b") ∷ []) ∷ []);
}

abbrev input : ClosureInput
input = record {
  credential_did = codes "V";
  schema_did = codes "C";
  signed_at = codes "t";
  authority_signed_at = none;
}

abbrev out : KeepClosure
out =
    get_or
      (compute_keep_closure input (signed_by_authorized (codes "I") (codes "H") (codes "J")) source)
      (record { goal = signed_by []; pins = []; ops = []; total_ops = 0 })

computes :
    compute_keep_closure input (signed_by_authorized (codes "I") (codes "H") (codes "J")) source
    ≡ some out
unfolding running
computes = refl

sizes : (out.total_ops ≡ 9) × (ops_of out.ops (codes "I") ≡ some (op (codes "I") (codes "a") ∷ []))
unfolding running
sizes = (refl, refl)

-- A source that names another version than the one it exports is refused.
refuses :
    is_some (
      compute_keep_closure input (signed_by (codes "I")) (record source {
        resolve_did = λ did time.
            some
              (record { version_sequence = some 1; version_id = some (codes "b"); id = some did });
      }))
    ≡ false
unfolding running
refuses = refl

-- An issuer that is its own authority, whose charter is older, is kept to the charter's version only.
self_authorized :
    ops_of
      (get_or
        (compute_keep_closure
          (record input {
            credential_did = codes "V";
            signed_at = [];
            authority_signed_at = some (codes "t");
          })
          (signed_by_authorized (codes "I") (codes "H") (codes "I"))
          source)
        out).ops
      (codes "I")
    ≡ some (op (codes "I") (codes "a") ∷ [])
unfolding running
self_authorized = refl

compute_keep_closure-Reaches_example :
    (roles out.pins ≡ reach input (signed_by_authorized (codes "I") (codes "H") (codes "J")))
    × ((did : Text) → IsKept source (out.pins, out.ops) did)
    × (out.total_ops ≡ total out.ops)
compute_keep_closure-Reaches_example =
    compute_keep_closure-Reaches input (signed_by_authorized (codes "I") (codes "H") (codes "J"))
      source out computes
