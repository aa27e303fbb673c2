-- ===== src/ChallengeStore.antt =====
-- packages/warden/src/challenge-store.ts: the challenges that the Warden has minted and not yet
-- burned. The node's `createChallenge` and the identities are parameters; the clock is an argument.
pub mod Burning
mod Tests
use hearthold.Prelude.{
  ℕ, Bool, true, false, not, ◌&&◌, ◌||◌, Option, none, some, List, [], ◌∷◌, Text, get_or, ◌===◌,
  if◌then◌else◌, is_filled,
}
use hearthold.Prelude.Int.{ℤ, pos, negsuc, leb_ℤ, ◌-ℤ◌}

pub data ChallengePurpose : Type 0 where
  invocation delegation : ChallengePurpose

abbrev pub same_purpose : ChallengePurpose → ChallengePurpose → Bool
same_purpose invocation invocation = true
same_purpose delegation delegation = true
same_purpose _ _ = false

pub record Live : Type 0 where
  pub purpose : ChallengePurpose
  pub exp : ℤ
  pub reusable : Bool

-- The map of live challenges, a later entry over an earlier one.
abbrev pub LiveMap : Type 0
LiveMap = List (Text × Live)

unfoldable pub get : LiveMap → Text → Option Live
get [] c = none
get ((k, e) ∷ m) c = if k === c then some e else get m c

unfoldable pub delete : LiveMap → Text → LiveMap
delete [] c = []
delete ((k, e) ∷ m) c = let rest = delete m c in if k === c then rest else (k, e) ∷ rest

-- `a + b` on a time and a span.
abbrev pub later_by : ℤ → ℕ → ℤ
later_by t span = t -ℤ (pos 0 -ℤ pos span)

-- The credential request of a challenge.
pub record ProofRequest : Type 0 where
  pub schema : Text
  pub trusted_issuers : Option (List Text)

pub record MintOptions : Type 0 where
  pub reusable : Option Bool
  pub ttl_ms : Option ℕ

-- The parts of the store that stay, with what the node answers; none where it throws. An identity
-- that does not resolve is empty.
pub record Minter : Type 0 where
  pub create_challenge : ProofRequest → Option Text
  pub warden_did : Text
  pub ensure_delegation_schema : Option Text
  pub ensure_authorization_schema : Option Text
  pub sovereign_did : Option Text
  pub authorization_schema_did : Option Text
  pub default_ttl_ms : ℕ

-- An empty list of issuers is left out of the request.
abbrev request_of : ProofRequest → ProofRequest
request_of req = elim req.trusted_issuers [
  | none ↦ req
  | some [] ↦ record req { trusted_issuers = none }
  | some (i ∷ is) ↦ req
]

unfoldable pub mint :
    Minter → LiveMap → ℤ → ChallengePurpose → ProofRequest → MintOptions → Option (Text × LiveMap)
mint w live now purpose req opts = elim (w.create_challenge (request_of req)) [
  | none ↦ none
  | some challenge ↦
      let entry : Live = record {
        purpose = purpose;
        exp = later_by now (get_or opts.ttl_ms w.default_ttl_ms);
        reusable = get_or opts.reusable false;
      } in
      some (challenge, (challenge, entry) ∷ live)
]

-- `this.authorizationSchemaDid ?? (await ensureAuthorizationSchema(this.warden))`
abbrev pub schema_for : Minter → Option Text
schema_for w = elim w.authorization_schema_did [
  | none ↦ w.ensure_authorization_schema
  | some s ↦ some s
]

-- `mintForPurpose`
unfoldable pub mint_for_purpose : Minter → LiveMap → ℤ → ChallengePurpose → Option (Text × LiveMap)
mint_for_purpose w live now delegation =
    if not (is_filled w.warden_did) then none else elim w.ensure_delegation_schema [
      | none ↦ none
      | some schema ↦
          mint w live now delegation
            (record { schema = schema; trusted_issuers = some (w.warden_did ∷ []) })
            (record { reusable = some true; ttl_ms = some 600000 })
    ]
mint_for_purpose w live now invocation =
    let sovereign = get_or w.sovereign_did [] in
    if not (is_filled sovereign) then none else elim (schema_for w) [
      | none ↦ none
      | some schema ↦
          mint w live now invocation
            (record { schema = schema; trusted_issuers = some (sovereign ∷ []) })
            (record { reusable = some false; ttl_ms = none })
    ]

abbrev pub is_fresh : Live → ℤ → ChallengePurpose → Bool
is_fresh e now purpose = same_purpose e.purpose purpose && leb_ℤ now e.exp

-- The answer, and the challenges that stay.
unfoldable pub consume : LiveMap → ℤ → Text → ChallengePurpose → Bool × LiveMap
consume live now challenge purpose = elim (get live challenge) [
  | none ↦ (false, live)
  | some e ↦ (
    is_fresh e now purpose,
    if not e.reusable || not (is_fresh e now purpose) then delete live challenge else live,
  )
]

-- `gate`, at a time.
abbrev pub gate : ℤ → ChallengePurpose → LiveMap → Text → Bool × LiveMap
gate now purpose live challenge = consume live now challenge purpose
