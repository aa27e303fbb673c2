-- ===== src/ChallengeStore/Burning.antt =====
-- Which challenges `consume` of packages/warden/src/challenge-store.ts takes, and which it burns.
use hearthold.Prelude.{
  true, false, none, some, [], ◌∷◌, Text, get_or, ◌===◌, ===_iff, ◌≡◌, ◌≢◌, ◌↔◌, refl, ◌⊎◌, inl,
  inr, Bool-cases, Option-cases, arith,
}
use hearthold.Prelude.Int.{ℤ, ◌≤ℤ◌}
use hearthold.ChallengeStore.{
  ChallengePurpose, invocation, delegation, Live, LiveMap, get, delete, Minter, ProofRequest,
  MintOptions, mint, mint_for_purpose, consume, same_purpose, later_by, schema_for,
}

get-delete : (m : LiveMap) (c : Text) → get (delete m c) c ≡ none
unfolding get delete
get-delete [] c = refl
get-delete ((k, e) ∷ m) c = ground (arith, get-delete m c)

get-delete_other : (m : LiveMap) (c d : Text) → c ≢ d → get (delete m c) d ≡ get m d
unfolding get delete
get-delete_other [] c d h = refl
get-delete_other ((k, e) ∷ m) c d h = elim (Bool-cases (k === c)) [
  | inl same ↦ ground (arith, same, get-delete_other m c d h, (===_iff k c).0 same, (===_iff k d).0)
  | inr other ↦ ground (arith, other, get-delete_other m c d h)
]

same_purpose_iff : (a b : ChallengePurpose) → (same_purpose a b ≡ true) ↔ (a ≡ b)
same_purpose_iff invocation invocation = ground arith
same_purpose_iff invocation delegation = ground arith
same_purpose_iff delegation invocation = ground arith
same_purpose_iff delegation delegation = ground arith

-- A challenge is taken exactly when it is live, minted for the same purpose, and has not expired.
pub consume_iff :
    (live : LiveMap) (now : ℤ) (c : Text) (p : ChallengePurpose)
    → ((consume live now c p).0 ≡ true)
      ↔ ((e : Live) × (get live c ≡ some e) × (e.purpose ≡ p) × (now ≤ℤ e.exp))
unfolding consume
consume_iff live now c p = (
  λ h. elim (Option-cases (get live c)) [
    | inl off ↦ absurd (ground (arith, off))
    | inr (e, on) ↦
        (e, on, (same_purpose_iff e.purpose p).0 (ground (arith, on)), ground (arith, on))
  ],
  λ (e, on, same, late). ground (arith, on, late, (same_purpose_iff e.purpose p).1 same),
)

-- A challenge that is not reusable, or is not taken, is never live after it is presented.
pub consume-burns :
    (live : LiveMap) (now : ℤ) (c : Text) (p : ChallengePurpose) (e : Live)
    → get live c ≡ some e
    → (e.reusable ≡ false) ⊎ ((consume live now c p).0 ≡ false)
    → get (consume live now c p).1 c ≡ none
unfolding consume
consume-burns live now c p e on h = ground (arith, on, get-delete live c)

-- Presenting one challenge does not touch any other.
pub consume-others :
    (live : LiveMap) (now : ℤ) (c d : Text) (p : ChallengePurpose)
    → c ≢ d
    → get (consume live now c p).1 d ≡ get live d
unfolding consume
consume-others live now c d p h = ground (arith, get-delete_other live c d h)

-- The store after any number of presentations.
pub data Presented (live : LiveMap) : LiveMap → Type 0 where
  none_yet : Presented live live
  present :
      {m : LiveMap} (now : ℤ) (c : Text) (p : ChallengePurpose)
      → Presented live m
      → Presented live (consume m now c p).1

consume-keeps_absent :
    (live : LiveMap) (now : ℤ) (c d : Text) (p : ChallengePurpose)
    → get live d ≡ none
    → get (consume live now c p).1 d ≡ none
unfolding consume
consume-keeps_absent live now c d p h = elim (Bool-cases (c === d)) [
  | inl same ↦ ground (arith, (===_iff c d).0 same, get-delete live c)
  | inr other ↦
      ground (arith, h, get-delete_other live c d (λ e. ground (arith, other, (===_iff c d).1 e)))
]

Presented-keeps_absent :
    (live m : LiveMap) (d : Text) → get live d ≡ none → Presented live m → get m d ≡ none
Presented-keeps_absent live _ d h none_yet = h
Presented-keeps_absent live _ d h (present {m} now c p before) =
    consume-keeps_absent m now c d p (Presented-keeps_absent live m d h before)

-- A single-use challenge is taken at most once: after it is presented, it is not taken again for
-- any purpose, at any time, after any presentations in between.
pub consume-once :
    (live m : LiveMap) (now now' : ℤ) (c : Text) (p p' : ChallengePurpose) (e : Live)
    → get live c ≡ some e
    → e.reusable ≡ false
    → Presented (consume live now c p).1 m
    → (consume m now' c p').0 ≡ false
consume-once live m now now' c p p' e on single later =
    let gone =
      Presented-keeps_absent (consume live now c p).1 m c
        (consume-burns live now c p e on (inl single)) later in
    unfold consume in ground (arith, gone)

abbrev entry : Minter → ℤ → ChallengePurpose → MintOptions → Live
entry w now p opts = record {
  purpose = p;
  exp = later_by now (get_or opts.ttl_ms w.default_ttl_ms);
  reusable = get_or opts.reusable false;
}

mint-live :
    (w : Minter) (live m : LiveMap) (now : ℤ) (p : ChallengePurpose) (req : ProofRequest)
    (opts : MintOptions) (c : Text)
    → mint w live now p req opts ≡ some (c, m)
    → get m c ≡ some (entry w now p opts)
unfolding mint get
mint-live w live m now p req opts c h = ground (arith, (===_iff c c).1 refl)

invocation-mints :
    (w : Minter) (live m : LiveMap) (now : ℤ) (c : Text)
    → mint_for_purpose w live now invocation ≡ some (c, m)
    → (req : ProofRequest) × (mint w live now invocation req
          (record { reusable = some false; ttl_ms = none })
        ≡ some (c, m))
unfolding mint_for_purpose
invocation-mints w live m now c h = elim (Option-cases (schema_for w)) [
  | inl off ↦ absurd (ground (arith, off))
  | inr (s, on) ↦ (
    record { schema = s; trusted_issuers = some (get_or w.sovereign_did [] ∷ []) },
    ground (arith, on),
  )
]

delegation-mints :
    (w : Minter) (live m : LiveMap) (now : ℤ) (c : Text)
    → mint_for_purpose w live now delegation ≡ some (c, m)
    → (req : ProofRequest) × (mint w live now delegation req
          (record { reusable = some true; ttl_ms = some 600000 })
        ≡ some (c, m))
unfolding mint_for_purpose
delegation-mints w live m now c h = elim (Option-cases w.ensure_delegation_schema) [
  | inl off ↦ absurd (ground (arith, off))
  | inr (s, on) ↦
      (record { schema = s; trusted_issuers = some (w.warden_did ∷ []) }, ground (arith, on))
]

-- What `mint_for_purpose` mints is live for that purpose: for an invocation single-use, with the
-- default lifetime, and for a delegation reusable, for ten minutes.
pub mint_for_purpose-live :
    (w : Minter) (live m : LiveMap) (now : ℤ) (p : ChallengePurpose) (c : Text)
    → mint_for_purpose w live now p ≡ some (c, m)
    → (e : Live) × (get m c ≡ some e)
      × (e.purpose ≡ p)
      × ((p ≡ invocation) → (e.reusable ≡ false) × (e.exp ≡ later_by now w.default_ttl_ms))
      × ((p ≡ delegation) → (e.reusable ≡ true) × (e.exp ≡ later_by now 600000))
mint_for_purpose-live w live m now invocation c h =
    let (req, minted) = invocation-mints w live m now c h in
    let opts : MintOptions = record { reusable = some false; ttl_ms = none } in
    (
      entry w now invocation opts,
      mint-live w live m now invocation req opts c minted,
      refl,
      λ e. (refl, refl),
      λ e. absurd (ground arith),
    )
mint_for_purpose-live w live m now delegation c h =
    let (req, minted) = delegation-mints w live m now c h in
    let opts : MintOptions = record { reusable = some true; ttl_ms = some 600000 } in
    (
      entry w now delegation opts,
      mint-live w live m now delegation req opts c minted,
      refl,
      λ e. absurd (ground arith),
      λ e. (refl, refl),
    )
