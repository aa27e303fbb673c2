-- ===== src/Monitor/Discharges.antt =====
-- Discharges of third-party caveats, and the list of unmet ones, in
-- packages/core/src/invocation-monitor.ts.
use hearthold.Prelude.{
  Bool, true, false, Option, none, some, List, [], ◌∷◌, ◌++◌, Text, get_or, is_some, any, All,
  is_filled, ===_iff, eq_opt_iff, ◌≡◌, ◌↔◌, refl, arith, Bool-cases, inl, inr, and-split, ap,
}
use hearthold.Attenuation.{signer_of_proof}
use hearthold.Capability.{ThirdPartyCaveat}
use hearthold.Monitor.{
  CapabilityInvocation, InvocationContext, VerifiedLeaf, Discharge, discharge_digest, subject_of,
  discharges_caveat, has_valid_discharge, unmet_caveats, owner_of, with_policy, human_gate,
  policy_consent,
}

-- The discharge is the caveat's party's signed consent to this very act.
pub record IsDischargeOf (inv : CapabilityInvocation) (cav : ThirdPartyCaveat)
    (ctx : InvocationContext) (leaf : VerifiedLeaf) (d : Discharge) : Type 0 where
  pub by_party : d.by ≡ cav.by
  pub same_txn : d.txn ≡ inv.act.txn
  pub same_predicate : d.predicate ≡ some cav.predicate
  pub same_act : d.digest ≡ some (discharge_digest ctx.sha256 (subject_of inv cav ctx leaf))
  pub is_signed : is_some d.proof ≡ true
  pub verifies : ctx.verify_discharge d ≡ some true
  pub signed_by_party : signer_of_proof d.proof ≡ cav.by

pub get_or-true : (o : Option Bool) → get_or o false ≡ true → o ≡ some true
get_or-true none h = absurd (ground arith)
get_or-true (some b) h = ap some h

any-split :
    {A : Type 0} (p : A → Bool) (xs : List A)
    → any p xs ≡ true
    → (x : A) × (p x ≡ true) × (before : List A) × (after : List A) × (xs ≡ before ++ x ∷ after)
any-split p [] h = absurd (ground arith)
any-split p (x ∷ xs) h = elim (Bool-cases (p x)) [
  | inl hit ↦ (x, hit, [], xs, refl)
  | inr miss ↦
      let (y, hit, before, after, e) = any-split p xs (ground arith) in
      (y, hit, x ∷ before, after, ap (λ l. x ∷ l) e)
]

any-join :
    {A : Type 0} (p : A → Bool) (before : List A) (x : A) (after : List A)
    → p x ≡ true
    → any p (before ++ x ∷ after) ≡ true
any-join p [] x after h = ground arith
any-join p (y ∷ before) x after h = ground (arith, any-join p before x after h)

module _ (inv : CapabilityInvocation) (cav : ThirdPartyCaveat) (ctx : InvocationContext)
    (leaf : VerifiedLeaf) where
  abbrev expected : Text
  expected = discharge_digest ctx.sha256 (subject_of inv cav ctx leaf)

  discharges_caveat_sound :
      (d : Discharge)
      → discharges_caveat ctx inv.act.txn expected cav d ≡ true
      → IsDischargeOf inv cav ctx leaf d
  unfolding discharges_caveat
  discharges_caveat_sound d h =
      let (a, h1) = and-split _ _ h in
      let (b, h2) = and-split _ _ h1 in
      let (c, h3) = and-split _ _ h2 in
      let (e, h4) = and-split _ _ h3 in
      let (f, h5) = and-split _ _ h4 in
      let (g, i) = and-split _ _ h5 in
      record {
        by_party = (===_iff d.by cav.by).0 a;
        same_txn = (===_iff d.txn inv.act.txn).0 b;
        same_predicate = (eq_opt_iff d.predicate (some cav.predicate)).0 c;
        same_act = (eq_opt_iff d.digest (some expected)).0 e;
        is_signed = f;
        verifies = get_or-true (ctx.verify_discharge d) g;
        signed_by_party = (===_iff (signer_of_proof d.proof) cav.by).0 i;
      }

  discharges_caveat_complete :
      (d : Discharge)
      → IsDischargeOf inv cav ctx leaf d
      → discharges_caveat ctx inv.act.txn expected cav d ≡ true
  unfolding discharges_caveat
  discharges_caveat_complete d k = ground (
    arith,
    (===_iff d.by cav.by).1 k.by_party,
    (===_iff d.txn inv.act.txn).1 k.same_txn,
    (eq_opt_iff d.predicate (some cav.predicate)).1 k.same_predicate,
    (eq_opt_iff d.digest (some expected)).1 k.same_act,
    k.is_signed,
    k.verifies,
    (===_iff (signer_of_proof d.proof) cav.by).1 k.signed_by_party,
  )

  -- The invocation brings a discharge of the caveat.
  pub record IsDischarged : Type 0 where
    pub discharge : Discharge
    pub before : List Discharge
    pub after : List Discharge
    pub brought : get_or inv.discharges [] ≡ before ++ discharge ∷ after
    pub valid : IsDischargeOf inv cav ctx leaf discharge

  discharged : has_valid_discharge inv cav ctx leaf ≡ true → IsDischarged
  unfolding has_valid_discharge
  discharged h =
      let (d, hit, before, after, e) =
        any-split (discharges_caveat ctx inv.act.txn expected cav) (get_or inv.discharges []) h in
      record {
        discharge = d;
        before = before;
        after = after;
        brought = e;
        valid = discharges_caveat_sound d hit;
      }

  to_valid : IsDischarged → has_valid_discharge inv cav ctx leaf ≡ true
  unfolding has_valid_discharge
  to_valid k = rw k.brought (
      any-join (discharges_caveat ctx inv.act.txn expected cav) k.before k.discharge k.after
        (discharges_caveat_complete k.discharge k.valid))

-- A caveat counts as discharged exactly when the invocation brings a discharge that names the
-- caveat's party and predicate, the act's transaction and the digest of this very act, and whose
-- proof verifies and is that party's.
pub has_valid_discharge_iff :
    (inv : CapabilityInvocation) (cav : ThirdPartyCaveat) (ctx : InvocationContext)
    (leaf : VerifiedLeaf)
    → (has_valid_discharge inv cav ctx leaf ≡ true) ↔ IsDischarged inv cav ctx leaf
has_valid_discharge_iff inv cav ctx leaf = (discharged inv cav ctx leaf, to_valid inv cav ctx leaf)

pub unmet_caveats-none :
    (inv : CapabilityInvocation) (ctx : InvocationContext) (leaf : VerifiedLeaf)
    (cs : List ThirdPartyCaveat)
    → unmet_caveats inv ctx leaf cs ≡ []
    → All (λ c. IsDischarged inv c ctx leaf) cs
unfolding unmet_caveats
unmet_caveats-none inv ctx leaf [] h = tt
unmet_caveats-none inv ctx leaf (c ∷ cs) h =
    elim (Bool-cases (has_valid_discharge inv c ctx leaf)) [
      | inl met ↦ (discharged inv c ctx leaf met, unmet_caveats-none inv ctx leaf cs (ground arith))
      | inr unmet ↦ absurd (ground arith)
    ]

-- With nothing unmet, a gate that is on has the consent of a named owner.
pub with_policy-none :
    (inv : CapabilityInvocation) (ctx : InvocationContext) (leaf : VerifiedLeaf)
    (unmet : List ThirdPartyCaveat)
    → with_policy inv ctx leaf unmet ≡ some []
    → (unmet ≡ [])
      × (human_gate ctx ≡ true
          → (is_filled (get_or (owner_of ctx leaf) []) ≡ true)
            × IsDischarged inv (policy_consent (get_or (owner_of ctx leaf) [])) ctx leaf)
unfolding with_policy
with_policy-none inv ctx leaf [] h = (
  refl,
  λ on. (
    ground (arith, on),
    discharged inv (policy_consent (get_or (owner_of ctx leaf) [])) ctx leaf (ground (arith, on)),
  ),
)
with_policy-none inv ctx leaf (u ∷ us) h = absurd (ground arith)
