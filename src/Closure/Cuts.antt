-- ===== src/Closure/Cuts.antt =====
-- What `computeKeepClosure` of packages/core/src/closure.ts keeps.
use hearthold.Prelude.{
  ℕ, zero, suc, ◌≤◌, true, false, not, Option, none, some, List, [], ◌∷◌, ◌++◌, map, Text, length,
  ltb, ◌==◌, ◌===◌, ===_iff, if◌then◌else◌, bind-some, guard-some, ◌≡◌, ◌≢◌, ◌⊎◌, refl, sym, ap,
  ◌∙◌, subst, arith, Bool-cases, inl, inr,
}
use hearthold.Closure.{
  VerificationGoal, signed_by, signed_by_authorized, PinRole, credential, schema, issuer,
  authority_credential, authority_issuer, OpPin, GatekeeperEvent, Ops, KeepClosure, ClosureInput,
  ClosureSource, pin_version, chain_of, first, last, ends_at, kept_ops, set_ops, ops_of, total,
  Kept, keep, issuer_of, keep_signed, keep_authority, compute_keep_closure,
}

first-length : (n : ℕ) (es : List GatekeeperEvent) → n ≤ length es → length (first n es) ≡ n
unfolding first
first-length zero es h = refl
first-length (suc n) [] h = absurd (omega arith)
first-length (suc n) (e ∷ es) h = ap suc (first-length n es (omega arith))

-- A cut of a DID at a pin: that many operations, as the chain that was exported for it begins, and
-- the last of them, if it has an id, has the pinned one.
pub record IsCut (source : ClosureSource) (pin : OpPin) (cut : List GatekeeperEvent) : Type 0 where
  pub batch : List (List GatekeeperEvent)
  pub exported : source.export_did pin.did ≡ some batch
  pub prefix : cut ≡ first pin.version_sequence (chain_of pin.did batch)
  pub size : length cut ≡ pin.version_sequence
  pub end : GatekeeperEvent
  pub ends : last cut ≡ some end
  pub named : ends_at pin.version_id end ≡ true

cut-injective : (a b : List GatekeeperEvent) → some a ≡ some b → a ≡ b
cut-injective a b h = cc

kept_ops-IsCut :
    (source : ClosureSource) (pin : OpPin) (cut : List GatekeeperEvent)
    → kept_ops source pin.did pin.version_sequence pin.version_id ≡ some cut
    → IsCut source pin cut
unfolding kept_ops
kept_ops-IsCut source pin cut h =
    let (batch, exported, h1) = bind-some (source.export_did pin.did) _ h in
    let full = chain_of pin.did batch in
    let (some_ops, h2) = guard-some (not (length full == 0)) _ h1 in
    let (long, h3) = guard-some (not (ltb (length full) pin.version_sequence)) _ h2 in
    let (end, ends, h4) = bind-some (last (first pin.version_sequence full)) _ h3 in
    let (named, h5) = guard-some (ends_at pin.version_id end) _ h4 in
    let same = cut-injective (first pin.version_sequence full) cut h5 in
    record {
      batch = batch;
      exported = exported;
      prefix = sym same;
      size = ap length (sym same) ∙ first-length pin.version_sequence full (ground arith);
      end = end;
      ends = ap last (sym same) ∙ ends;
      named = named;
    }

ops_of-set_same :
    (ops : Ops) (did : Text) (cut : List GatekeeperEvent)
    → ops_of (set_ops ops did cut) did ≡ some cut
unfolding ops_of set_ops
ops_of-set_same [] did cut = ground (arith, ===_iff did did)
ops_of-set_same ((d, c) ∷ ops) did cut = ground (arith, ops_of-set_same ops did cut)

ops_of-set_other :
    (ops : Ops) (did other : Text) (cut : List GatekeeperEvent)
    → did ≢ other
    → ops_of (set_ops ops did cut) other ≡ ops_of ops other
unfolding ops_of set_ops
ops_of-set_other [] did other cut h = ground (arith, ===_iff did other)
ops_of-set_other ((d, c) ∷ ops) did other cut h =
    ground (arith, ops_of-set_other ops did other cut h, ===_iff d did, ===_iff d other)

-- The last pin of a DID.
unfoldable pub latest : List OpPin → Text → Option OpPin
latest [] did = none
latest (p ∷ pins) did =
    let later = latest pins did in
    elim later [ some q ↦ some q | none ↦ if p.did === did then some p else none ]

-- What is kept of a DID is the cut of its last pin, and a DID without a pin has nothing.
pub data IsKept (source : ClosureSource) (kept : Kept) (did : Text) : Type 0 where
  cut_at :
      (pin : OpPin) (cut : List GatekeeperEvent)
      → latest kept.0 did ≡ some pin
      → pin.did ≡ did
      → ops_of kept.1 did ≡ some cut
      → IsCut source pin cut
      → IsKept source kept did
  nothing : latest kept.0 did ≡ none → ops_of kept.1 did ≡ none → IsKept source kept did

latest-add_same : (pins : List OpPin) (p : OpPin) → latest (pins ++ p ∷ []) p.did ≡ some p
unfolding latest
latest-add_same [] p = ground (arith, ===_iff p.did p.did)
latest-add_same (q ∷ pins) p = ground (arith, latest-add_same pins p)

latest-add_other :
    (pins : List OpPin) (p : OpPin) (did : Text)
    → p.did ≢ did
    → latest (pins ++ p ∷ []) did ≡ latest pins did
unfolding latest
latest-add_other [] p did h = ground (arith, ===_iff p.did did)
latest-add_other (q ∷ pins) p did h = ground (arith, latest-add_other pins p did h)

kept-injective : (a b : Kept) → some a ≡ some b → a ≡ b
kept-injective a b h = cc

-- A pin more: what is kept stays so, and the pins get one of the DID and the role.
pub record IsPinnedMore (did : Text) (role : PinRole) (kept kept' : Kept) : Type 0 where
  pub pin : OpPin
  pub same_did : pin.did ≡ did
  pub same_role : pin.role ≡ role
  pub added : kept'.0 ≡ kept.0 ++ pin ∷ []

keep-IsKept :
    (source : ClosureSource) (did : Text) (role : PinRole) (time : Option Text) (kept kept' : Kept)
    → keep source did role time kept ≡ some kept'
    → IsPinnedMore did role kept kept'
      × (((d : Text) → IsKept source kept d) → (d : Text) → IsKept source kept' d)
unfolding keep
keep-IsKept source did role time kept kept' h =
    let (pinned, versioned, h1) = bind-some (pin_version source did time) _ h in
    let (cut, ops, h2) = bind-some (kept_ops source did pinned.0 pinned.1) _ h1 in
    let pin : OpPin = record {
      did = did;
      role = role;
      version_sequence = pinned.0;
      version_id = pinned.1;
    } in
    let same = kept-injective (kept.0 ++ pin ∷ [], set_ops kept.1 did cut) kept' h2 in
    (
      record {
        pin = pin;
        same_did = refl;
        same_role = refl;
        added = sym (ap (λ (x : Kept). x.0) same);
      },
      λ all d.
          subst (λ x. IsKept source x d) same
            (kept_more all pin cut ops d (Bool-cases (did === d))),
    )
  where
    kept_more :
        ((d : Text) → IsKept source kept d)
        → (pin : OpPin) (cut : List GatekeeperEvent)
        → kept_ops source pin.did pin.version_sequence pin.version_id ≡ some cut
        → (d : Text) → ((pin.did === d) ≡ true) ⊎ ((pin.did === d) ≡ false)
        → IsKept source (kept.0 ++ pin ∷ [], set_ops kept.1 pin.did cut) d
    kept_more all pin cut ops d (inl is) =
        let e = (===_iff pin.did d).0 is in
        subst (λ x. IsKept source (kept.0 ++ pin ∷ [], set_ops kept.1 pin.did cut) x) e
          (cut_at pin cut (latest-add_same kept.0 pin) refl (ops_of-set_same kept.1 pin.did cut)
            (kept_ops-IsCut source pin cut ops))
    kept_more all pin cut ops d (inr off) = go (all d)
      where
        other : pin.did ≢ d
        other e = ground (arith, off, (===_iff pin.did d).1 e)

        go : IsKept source kept d → IsKept source (kept.0 ++ pin ∷ [], set_ops kept.1 pin.did cut) d
        go (cut_at p c l e o k) =
            cut_at p c (latest-add_other kept.0 pin d other ∙ l) e
              (ops_of-set_other kept.1 pin.did d cut other ∙ o) k
        go (nothing l o) =
            nothing (latest-add_other kept.0 pin d other ∙ l)
              (ops_of-set_other kept.1 pin.did d cut other ∙ o)

nothing-IsKept : (source : ClosureSource) (d : Text) → IsKept source ([], []) d
unfolding latest ops_of
nothing-IsKept source d = nothing refl refl

-- The DIDs and the roles of the pins of a goal, in order.
abbrev role_of : OpPin → Text × PinRole
role_of p = (p.did, p.role)

unfoldable pub reach : ClosureInput → VerificationGoal → List (Text × PinRole)
reach input (signed_by i) =
    (input.credential_did, credential) ∷ (input.schema_did, schema) ∷ (i, issuer) ∷ []
reach input (signed_by_authorized i charter by) =
    (input.credential_did, credential)
    ∷ (input.schema_did, schema)
    ∷ (i, issuer)
    ∷ (charter, authority_credential)
    ∷ (by, authority_issuer)
    ∷ []

abbrev pub roles : List OpPin → List (Text × PinRole)
roles pins = map role_of pins

roles-add :
    (did : Text) (role : PinRole) (kept kept' : Kept) (ds : List (Text × PinRole))
    → IsPinnedMore did role kept kept'
    → roles kept.0 ≡ ds
    → roles kept'.0 ≡ ds ++ (did, role) ∷ []
roles-add did role kept kept' ds k h =
    ap roles k.added
    ∙ append kept.0 k.pin
    ∙ ap (λ x. x ++ role_of k.pin ∷ []) h
    ∙ ap (λ x. ds ++ (x, k.pin.role) ∷ []) k.same_did
    ∙ ap (λ x. ds ++ (did, x) ∷ []) k.same_role
  where
    append : (ps : List OpPin) (p : OpPin) → roles (ps ++ p ∷ []) ≡ roles ps ++ role_of p ∷ []
    append [] p = refl
    append (q ∷ ps) p = ap (λ x. role_of q ∷ x) (append ps p)

keep_signed-Keeps :
    (source : ClosureSource) (input : ClosureInput) (goal : VerificationGoal) (kept : Kept)
    → keep_signed source input goal ≡ some kept
    → (roles kept.0
        ≡ (input.credential_did, credential)
          ∷ (input.schema_did, schema)
          ∷ (issuer_of goal, issuer)
          ∷ [])
      × ((d : Text) → IsKept source kept d)
unfolding keep_signed
keep_signed-Keeps source input goal kept h =
    let (one, e1, h1) = bind-some (keep source input.credential_did credential none ([], [])) _ h in
    let (two, e2, h2) = bind-some (keep source input.schema_did schema none one) _ h1 in
    let (p1, k1) = keep-IsKept source input.credential_did credential none ([], []) one e1 in
    let (p2, k2) = keep-IsKept source input.schema_did schema none one two e2 in
    let (p3, k3) = keep-IsKept source (issuer_of goal) issuer (some input.signed_at) two kept h2 in
    (
      roles-add _ _ _ _ _ p3 (roles-add _ _ _ _ _ p2 (roles-add _ _ _ _ _ p1 refl)),
      k3 (k2 (k1 (nothing-IsKept source))),
    )

keep_authority-Keeps :
    (source : ClosureSource) (input : ClosureInput) (goal : VerificationGoal) (kept kept' : Kept)
    → keep_authority source input goal kept ≡ some kept'
    → roles kept.0
      ≡ (input.credential_did, credential)
        ∷ (input.schema_did, schema)
        ∷ (issuer_of goal, issuer)
        ∷ []
    → ((d : Text) → IsKept source kept d)
    → (roles kept'.0 ≡ reach input goal) × ((d : Text) → IsKept source kept' d)
unfolding keep_authority reach
keep_authority-Keeps source input (signed_by i) kept kept' h e all =
    let same = kept-injective kept kept' h in
    (
      ap (λ (x : Kept). roles x.0) (sym same) ∙ e,
      subst (λ x. (d : Text) → IsKept source x d) same all,
    )
keep_authority-Keeps source input (signed_by_authorized i charter by) kept kept' h e all =
    let (four, e4, h4) = bind-some (keep source charter authority_credential none kept) _ h in
    let (p4, k4) = keep-IsKept source charter authority_credential none kept four e4 in
    let (p5, k5) = keep-IsKept source by authority_issuer input.authority_signed_at four kept' h4 in
    (roles-add _ _ _ _ _ p5 (roles-add _ _ _ _ _ p4 e), k5 (k4 all))

-- A closure that is computed pins the DIDs that its goal reaches, in their roles and no others: the
-- credential, its schema and the issuer, and the charter and its issuer only where the goal is the
-- issuer's authority. Of each DID it keeps the operations that the source exports for it up to its
-- last pin, at least one, ending at the pinned version, and of any other DID nothing.
pub compute_keep_closure-Reaches :
    (input : ClosureInput) (goal : VerificationGoal) (source : ClosureSource) (out : KeepClosure)
    → compute_keep_closure input goal source ≡ some out
    → (roles out.pins ≡ reach input goal)
      × ((did : Text) → IsKept source (out.pins, out.ops) did)
      × (out.total_ops ≡ total out.ops)
unfolding compute_keep_closure
compute_keep_closure-Reaches input goal source out h =
    let (signed, e1, h1) = bind-some (keep_signed source input goal) _ h in
    let (kept, e2, h2) = bind-some (keep_authority source input goal signed) _ h1 in
    let (r1, k1) = keep_signed-Keeps source input goal signed e1 in
    let (r2, k2) = keep_authority-Keeps source input goal signed kept e2 r1 k1 in
    let same =
      closure-injective
        (record { goal = goal; pins = kept.0; ops = kept.1; total_ops = total kept.1 }) out h2 in
    (
      ap (λ (x : KeepClosure). roles x.pins) (sym same) ∙ r2,
      λ d. subst (λ (x : KeepClosure). IsKept source (x.pins, x.ops) d) same (k2 d),
      subst (λ (x : KeepClosure). x.total_ops ≡ total x.ops) same refl,
    )
  where
    closure-injective : (a b : KeepClosure) → some a ≡ some b → a ≡ b
    closure-injective a b h = cc
