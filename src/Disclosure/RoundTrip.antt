-- ===== src/Disclosure/RoundTrip.antt =====
-- What packages/core/src/selective-disclosure.ts issues, presented in part, is accepted in that part.
use hearthold.Prelude.{
  ℕ, suc, true, false, Option, none, some, List, [], ◌∷◌, map, Text, includes, ◌===◌, ===_iff, All,
  if◌then◌else◌, bind-some, ◌≡◌, refl, sym, ap, ◌∙◌, subst, arith, Bool-cases, inl, inr,
}
use hearthold.Prelude.Sorting.{includes-sort}
use hearthold.Json.{Json}
use hearthold.Attenuation.{Proof, signer_of_proof}
use hearthold.Disclosure.{
  Disclosure, SignedDisclosureCommitments, IssueDisclosureArgs, IssuedDisclosureCredential,
  DisclosureNode, salted, select_disclosures, assemble_presentation, Values, set_value, accepted,
  is_past, is_unexpected, digest_disclosure, body_for, issue_disclosure_credential, check_members,
  verify_presentation,
}
use hearthold.Disclosure.Reveals.{values_of, IsSigned, reveal_all_complete}

-- What is relied on of the node: a signature is added, verifies, and names its signer.
pub record IsSigner (node : DisclosureNode) : Type 0 where
  pub signs :
      (name issuer : Text) (body signed : SignedDisclosureCommitments)
      → node.did_of name ≡ some issuer
      → node.add_proof name body ≡ some signed
      → (p : Proof) × (signed ≡ record body { proof = some p })
        × (signer_of_proof (some p) ≡ issuer)
        × (node.verify_proof signed ≡ some true)

-- `o[name]` of what was assigned to an object in the order of the list: the last of a name counts.
pub property : List (Text × Json) → Text → Option Json
property [] name = none
property ((n, v) ∷ ps) name =
    let later = property ps name in
    elim later [ some x ↦ some x | none ↦ if n === name then some v else none ]

-- What a property is shown as: its value where it is requested, nothing where it is not.
pub shown_as : List Text → List (Text × Json) → Text → Option Json
unfolding property
shown_as requested properties name =
    let value = property properties name in if includes requested name then value else none

-- The value that is returned for a name.
pub value_of : Values → Text → Option Json
value_of [] name = none
value_of ((n, v) ∷ vs) name = let others = value_of vs name in if n === name then some v else others

value_of-set :
    (vs : Values) (n m : Text) (v : Json)
    → value_of (set_value vs n v) m ≡ (if n === m then some v else value_of vs m)
unfolding value_of set_value
value_of-set [] n m v = refl
value_of-set ((k, w) ∷ vs) n m v = elim (Bool-cases (k === n)) [
  | inl same ↦
      let e : k ≡ n = (===_iff k n).0 same in
      rw (set_value, same) (ground (arith, ap (λ x. x === m) e))
  | inr other ↦ elim (Bool-cases (k === m)) [
    | inl hit ↦
        let apart : (n === m) ≡ false = not_both k n m other hit in
        rw (set_value, other) (ground (arith, hit, apart))
    | inr miss ↦ rw (set_value, other) (ground (arith, miss, value_of-set vs n m v))
  ]
]
  where
    not_both : (k n m : Text) → (k === n) ≡ false → (k === m) ≡ true → (n === m) ≡ false
    not_both k n m off on = ground (arith, ===_iff k n, ===_iff k m, ===_iff n m)

-- `a ?? b`
abbrev over : Option Json → Option Json → Option Json
over none b = b
over (some a) b = some a

includes-same :
    (names : List Text) (n m : Text) → (n === m) ≡ true → includes names n ≡ includes names m
includes-same names n m h = ap (includes names) ((===_iff n m).0 h)

-- What is selected and revealed of salted properties is shown as it should be.
value_of-shown :
    (requested : List Text) (salts : ℕ → Text) (k : ℕ) (ps : List (Text × Json)) (vs : Values)
    (name : Text)
    → value_of (values_of vs (select_disclosures (salted salts k ps) requested)) name
      ≡ over (shown_as requested ps name) (value_of vs name)
unfolding values_of select_disclosures salted shown_as property
value_of-shown requested salts k [] vs name = ground arith
value_of-shown requested salts k ((n, v) ∷ ps) vs name = elim (Bool-cases (includes requested n)) [
  | inl on ↦
      rw (select_disclosures, on)
        (value_of-shown requested salts (suc k) ps (set_value vs n v) name
          ∙ ground (arith, value_of-set vs n name v, includes-same requested n name, on))
  | inr off ↦
      rw (select_disclosures, off)
        (value_of-shown requested salts (suc k) ps vs name
          ∙ ground (arith, includes-same requested n name, off))
]

select-All :
    (P : Disclosure → Type 0) (ds : List Disclosure) (names : List Text)
    → All P ds
    → All P (select_disclosures ds names)
unfolding select_disclosures
select-All P [] names all = tt
select-All P (d ∷ ds) names all = elim (Bool-cases (includes names d.name)) [
  | inl on ↦ rw (select_disclosures, on) (all.0, select-All P ds names all.1)
  | inr off ↦ rw (select_disclosures, off) (select-All P ds names all.1)
]

module _ (node : DisclosureNode) where
  -- Whatever is in a list has its digest among the digests of the list.
  digests-All :
      (sd : List Text) (ds : List Disclosure)
      → ((t : Text) → includes (map (digest_disclosure node) ds) t ≡ true → includes sd t ≡ true)
      → All (IsSigned node sd) ds
  unfolding includes
  digests-All sd [] h = tt
  digests-All sd (d ∷ ds) h = (
    h (digest_disclosure node d)
        (ground (arith, ===_iff (digest_disclosure node d) (digest_disclosure node d))),
    digests-All sd ds (λ t m. h t (ground (arith, m))),
  )

  -- What an issuance has signed and kept.
  record IsIssued (args : IssueDisclosureArgs) (salts : ℕ → Text) (c : IssuedDisclosureCredential)
      (issuer : Text) : Type 0 where
    proof : Proof
    kept : c.disclosures ≡ salted salts 0 args.properties
    body : c.commitments ≡ record (body_for node args issuer c.disclosures) { proof = some proof }
    signer : signer_of_proof (some proof) ≡ issuer
    verified : node.verify_proof c.commitments ≡ some true

  credential-injective : (a b : IssuedDisclosureCredential) → some a ≡ some b → a ≡ b
  credential-injective a b h = cc

  text-injective : (a b : Text) → some a ≡ some b → a ≡ b
  text-injective a b h = cc

  issue-IsIssued :
      (laws : IsSigner node) (args : IssueDisclosureArgs) (salts : ℕ → Text)
      (c : IssuedDisclosureCredential) (issuer : Text)
      → node.did_of args.issuer_name ≡ some issuer
      → issue_disclosure_credential node args salts ≡ some c
      → IsIssued args salts c issuer
  unfolding issue_disclosure_credential
  issue-IsIssued laws args salts c issuer identity h =
      let (did, found, h1) = bind-some (node.did_of args.issuer_name) _ h in
      let (signed, added, h2) =
        bind-some
          (node.add_proof args.issuer_name
            (body_for node args did (salted salts 0 args.properties)))
          _ h1 in
      let (payload, sealed, h3) =
        bind-some (node.encrypt_json (salted salts 0 args.properties) args.holder) _ h2 in
      let same = credential-injective _ c h3 in
      let who = text-injective did issuer (sym found ∙ identity) in
      let (p, e, by, good) =
        laws.signs args.issuer_name did (body_for node args did (salted salts 0 args.properties))
          signed found added in
      subst (λ x. IsIssued args salts x issuer) same
        (record {
          proof = p;
          kept = refl;
          body =
              e
              ∙ ap
                  (λ x. record (body_for node args x (salted salts 0 args.properties)) {
                    proof = some p;
                  })
                  who;
          signer = by ∙ who;
          verified = good;
        })

  all-IsSigned :
      (args : IssueDisclosureArgs) (salts : ℕ → Text) (c : IssuedDisclosureCredential)
      (issuer : Text)
      → IsIssued args salts c issuer
      → All (IsSigned node c.commitments.sd) c.disclosures
  all-IsSigned args salts c issuer k = digests-All c.commitments.sd c.disclosures (λ t m.
      ap (λ (x : SignedDisclosureCommitments). includes x.sd t) k.body
      ∙ includes-sort (map (digest_disclosure node) c.disclosures) t
      ∙ m)

-- What is issued can be shown in part: with a node that signs, any selection of an issued credential's
-- properties by their names is accepted where the caller expects its issuer, or none, and its end has
-- not passed; every property that was issued and requested is then returned with the value that it
-- was issued with, and under any other name nothing is.
pub issued-presents :
    (node : DisclosureNode) (laws : IsSigner node) (args : IssueDisclosureArgs) (salts : ℕ → Text)
    (c : IssuedDisclosureCredential) (issuer : Text) (requested : List Text)
    (expected now : Option Text)
    → node.did_of args.issuer_name ≡ some issuer
    → issue_disclosure_credential node args salts ≡ some c
    → is_unexpected expected issuer ≡ false
    → is_past args.valid_until now ≡ false
    → (values : Values) × (verify_presentation node expected now
          (assemble_presentation c.commitments c.disclosures requested)
        ≡ accepted values)
      × ((name : Text) → value_of values name ≡ shown_as requested args.properties name)
unfolding verify_presentation assemble_presentation check_members value_of
issued-presents node laws args salts c issuer requested expected now identity h expect fresh =
    let k = issue-IsIssued node laws args salts c issuer identity h in
    let all =
      select-All (IsSigned node c.commitments.sd) c.disclosures requested
        (all-IsSigned node args salts c issuer k) in
    let revealed =
      reveal_all_complete node c.commitments.sd (select_disclosures c.disclosures requested) []
        all in
    let has : c.commitments.proof ≡ some k.proof =
      ap (λ (x : SignedDisclosureCommitments). x.proof) k.body in
    let by : c.commitments.issuer ≡ issuer =
      ap (λ (x : SignedDisclosureCommitments). x.issuer) k.body in
    let until : c.commitments.valid_until ≡ args.valid_until =
      ap (λ (x : SignedDisclosureCommitments). x.valid_until) k.body in
    let signer : (signer_of_proof (some k.proof) === c.commitments.issuer) ≡ true =
      (===_iff (signer_of_proof (some k.proof)) c.commitments.issuer).1 (k.signer ∙ sym by) in
    let wanted : is_unexpected expected c.commitments.issuer ≡ false =
      ap (is_unexpected expected) by ∙ expect in
    let valid : is_past c.commitments.valid_until now ≡ false =
      ap (λ x. is_past x now) until ∙ fresh in
    (
      values_of [] (select_disclosures c.disclosures requested),
      ground (arith, has, k.verified, signer, wanted, valid, revealed),
      λ name.
          ap (λ ds. value_of (values_of [] (select_disclosures ds requested)) name) k.kept
          ∙ value_of-shown requested salts 0 args.properties [] name
          ∙ over_none (shown_as requested args.properties name),
    )
  where
    over_none : (o : Option Json) → over o none ≡ o
    over_none none = refl
    over_none (some x) = refl
