-- ===== src/Disclosure/Reveals.antt =====
-- What a presentation of packages/core/src/selective-disclosure.ts reveals.
use hearthold.Prelude.{
  Bool, true, false, Option, none, some, List, [], ◌∷◌, Text, get_or, includes, is_filled, text_leb,
  ◌===◌, ===_iff, All, ◌≡◌, refl, sym, ap, ◌∙◌, arith, Option-cases, inl, inr,
}
use hearthold.Attenuation.{Proof, signer_of_proof}
use hearthold.Disclosure.{
  Disclosure, Presentation, DisclosureNode, Values, set_value, accepted, is_past, is_unexpected,
  digest_disclosure, reveal_all, check_members, verify_presentation,
}

-- The values of disclosures, a later one of a name in the place of an earlier.
unfoldable pub values_of : Values → List Disclosure → Values
values_of values [] = values
values_of values (d ∷ ds) = values_of (set_value values d.name d.value) ds

module _ (node : DisclosureNode) where
  -- A disclosure is one that was signed.
  abbrev pub IsSigned : List Text → Disclosure → Type 0
  IsSigned sd d = includes sd (digest_disclosure node d) ≡ true

  values-injective : (a b : Values) → some a ≡ some b → a ≡ b
  values-injective a b h = cc

  reveal_all-All :
      (sd : List Text) (ds : List Disclosure) (values out : Values)
      → reveal_all node sd ds values ≡ some out
      → All (IsSigned sd) ds × (out ≡ values_of values ds)
  unfolding reveal_all values_of
  reveal_all-All sd [] values out h = (tt, sym (values-injective values out h))
  reveal_all-All sd (d ∷ ds) values out h =
      let (all, same) = reveal_all-All sd ds (set_value values d.name d.value) out (ground arith) in
      ((ground arith, all), same)

  pub reveal_all_complete :
      (sd : List Text) (ds : List Disclosure) (values : Values)
      → All (IsSigned sd) ds
      → reveal_all node sd ds values ≡ some (values_of values ds)
  unfolding reveal_all values_of
  reveal_all_complete sd [] values all = refl
  reveal_all_complete sd (d ∷ ds) values all =
      ground (arith, all.0, reveal_all_complete sd ds (set_value values d.name d.value) all.1)

  -- What an accepted presentation has shown.
  pub record IsShown (expected now : Option Text) (p : Presentation) (out : Values) : Type 0 where
    pub proof : Proof
    pub has_proof : p.commitments.proof ≡ some proof
    pub signed : node.verify_proof p.commitments ≡ some true
    pub by_issuer : signer_of_proof (some proof) ≡ p.commitments.issuer
    pub is_expected : (e : Text) → expected ≡ some e → is_filled e ≡ true → p.commitments.issuer ≡ e
    pub unexpired :
        (n until : Text)
        → now ≡ some n
        → is_filled n ≡ true
        → p.commitments.valid_until ≡ some until
        → is_filled until ≡ true
        → text_leb n until ≡ true
    pub committed : All (IsSigned p.commitments.sd) p.disclosures
    pub shown : out ≡ values_of [] p.disclosures

  accepted-injective : (a b : Values) → accepted a ≡ accepted b → a ≡ b
  accepted-injective a b h = cc

  check_members-accepted :
      (p : Presentation) (out : Values)
      → check_members node p ≡ accepted out
      → reveal_all node p.commitments.sd p.disclosures [] ≡ some out
  unfolding check_members
  check_members-accepted p out h =
      elim (Option-cases (reveal_all node p.commitments.sd p.disclosures [])) [
        | inl off ↦ absurd (ground (arith, off))
        | inr (vs, on) ↦ on ∙ ap some (accepted-injective vs out (ground (arith, on)))
      ]

  get_or-true : (o : Option Bool) → get_or o false ≡ true → o ≡ some true
  get_or-true none h = absurd (ground arith)
  get_or-true (some b) h = ap some h

expected-issuer :
    (expected : Option Text) (e issuer : Text)
    → expected ≡ some e
    → is_filled e ≡ true
    → is_unexpected expected issuer ≡ false
    → issuer ≡ e
unfolding is_unexpected
expected-issuer expected e issuer given filled h = (===_iff issuer e).0 (ground (arith, given))

before-end :
    (n until : Text) (now valid_until : Option Text)
    → now ≡ some n
    → is_filled n ≡ true
    → valid_until ≡ some until
    → is_filled until ≡ true
    → is_past valid_until now ≡ false
    → text_leb n until ≡ true
unfolding is_past
before-end n until now valid_until at filled has bound h = ground (arith, at, has)

-- A presentation that is accepted is signed by its named issuer. That issuer is the expected one
-- where the caller expects one, any other where it does not; and where the caller gives the time and
-- the credential an end, the end has not passed. Each property that is disclosed is one whose digest
-- the issuer has signed, and what is returned are their values.
pub verify_presentation_sound :
    (node : DisclosureNode) (expected now : Option Text) (p : Presentation) (out : Values)
    → verify_presentation node expected now p ≡ accepted out
    → IsShown node expected now p out
unfolding verify_presentation
verify_presentation_sound node expected now p out h = elim (Option-cases p.commitments.proof) [
  | inl off ↦ absurd (ground (arith, off))
  | inr (proof, on) ↦
      let k : (get_or (node.verify_proof p.commitments) false ≡ true)
          × (signer_of_proof (some proof) === p.commitments.issuer ≡ true)
          × (is_unexpected expected p.commitments.issuer ≡ false)
          × (is_past p.commitments.valid_until now ≡ false)
          × (check_members node p ≡ accepted out) =
        ground (arith, on) in
      let (verified, signer, expect, fresh, checked) = k in
      let (all, same) =
        reveal_all-All node p.commitments.sd p.disclosures [] out
          (check_members-accepted node p out checked) in
      record {
        proof = proof;
        has_proof = on;
        signed = get_or-true node (node.verify_proof p.commitments) verified;
        by_issuer = (===_iff (signer_of_proof (some proof)) p.commitments.issuer).0 signer;
        is_expected =
            λ e given filled. expected-issuer expected e p.commitments.issuer given filled expect;
        unexpired = λ n until at filled has bound.
            before-end n until now p.commitments.valid_until at filled has bound fresh;
        committed = all;
        shown = same;
      }
]
