-- ===== src/Monitor/Leaf.antt =====
-- The credential from which the single-hop path of packages/core/src/invocation-monitor.ts reads a
-- leaf.
use hearthold.Prelude.{
  Bool, true, ◌&&◌, Option, none, some, List, [], ◌∷◌, Text, codes, is_some, is_filled, All,
  ===_iff, ◌===◌, eq_opt, ◌≡◌, refl, ◌∙◌, subst, arith, Bool-cases, Option-cases, inl, inr,
  and-split,
}
use hearthold.Attenuation.{AuthoritySet}
use hearthold.Capability.{Caveats}
use hearthold.Prove.{field_of, DisclosedCredential}
use hearthold.Monitor.{VerifiedLeaf}
use hearthold.Monitor.Presentation.{resolved}
use hearthold.Monitor.SingleHop.{
  find_authorization, auth_credential, authority_of, leaf_from, read_leaf,
}

pub resolved-injective : (a b : VerifiedLeaf) → resolved a ≡ resolved b → a ≡ b
resolved-injective a b h = cc

-- The credential that the leaf is read from.
pub record IsLeafOf (d : DisclosedCredential) (responder : Text) (leaf : VerifiedLeaf)
    : Type 0 where
  pub same_id : leaf.id ≡ d.credential_did
  pub has_id : is_filled leaf.id ≡ true
  pub subject : d.subject ≡ responder
  pub holder : leaf.holder ≡ responder
  pub authority : authority_of d.claims ≡ some leaf.authority
  pub caveats : d.claims.caveats ≡ some leaf.caveats
  pub has_ceiling : is_some leaf.caveats.ceiling ≡ true

pub leaf_from-IsLeafOf :
    (d : DisclosedCredential) (responder : Text) (a : AuthoritySet) (c : Caveats)
    (leaf : VerifiedLeaf)
    → authority_of d.claims ≡ some a
    → d.claims.caveats ≡ some c
    → leaf_from d responder a c ≡ resolved leaf
    → IsLeafOf d responder leaf
unfolding leaf_from
leaf_from-IsLeafOf d responder a c leaf ea ec h =
    let it : VerifiedLeaf = record {
      id = d.credential_did;
      holder = responder;
      authority = a;
      caveats = c;
    } in
    let k : (is_some c.ceiling ≡ true)
        × (is_filled d.credential_did ≡ true)
        × ((is_filled d.subject && d.subject === responder) ≡ true)
        × (resolved it ≡ resolved leaf) =
      ground arith in
    let same = resolved-injective it leaf k.3 in
    let (filled, presents) = and-split (is_filled d.subject) (d.subject === responder) k.2 in
    subst (IsLeafOf d responder) same (record {
      same_id = refl;
      has_id = k.1;
      subject = (===_iff d.subject responder).0 presents;
      holder = refl;
      authority = ea;
      caveats = ec;
      has_ceiling = k.0;
    })

pub read_leaf-IsLeafOf :
    (o : Option DisclosedCredential) (responder : Text) (leaf : VerifiedLeaf)
    → read_leaf o responder ≡ resolved leaf
    → (d : DisclosedCredential) × (o ≡ some d) × IsLeafOf d responder leaf
unfolding read_leaf
read_leaf-IsLeafOf none responder leaf h = absurd (ground arith)
read_leaf-IsLeafOf (some d) responder leaf h = elim (Option-cases (authority_of d.claims)) [
  | inl off ↦ absurd (ground (arith, off))
  | inr (a, ea) ↦ elim (Option-cases d.claims.caveats) [
    | inl off ↦ absurd (ground (arith, ea, off))
    | inr (c, ec) ↦
        (d, refl, leaf_from-IsLeafOf d responder a c leaf ea ec (ground (arith, ea, ec)))
  ]
]

pub some-injective : {A : Type 0} (a b : A) → some a ≡ some b → a ≡ b
some-injective a b h = cc

pub find_authorization-All :
    (P : DisclosedCredential → Type 0) (ds : List DisclosedCredential) (d : DisclosedCredential)
    → All P ds
    → find_authorization ds ≡ some d
    → P d
unfolding find_authorization
find_authorization-All P [] d all h = absurd (ground arith)
find_authorization-All P (e ∷ ds) d all h = elim (Bool-cases is_authorization) [
  | inl on ↦ subst P (some-injective e d (ground (arith, on))) all.0
  | inr off ↦ find_authorization-All P ds d all.1 (ground (arith, off))
]
  where
    is_authorization : Bool
    is_authorization =
        eq_opt (field_of e.claims.fields (codes "type")) (some (codes "HearthholdAuthorization"))

-- The credential that is enforced is among the disclosed ones.
pub auth_credential-All :
    (P : DisclosedCredential → Type 0) (ds : List DisclosedCredential) (d : DisclosedCredential)
    → All P ds
    → auth_credential ds ≡ some d
    → P d
unfolding auth_credential
auth_credential-All P [] d all h = absurd (ground arith)
auth_credential-All P (e ∷ ds) d all h = elim (Option-cases (find_authorization (e ∷ ds))) [
  | inl off ↦ subst P (some-injective e d (ground (arith, off))) all.0
  | inr (f, on) ↦ find_authorization-All P (e ∷ ds) d all (on ∙ ground (arith, on))
]
