-- ===== src/Capability/Chains.antt =====
-- Narrowing along whole delegation chains (packages/core/src/capability.ts, capability-chain.ts).
use hearthold.Prelude.{
  ◌≡◌, ◌⊎◌, refl, ap, ◌∙◌, Bool, true, some, List, [], ◌∷◌, ◌++◌, Text, codes, and-split, arith,
  All, ===_iff, eq_opt, starts_with_iff, starts_with, inl, inr, ◌===◌, Bool-cases, ◌||◌,
}
use mathlib.Core.List.{append_assoc}
use hearthold.Attenuation.{is_subset}
use hearthold.Attenuation.Sets.{IsWithin, is_subset_iff, IsWithin-trans}
use hearthold.Capability.{
  Caveats, HearthholdCapability, caveats_narrow, caveats_chain_narrows, capability_narrows,
  target_within,
}
use hearthold.Capability.Narrows.{caveats_narrow_trans}

-- Each caveats narrow the next.
abbrev IsDescending : Caveats → List Caveats → Type 0
IsDescending c [] = Unit
IsDescending c (p ∷ rest) = (caveats_narrow c p ≡ true) × IsDescending p rest

descending-All :
    (leaf c : Caveats) (rest : List Caveats)
    → caveats_narrow leaf c ≡ true
    → IsDescending c rest
    → All (λ p. caveats_narrow leaf p ≡ true) rest
descending-All leaf c [] h d = tt
descending-All leaf c (p ∷ rest) h d =
    let up = caveats_narrow_trans leaf c p h d.0 in (up, descending-All leaf p rest up d.1)

chain→IsDescending :
    (c : Caveats) (rest : List Caveats)
    → caveats_chain_narrows (c ∷ rest) ≡ true
    → IsDescending c rest
unfolding caveats_chain_narrows
chain→IsDescending c [] h = tt
chain→IsDescending c (p ∷ rest) h =
    let (here, later) = and-split (caveats_narrow c p) _ h in
    (here, chain→IsDescending p rest later)

All-of_descending :
    (c : Caveats) (rest : List Caveats)
    → IsDescending c rest
    → All (λ p. caveats_narrow c p ≡ true) rest
All-of_descending c [] d = tt
All-of_descending c (p ∷ rest) d = (d.0, descending-All c p rest d.0 d.1)

-- When `caveats_chain_narrows` accepts the caveats from a leaf to a root, the leaf's narrow those
-- of every ancestor, and not only its parent's.
pub caveats_chain-narrows-All :
    (leaf : Caveats) (rest : List Caveats)
    → caveats_chain_narrows (leaf ∷ rest) ≡ true
    → All (λ p. caveats_narrow leaf p ≡ true) rest
caveats_chain-narrows-All leaf rest h = All-of_descending leaf rest (chain→IsDescending leaf rest h)

or-true : (a : Bool) → (a || true) ≡ true
or-true a = ground arith

or-true₂ : (a b c : Bool) → (a || (b || (true || c))) ≡ true
or-true₂ a b c = ground arith

or-true₃ : (a b c : Bool) → (a || (b || (c || true))) ≡ true
or-true₃ a b c = ground arith

abbrev IsSeparator : Text → Type 0
IsSeparator s = (s ≡ codes "/") ⊎ (s ≡ codes "?") ⊎ (s ≡ codes ":")

-- A target is another, or extends it behind a separator.
data Extends (child parent : Text) : Type 0 where
  same : child ≡ parent → Extends child parent
  behind : (s rest : Text) → IsSeparator s → child ≡ (parent ++ s) ++ rest → Extends child parent

Extends-trans : {a b c : Text} → Extends a b → Extends b c → Extends a c
Extends-trans (same e) (same f) = same (e ∙ f)
Extends-trans (same e) (behind s rest sep f) = behind s rest sep (e ∙ f)
Extends-trans {a} {b} {c} (behind s rest sep e) (same f) =
    behind s rest sep (e ∙ ap (λ t. (t ++ s) ++ rest) f)
Extends-trans {a} {b} {c} (behind s rest sep e) (behind s' rest' sep' f) =
    behind s' (rest' ++ s ++ rest) sep' (e ∙ ap (λ t. (t ++ s) ++ rest) f ∙ simp append_assoc)

target_within→Extends :
    (child parent : Text) → target_within child parent ≡ true → Extends child parent
unfolding target_within
target_within→Extends child parent h =
    let slash = starts_with_iff (parent ++ codes "/") child in
    let query = starts_with_iff (parent ++ codes "?") child in
    let scope = starts_with_iff (parent ++ codes ":") child in
    elim (Bool-cases (child === parent)) [
      | inl yes_same ↦ same ((===_iff child parent).0 yes_same)
      | inr no_same ↦ elim (Bool-cases (starts_with (parent ++ codes "/") child)) [
        | inl hit ↦ let (r, e) = slash.0 hit in behind (codes "/") r (inl refl) e
        | inr no_slash ↦ elim (Bool-cases (starts_with (parent ++ codes "?") child)) [
          | inl hit ↦ let (r, e) = query.0 hit in behind (codes "?") r (inr (inl refl)) e
          | inr no_query ↦
              let (r, e) = scope.0 (ground arith) in behind (codes ":") r (inr (inr refl)) e
        ]
      ]
    ]

Extends→target_within :
    (child parent : Text) → Extends child parent → target_within child parent ≡ true
unfolding target_within
Extends→target_within child parent (same e) = rw ((===_iff child parent).1 e)
Extends→target_within child parent (behind s rest (inl sep) e) =
    let hit =
      (starts_with_iff (parent ++ codes "/") child).1
        (rest, e ∙ ap (λ t. (parent ++ t) ++ rest) sep) in
    rw hit (or-true (child === parent))
Extends→target_within child parent (behind s rest (inr (inl sep)) e) =
    let hit =
      (starts_with_iff (parent ++ codes "?") child).1
        (rest, e ∙ ap (λ t. (parent ++ t) ++ rest) sep) in
    rw hit (
      or-true₂ (child === parent) (starts_with (parent ++ codes "/") child)
        (starts_with (parent ++ codes ":") child))
Extends→target_within child parent (behind s rest (inr (inr sep)) e) =
    let hit =
      (starts_with_iff (parent ++ codes ":") child).1
        (rest, e ∙ ap (λ t. (parent ++ t) ++ rest) sep) in
    rw hit (
      or-true₃ (child === parent) (starts_with (parent ++ codes "/") child)
        (starts_with (parent ++ codes "?") child))

target_within_trans :
    (a b c : Text) → target_within a b ≡ true → target_within b c ≡ true → target_within a c ≡ true
target_within_trans a b c h k =
    Extends→target_within a c
      (Extends-trans (target_within→Extends a b h) (target_within→Extends b c k))

-- A capability within another: its target, its authority and its caveats.
pub record IsAttenuated (child parent : HearthholdCapability) : Type 0 where
  pub target : target_within child.invocation_target parent.invocation_target ≡ true
  pub authority : IsWithin child.authority parent.authority
  pub caveats : caveats_narrow child.caveats parent.caveats ≡ true

capability_narrows→IsAttenuated :
    (c p : HearthholdCapability) → capability_narrows c p ≡ true → IsAttenuated c p
unfolding capability_narrows
capability_narrows→IsAttenuated c p h =
    let (pointer, h₁) = and-split (eq_opt c.parent_capability (some p.id)) _ h in
    let (target, h₂) = and-split (target_within c.invocation_target p.invocation_target) _ h₁ in
    let (authority, caveats) = and-split (is_subset c.authority p.authority) _ h₂ in
    record {
      target = target;
      authority = (is_subset_iff c.authority p.authority).0 authority;
      caveats = caveats;
    }

IsAttenuated-trans :
    {a b c : HearthholdCapability} → IsAttenuated a b → IsAttenuated b c → IsAttenuated a c
IsAttenuated-trans {a} {b} {c} h k = record {
  target =
      target_within_trans a.invocation_target b.invocation_target c.invocation_target h.target
        k.target;
  authority = IsWithin-trans h.authority k.authority;
  caveats = caveats_narrow_trans a.caveats b.caveats c.caveats h.caveats k.caveats;
}

-- Each capability was delegated from the next, from a leaf to a root.
abbrev pub IsDelegation : HearthholdCapability → List HearthholdCapability → Type 0
IsDelegation c [] = Unit
IsDelegation c (p ∷ rest) = (capability_narrows c p ≡ true) × IsDelegation p rest

delegation-All :
    (leaf c : HearthholdCapability) (rest : List HearthholdCapability)
    → IsAttenuated leaf c
    → IsDelegation c rest
    → All (IsAttenuated leaf) rest
delegation-All leaf c [] h d = tt
delegation-All leaf c (p ∷ rest) h d =
    let up = IsAttenuated-trans h (capability_narrows→IsAttenuated c p d.0) in
    (up, delegation-All leaf p rest up d.1)

-- Along a delegation of any length in which each step passes `capability_narrows`, the leaf lies
-- within every ancestor: in its target, in its operations and resources, and in its caveats.
pub capability_narrows-All :
    (leaf : HearthholdCapability) (rest : List HearthholdCapability)
    → IsDelegation leaf rest
    → All (IsAttenuated leaf) rest
capability_narrows-All leaf [] d = tt
capability_narrows-All leaf (p ∷ rest) d =
    let here = capability_narrows→IsAttenuated leaf p d.0 in
    (here, delegation-All leaf p rest here d.1)
