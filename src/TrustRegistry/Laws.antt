-- ===== src/TrustRegistry/Laws.antt =====
-- When the registries of packages/core/src/trust-registry.ts authorize, and what a policy asks.
use hearthold.Prelude.{
  subst, ◌∙◌, Bool, true, false, Option, none, some, List, [], ◌∷◌, Text, get_or, ◌≡◌, ◌≢◌, ◌⊎◌,
  refl, arith, Bool-cases, Option-cases, inl, inr, ap, All,
}
use hearthold.Ruleset.{
  SignedRuleset, factor1, factor2, Warden, RulesetCheck, signed, failed, tier_of,
  verify_ruleset_chain, active_ruleset,
}
use hearthold.TrustRegistry.{
  AuthorizationQuery, GroupBinding, GroupTrustRegistry, find_binding, binding_for, is_exact,
  is_wildcard, group_authorize, required_assurance,
}

-- The first item of a list that passes a test.
pub data IsFirst (p : GroupBinding → Bool) : List GroupBinding → GroupBinding → Type 0 where
  first : {b : GroupBinding} {bs : List GroupBinding} → p b ≡ true → IsFirst p (b ∷ bs) b
  later :
      {a b : GroupBinding} {bs : List GroupBinding}
      → p a ≡ false
      → IsFirst p bs b
      → IsFirst p (a ∷ bs) b

find-IsFirst :
    (p : GroupBinding → Bool) (bs : List GroupBinding) (b : GroupBinding)
    → find_binding p bs ≡ some b
    → IsFirst p bs b
unfolding find_binding
find-IsFirst p [] b h = absurd (ground arith)
find-IsFirst p (a ∷ bs) b h = elim (Bool-cases (p a)) [
  | inl on ↦ subst (IsFirst p (a ∷ bs)) (some-injective a b (ground (arith, on))) (first on)
  | inr off ↦ later off (find-IsFirst p bs b (ground (arith, off)))
]
  where
    some-injective : (a b : GroupBinding) → some a ≡ some b → a ≡ b
    some-injective a b h = cc

find-none :
    (p : GroupBinding → Bool) (bs : List GroupBinding)
    → find_binding p bs ≡ none
    → All (λ b. p b ≡ false) bs
unfolding find_binding
find-none p [] h = tt
find-none p (a ∷ bs) h = elim (Bool-cases (p a)) [
  | inl on ↦ absurd (ground (arith, on))
  | inr off ↦ (off, find-none p bs (ground (arith, off)))
]

-- The binding that decides a query: the first exact one, and the first wildcard only where there is
-- no exact one.
pub data Decides (bs : List GroupBinding) (q : AuthorizationQuery) (b : GroupBinding) : Type 0 where
  exactly : IsFirst (is_exact q) bs b → Decides bs q b
  by_wildcard : All (λ a. is_exact q a ≡ false) bs → IsFirst (is_wildcard q) bs b → Decides bs q b

binding_for-Decides :
    (bs : List GroupBinding) (q : AuthorizationQuery) (b : GroupBinding)
    → binding_for bs q ≡ some b
    → Decides bs q b
unfolding binding_for
binding_for-Decides bs q b h = elim (Option-cases (find_binding (is_exact q) bs)) [
  | inr (e, on) ↦ exactly (find-IsFirst (is_exact q) bs b (on ∙ ground (arith, on)))
  | inl off ↦
      by_wildcard (find-none (is_exact q) bs off)
        (find-IsFirst (is_wildcard q) bs b (ground (arith, off)))
]

-- A registry over groups authorizes an entity only as a member of the group of the binding that
-- decides the query, which is an exact one wherever there is one: a wildcard group never overrides
-- the group bound to the resource.
pub group_authorize-Decides :
    (r : GroupTrustRegistry) (q : AuthorizationQuery)
    → (group_authorize r q).authorized ≡ true
    → (b : GroupBinding) × Decides r.bindings q b × (r.test_group b.group q.entity_id ≡ some true)
unfolding group_authorize
group_authorize-Decides r q h = elim (Option-cases (binding_for r.bindings q)) [
  | inl off ↦ absurd (ground (arith, off))
  | inr (b, on) ↦ (
    b,
    binding_for-Decides r.bindings q b on,
    get_or-true (r.test_group b.group q.entity_id) (ground (arith, on)),
  )
]
  where
    get_or-true : (o : Option Bool) → get_or o false ≡ true → o ≡ some true
    get_or-true none h = absurd (ground arith)
    get_or-true (some b) h = ap some h

-- A policy asks the first factor only of an empty or absent chain, of a chain that verifies with no
-- ruleset in force, or where the ruleset in force asks no more for the action: a chain that does not
-- verify never lowers what is asked.
pub required_assurance-factor1 :
    (w : Warden) (expected : Option Text) (r : SignedRuleset) (rs : List SignedRuleset)
    (action : Text)
    → required_assurance w expected (some (r ∷ rs)) action ≡ factor1
    → ((s : Text) × (verify_ruleset_chain w expected (r ∷ rs) ≡ signed s))
      × ((active_ruleset w expected (r ∷ rs) ≡ none)
          ⊎ ((head : SignedRuleset) × (active_ruleset w expected (r ∷ rs) ≡ some head)
              × (tier_of (get_or head.capabilities.assurance []) action ≢ some factor2)))
unfolding required_assurance
required_assurance-factor1 w expected r rs action h =
    go (verify_ruleset_chain w expected (r ∷ rs)) refl
  where
    go :
        (c : RulesetCheck)
        → verify_ruleset_chain w expected (r ∷ rs) ≡ c
        → ((s : Text) × (verify_ruleset_chain w expected (r ∷ rs) ≡ signed s))
          × ((active_ruleset w expected (r ∷ rs) ≡ none)
              ⊎ ((head : SignedRuleset) × (active_ruleset w expected (r ∷ rs) ≡ some head)
                  × (tier_of (get_or head.capabilities.assurance []) action ≢ some factor2)))
    go (failed f) e = absurd (ground (arith, e))
    go (signed s) e = elim (Option-cases (active_ruleset w expected (r ∷ rs))) [
      | inl off ↦ ((s, e), inl off)
      | inr (head, on) ↦ ((s, e), inr (head, on, λ two. ground (arith, e, on, two)))
    ]
