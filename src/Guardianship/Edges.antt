-- ===== src/Guardianship/Edges.antt =====
-- Which stored chains `GuardianshipStore.forSubject` of packages/warden/src/guardianship.ts finds.
use hearthold.Prelude.{
  ℕ, some, List, [], ◌∷◌, ◌++◌, Text, codes, length, length-append, ◌===◌, ===_iff, ◌≡◌, ◌≢◌, ◌⊎◌,
  refl, sym, ap, ◌∙◌, subst, arith, Bool-cases, Option-cases, inl, inr,
}
use hearthold.Ruleset.{SignedRuleset}
use hearthold.Guardianship.{Edges, Watch, edge_key, governor_in, edges_over}

pub data Among {A : Type 0} (x : A) : List A → Type 0 where
  here : {xs : List A} → Among x (x ∷ xs)
  there : {y : A} {xs : List A} → Among x xs → Among x (y ∷ xs)

Among-cases : {A : Type 0} {x y : A} {ys : List A} → Among x (y ∷ ys) → (y ≡ x) ⊎ Among x ys
Among-cases here = inl refl
Among-cases (there m) = inr m

longer : (x : ℕ) (g suffix : Text) → (x ∷ g ++ suffix) ≢ suffix
longer x g suffix h = ground (arith, ap length h, length-append g suffix)

-- The key of an edge gives its governor back.
governor_in-edge :
    (g : Text) (c : ℕ) (rest : Text) → governor_in (c ∷ rest) (g ++ c ∷ rest) ≡ some g
unfolding governor_in
governor_in-edge [] c rest = ground (arith, ===_iff (c ∷ rest) (c ∷ rest))
governor_in-edge (x ∷ g) c rest = elim (Bool-cases ((x ∷ g ++ c ∷ rest) === (c ∷ rest))) [
  | inl whole ↦ absurd (longer x g (c ∷ rest) ((===_iff (x ∷ g ++ c ∷ rest) (c ∷ rest)).0 whole))
  | inr part ↦ ground (arith, part, governor_in-edge g c rest)
]

some-injective : (a b : Text) → some a ≡ some b → a ≡ b
some-injective a b h = cc

-- Whatever governor a key gives, the key is its edge's.
governor_in-only : (suffix key g : Text) → governor_in suffix key ≡ some g → key ≡ g ++ suffix
unfolding governor_in
governor_in-only suffix [] g h = absurd (ground arith)
governor_in-only suffix (c ∷ key) g h = elim (Bool-cases ((c ∷ key) === suffix)) [
  | inl whole ↦
      let e : [] ≡ g = some-injective [] g (ground (arith, whole)) in
      (===_iff (c ∷ key) suffix).0 whole ∙ ap (λ x. x ++ suffix) e
  | inr part ↦ elim (Option-cases (governor_in suffix key)) [
    | inl off ↦ absurd (ground (arith, part, off))
    | inr (f, on) ↦
        let e : (c ∷ f) ≡ g = some-injective (c ∷ f) g (ground (arith, part, on)) in
        ap (λ x. c ∷ x) (governor_in-only suffix key f on) ∙ ap (λ x. x ++ suffix) e
  ]
]

key_end : (member : Text) → (codes "|" ++ member) ≡ (b'|' ∷ member)
key_end member = ground arith

edge_key-parts : (g member : Text) → edge_key g member ≡ g ++ (codes "|" ++ member)
unfolding edge_key
edge_key-parts [] member = refl
edge_key-parts (c ∷ g) member = ap (λ t. c ∷ t) (edge_key-parts g member)

module _ (member : Text) where
  edge_key-governor_in : (g : Text) → governor_in (codes "|" ++ member) (edge_key g member) ≡ some g
  edge_key-governor_in g =
      rw (edge_key-parts g member, key_end member) (governor_in-edge g b'|' member)

  edge_key-only :
      (k g : Text) → governor_in (codes "|" ++ member) k ≡ some g → k ≡ edge_key g member
  edge_key-only k g h = governor_in-only (codes "|" ++ member) k g h ∙ sym (edge_key-parts g member)

  -- Every stored chain of an edge over the member is found.
  pub stored-found :
      (es : Edges) (g : Text) (chain : List SignedRuleset)
      → Among (edge_key g member, chain) es
      → Among (g, chain) (edges_over member es)
  unfolding edges_over
  stored-found [] g chain m = elim m [ ]
  stored-found ((k, c) ∷ es) g chain m = elim (Among-cases m) [
    | inl e ↦
        let keyed : k ≡ edge_key g member = ap (λ (x : Watch). x.0) e in
        let on =
          subst (λ x. governor_in (codes "|" ++ member) x ≡ some g) (sym keyed)
            (edge_key-governor_in g) in
        let stored : c ≡ chain = ap (λ (x : Watch). x.1) e in rw (edges_over, on, stored) here
    | inr later ↦
        let rest = stored-found es g chain later in
        elim (Option-cases (governor_in (codes "|" ++ member) k)) [
          | inl off ↦ rw (edges_over, off) rest
          | inr (f, on) ↦ rw (edges_over, on) (there rest)
        ]
  ]

  -- Every found chain is a stored one.
  pub found-stored :
      (es : Edges) (g : Text) (chain : List SignedRuleset)
      → Among (g, chain) (edges_over member es)
      → Among (edge_key g member, chain) es
  unfolding edges_over
  found-stored [] g chain m = elim m [ ]
  found-stored ((k, c) ∷ es) g chain m = elim (Option-cases (governor_in (codes "|" ++ member) k)) [
    | inl off ↦ there (found-stored es g chain (rw (edges_over, off) at m))
    | inr (f, on) ↦ elim (Among-cases (rw (edges_over, on) at m)) [
      | inr rest ↦ there (found-stored es g chain rest)
      | inl e ↦
          subst (λ x. Among x ((k, c) ∷ es))
            (ap (λ (x : Text). (x, c)) (edge_key-only k f on)
              ∙ ap (λ (x : Watch). (edge_key x.0 member, x.1)) e)
            here
    ]
  ]
