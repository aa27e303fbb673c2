-- ===== src/Attenuation/Authority.antt =====
-- What follows for the authority of an accepted leaf: attenuation from the root, delegation by
-- name, depth, and the revocation of every ancestor (packages/core/src/attenuation.ts).
use hearthold.Prelude.{
  subst, ℕ, ◌≡◌, ◌≢◌, refl, sym, ap, ◌∙◌, true, false, Option, none, some, List, [], ◌∷◌, Text,
  is_filled, is_some, arith, All, length, inl,
}
use hearthold.Prelude.Int.{pos, succ_ℤ}
use hearthold.Attenuation.{AuthoritySet, AuthoritySetPayload}
use hearthold.Attenuation.Sets.{IsWithin, IsWithin-refl, IsWithin-trans}
use hearthold.Attenuation.Verify.{
  Hop, Verifier, passed, verify_attenuation_chain, accept, Accepted, live, HopStatus,
}
use hearthold.Attenuation.Hops.{IsHop, Chain, origin, link}
use hearthold.Attenuation.Soundness.{IsAccepted, verify_attenuation_chain-sound}

module _ {C : Type 0} (v : Verifier C) where
  open v use {opts}

  -- Each hop is disclosed with an authority that holds all of `a`.
  abbrev pub Grants : AuthoritySet → List (Hop C) → Type 0
  Grants a hops =
      All (λ h. (p : AuthoritySetPayload C) × (h.reveal ≡ some p) × IsWithin a p.authority_set) hops

  Grants-mono :
      (a b : AuthoritySet) (hops : List (Hop C)) → IsWithin a b → Grants b hops → Grants a hops
  Grants-mono a b [] h g = tt
  Grants-mono a b (x ∷ hops) h ((p, e, w), g) =
      ((p, e, IsWithin-trans h w), Grants-mono a b hops h g)

  payload_of :
      (o : Option (AuthoritySetPayload C))
      → is_some o ≡ true
      → (p : AuthoritySetPayload C) × (o ≡ some p)
  payload_of none h = absurd (ground arith)
  payload_of (some p) h = (p, refl)

  Chain-Grants :
      {did : Text} {version : Option ℕ} {hop : Hop C} {rest : List (Hop C)}
      → opts.require_disclosure ≡ true
      → Chain v did version hop rest
      → (p : AuthoritySetPayload C) × (hop.reveal ≡ some p) × Grants p.authority_set (hop ∷ rest)
  Chain-Grants full (origin {hop} good end) =
      let (p, e) = payload_of hop.reveal (good.disclosed full) in
      (p, e, ((p, e, IsWithin-refl p.authority_set), tt))
  Chain-Grants full (link {child} {parent} {rest} pin good prev pinned linked c) =
      let (p, e) = payload_of child.reveal (good.disclosed full) in
      let (q, at, g) = Chain-Grants full c in
      let within = linked.authority p q e at in
      (
        p,
        e,
        (
          (p, e, IsWithin-refl p.authority_set),
          Grants-mono p.authority_set q.authority_set (parent ∷ rest) within g,
        ),
      )

  -- Each hop is controlled by the one that its parent named as holder, and the last by `root`.
  abbrev pub IsDelegated : Text → Hop C → List (Hop C) → Type 0
  IsDelegated root hop [] = hop.controller ≡ root
  IsDelegated root hop (parent ∷ rest) =
      (hop.controller ≡ parent.assertion.holder) × IsDelegated root parent rest

  pub Chain-IsDelegated :
      {did : Text} {version : Option ℕ} {hop : Hop C} {rest : List (Hop C)} (root : Text)
      → opts.expected_root_issuer ≡ some root
      → is_filled root ≡ true
      → opts.require_delegator_binding ≢ some false
      → Chain v did version hop rest
      → IsDelegated root hop rest
  Chain-IsDelegated root e filled bind (origin good end) = end.root root e filled
  Chain-IsDelegated root e filled bind (link pin good prev pinned linked c) =
      (sym good.by_controller ∙ linked.delegator bind, Chain-IsDelegated root e filled bind c)

  -- The counter counts the hops behind.
  Chain-counter :
      {did : Text} {version : Option ℕ} {hop : Hop C} {rest : List (Hop C)}
      → Chain v did version hop rest
      → hop.pic.counter ≡ pos (length rest)
  Chain-counter (origin good end) = end.counter
  Chain-counter (link pin good prev pinned linked c) = linked.counter ∙ ap succ_ℤ (Chain-counter c)

  -- Each hop is disclosed, and the checker finds it live.
  abbrev pub AllLive : (Option C → Text → HopStatus) → List (Hop C) → Type 0
  AllLive check hops =
      All
        (λ h.
          (p : AuthoritySetPayload C) × (h.reveal ≡ some p) × (check p.caveats h.controller ≡ live))
        hops

  hop-live :
      {did : Text} {version : Option ℕ} {hop : Hop C} (check : Option C → Text → HopStatus)
      → opts.require_disclosure ≡ true
      → opts.require_status ≡ true
      → opts.check_hop_status ≡ some check
      → IsHop v did version hop
      → (p : AuthoritySetPayload C) × (hop.reveal ≡ some p)
        × (check p.caveats hop.controller ≡ live)
  hop-live {hop} check full status given good =
      let (p, e) = payload_of hop.reveal (good.disclosed full) in
      (p, e, ground (arith, good.status p e (inl status)))

  pub Chain-AllLive :
      {did : Text} {version : Option ℕ} {hop : Hop C} {rest : List (Hop C)}
      (check : Option C → Text → HopStatus)
      → opts.require_disclosure ≡ true
      → opts.require_status ≡ true
      → opts.check_hop_status ≡ some check
      → Chain v did version hop rest
      → AllLive check (hop ∷ rest)
  Chain-AllLive check full status given (origin good end) =
      (hop-live check full status given good, tt)
  Chain-AllLive check full status given (link pin good prev pinned linked c) =
      (hop-live check full status given good, Chain-AllLive check full status given c)

  accept-authority :
      (hop : Hop C) (n : ℕ) (p : AuthoritySetPayload C)
      → hop.reveal ≡ some p
      → (accept v hop n).leaf_authority_set ≡ some p.authority_set
  unfolding accept
  accept-authority hop n p e = ground arith

-- With every hop disclosed, an accepted leaf has an authority set, and each of its operations and
-- resources is in the authority set of every hop of the chain, the root's included.
pub verify-attenuates :
    {C : Type 0} (v : Verifier C) (leaf : Text) (r : Accepted C)
    → v.opts.require_disclosure ≡ true
    → verify_attenuation_chain v leaf ≡ passed r
    → (k : IsAccepted v leaf r) × (a : AuthoritySet) × (r.leaf_authority_set ≡ some a)
      × Grants v a (k.hop ∷ k.rest)
verify-attenuates {C} v leaf r full h =
    let k = verify_attenuation_chain-sound v leaf r h in
    let (p, e, g) = Chain-Grants v full k.chain in
    (
      k,
      p.authority_set,
      ap (λ (x : Accepted C). x.leaf_authority_set) k.result
          ∙ accept-authority v k.hop (length (k.hop ∷ k.rest)) p e,
      g,
    )

-- With a root issuer expected and the delegator binding on, as it is by default, every hop of an
-- accepted chain is controlled by the holder that its parent hop names, and the root by the
-- expected issuer: nobody but a named delegate extends the chain.
pub verify-delegates :
    {C : Type 0} (v : Verifier C) (leaf root : Text) (r : Accepted C)
    → v.opts.expected_root_issuer ≡ some root
    → is_filled root ≡ true
    → v.opts.require_delegator_binding ≢ some false
    → verify_attenuation_chain v leaf ≡ passed r
    → (k : IsAccepted v leaf r) × IsDelegated v root k.hop k.rest
verify-delegates v leaf root r e filled bind h =
    let k = verify_attenuation_chain-sound v leaf r h in
    (k, Chain-IsDelegated v root e filled bind k.chain)

-- The length that an accepted call reports is one more than the leaf's counter.
pub verify-counter :
    {C : Type 0} (v : Verifier C) (leaf : Text) (r : Accepted C)
    → verify_attenuation_chain v leaf ≡ passed r
    → (k : IsAccepted v leaf r) × (succ_ℤ k.hop.pic.counter ≡ pos r.chain_length)
unfolding accept
verify-counter v leaf r h =
    let k = verify_attenuation_chain-sound v leaf r h in
    (
      k,
      ap succ_ℤ (Chain-counter v k.chain)
          ∙ ap (λ (x : Accepted _). pos x.chain_length) (sym k.result),
    )

-- With every hop disclosed, a status required and a status checker given, the checker has found
-- every hop of an accepted chain live: a revoked ancestor, or one whose status cannot be
-- established, stops every chain below it.
pub verify-revocable :
    {C : Type 0} (v : Verifier C) (check : Option C → Text → HopStatus) (leaf : Text)
    (r : Accepted C)
    → v.opts.require_disclosure ≡ true
    → v.opts.require_status ≡ true
    → v.opts.check_hop_status ≡ some check
    → verify_attenuation_chain v leaf ≡ passed r
    → (k : IsAccepted v leaf r) × AllLive v check (k.hop ∷ k.rest)
verify-revocable v check leaf r full status given h =
    let k = verify_attenuation_chain-sound v leaf r h in
    (k, Chain-AllLive v check full status given k.chain)

some-injective : {A : Type 0} (a b : A) → some a ≡ some b → a ≡ b
some-injective a b h = cc

-- The authority that an accepted call reports is granted by every hop of its chain.
pub accepted-Grants :
    {C : Type 0} (v : Verifier C) (leaf : Text) (r : Accepted C) (a : AuthoritySet)
    → v.opts.require_disclosure ≡ true
    → r.leaf_authority_set ≡ some a
    → (l : IsAccepted v leaf r) → Grants v a (l.hop ∷ l.rest)
accepted-Grants {C} v leaf r a full e l =
    let (p, at, grants) = Chain-Grants v full l.chain in
    let same =
      sym e
      ∙ ap (λ (x : Accepted C). x.leaf_authority_set) l.result
      ∙ accept-authority v l.hop (length (l.hop ∷ l.rest)) p at in
    subst (λ b. Grants v b (l.hop ∷ l.rest)) (sym (some-injective a p.authority_set same)) grants
