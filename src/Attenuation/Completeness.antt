-- ===== src/Attenuation/Completeness.antt =====
-- Every chain within the hop bound is accepted by `verifyAttenuationChain` of
-- packages/core/src/attenuation.ts, and a longer one is not.
use hearthold.Prelude.{
  ℕ, zero, suc, ◌+◌, ◌≤◌, ◌<◌, ◌≡◌, refl, true, Option, none, some, List, ◌∷◌, Text, arith, ◌∙◌,
  get_or, eq_opt_iff, ap, sym, length,
}
use hearthold.Attenuation.{PrevPin}
use hearthold.Attenuation.Verify.{
  Doc, Hop, Expect, Verifier, Verdict, passed, rejected, too_deep, pin_holds, check_link_to,
  proceed, walk, verify_attenuation_chain, accept, Accepted, reveal_of,
}
use hearthold.Attenuation.Hops.{IsHop, IsLink, IsOrigin, IsPinned, Chain, origin, link}
use hearthold.Attenuation.Converse.{
  check_hop_of_IsHop, check_link_of_IsLink, check_origin_of_IsOrigin,
}

module _ {C : Type 0} (v : Verifier C) where
  open v use {resolve_did}

  -- The next hop meets what its child asked.
  record Meets (expect : Option (Expect C)) (did : Text) (version : Option ℕ) (hop : Hop C)
      : Type 0 where
    pinned : (d : Doc) → resolve_did did version ≡ some d → pin_holds v expect d.version_id ≡ true
    linked : check_link_to v expect hop ≡ passed tt

  pin_holds_of :
      (pin : PrevPin) (child : Hop C)
      → IsPinned v pin
      → (d : Doc) → resolve_did pin.did (some pin.version_sequence) ≡ some d
      → pin_holds v (some (record { pin = pin; child = child })) d.version_id ≡ true
  unfolding pin_holds
  pin_holds_of pin child h d found = (eq_opt_iff _ _).1 (h d found)

  Meets-next :
      {did : Text} {version : Option ℕ} {child parent : Hop C} (pin : PrevPin)
      → IsHop v did version child
      → IsPinned v pin
      → IsLink v child parent
      → Meets
          (some (record { pin = pin; child = child }))
          pin.did
          (some pin.version_sequence)
          parent
  Meets-next {child} pin good pinned linked = record {
    pinned = pin_holds_of pin child pinned;
    linked = check_link_of_IsLink v (good.revealed ∙ ap (reveal_of v) (sym good.named)) linked;
  }

  round_of :
      {did : Text} {version : Option ℕ} {hop : Hop C} (fuel : ℕ) (expect : Option (Expect C))
      (leaf : Option (Hop C)) (n : ℕ)
      → IsHop v did version hop
      → Meets expect did version hop
      → walk v (suc fuel) did version expect leaf n
        ≡ proceed v (walk v fuel) leaf n hop hop.pic.prev_credential
  unfolding walk
  round_of fuel expect leaf n good meets =
      rw (good.resolved, walk)
        (rw
          (check_hop_of_IsHop v good expect good.doc good.resolved
            (meets.pinned good.doc good.resolved))
          (rw meets.linked))

  at_leaf : {did : Text} {version : Option ℕ} (hop : Hop C) → Meets none did version hop
  unfolding pin_holds
  at_leaf hop = record { pinned = λ d found. refl; linked = refl }

  at_origin :
      (next : Text → Option ℕ → Option (Expect C) → Option (Hop C) → ℕ → Verdict (Accepted C))
      (leaf : Option (Hop C)) (n : ℕ) (hop : Hop C)
      → IsOrigin v hop
      → proceed v next leaf n hop none ≡ passed (accept v (get_or leaf hop) (n + 1))
  unfolding proceed
  at_origin next leaf n hop end =
      rw (check_origin_of_IsOrigin v hop end)
        (ap (λ k. passed (accept v (get_or leaf hop) k)) (omega arith))

  at_parent :
      (next : Text → Option ℕ → Option (Expect C) → Option (Hop C) → ℕ → Verdict (Accepted C))
      (leaf : Option (Hop C)) (n : ℕ) (hop : Hop C) (pin : PrevPin)
      → proceed v next leaf n hop (some pin)
        ≡ next pin.did
            (some pin.version_sequence)
            (some (record { pin = pin; child = hop }))
            (some (get_or leaf hop))
            (suc n)
  unfolding proceed
  at_parent next leaf n hop pin = refl

  walk_complete :
      (fuel : ℕ) {did : Text} {version : Option ℕ} {hop : Hop C} {rest : List (Hop C)}
      (expect : Option (Expect C)) (leaf : Option (Hop C)) (n : ℕ)
      → Chain v did version hop rest
      → Meets expect did version hop
      → length (hop ∷ rest) ≤ fuel
      → walk v fuel did version expect leaf n
        ≡ passed (accept v (get_or leaf hop) (n + length (hop ∷ rest)))
  walk_complete zero expect leaf n c meets h = absurd (omega arith)
  walk_complete (suc fuel) expect leaf n (origin {hop} good end) meets h =
      round_of fuel expect leaf n good meets
      ∙ ap (proceed v (walk v fuel) leaf n hop) end.last
      ∙ at_origin (walk v fuel) leaf n hop end
  walk_complete (suc fuel) expect leaf n
        (link {child} {parent} {rest} pin good prev pinned linked c) meets h =
      round_of fuel expect leaf n good meets
      ∙ ap (proceed v (walk v fuel) leaf n child) prev
      ∙ at_parent (walk v fuel) leaf n child pin
      ∙ walk_complete fuel (some (record { pin = pin; child = child })) (some (get_or leaf child))
          (suc n) c (Meets-next pin good pinned linked) (omega arith)
      ∙ ap (λ k. passed (accept v (get_or leaf child) k)) (omega arith)

  walk-short :
      (fuel : ℕ) {did : Text} {version : Option ℕ} {hop : Hop C} {rest : List (Hop C)}
      (expect : Option (Expect C)) (leaf : Option (Hop C)) (n : ℕ)
      → Chain v did version hop rest
      → Meets expect did version hop
      → fuel < length (hop ∷ rest)
      → (d : Text) × (walk v fuel did version expect leaf n ≡ rejected too_deep d none)
  unfolding walk
  walk-short zero expect leaf n c meets h = (_, refl)
  walk-short (suc fuel) expect leaf n (origin good end) meets h = absurd (omega arith)
  walk-short (suc fuel) expect leaf n (link {child} {parent} {rest} pin good prev pinned linked c)
        meets h =
      let (d, e) =
        walk-short fuel (some (record { pin = pin; child = child })) (some (get_or leaf child))
          (suc n) c (Meets-next pin good pinned linked) (omega arith) in
      (
        d,
        round_of fuel expect leaf n good meets
            ∙ ap (proceed v (walk v fuel) leaf n child) prev
            ∙ at_parent (walk v fuel) leaf n child pin
            ∙ e,
      )

-- A leaf with a whole chain behind it is accepted when the chain is no longer than the hop bound
-- (64 by default), with the chain's length and its leaf's fields, and is rejected as too deep when
-- the chain is longer.
pub verify_attenuation_chain_complete :
    {C : Type 0} (v : Verifier C) {leaf : Text} {hop : Hop C} {rest : List (Hop C)}
    → Chain v leaf none hop rest
    → let n = length (hop ∷ rest) in
      let bound = get_or v.opts.max_hops 64 in
      (n ≤ bound → verify_attenuation_chain v leaf ≡ passed (accept v hop n))
      × (bound < n → (d : Text) × (verify_attenuation_chain v leaf ≡ rejected too_deep d none))
unfolding verify_attenuation_chain
verify_attenuation_chain_complete v {hop} {rest} c = (
  λ h.
      walk_complete v (get_or v.opts.max_hops 64) none none 0 c (at_leaf v hop) h
      ∙ ap (λ k. passed (accept v hop k)) (omega arith),
  λ h. walk-short v (get_or v.opts.max_hops 64) none none 0 c (at_leaf v hop) h,
)
