-- ===== src/Attenuation/Soundness.antt =====
-- What `verifyAttenuationChain` of packages/core/src/attenuation.ts has established when it accepts.
use hearthold.Prelude.{
  ℕ, zero, suc, ◌+◌, ◌≡◌, refl, true, Option, none, some, List, [], ◌∷◌, Text, arith, ◌∙◌, get_or,
  eq_opt_iff, inl, inr, ap, sym, Option-cases, length,
}
use hearthold.Attenuation.{PrevPin}
use hearthold.Attenuation.Verify.{
  Doc, Hop, Expect, Verifier, Verdict, passed, pin_holds, ◌>>=◌, ◌>>◌, check_hop, check_link_to,
  proceed, check_origin, walk, verify_attenuation_chain, accept, bind-passed, passed-injective,
  Accepted, reveal_of,
}
use hearthold.Attenuation.Checks.{
  check_hop-IsChecked, IsChecked→IsHop, check_link-IsLinked, IsLinked→IsLink, check_origin_sound,
}
use hearthold.Attenuation.Hops.{IsHop, IsLink, Chain, origin, link}

module _ {C : Type 0} (v : Verifier C) where
  open v use {resolve_did}

  -- How the next hop stands to the child that asked for it.
  abbrev Follows : Option (Expect C) → Text → Option ℕ → Hop C → Type 0
  Follows none did version hop = Unit
  Follows (some e) did version hop =
      IsLink v e.child hop
      × ((d : Doc) → resolve_did did version ≡ some d → d.version_id ≡ some e.pin.version_id)

  -- The child's own disclosure is the one that the options hold for it.
  abbrev IsRevealed : Option (Expect C) → Type 0
  IsRevealed none = Unit
  IsRevealed (some e) = e.child.reveal ≡ reveal_of v e.child.did

  pin_holds_sound :
      (e : Expect C) (did : Text) (version : Option ℕ) (doc d : Doc)
      → resolve_did did version ≡ some doc
      → pin_holds v (some e) doc.version_id ≡ true
      → resolve_did did version ≡ some d
      → d.version_id ≡ some e.pin.version_id
  unfolding pin_holds
  pin_holds_sound e did version doc d found h found' =
      ground (arith, (eq_opt_iff doc.version_id (some e.pin.version_id)).0)

  follows :
      (expect : Option (Expect C)) (did : Text) (version : Option ℕ) (doc : Doc) (hop : Hop C)
      → IsRevealed expect
      → resolve_did did version ≡ some doc
      → pin_holds v expect doc.version_id ≡ true
      → check_link_to v expect hop ≡ passed tt
      → Follows expect did version hop
  follows none did version doc hop r found pinned linked = tt
  follows (some e) did version doc hop r found pinned linked = (
    IsLinked→IsLink v r (check_link-IsLinked v e.child hop linked),
    λ d. pin_holds_sound e did version doc d found pinned,
  )

  -- What a walk that accepts has found below a child.
  record Walked (expect : Option (Expect C)) (did : Text) (version : Option ℕ)
      (leaf : Option (Hop C)) (n : ℕ) (r : Accepted C) : Type 0 where
    hop : Hop C
    rest : List (Hop C)
    chain : Chain v did version hop rest
    next : Follows expect did version hop
    result : r ≡ accept v (get_or leaf hop) (n + length (hop ∷ rest))

  -- The rounds below, as a function that is sound.
  IsSoundNext :
      (Text → Option ℕ → Option (Expect C) → Option (Hop C) → ℕ → Verdict (Accepted C)) → Type 0
  IsSoundNext next =
      (did : Text) (version : Option ℕ) (expect : Option (Expect C)) (leaf : Option (Hop C)) (n : ℕ)
      (r : Accepted C)
      → IsRevealed expect
      → next did version expect leaf n ≡ passed r
      → Walked expect did version leaf n r

  module _ (next : Text → Option ℕ → Option (Expect C) → Option (Hop C) → ℕ → Verdict (Accepted C))
      (below : IsSoundNext next) (did : Text) (version : Option ℕ) (expect : Option (Expect C))
      (leaf : Option (Hop C)) (n : ℕ) (r : Accepted C) where
    finish :
        (hop : Hop C)
        → IsHop v did version hop
        → Follows expect did version hop
        → hop.pic.prev_credential ≡ none
        → (check_origin v hop >> passed (accept v (get_or leaf hop) (suc n))) ≡ passed r
        → Walked expect did version leaf n r
    finish hop good follow last h =
        let (unit, checked, e) =
          bind-passed (check_origin v hop) (λ _. passed (accept v (get_or leaf hop) (suc n))) h in
        record {
          hop = hop;
          rest = [];
          chain = origin good (check_origin_sound v hop last checked);
          next = follow;
          result = passed-injective r _ (sym e) ∙ ap (accept v (get_or leaf hop)) (omega arith);
        }

    descend :
        (hop : Hop C) (pin : PrevPin)
        → IsHop v did version hop
        → Follows expect did version hop
        → hop.pic.prev_credential ≡ some pin
        → next pin.did
            (some pin.version_sequence)
            (some (record { pin = pin; child = hop }))
            (some (get_or leaf hop))
            (suc n)
          ≡ passed r
        → Walked expect did version leaf n r
    unfolding IsSoundNext
    descend hop pin good follow prev h =
        let w =
          below pin.did (some pin.version_sequence) (some (record { pin = pin; child = hop }))
            (some (get_or leaf hop)) (suc n) r (good.revealed ∙ ap (reveal_of v) (sym good.named))
            h in
        record {
          hop = hop;
          rest = w.hop ∷ w.rest;
          chain = link pin good prev w.next.1 w.next.0 w.chain;
          next = follow;
          result = w.result ∙ ap (accept v (get_or leaf hop)) (omega arith);
        }

    proceed_sound :
        (hop : Hop C) (prev : Option PrevPin)
        → IsHop v did version hop
        → Follows expect did version hop
        → hop.pic.prev_credential ≡ prev
        → proceed v next leaf n hop prev ≡ passed r
        → Walked expect did version leaf n r
    unfolding proceed
    proceed_sound hop none good follow e h = finish hop good follow e h
    proceed_sound hop (some pin) good follow e h = descend hop pin good follow e h

    round_sound :
        (doc : Doc)
        → IsRevealed expect
        → resolve_did did version ≡ some doc
        → (check_hop v expect did doc >>= λ hop.
            check_link_to v expect hop >> proceed v next leaf n hop hop.pic.prev_credential)
          ≡ passed r
        → Walked expect did version leaf n r
    round_sound doc revealed found h =
        let (hop, checked, h₁) =
          bind-passed (check_hop v expect did doc)
            (λ hop. check_link_to v expect hop >> proceed v next leaf n hop hop.pic.prev_credential)
            h in
        let (unit, linked, h₂) =
          bind-passed (check_link_to v expect hop)
            (λ _. proceed v next leaf n hop hop.pic.prev_credential) h₁ in
        let k = check_hop-IsChecked v expect did doc hop checked in
        proceed_sound hop hop.pic.prev_credential (IsChecked→IsHop v found k)
          (follows expect did version doc hop revealed found k.pinned linked) refl h₂

  walk_sound : (fuel : ℕ) → IsSoundNext (walk v fuel)
  unfolding walk IsSoundNext
  walk_sound zero did version expect leaf n r revealed h = absurd (ground arith)
  walk_sound (suc fuel) did version expect leaf n r revealed h =
      elim (Option-cases (resolve_did did version)) [
        | inl missing ↦ absurd (ground arith)
        | inr (doc, found) ↦
            round_sound (walk v fuel) (walk_sound fuel) did version expect leaf n r doc revealed
              found (rw (found, walk) at h)
      ]

  -- What an accepted call of `verifyAttenuationChain` stands for.
  pub record IsAccepted (leaf : Text) (r : Accepted C) : Type 0 where
    pub hop : Hop C
    pub rest : List (Hop C)
    pub chain : Chain v leaf none hop rest
    pub result : r ≡ accept v hop (length (hop ∷ rest))

-- When the verifier accepts a leaf credential, there is a whole chain of hops from the leaf to an
-- origin, each valid by itself, pinned by its child, linked to it, and ending in the expected root;
-- the result names that chain's length and the leaf's holder, authority and caveats.
pub verify_attenuation_chain-sound :
    {C : Type 0} (v : Verifier C) (leaf : Text) (r : Accepted C)
    → verify_attenuation_chain v leaf ≡ passed r
    → IsAccepted v leaf r
unfolding verify_attenuation_chain IsSoundNext
verify_attenuation_chain-sound v leaf r h =
    let w = walk_sound v (get_or v.opts.max_hops 64) leaf none none none 0 r tt h in
    record {
      hop = w.hop;
      rest = w.rest;
      chain = w.chain;
      result = w.result ∙ ap (accept v w.hop) (omega arith);
    }
