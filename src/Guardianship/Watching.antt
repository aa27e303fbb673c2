-- ===== src/Guardianship/Watching.antt =====
-- What packages/warden/src/guardianship.ts shows a member of who watches them.
use hearthold.Prelude.{
  true, some, List, [], ◌∷◌, Text, get_or, eq_opt, eq_opt_iff, is_filled, ◌===◌, ===_iff, All, ◌≡◌,
  refl, Bool-cases, Option-cases, inl, inr, and-split,
}
use hearthold.Ruleset.{SignedRuleset, Warden, operative_ruleset, active}
use hearthold.Ruleset.Chains.{IsConsented, operative_ruleset-IsConsented}
use hearthold.Guardianship.{
  EdgeFile, Watch, ActiveGuardianship, edges_over, is_over_member, show, active_among, Edges,
  active_guardianships, edge_key,
}
use hearthold.Guardianship.Edges.{Among, here, there, stored-found, found-stored}

module _ (w : Warden) (member : Text) where
  -- A guardianship that is in force over the member, by a chain that is stored for its edge.
  pub record IsWatching (es : Edges) (g : ActiveGuardianship) : Type 0 where
    pub chain : List SignedRuleset
    pub law : SignedRuleset
    pub stored : Among (edge_key g.governor member, chain) es
    pub operative : operative_ruleset w (some g.governor) chain ≡ some law
    pub subject : law.subject ≡ some member
    pub governor : law.actor ≡ g.governor
    pub consented : IsConsented w law
    pub in_force : law.status ≡ active
    pub shown : g ≡ show w g.governor member law

  -- What is shown of watches that all have their chain in the store.
  active_among-All :
      (es : Edges) (ws : List Watch)
      → is_filled member ≡ true
      → ((g : Text) (chain : List SignedRuleset)
          → Among (g, chain) ws
          → Among (edge_key g member, chain) es)
      → All (IsWatching es) (active_among w member ws)
  unfolding active_among
  active_among-All es [] filled kept = tt
  active_among-All es ((g, chain) ∷ ws) filled kept =
      let rest = active_among-All es ws filled (λ f c m. kept f c (there m)) in
      elim (Option-cases (operative_ruleset w (some g) chain)) [
        | inl off ↦ rw (active_among, off) rest
        | inr (law, on) ↦ elim (Bool-cases (is_over_member w g member law)) [
          | inr other ↦ rw (active_among, on, other) rest
          | inl mine ↦
              let (s, a) = and-split (eq_opt law.subject (some member)) (law.actor === g) mine in
              let names = (eq_opt_iff law.subject (some member)).0 s in
              let (consent, live) =
                operative_ruleset-IsConsented w (some g) chain law on (rw (names) filled) in
              rw (active_among, on, mine)
                (
                  record {
                    chain = chain;
                    law = law;
                    stored = kept g chain here;
                    operative = on;
                    subject = names;
                    governor = (===_iff law.actor g).0 a;
                    consented = consent;
                    in_force = live;
                    shown = refl;
                  },
                  rest,
                )
        ]
      ]

  active_among_complete :
      (es : List Watch) (g : Text) (chain : List SignedRuleset) (law : SignedRuleset)
      → Among (g, chain) es
      → operative_ruleset w (some g) chain ≡ some law
      → is_over_member w g member law ≡ true
      → Among (show w g member law) (active_among w member es)
  unfolding active_among
  active_among_complete [] g chain law m on mine = elim m [ ]
  active_among_complete (_ ∷ es) g chain law here on mine = rw (active_among, on, mine) here
  active_among_complete ((f, other) ∷ es) g chain law (there m) on mine =
      let rest = active_among_complete es g chain law m on mine in
      elim (Option-cases (operative_ruleset w (some f) other)) [
        | inl off ↦ rw (active_among, off) rest
        | inr (found, named) ↦ elim (Bool-cases (is_over_member w f member found)) [
          | inr unnamed ↦ rw (active_among, named, unnamed) rest
          | inl also ↦ rw (active_among, named, also) (there rest)
        ]
      ]

-- Watching is never covert and never claimed: each guardianship that a member, of a DID that is
-- not empty, is shown is in force over them by a chain that is stored under the key of its
-- governor and the member, and goes back by versions that narrow or revoke to one the member
-- acknowledged; and every chain stored under such a key whose operative ruleset names that
-- governor and the member is shown.
pub active_guardianships-Watch :
    (w : Warden) (file : EdgeFile) (member : Text)
    → is_filled member ≡ true
    → All (IsWatching w member (get_or file [])) (active_guardianships w file member)
      × ((g : Text) (chain : List SignedRuleset) (law : SignedRuleset)
          → Among (edge_key g member, chain) (get_or file [])
          → operative_ruleset w (some g) chain ≡ some law
          → is_over_member w g member law ≡ true
          → Among (show w g member law) (active_guardianships w file member))
unfolding active_guardianships
active_guardianships-Watch w file member filled =
    let stored = get_or file [] in
    (
      active_among-All w member stored (edges_over member stored) filled
          (λ g chain m. found-stored member stored g chain m),
      λ g chain law m.
          active_among_complete w member (edges_over member stored) g chain law
            (stored-found member stored g chain m),
    )
