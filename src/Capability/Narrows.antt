-- ===== src/Capability/Narrows.antt =====
-- Narrowing of caveats as an order (packages/core/src/capability.ts).
use hearthold.Prelude.{
  ◌≡◌, ◌↔◌, refl, ◌∙◌, Bool, true, false, not, ◌&&◌, Option, none, some, List, [], ◌∷◌, Text,
  get_or, is_some, and-split, and-join, arith, Subset, every-includes_iff, text_leb_trans,
  eq_opt_iff, leb→le, le→leb,
}
use hearthold.Prelude.Int.{ℤ}
use hearthold.Capability.{
  Caveats, caveats_narrow, ceiling_within, keeps_text, expires_within, kinds_within, discharge_keys,
}

-- Each dimension of the caveats is at least as strict in the child.
pub record IsNarrower (child parent : Caveats) : Type 0 where
  pub ceiling : ceiling_within child.ceiling parent.ceiling ≡ true
  pub owner : (o : Text) → parent.owner ≡ some o → child.owner ≡ some o
  pub audience : (a : Text) → parent.audience ≡ some a → child.audience ≡ some a
  pub expires : expires_within child.expires parent.expires ≡ true
  pub single_use : parent.single_use ≡ some true → child.single_use ≡ some true
  pub status : is_some parent.status ≡ true → is_some child.status ≡ true
  pub kinds : kinds_within child.kinds parent.kinds ≡ true
  pub discharges :
      Subset (discharge_keys parent.requires_discharge) (discharge_keys child.requires_discharge)

keeps_text_sound :
    (c p : Option Text) → keeps_text c p ≡ true → (o : Text) → p ≡ some o → c ≡ some o
keeps_text_sound c none h o e = cc
keeps_text_sound c (some p) h o e = (eq_opt_iff c (some p)).0 h ∙ e

keeps_text_of : (c p : Option Text) → ((o : Text) → p ≡ some o → c ≡ some o) → keeps_text c p ≡ true
keeps_text_of c none h = refl
keeps_text_of c (some p) h = (eq_opt_iff c (some p)).1 (h p refl)

abbrev burns : Option Bool → Option Bool → Bool
burns c p = not (get_or p false && not (get_or c false))

burns_sound : (c p : Option Bool) → burns c p ≡ true → p ≡ some true → c ≡ some true
burns_sound none none h e = cc
burns_sound none (some b) h e = ground arith
burns_sound (some a) none h e = cc
burns_sound (some a) (some b) h e = ground arith

burns_of : (c p : Option Bool) → (p ≡ some true → c ≡ some true) → burns c p ≡ true
burns_of c none h = refl
burns_of c (some false) h = refl
burns_of c (some true) h = rw (h refl)

implies : (a b : Bool) → not (a && not b) ≡ true → a ≡ true → b ≡ true
implies a b h k = ground arith

implies_of : (a b : Bool) → (a ≡ true → b ≡ true) → not (a && not b) ≡ true
implies_of true b h = rw (h refl)
implies_of false b h = refl

narrow→IsNarrower : (c p : Caveats) → caveats_narrow c p ≡ true → IsNarrower c p
unfolding caveats_narrow
narrow→IsNarrower c p h =
    let (ceiling, h₁) = and-split _ _ h in
    let (owner, h₂) = and-split _ _ h₁ in
    let (audience, h₃) = and-split _ _ h₂ in
    let (expires, h₄) = and-split _ _ h₃ in
    let (single_use, h₅) = and-split _ _ h₄ in
    let (status, h₆) = and-split _ _ h₅ in
    let (kinds, discharges) = and-split _ _ h₆ in
    record {
      ceiling = ceiling;
      owner = keeps_text_sound c.owner p.owner owner;
      audience = keeps_text_sound c.audience p.audience audience;
      expires = expires;
      single_use = burns_sound c.single_use p.single_use single_use;
      status = implies (is_some p.status) (is_some c.status) status;
      kinds = kinds;
      discharges = (every-includes_iff _ _).0 discharges;
    }

IsNarrower→narrow : (c p : Caveats) → IsNarrower c p → caveats_narrow c p ≡ true
unfolding caveats_narrow
IsNarrower→narrow c p k = and-join k.ceiling (
    and-join (keeps_text_of c.owner p.owner k.owner) (
      and-join (keeps_text_of c.audience p.audience k.audience) (
        and-join k.expires (
          and-join (burns_of c.single_use p.single_use k.single_use) (
            and-join (implies_of (is_some p.status) (is_some c.status) k.status)
              (and-join k.kinds ((every-includes_iff _ _).1 k.discharges)))))))

pub caveats_narrow-IsNarrower : (c p : Caveats) → (caveats_narrow c p ≡ true) ↔ IsNarrower c p
caveats_narrow-IsNarrower c p = (narrow→IsNarrower c p, IsNarrower→narrow c p)

ceiling_trans :
    (a b c : Option ℤ)
    → ceiling_within a b ≡ true
    → ceiling_within b c ≡ true
    → ceiling_within a c ≡ true
ceiling_trans none b c h k = h
ceiling_trans (some a) none c h k = cc
ceiling_trans (some a) (some b) none h k = cc
ceiling_trans (some a) (some b) (some c) h k =
    le→leb _ _ (omega (arith, leb→le _ _ h, leb→le _ _ k))

expires_trans :
    (a b c : Option Text)
    → expires_within a b ≡ true
    → expires_within b c ≡ true
    → expires_within a c ≡ true
unfolding expires_within
expires_trans a b none h k = refl
expires_trans a b (some []) h k = refl
expires_trans a none (some (z ∷ zs)) h k = cc
expires_trans a (some []) (some (z ∷ zs)) h k = cc
expires_trans none (some (y ∷ ys)) (some (z ∷ zs)) h k = cc
expires_trans (some []) (some (y ∷ ys)) (some (z ∷ zs)) h k = cc
expires_trans (some (x ∷ xs)) (some (y ∷ ys)) (some (z ∷ zs)) h k =
    text_leb_trans (x ∷ xs) (y ∷ ys) (z ∷ zs) h k

kinds_trans :
    (a b c : Option (List Text))
    → kinds_within a b ≡ true
    → kinds_within b c ≡ true
    → kinds_within a c ≡ true
kinds_trans a b none h k = refl
kinds_trans a none (some c) h k = cc
kinds_trans none (some b) (some c) h k = cc
kinds_trans (some a) (some b) (some c) h k =
    let up = (every-includes_iff b a).0 h in
    let over = (every-includes_iff c b).0 k in (every-includes_iff c a).1 (λ x m. over x (up x m))

IsNarrower-trans : {a b c : Caveats} → IsNarrower a b → IsNarrower b c → IsNarrower a c
IsNarrower-trans {a} {b} {c} h k = record {
  ceiling = ceiling_trans a.ceiling b.ceiling c.ceiling h.ceiling k.ceiling;
  owner = λ o e. h.owner o (k.owner o e);
  audience = λ o e. h.audience o (k.audience o e);
  expires = expires_trans a.expires b.expires c.expires h.expires k.expires;
  single_use = λ e. h.single_use (k.single_use e);
  status = λ e. h.status (k.status e);
  kinds = kinds_trans a.kinds b.kinds c.kinds h.kinds k.kinds;
  discharges = λ x m. h.discharges x (k.discharges x m);
}

-- Narrowing caveats is transitive: what a delegate's delegate holds narrows the first grant in
-- every dimension.
pub caveats_narrow_trans :
    (a b c : Caveats)
    → caveats_narrow a b ≡ true
    → caveats_narrow b c ≡ true
    → caveats_narrow a c ≡ true
caveats_narrow_trans a b c h k =
    IsNarrower→narrow a c (IsNarrower-trans (narrow→IsNarrower a b h) (narrow→IsNarrower b c k))
