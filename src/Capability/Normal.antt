-- ===== src/Capability/Normal.antt =====
-- What `normalizeCaveats` of packages/core/src/capability.ts keeps, and what it does not.
use hearthold.Prelude.{
  ◌≡◌, ◌≢◌, ◌↔◌, refl, sym, ◌∙◌, Bool, true, ◌||◌, Option, none, some, List, [], ◌∷◌, Text, map,
  includes, every-includes_iff, arith, ◌===◌, text_leb_refl,
}
use hearthold.Prelude.Int.{ℤ}
use hearthold.Prelude.Sorting.{sort, includes-sort}
use hearthold.Capability.{
  Caveats, ThirdPartyCaveat, caveats_narrow, normalize_caveats, discharge_key, discharge_keys,
  insert_discharge, sort_discharges, normal_kinds, normal_discharges, kinds_within, ceiling_within,
  expires_within,
}
use hearthold.Capability.Narrows.{IsNarrower, caveats_narrow-IsNarrower}

module _ (locale_le : Text → Text → Bool) where
  keys-insert :
      (c : ThirdPartyCaveat) (ds : List ThirdPartyCaveat) (k : Text)
      → includes (map discharge_key (insert_discharge locale_le c ds)) k
        ≡ (discharge_key c === k || includes (map discharge_key ds) k)
  unfolding insert_discharge includes
  keys-insert c [] k = refl
  keys-insert c (d ∷ ds) k = ground (arith, keys-insert c ds k)

  keys-sort :
      (ds : List ThirdPartyCaveat) (k : Text)
      → includes (map discharge_key (sort_discharges locale_le ds)) k
        ≡ includes (map discharge_key ds) k
  unfolding sort_discharges includes
  keys-sort [] k = refl
  keys-sort (d ∷ ds) k =
      ground (arith, keys-insert d (sort_discharges locale_le ds) k, keys-sort ds k)

  -- The keys of the consent caveats stay.
  keys-normal :
      (o : Option (List ThirdPartyCaveat)) (k : Text)
      → includes (discharge_keys (normal_discharges locale_le o)) k ≡ includes (discharge_keys o) k
  unfolding normal_discharges
  keys-normal none k = refl
  keys-normal (some []) k = refl
  keys-normal (some (d ∷ ds)) k = keys-sort (d ∷ ds) k

  kinds-normal-within :
      (o : Option (List Text)) → o ≢ some [] → kinds_within (normal_kinds o) o ≡ true
  unfolding normal_kinds
  kinds-normal-within none h = refl
  kinds-normal-within (some []) h = absurd (h refl)
  kinds-normal-within (some (k ∷ ks)) h =
      (every-includes_iff (k ∷ ks) (sort (k ∷ ks))).1 (λ a m. sym (includes-sort (k ∷ ks) a) ∙ m)

  kinds-within-normal : (o : Option (List Text)) → kinds_within o (normal_kinds o) ≡ true
  unfolding normal_kinds
  kinds-within-normal none = refl
  kinds-within-normal (some []) = refl
  kinds-within-normal (some (k ∷ ks)) =
      (every-includes_iff (sort (k ∷ ks)) (k ∷ ks)).1 (λ a m. includes-sort (k ∷ ks) a ∙ m)

  ceiling_refl : (o : Option ℤ) (n : ℤ) → o ≡ some n → ceiling_within o o ≡ true
  ceiling_refl none n e = cc
  ceiling_refl (some m) n e = ground arith

  expires_refl : (o : Option Text) → expires_within o o ≡ true
  unfolding expires_within
  expires_refl none = refl
  expires_refl (some []) = refl
  expires_refl (some (c ∷ cs)) = text_leb_refl (c ∷ cs)

  module _ (c : Caveats) (n : ℤ) (numeric : c.ceiling ≡ some n) where
    normal-IsNarrower : c.kinds ≢ some [] → IsNarrower (normalize_caveats locale_le c) c
    unfolding normalize_caveats
    normal-IsNarrower h = record {
      ceiling = ceiling_refl c.ceiling n numeric;
      owner = λ o e. e;
      audience = λ a e. e;
      expires = expires_refl c.expires;
      single_use = λ e. e;
      status = λ e. e;
      kinds = kinds-normal-within c.kinds h;
      discharges = λ k m. keys-normal c.requires_discharge k ∙ m;
    }

    IsNarrower-normal : IsNarrower c (normalize_caveats locale_le c)
    unfolding normalize_caveats
    IsNarrower-normal = record {
      ceiling = ceiling_refl c.ceiling n numeric;
      owner = λ o e. e;
      audience = λ a e. e;
      expires = expires_refl c.expires;
      single_use = λ e. e;
      status = λ e. e;
      kinds = kinds-within-normal c.kinds;
      discharges = λ k m. sym (keys-normal c.requires_discharge k) ∙ m;
    }

    empty_kinds-widen : c.kinds ≡ some [] → ¬ IsNarrower (normalize_caveats locale_le c) c
    unfolding normalize_caveats normal_kinds
    empty_kinds-widen e k = ground (arith, k.kinds)

-- Caveats with a numeric ceiling always narrow the form that is committed for them, and the
-- committed form narrows the caveats exactly when their array of kinds is not the empty one: of an
-- empty array, which allows no kind, nothing is committed, which allows every kind.
pub normalize_caveats-faithful_iff :
    (locale_le : Text → Text → Bool) (c : Caveats) (n : ℤ)
    → c.ceiling ≡ some n
    → (caveats_narrow c (normalize_caveats locale_le c) ≡ true)
      × ((caveats_narrow (normalize_caveats locale_le c) c ≡ true) ↔ (c.kinds ≢ some []))
normalize_caveats-faithful_iff locale_le c n numeric = (
  (caveats_narrow-IsNarrower _ _).1 (IsNarrower-normal locale_le c n numeric),
  (
    λ h e. empty_kinds-widen locale_le c n numeric e ((caveats_narrow-IsNarrower _ _).0 h),
    λ h. (caveats_narrow-IsNarrower _ _).1 (normal-IsNarrower locale_le c n numeric h),
  ),
)
