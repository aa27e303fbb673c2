-- ===== src/Attenuation/Sets.antt =====
-- Authority sets as sets: `is_subset` and the order-free commitment of
-- packages/core/src/attenuation.ts.
use hearthold.Prelude.{
  ◌≡◌, ◌↔◌, true, List, Text, Subset, every-includes_iff, and-split, and-join, sym, ◌∙◌, Option,
}
use hearthold.Prelude.Sorting.{unique_sorted, includes-unique_sorted, unique_sorted-eq}
use hearthold.Json.{Json}
use hearthold.Attenuation.{AuthoritySet, is_subset, normalize_authority_set, commit}

-- Every operation and every resource of the first set is in the second.
pub record IsWithin (child parent : AuthoritySet) : Type 0 where
  pub operations : Subset child.operations parent.operations
  pub resources : Subset child.resources parent.resources

pub IsWithin-refl : (a : AuthoritySet) → IsWithin a a
IsWithin-refl a = record { operations = λ x m. m; resources = λ x m. m }

pub IsWithin-trans : {a b c : AuthoritySet} → IsWithin a b → IsWithin b c → IsWithin a c
IsWithin-trans h k = record {
  operations = λ x m. k.operations x (h.operations x m);
  resources = λ x m. k.resources x (h.resources x m);
}

Subset-unique_sorted :
    (xs ys : List Text) → Subset (unique_sorted xs) (unique_sorted ys) → Subset xs ys
Subset-unique_sorted xs ys h a m =
    sym (includes-unique_sorted ys a) ∙ h a (includes-unique_sorted xs a ∙ m)

unique_sorted-Subset :
    (xs ys : List Text) → Subset xs ys → Subset (unique_sorted xs) (unique_sorted ys)
unique_sorted-Subset xs ys h a m =
    includes-unique_sorted ys a ∙ h a (sym (includes-unique_sorted xs a) ∙ m)

is_subset→IsWithin : (c p : AuthoritySet) → is_subset c p ≡ true → IsWithin c p
unfolding is_subset
is_subset→IsWithin c p h =
    let (ops, res) = and-split _ _ h in
    record {
      operations = Subset-unique_sorted c.operations p.operations ((every-includes_iff _ _).0 ops);
      resources = Subset-unique_sorted c.resources p.resources ((every-includes_iff _ _).0 res);
    }

IsWithin→is_subset : (c p : AuthoritySet) → IsWithin c p → is_subset c p ≡ true
unfolding is_subset
IsWithin→is_subset c p h =
    and-join
      ((every-includes_iff _ _).1 (unique_sorted-Subset c.operations p.operations h.operations))
      ((every-includes_iff _ _).1 (unique_sorted-Subset c.resources p.resources h.resources))

-- `is_subset` decides inclusion of both dimensions, for arrays in any order and with repetitions.
pub is_subset_iff : (c p : AuthoritySet) → (is_subset c p ≡ true) ↔ IsWithin c p
is_subset_iff c p = (is_subset→IsWithin c p, IsWithin→is_subset c p)

-- Two authority sets with the same operations and resources, in any order and with any
-- repetitions, have the same commitment under the same salt and caveats.
pub commit_order_free :
    {C : Type 0} (sha256 : Text → Text) (to_json : C → Json) (a b : AuthoritySet) (salt : Text)
    (caveats : Option C)
    → IsWithin a b
    → IsWithin b a
    → commit sha256 to_json a salt caveats ≡ commit sha256 to_json b salt caveats
unfolding commit normalize_authority_set
commit_order_free sha256 to_json a b salt caveats h k =
    rw
      (unique_sorted-eq _ _ h.operations k.operations, unique_sorted-eq _ _ h.resources k.resources)
