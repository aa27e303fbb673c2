-- ===== src/ChallengeStore/Tests.antt =====
-- The challenge store after one challenge was minted for an invocation.
use hearthold.Prelude.{◌≡◌, refl, true, false, none, some, [], ◌∷◌, codes, ◌===◌}
use hearthold.Prelude.Int.{pos, ◌-ℤ◌}
use hearthold.ChallengeStore.{
  invocation, delegation, Live, LiveMap, Minter, get, delete, mint, mint_for_purpose, consume,
  later_by,
}
use hearthold.ChallengeStore.Burning.{present, none_yet, consume-once}

abbrev minter : Minter
minter = record {
  create_challenge = λ req. some (codes "c");
  warden_did = codes "did:w";
  ensure_delegation_schema = some (codes "d");
  ensure_authorization_schema = some (codes "a");
  sovereign_did = some (codes "did:s");
  authorization_schema_did = none;
  default_ttl_ms = 120000;
}

abbrev minted : Live
minted = record { purpose = invocation; exp = later_by (pos 10) 120000; reusable = false }

abbrev store : LiveMap
store = (codes "c", minted) ∷ []

mints : mint_for_purpose minter [] (pos 10) invocation ≡ some (codes "c", store)
unfolding mint_for_purpose mint
mints = refl

found : get store (codes "c") ≡ some minted
unfolding get ◌===◌
found = refl

takes :
    (consume store (pos 11) (codes "c") invocation ≡ (true, []))
    × ((consume store (pos 11) (codes "c") delegation).0 ≡ false)
    × ((consume store (pos 120011) (codes "c") invocation).0 ≡ false)
unfolding consume get delete ◌===◌ ◌-ℤ◌
takes = (refl, refl, refl)

consume-once_example :
    (consume
      (consume (consume store (pos 11) (codes "c") invocation).1 (pos 12) (codes "x") delegation).1
      (pos 13)
      (codes "c")
      invocation).0
    ≡ false
consume-once_example =
    consume-once store
      (consume (consume store (pos 11) (codes "c") invocation).1 (pos 12) (codes "x") delegation).1
      (pos 11) (pos 13) (codes "c") invocation invocation minted found refl
      (present (pos 12) (codes "x") delegation none_yet)
