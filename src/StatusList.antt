-- ===== src/StatusList.antt =====
-- packages/core/src/status-list.ts: the revocation bitstring, its revocation by index, and the
-- resolver that fails closed. The node, gzip with base64, the signature check and the clock are
-- parameters; bytes are numbers below 256.
pub mod Bits
pub mod Revoking
mod Tests
use Prim.Native.Nat.{bit_or}
use hearthold.Prelude.{
  ℕ, zero, suc, ◌+◌, ◌-◌, ◌/◌, ◌%◌, ◌^◌, ◌≡◌, Bool, true, false, not, ◌||◌, Option, none, some,
  List, [], ◌∷◌, Text, get_or, get_elem?, length, is_some, ltb, leb, ◌==◌, if◌then◌else◌, ◌===◌,
}
use hearthold.Prelude.Int.{ℤ, pos, negsuc, ltb_ℤ, ◌-ℤ◌}
use hearthold.Attenuation.{Proof, signer_of_proof}

abbrev pub status_list_length : ℕ
status_list_length = 131072

abbrev pub status_list_bytes : ℕ
status_list_bytes = 16384

-- `bytes[i] = v`
abbrev pub set {ℓ} : {A : Type ℓ} → List A → ℕ → A → List A
set [] i v = []
set (x ∷ xs) zero v = v ∷ xs
set (x ∷ xs) (suc i) v = x ∷ set xs i v

-- The bit of a byte at a place counted from the most significant one.
unfoldable pub byte_bit : ℕ → ℕ → Bool
byte_bit byte place = byte / 2 ^ (7 - place) % 2 == 1

unfoldable pub byte_set : ℕ → ℕ → ℕ
byte_set byte place = bit_or byte (0x80 / 2 ^ place)

-- The bit at an index, the most significant bit of the first byte at 0.
unfoldable pub bit_at : List ℕ → ℕ → Bool
bit_at bytes index = byte_bit (get_or (get_elem? bytes (index / 8)) 0) (index % 8)

-- `index < 0 || index >= STATUS_LIST_LENGTH` throws; the cases are those of the number's sign.
unfoldable pub get_bit : List ℕ → ℤ → Option Bool
get_bit bytes (negsuc n) = none
get_bit bytes (pos index) = if leb status_list_length index then none else some (bit_at bytes index)

unfoldable pub set_bit : List ℕ → ℕ → List ℕ
set_bit bytes index =
    set bytes (index / 8) (byte_set (get_or (get_elem? bytes (index / 8)) 0) (index % 8))

pub record StatusListBody : Type 0 where
  pub issuer : Text
  pub encoded_list : Text
  pub list_version : ℕ

pub record SignedStatusList : Type 0 where
  pub body : StatusListBody
  pub open body use *
  pub proof : Option Proof

-- The host's compression: base64 of gzip, and back; decoding may throw.
pub record Codec : Type 0 where
  pub gzip : List ℕ → Text
  pub gunzip : Text → Option (List ℕ)

-- Anything but the fixed length throws.
unfoldable pub decode_bitstring : Codec → Text → Option (List ℕ)
decode_bitstring codec encoded = elim (codec.gunzip encoded) [
  | none ↦ none
  | some bytes ↦ if length bytes == status_list_bytes then some bytes else none
]

-- What `revokeStatusIndex` writes: nothing when the bit is set already.
pub data RevocationResult : Type 0 where
  already_revoked : RevocationResult
  update : StatusListBody → RevocationResult

revoke_bytes : Codec → Text → StatusListBody → List ℕ → ℕ → Bool → RevocationResult
revoke_bytes codec issuer cur bytes index true = already_revoked
revoke_bytes codec issuer cur bytes index false = update (record {
  issuer = issuer;
  encoded_list = codec.gzip (set_bit bytes index);
  list_version = cur.list_version + 1;
})

-- `none` when the source throws.
unfoldable pub revoke_status_index : Codec → Text → StatusListBody → ℤ → Option RevocationResult
unfolding revoke_bytes
revoke_status_index codec issuer cur (negsuc n) = none
revoke_status_index codec issuer cur (pos index) =
    if leb status_list_length index then none else elim (decode_bitstring codec cur.encoded_list) [
      | none ↦ none
      | some bytes ↦ elim (get_bit bytes (pos index)) [
        | none ↦ none
        | some old ↦ some (revoke_bytes codec issuer cur bytes index old)
      ]
    ]

pub record Cached : Type 0 where
  pub bytes : List ℕ
  pub fetched_at : ℤ

pub record StatusCheck : Type 0 where
  pub available : Bool
  pub revoked : Bool

-- A resolver of one list: the node's answer (`some none` where it has no list, `none` where the
-- call throws), the signature check, and the options of the constructor.
pub record Resolver : Type 0 where
  pub codec : Codec
  pub resolve_list : Text → Option (Option SignedStatusList)
  pub verify_list : SignedStatusList → Option Bool
  pub status_list_credential : Text
  pub expected_issuer : Text
  pub max_age_ms : ℤ

-- The list that `refresh` takes into the cache, if it takes one.
pub refreshed : Resolver → Option SignedStatusList → Option (List ℕ)
refreshed r none = none
refreshed r (some list) =
    if not (is_some list.proof)
    then none
    else if not (get_or (r.verify_list list) false)
    then none
    else if not (signer_of_proof list.proof === r.expected_issuer)
    then none
    else decode_bitstring r.codec list.encoded_list

unfoldable pub refresh : Resolver → ℤ → Option Cached
unfolding refreshed decode_bitstring
refresh r now = elim (refreshed r (get_or (r.resolve_list r.status_list_credential) none)) [
  | none ↦ none
  | some bytes ↦ some (record { bytes = bytes; fetched_at = now })
]

-- `now - fetchedAt < maxAge`
unfoldable pub is_fresh : Resolver → Option Cached → ℤ → Bool
is_fresh r none now = false
is_fresh r (some c) now = ltb_ℤ (now -ℤ c.fetched_at) r.max_age_ms

abbrev unavailable_check : StatusCheck
unavailable_check = record { available = false; revoked = false }

unfoldable pub answer : Option Cached → ℤ → StatusCheck
answer none index = unavailable_check
answer (some c) index = elim (get_bit c.bytes index) [
  | none ↦ unavailable_check
  | some b ↦ record { available = true; revoked = b }
]

-- `StatusListResolver.check`, with the cache after it. A failed refresh leaves the cache.
unfoldable pub check : Resolver → Option Cached → ℤ → ℤ → StatusCheck × Option Cached
check r cache now index =
    if is_fresh r cache now then (answer cache index, cache) else elim (refresh r now) [
      | none ↦ (unavailable_check, cache)
      | some c ↦ (answer (some c) index, some c)
    ]
