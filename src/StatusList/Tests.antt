-- ===== src/StatusList/Tests.antt =====
-- The theorems on the status list at a list with nothing revoked.
use hearthold.Prelude.{
  ℕ, zero, suc, ◌<◌, ◌≡◌, refl, ap, some, List, [], ◌∷◌, codes, length, All, arith,
}
use hearthold.Prelude.Int.{pos}
use hearthold.StatusList.{
  Codec, StatusListBody, RevocationResult, status_list_bytes, decode_bitstring, revoke_status_index,
}
use hearthold.StatusList.Revoking.{RoundTrips, Sets, after, decode-gzip, revoke-Sets}

abbrev zeros : ℕ → List ℕ
zeros zero = []
zeros (suc n) = 0 ∷ zeros n

length-zeros : (n : ℕ) → length (zeros n) ≡ n
length-zeros zero = refl
length-zeros (suc n) = ap suc (length-zeros n)

All-zeros : (n : ℕ) → All (λ b. b < 256) (zeros n)
All-zeros zero = tt
All-zeros (suc n) = (omega arith, All-zeros n)

-- The whole list, shut.
empty_list : List ℕ
empty_list = zeros status_list_bytes

empty_list-length : length empty_list ≡ status_list_bytes
unfolding empty_list
empty_list-length = length-zeros status_list_bytes

empty_list-bytes : All (λ b. b < 256) empty_list
unfolding empty_list
empty_list-bytes = All-zeros status_list_bytes

abbrev plain : Codec
plain = record { gzip = λ bytes. bytes; gunzip = λ t. some t }

plain-RoundTrips : RoundTrips plain
plain-RoundTrips bytes = refl

abbrev current : StatusListBody
current = record { issuer = codes "did:s"; encoded_list = empty_list; list_version = 1 }

revoke-Sets_example :
    (out : RevocationResult) × (revoke_status_index plain (codes "did:s") current (pos 70)
      ≡ some out)
    × (bs' : List ℕ) × (decode_bitstring plain (after current out).encoded_list ≡ some bs')
    × Sets plain plain-RoundTrips 70 empty_list bs'
revoke-Sets_example =
    revoke-Sets plain plain-RoundTrips (codes "did:s") current empty_list 70
      (decode-gzip plain plain-RoundTrips empty_list empty_list-length) empty_list-bytes
      (omega arith)
