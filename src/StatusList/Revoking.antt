-- ===== src/StatusList/Revoking.antt =====
-- Revoking an index and checking it (packages/core/src/status-list.ts).
use hearthold.Prelude.{
  ℕ, ◌+◌, ◌<◌, ◌≡◌, ap, ◌∙◌, true, false, some, List, Text, length, All, arith, ◌==◌, if◌then◌else◌,
  inl, inr, Bool-cases,
}
use hearthold.Prelude.Int.{pos}
use hearthold.StatusList.{
  Codec, StatusListBody, RevocationResult, already_revoked, update, decode_bitstring,
  revoke_status_index, get_bit, set_bit, bit_at, status_list_length, status_list_bytes,
}
use hearthold.StatusList.Bits.{get_bit-set_bit, length-set_bit}

-- The list as it stands after a revocation.
abbrev pub after : StatusListBody → RevocationResult → StatusListBody
after cur already_revoked = cur
after cur (update body) = body

-- What the codec is relied on for: decompressing gives back what was compressed.
abbrev pub RoundTrips : Codec → Type 0
RoundTrips codec = (bytes : List ℕ) → codec.gunzip (codec.gzip bytes) ≡ some bytes

module _ (codec : Codec) (law : RoundTrips codec) where
  pub decode-gzip :
      (bs : List ℕ)
      → length bs ≡ status_list_bytes
      → decode_bitstring codec (codec.gzip bs) ≡ some bs
  unfolding decode_bitstring
  decode-gzip bs len = rw (law bs, decode_bitstring) (ground (arith, len))

  length-decode :
      (encoded : Text) (bs : List ℕ)
      → decode_bitstring codec encoded ≡ some bs
      → length bs ≡ status_list_bytes
  unfolding decode_bitstring
  length-decode encoded bs h = ground arith

  -- One index of the list is set, and the others are kept.
  abbrev pub Sets : ℕ → List ℕ → List ℕ → Type 0
  Sets i bs bs' =
      (j : ℕ)
      → j < status_list_length
      → get_bit bs' (pos j) ≡ (if i == j then some true else get_bit bs (pos j))

  keep-Sets : (i : ℕ) (bs : List ℕ) → get_bit bs (pos i) ≡ some true → Sets i bs bs
  keep-Sets i bs h j hj = elim (Bool-cases (i == j)) [
    | inl here ↦ rw here (ap (λ k. get_bit bs (pos k)) (ground arith) ∙ h)
    | inr there ↦ rw there
  ]

  get_bit-in-range :
      (bs : List ℕ) (i : ℕ) → i < status_list_length → get_bit bs (pos i) ≡ some (bit_at bs i)
  unfolding get_bit
  get_bit-in-range bs i hi = ground arith

  revoked_list : Text → StatusListBody → List ℕ → ℕ → StatusListBody
  revoked_list issuer cur bs i = record {
    issuer = issuer;
    encoded_list = codec.gzip (set_bit bs i);
    list_version = cur.list_version + 1;
  }

  revoke-old :
      (issuer : Text) (cur : StatusListBody) (bs : List ℕ) (i : ℕ)
      → decode_bitstring codec cur.encoded_list ≡ some bs
      → i < status_list_length
      → bit_at bs i ≡ true
      → revoke_status_index codec issuer cur (pos i) ≡ some already_revoked
  unfolding revoke_status_index
  revoke-old issuer cur bs i decoded hi old = ground (arith, decoded, old, get_bit-in-range bs i hi)

  revoke-new :
      (issuer : Text) (cur : StatusListBody) (bs : List ℕ) (i : ℕ)
      → decode_bitstring codec cur.encoded_list ≡ some bs
      → i < status_list_length
      → bit_at bs i ≡ false
      → revoke_status_index codec issuer cur (pos i) ≡ some (update (revoked_list issuer cur bs i))
  unfolding revoke_status_index revoked_list
  revoke-new issuer cur bs i decoded hi new = ground (arith, decoded, new, get_bit-in-range bs i hi)

  -- Where decompressing gives back what was compressed: after an index in range is revoked on a
  -- list of bytes that decodes, the list that stands decodes, its bit
  -- at the index is set, and its bit at every other index is as before.
  pub revoke-Sets :
      (issuer : Text) (cur : StatusListBody) (bs : List ℕ) (i : ℕ)
      → decode_bitstring codec cur.encoded_list ≡ some bs
      → All (λ b. b < 256) bs
      → i < status_list_length
      → (out : RevocationResult) × (revoke_status_index codec issuer cur (pos i) ≡ some out)
        × (bs' : List ℕ) × (decode_bitstring codec (after cur out).encoded_list ≡ some bs')
        × Sets i bs bs'
  unfolding revoked_list
  revoke-Sets issuer cur bs i decoded bytes hi =
      let len = length-decode cur.encoded_list bs decoded in
      elim (Bool-cases (bit_at bs i)) [
        | inl old ↦ (
          already_revoked,
          revoke-old issuer cur bs i decoded hi old,
          bs,
          decoded,
          keep-Sets i bs (get_bit-in-range bs i hi ∙ ap some old),
        )
        | inr new ↦ (
          update (revoked_list issuer cur bs i),
          revoke-new issuer cur bs i decoded hi new,
          set_bit bs i,
          decode-gzip (set_bit bs i) (length-set_bit bs i ∙ len),
          λ j hj. get_bit-set_bit bs i j len bytes hi hj,
        )
      ]
