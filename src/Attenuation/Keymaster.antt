-- ===== src/Attenuation/Keymaster.antt =====
-- What is relied on of the keymaster behind `issueVc` of packages/core/src/attenuation.ts.
use hearthold.Prelude.{ℕ, true, Option, none, some, Text, ◌≡◌, ◌≢◌}
use hearthold.Attenuation.{AuthoritySetPayload, Proof, AttenuationAssertion, PicBlock, signer_of}
use hearthold.Attenuation.Verify.{Doc}
use hearthold.Attenuation.Issue.{Meta, Keymaster}

-- What is relied on of the node and the wallet.
pub record IsKeymaster {W C : Type 0} (km : Keymaster W C) : Type 0 where
  -- A signature is added, verifies, and names its signer.
  pub signs :
      (w : W) (name issuer : Text) (a signed : AttenuationAssertion)
      → km.did_of w name ≡ some issuer
      → km.add_proof w name a ≡ some signed
      → (p : Proof) × (signed ≡ record a { proof = some p })
        × (signer_of signed ≡ issuer)
        × (km.verify_proof signed ≡ some true)
  -- Making an asset changes no identity.
  pub keeps_identity :
      (w w' : W) (name other issuer holder did : Text) (p : AuthoritySetPayload C)
      → km.encrypt_json w name p holder ≡ some (did, w')
      → km.did_of w other ≡ some issuer
      → km.did_of w' other ≡ some issuer
  -- An asset that has got its block is controlled by the identity that made it, and its head is a
  -- version that resolves to that block from then on.
  pub publishes :
      (w w' w'' : W) (name issuer holder did : Text) (p : AuthoritySetPayload C) (pic : PicBlock)
      (meta : Meta)
      → km.did_of w name ≡ some issuer
      → km.encrypt_json w name p holder ≡ some (did, w')
      → km.merge_data w' did pic ≡ some w''
      → km.head w'' did ≡ some meta
      → (version : Text) × (n : ℕ) × (meta
          ≡ record { version_id = some version; version_sequence = some n })
        × (let doc : Doc = record {
          version_id = some version;
          controller = some issuer;
          pic = some pic;
        } in
            (km.resolve_did w'' did none ≡ some doc) × (km.resolve_did w'' did (some n) ≡ some doc))
  -- A made asset is new, and neither making one nor writing to it touches another.
  pub is_new :
      (w w' : W) (name holder did : Text) (p : AuthoritySetPayload C) (version : Option ℕ)
      → km.encrypt_json w name p holder ≡ some (did, w')
      → km.resolve_did w did version ≡ none
  pub keeps_made :
      (w w' : W) (name holder did other : Text) (p : AuthoritySetPayload C) (version : Option ℕ)
      (d : Doc)
      → km.encrypt_json w name p holder ≡ some (did, w')
      → km.resolve_did w other version ≡ some d
      → km.resolve_did w' other version ≡ some d
  pub keeps_merged :
      (w w' : W) (did other : Text) (pic : PicBlock) (version : Option ℕ) (d : Doc)
      → did ≢ other
      → km.merge_data w did pic ≡ some w'
      → km.resolve_did w other version ≡ some d
      → km.resolve_did w' other version ≡ some d
