-- ===== src/Attenuation/Wallet.antt =====
-- A keymaster on a map of documents, on which the theorems about issuing are run. The DID of an
-- asset is its salt, and an asset whose DID is taken is not made.
use hearthold.Prelude.{
  true, Option, none, some, [], ◌∷◌, Text, ◌===◌, ===_iff, before_hash, if◌then◌else◌, ◌≡◌, ◌≢◌,
  refl, sym, ap, ◌∙◌, subst, arith, is_some, not, guard, guard-some, bind-some, ◌>>=◌, ◌>>◌,
}
use hearthold.Attenuation.{Proof, AttenuationAssertion, PicBlock, signer_of}
use hearthold.Attenuation.Verify.{Doc}
use hearthold.Attenuation.Keymaster.{IsKeymaster}
use hearthold.Attenuation.Issue.{Meta, Keymaster}

abbrev pub Docs : Type 0
Docs = Text → Option Doc

unfoldable pub put : Docs → Text → Doc → Docs
put w did d other = if other === did then some d else w other

-- A name without a hash sign is its own DID.
unfoldable pub identity : Text → Option Text
identity name = if before_hash name === name then some name else none

-- What is made of a name, before its block is written.
abbrev fresh : Text → Doc
fresh name = record { version_id = some (1 ∷ []); controller = some name; pic = none }

unfoldable pub make : Docs → Text → Text → Option (Text × Docs)
make w name did = do guard (not (is_some (w did))); some (did, put w did (fresh name))

unfoldable pub write : Docs → Text → PicBlock → Option Docs
write w did pic = do d ← w did; some (put w did (record d { pic = some pic }))

unfoldable pub head_of : Docs → Text → Option Meta
head_of w did = do d ← w did; some (record { version_id = d.version_id; version_sequence = some 2 })

unfoldable pub wallet : {C : Type 0} → Keymaster Docs C
wallet = record {
  did_of = λ w name. identity name;
  encrypt_json = λ w name p holder. make w name p.salt;
  add_proof = λ w name a. some (record a {
    proof = some (record { verification_method = name; proof_value = []; created = [] });
  });
  merge_data = write;
  head = head_of;
  resolve_did = λ w did version. w did;
  verify_proof = λ a. some true;
}

put-same : (w : Docs) (did : Text) (d : Doc) → put w did d did ≡ some d
unfolding put
put-same w did d = ground (arith, ===_iff did did)

put-other : (w : Docs) (did other : Text) (d : Doc) → did ≢ other → put w did d other ≡ w other
unfolding put
put-other w did other d h = ground (arith, ===_iff other did)

pub identity-name :
    (name issuer : Text) → identity name ≡ some issuer → (name ≡ issuer) × (before_hash name ≡ name)
unfolding identity
identity-name name issuer h = ground (arith, ===_iff (before_hash name) name)

pair-injective :
    (did did' : Text) (w w' : Docs)
    → ◌≡◌ {A = Option (Text × Docs)} (some (did, w)) (some (did', w'))
    → (did ≡ did') × (w ≡ w')
pair-injective did did' w w' h = (cc, cc)

make-new :
    (w w' : Docs) (name did made : Text)
    → make w name did ≡ some (made, w')
    → (w did ≡ none) × (did ≡ made) × (put w did (fresh name) ≡ w')
unfolding make
make-new w w' name did made h =
    let (free, rest) = guard-some (not (is_some (w did))) _ h in
    let (same, state) = pair-injective did made _ w' rest in (ground (arith, free), same, state)

write-put :
    (w w' : Docs) (did : Text) (pic : PicBlock)
    → write w did pic ≡ some w'
    → (d : Doc) × (w did ≡ some d) × (put w did (record d { pic = some pic }) ≡ w')
unfolding write
write-put w w' did pic h = let (d, found, e) = bind-some (w did) _ h in (d, found, state _ w' e)
  where
    state : (x y : Docs) → some x ≡ some y → x ≡ y
    state x y e = cc

doc_same : (x y : Doc) → some x ≡ some y → x ≡ y
doc_same x y k = cc

head_of-some :
    (w : Docs) (did : Text) (d : Doc) (m : Meta)
    → w did ≡ some d
    → head_of w did ≡ some m
    → m ≡ record { version_id = d.version_id; version_sequence = some 2 }
unfolding head_of
head_of-some w did d m h e =
    let (d2, found, same) = bind-some (w did) _ e in
    let one : d ≡ d2 = doc_same d d2 (sym h ∙ found) in
    sym (meta_same _ m same)
    ∙ ap (λ (x : Doc). record { version_id = x.version_id; version_sequence = some 2 }) (sym one)
  where
    meta_same : (x y : Meta) → some x ≡ some y → x ≡ y
    meta_same x y k = cc

-- The documents after an asset has got its block.
published :
    (w w2 w3 : Docs) (name issuer did made : Text) (pic : PicBlock) (meta : Meta)
    → identity name ≡ some issuer
    → make w name did ≡ some (made, w2)
    → write w2 made pic ≡ some w3
    → head_of w3 made ≡ some meta
    → (meta ≡ record { version_id = some (1 ∷ []); version_sequence = some 2 })
      × (w3 made
          ≡ some (record { version_id = some (1 ∷ []); controller = some issuer; pic = some pic }))
published w w2 w3 name issuer did made pic meta named h e m =
    let (free, one, two) = make-new w w2 name did made h in
    let (d, found, three) = write-put w2 w3 made pic e in
    let made_doc : w2 made ≡ some (fresh name) =
      ap (λ (x : Docs). x made) (sym two)
      ∙ ap (λ x. put w x (fresh name) made) one
      ∙ put-same w made (fresh name) in
    let is_fresh : d ≡ fresh name = doc_same d (fresh name) (sym found ∙ made_doc) in
    let block : Doc = record {
      version_id = some (1 ∷ []);
      controller = some issuer;
      pic = some pic;
    } in
    let now : w3 made ≡ some block =
      ap (λ (x : Docs). x made) (sym three)
      ∙ put-same w2 made _
      ∙ ap (λ (x : Doc). some (record x { pic = some pic })) is_fresh
      ∙ ap (λ x. some (record block { controller = some x })) (identity-name name issuer named).0 in
    (head_of-some w3 made block meta now m, now)

wallet-signs :
    (w : Docs) (name issuer : Text) (a signed : AttenuationAssertion)
    → identity name ≡ some issuer
    → some (record a {
      proof = some (record { verification_method = name; proof_value = []; created = [] });
    })
      ≡ some signed
    → (p : Proof) × (signed ≡ record a { proof = some p })
      × (signer_of signed ≡ issuer)
      × (some true ≡ some true)
unfolding signer_of
wallet-signs w name issuer a signed h e =
    let (same, bare) = identity-name name issuer h in
    let p : Proof = record { verification_method = name; proof_value = []; created = [] } in
    (p, cc, ap signer_of (asserted _ _ (sym e)) ∙ bare ∙ same, refl)
  where
    asserted : (x y : AttenuationAssertion) → some x ≡ some y → x ≡ y
    asserted x y k = cc

untouched : (w : Docs) (did other : Text) (d : Doc) → w did ≡ none → w other ≡ some d → did ≢ other
untouched w did other d h k e = gone (sym (ap w e) ∙ h) k
  where
    gone : {o : Option Doc} → o ≡ none → o ≡ some d → ⊥
    gone a b = cc

pub wallet-IsKeymaster : {C : Type 0} → IsKeymaster {C = C} wallet
unfolding wallet
wallet-IsKeymaster = record {
  signs = wallet-signs;
  keeps_identity = λ w w' name other issuer holder did p h k. k;
  publishes = λ w w' w'' name issuer holder did p pic meta named h e m.
      let (k, found) = published w w' w'' name issuer p.salt did pic meta named h e m in
      (1 ∷ [], 2, k, (found, found));
  is_new = λ w w' name holder did p version h.
      let (free, one, two) = make-new w w' name p.salt did h in subst (λ x. w x ≡ none) one free;
  keeps_made = λ w w' name holder did other p version d h k.
      let (free, one, two) = make-new w w' name p.salt did h in
      sym (ap (λ (x : Docs). x other) two)
      ∙ put-other w p.salt other (fresh name) (untouched w p.salt other d free k)
      ∙ k;
  keeps_merged = λ w w' did other pic version d h e k.
      let (d0, found, two) = write-put w w' did pic e in
      sym (ap (λ (x : Docs). x other) two) ∙ put-other w did other _ h ∙ k;
}
