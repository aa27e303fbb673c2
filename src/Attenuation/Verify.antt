-- ===== src/Attenuation/Verify.antt =====
-- `verifyAttenuationChain` of packages/core/src/attenuation.ts. The node behind the keymaster and
-- the two injected predicates are parameters. A `reject` carries the failed check, the credential
-- and the counter that the source's message names. A call of the node that throws makes the whole
-- call throw, `fault`; only `verifyProof` is caught.
use hearthold.Prelude.{
  ℕ, zero, suc, Bool, true, false, not, ◌&&◌, ◌||◌, Option, none, some, [], Text, get_or, is_some,
  is_filled, if◌then◌else◌, ◌===◌, ◌≡◌, refl, arith, eq_opt,
}
use hearthold.Prelude.Int.{ℤ, pos, succ_ℤ, eqb_ℤ}
use hearthold.Json.{Json}
use hearthold.Attenuation.{
  AuthoritySet, AuthoritySetPayload, PrevPin, AttenuationAssertion, PicBlock, is_subset, commit,
  signer_of, attenuation_statement,
}

-- What `resolveDID` returns, as far as the verifier reads it.
pub record Doc : Type 0 where
  pub version_id : Option Text
  pub controller : Option Text
  pub pic : Option PicBlock

pub data HopStatus : Type 0 where
  live revoked unavailable no_status : HopStatus

-- The check that failed, one constructor for each `reject` of the source.
pub data Check : Type 0 where
  wrong_version no_controller no_pic : Check
  unsigned bad_signature wrong_signer split_brain : Check
  not_disclosed wrong_commitment : Check
  hop_revoked status_unavailable not_revocable : Check
  counter_skip commitment_break lineage_mismatch wrong_delegator wider_authority : Check
  wider_caveats origin_counter origin_commitment wrong_root too_deep : Check

pub data Verdict (A : Type 0) : Type 0 where
  passed : A → Verdict A
  rejected : Check → Text → Option ℤ → Verdict A
  fault : Verdict A

infixl 5 ◌>>=◌ ◌>>◌
abbrev pub ◌>>=◌ : {A B : Type 0} → Verdict A → (A → Verdict B) → Verdict B
passed a >>= f = f a
rejected c d n >>= f = rejected c d n
fault >>= f = fault

abbrev pub ◌>>◌ : {B : Type 0} → Verdict (Unit {0}) → Verdict B → Verdict B
m >> k = m >>= λ _. k

-- `if (failed) return reject(…)`, with the test turned round.
abbrev pub require : Bool → Check → Text → Option ℤ → Verdict (Unit {0})
require true c d n = passed tt
require false c d n = rejected c d n

abbrev pub or_reject : {A : Type 0} → Option A → Check → Text → Option ℤ → Verdict A
or_reject none c d n = rejected c d n
or_reject (some a) c d n = passed a

pub require-passed :
    {A : Type 0} (b : Bool) (c : Check) (d : Text) (n : Option ℤ) (k : Verdict A) {a : A}
    → (require b c d n >> k) ≡ passed a
    → (b ≡ true) × (k ≡ passed a)
require-passed true c d n k h = (refl, h)
require-passed false c d n k h = absurd (ground arith)

pub or_reject-passed :
    {A B : Type 0} (o : Option A) (c : Check) (d : Text) (n : Option ℤ) (f : A → Verdict B) {b : B}
    → (or_reject o c d n >>= f) ≡ passed b
    → (a : A) × (o ≡ some a) × (f a ≡ passed b)
or_reject-passed none c d n f h = absurd (ground arith)
or_reject-passed (some a) c d n f h = (a, refl, h)

pub passed-injective : {A : Type 0} (a b : A) → passed a ≡ passed b → a ≡ b
passed-injective a b h = cc

pub bind-passed :
    {A B : Type 0} (m : Verdict A) (f : A → Verdict B) {b : B}
    → (m >>= f) ≡ passed b
    → (a : A) × (m ≡ passed a) × (f a ≡ passed b)
bind-passed (passed a) f h = (a, refl, h)
bind-passed (rejected c d n) f h = absurd (ground arith)
bind-passed fault f h = absurd (ground arith)

pub record VerifyOptions (C : Type 0) : Type 0 where
  pub expected_root_issuer : Option Text
  pub disclosed : Option (Text → Option (AuthoritySetPayload C))
  pub max_hops : Option ℕ
  pub require_disclosure : Bool
  pub caveat_narrows : Option (Option C → Option C → Bool)
  pub require_status : Bool
  pub check_hop_status : Option (Option C → Text → HopStatus)
  pub require_delegator_binding : Option Bool

pub record Accepted (C : Type 0) : Type 0 where
  pub chain_length : ℕ
  pub holder : Text
  pub leaf_authority_set : Option AuthoritySet
  pub leaf_caveats : Option C

-- A hop that has passed its own checks.
pub record Hop (C : Type 0) : Type 0 where
  pub did : Text
  pub controller : Text
  pub pic : PicBlock
  pub assertion : AttenuationAssertion
  pub reveal : Option (AuthoritySetPayload C)

-- What the child asked of the hop that is loaded next.
pub record Expect (C : Type 0) : Type 0 where
  pub pin : PrevPin
  pub child : Hop C

-- The node that a verifier reads, the hash, the JSON form of caveats, and the options of the call.
-- A call that throws returns none.
pub record Verifier (C : Type 0) : Type 0 where
  pub resolve_did : Text → Option ℕ → Option Doc
  pub verify_proof : AttenuationAssertion → Option Bool
  pub sha256 : Text → Text
  pub to_json : C → Json
  pub opts : VerifyOptions C

module _ {C : Type 0} (v : Verifier C) where
  open v use {resolve_did, verify_proof, sha256, to_json, opts}

  abbrev pub reveal_of : Text → Option (AuthoritySetPayload C)
  reveal_of did = get_or opts.disclosed (λ _. none) did

  -- (b): a pinned parent resolves to the pinned version.
  unfoldable pub pin_holds : Option (Expect C) → Option Text → Bool
  pin_holds none version = true
  pin_holds (some e) version = eq_opt version (some e.pin.version_id)

  -- The signed claim repeats the fields of the block.
  unfoldable pub agrees : AttenuationAssertion → PicBlock → Bool
  agrees a pic =
      a.authority_commitment === pic.authority_commitment
      && (eq_opt a.parent_authority_commitment pic.parent_authority_commitment
          && (eqb_ℤ a.counter pic.counter
              && (a.lineage_id === pic.lineage_id && a.statement === attenuation_statement)))

  -- (e), over the assertion of the block.
  unfoldable pub check_assertion : Text → Text → PicBlock → Verdict AttenuationAssertion
  unfolding agrees
  check_assertion did controller pic = do
    asrt ← or_reject pic.attenuation_assertion unsigned did (some pic.counter)
    require (is_some asrt.proof) unsigned did (some pic.counter)
    require (get_or (verify_proof asrt) false) bad_signature did (some pic.counter)
    require (signer_of asrt === controller) wrong_signer did (some pic.counter)
    require (agrees asrt pic) split_brain did (some pic.counter)
    passed asrt

  unfoldable pub commitment_holds : Option (AuthoritySetPayload C) → PicBlock → Bool
  commitment_holds none pic = true
  commitment_holds (some p) pic =
      commit sha256 to_json p.authority_set p.salt p.caveats === pic.authority_commitment

  abbrev pub status_of : AuthoritySetPayload C → Text → HopStatus
  status_of p controller = elim opts.check_hop_status [
    | none ↦ no_status
    | some check ↦ check p.caveats controller
  ]

  abbrev judge_status : HopStatus → Text → Option ℤ → Verdict (Unit {0})
  judge_status live did n = passed tt
  judge_status revoked did n = rejected hop_revoked did n
  judge_status unavailable did n = rejected status_unavailable did n
  judge_status no_status did n = require (not opts.require_status) not_revocable did n

  unfoldable pub check_status :
      Option (AuthoritySetPayload C) → Text → Text → Option ℤ → Verdict (Unit {0})
  check_status none did controller n = passed tt
  check_status (some p) did controller n =
      if opts.require_status || is_some opts.check_hop_status
      then judge_status (status_of p controller) did n
      else passed tt

  unfoldable pub check_disclosure :
      Option (AuthoritySetPayload C) → Text → PicBlock → Verdict (Unit {0})
  check_disclosure reveal did pic = do
    require (not (opts.require_disclosure && not (is_some reveal))) not_disclosed did
        (some pic.counter)
    require (commitment_holds reveal pic) wrong_commitment did (some pic.counter)

  -- The checks of one hop by itself, in the order of the source.
  unfoldable pub check_hop : Option (Expect C) → Text → Doc → Verdict (Hop C)
  check_hop expect did doc = do
    let controller = get_or doc.controller []
    require (pin_holds expect doc.version_id) wrong_version did none
    require (is_filled controller) no_controller did none
    pic ← or_reject doc.pic no_pic did none
    asrt ← check_assertion did controller pic
    let reveal = reveal_of did
    check_disclosure reveal did pic
    check_status reveal did controller (some pic.counter)
    passed (record {
      did = did;
      controller = controller;
      pic = pic;
      assertion = asrt;
      reveal = reveal;
    })

  unfoldable pub within_parent :
      Option (AuthoritySetPayload C) → Option (AuthoritySetPayload C) → Bool
  within_parent (some c) (some p) = is_subset c.authority_set p.authority_set
  within_parent _ _ = true

  unfoldable pub caveats_within :
      Option (AuthoritySetPayload C) → Option (AuthoritySetPayload C) → Bool
  caveats_within (some c) (some p) = elim opts.caveat_narrows [
    | none ↦ true
    | some narrows ↦ narrows c.caveats p.caveats
  ]
  caveats_within _ _ = true

  -- The checks of a child against its parent.
  unfoldable pub check_link : Hop C → Hop C → Verdict (Unit {0})
  check_link child parent = do
    let n = some child.pic.counter
    require (eqb_ℤ child.pic.counter (succ_ℤ parent.pic.counter)) counter_skip child.did n
    require (eq_opt child.pic.parent_authority_commitment (some parent.pic.authority_commitment))
        commitment_break child.did n
    require (child.pic.lineage_id === parent.pic.lineage_id) lineage_mismatch child.did n
    require
        (not (get_or opts.require_delegator_binding true)
          || signer_of child.assertion === parent.assertion.holder)
        wrong_delegator child.did n
    require (within_parent (reveal_of child.did) parent.reveal) wider_authority child.did n
    require (caveats_within (reveal_of child.did) parent.reveal) wider_caveats child.did n

  unfoldable pub root_holds : Option Text → Text → Bool
  root_holds none controller = true
  root_holds (some root) controller = not (is_filled root) || controller === root

  unfoldable pub check_origin : Hop C → Verdict (Unit {0})
  check_origin hop = do
    let n = some hop.pic.counter
    require (eqb_ℤ hop.pic.counter (pos 0)) origin_counter hop.did n
    require (not (is_some hop.pic.parent_authority_commitment)) origin_commitment hop.did n
    require (root_holds opts.expected_root_issuer hop.controller) wrong_root hop.did n

  abbrev pub check_link_to : Option (Expect C) → Hop C → Verdict (Unit {0})
  check_link_to none parent = passed tt
  check_link_to (some e) parent = check_link e.child parent

  -- The result names the leaf, the first hop that was loaded.
  unfoldable pub accept : Hop C → ℕ → Accepted C
  accept leaf n = record {
    chain_length = n;
    holder = leaf.assertion.holder;
    leaf_authority_set = elim leaf.reveal [ none ↦ none | some p ↦ some p.authority_set ];
    leaf_caveats = elim leaf.reveal [ none ↦ none | some p ↦ p.caveats ];
  }

  -- The end of a round: the origin is accepted, or the loop goes on at the pinned parent.
  unfoldable pub proceed :
      (Text → Option ℕ → Option (Expect C) → Option (Hop C) → ℕ → Verdict (Accepted C))
      → Option (Hop C)
      → ℕ
      → Hop C
      → Option PrevPin
      → Verdict (Accepted C)
  proceed next leaf n hop none = check_origin hop >> passed (accept (get_or leaf hop) (suc n))
  proceed next leaf n hop (some pin) =
      next pin.did (some pin.version_sequence) (some (record { pin = pin; child = hop }))
        (some (get_or leaf hop)) (suc n)

  -- The loop, on the hops that may still be loaded; `leaf` is none in the first round.
  unfoldable pub walk :
      ℕ → Text → Option ℕ → Option (Expect C) → Option (Hop C) → ℕ → Verdict (Accepted C)
  walk zero did version expect leaf n = rejected too_deep did none
  walk (suc fuel) did version expect leaf n = elim (resolve_did did version) [
    | none ↦ fault
    | some doc ↦ check_hop expect did doc >>= λ hop.
        check_link_to expect hop >> proceed (walk fuel) leaf n hop hop.pic.prev_credential
  ]

  unfoldable pub verify_attenuation_chain : Text → Verdict (Accepted C)
  verify_attenuation_chain leaf = walk (get_or opts.max_hops 64) leaf none none none 0
