-- ===== src/Guardianship/Receipts.antt =====
-- What a guardian's read of packages/warden/src/guardianship.ts shows and leaves behind.
use hearthold.Prelude.{
  true, Option, some, List, [], ◌∷◌, ◌++◌, Text, get_or, eq_opt, eq_opt_iff, is_filled, ◌≡◌, refl,
  sym, ap, ◌∙◌, ◌⊎◌, ◌↔◌, arith, Bool-cases, Option-cases, inl, inr,
}
use hearthold.Ruleset.{SignedRuleset, Warden}
use hearthold.Ruleset.Guardian.{
  GuardianRead, allowed, no_edge, expired, out_of_scope, authorize_guardian_read, IsGuardianship,
  authorize_guardian_read_sound,
}
use hearthold.Guardianship.{
  GuardianReceipt, ReceiptFile, record_receipt, Artefact, get_artefact, Reading, granted,
  not_available, refused, owner_of, request_for, receipt_for, read_authorized, guardian_read,
}

refused-injective :
    (a b : GuardianRead) → ◌≡◌ {A = Option Reading} (some (refused a)) (some (refused b)) → a ≡ b
refused-injective a b h = cc

module _ (w : Warden) (unseal : Text → Option Text) (sovereign : Option Text)
    (vault : List Artefact) (chain : List SignedRuleset) (governor member id at : Text) where
  -- What a granted read rests on, and its receipt.
  pub record IsGranted (face : Text) (file file' : ReceiptFile) : Type 0 where
    pub artefact : Artefact
    pub found : get_artefact vault id ≡ some artefact
    pub owned : owner_of sovereign artefact ≡ some member
    pub guardianship : IsGuardianship w chain (request_for governor member at artefact)
    pub opened : unseal artefact.ciphertext ≡ some face
    pub receipted : file' ≡ some (get_or file [] ++ receipt_for governor member at artefact id ∷ [])

  face-injective :
      (a b : Text) → ◌≡◌ {A = Option Reading} (some (granted a)) (some (granted b)) → a ≡ b
  face-injective a b h = cc

  read_authorized-granted :
      (g : GuardianRead) (a : Artefact) (r : GuardianReceipt) (face : Text) (file : ReceiptFile)
      → (read_authorized w unseal sovereign g a r file).0 ≡ some (granted face)
      → (g ≡ allowed)
        × (unseal a.ciphertext ≡ some face)
        × ((read_authorized w unseal sovereign g a r file).1 ≡ some (get_or file [] ++ r ∷ []))
  unfolding read_authorized record_receipt
  read_authorized-granted allowed a r face file h = elim (Option-cases (unseal a.ciphertext)) [
    | inl off ↦ absurd (ground (arith, off))
    | inr (f, on) ↦ (refl, on ∙ ap some (face-injective f face (ground (arith, on))), refl)
  ]
  read_authorized-granted no_edge a r face file h = absurd (ground arith)
  read_authorized-granted expired a r face file h = absurd (ground arith)
  read_authorized-granted out_of_scope a r face file h = absurd (ground arith)

-- A guardian that is shown an artefact reads one of the member's own, of a member whose DID is not
-- empty, under an active guardianship that names the governor and the member and has not expired
-- at the time, whose kinds, where it lists any, and ceiling cover the artefact, and that goes back
-- by versions that narrow or revoke to one the member acknowledged; and the read has left a
-- receipt that names both, the artefact and the time behind those that were there.
pub guardian_read-IsGranted :
    (w : Warden) (unseal : Text → Option Text) (sovereign : Option Text) (vault : List Artefact)
    (chain : List SignedRuleset) (governor member id at face : Text) (file : ReceiptFile)
    → is_filled member ≡ true
    → (guardian_read w unseal sovereign vault chain governor member id at file).0
      ≡ some (granted face)
    → IsGranted w unseal sovereign vault chain governor member id at face file
        (guardian_read w unseal sovereign vault chain governor member id at file).1
unfolding guardian_read
guardian_read-IsGranted w unseal sovereign vault chain governor member id at face file filled h =
    elim (Option-cases (get_artefact vault id)) [
      | inl off ↦ absurd (ground (arith, off))
      | inr (a, on) ↦ elim (Bool-cases (eq_opt (owner_of sovereign a) (some member))) [
        | inr other ↦ absurd (ground (arith, on, other))
        | inl mine ↦
            let g = authorize_guardian_read w chain (request_for governor member at a) in
            let (permitted, opened, receipted) =
              read_authorized-granted w unseal sovereign vault chain governor member id at g a
                (receipt_for governor member at a id) face file (ground (arith, on, mine)) in
            record {
              artefact = a;
              found = on;
              owned = (eq_opt_iff (owner_of sovereign a) (some member)).0 mine;
              guardianship =
                  authorize_guardian_read_sound w chain (request_for governor member at a) filled
                    permitted;
              opened = opened;
              receipted = ground (arith, on, mine, receipted);
            }
      ]
    ]

module _ (w : Warden) (unseal : Text → Option Text) (sovereign : Option Text)
    (vault : List Artefact) (chain : List SignedRuleset) (governor member id at : Text) where
  -- The member has an artefact of this id, and the read of it is answered so.
  pub record IsTold (g : GuardianRead) : Type 0 where
    pub artefact : Artefact
    pub found : get_artefact vault id ≡ some artefact
    pub owned : owner_of sovereign artefact ≡ some member
    pub told : authorize_guardian_read w chain (request_for governor member at artefact) ≡ g

  read_authorized-not_available :
      (g : GuardianRead) (a : Artefact) (r : GuardianReceipt) (file : ReceiptFile)
      → (read_authorized w unseal sovereign g a r file).0 ≡ some not_available
      → g ≡ out_of_scope
  unfolding read_authorized
  read_authorized-not_available allowed a r file h = elim (Option-cases (unseal a.ciphertext)) [
    | inl off ↦ absurd (ground (arith, off))
    | inr (f, on) ↦ absurd (ground (arith, on))
  ]
  read_authorized-not_available no_edge a r file h = absurd (ground arith)
  read_authorized-not_available expired a r file h = absurd (ground arith)
  read_authorized-not_available out_of_scope a r file h = refl

  read_authorized-refused :
      (g : GuardianRead) (a : Artefact) (r : GuardianReceipt) (file : ReceiptFile)
      (x : GuardianRead)
      → (read_authorized w unseal sovereign g a r file).0 ≡ some (refused x)
      → g ≡ x
  unfolding read_authorized
  read_authorized-refused allowed a r file x h = elim (Option-cases (unseal a.ciphertext)) [
    | inl off ↦ absurd (ground (arith, off))
    | inr (f, on) ↦ absurd (ground (arith, on))
  ]
  read_authorized-refused no_edge a r file x h = refused-injective no_edge x h
  read_authorized-refused expired a r file x h = refused-injective expired x h
  read_authorized-refused out_of_scope a r file x h = absurd (ground arith)

  guardian_read-found :
      (a : Artefact) (file : ReceiptFile)
      → get_artefact vault id ≡ some a
      → owner_of sovereign a ≡ some member
      → guardian_read w unseal sovereign vault chain governor member id at file
        ≡ read_authorized w unseal sovereign
            (authorize_guardian_read w chain (request_for governor member at a))
            a
            (receipt_for governor member at a id)
            file
  unfolding guardian_read
  guardian_read-found a file on owned =
      ground (arith, on, (eq_opt_iff (owner_of sovereign a) (some member)).1 owned)

  hidden-not_available :
      (file : ReceiptFile)
      → ((a : Artefact)
          → get_artefact vault id ≡ some a
          → owner_of sovereign a ≡ some member
          → authorize_guardian_read w chain (request_for governor member at a) ≡ out_of_scope)
      → guardian_read w unseal sovereign vault chain governor member id at file
        ≡ (some not_available, file)
  unfolding guardian_read read_authorized
  hidden-not_available file hidden = elim (Option-cases (get_artefact vault id)) [
    | inl off ↦ ground (arith, off)
    | inr (a, on) ↦ elim (Bool-cases (eq_opt (owner_of sovereign a) (some member))) [
      | inr other ↦ ground (arith, on, other)
      | inl mine ↦
          let out = hidden a on ((eq_opt_iff (owner_of sovereign a) (some member)).0 mine) in
          ground (arith, on, mine, out)
    ]
  ]

  refused-IsTold :
      (file : ReceiptFile) (g : GuardianRead)
      → (guardian_read w unseal sovereign vault chain governor member id at file).0
        ≡ some (refused g)
      → IsTold g
  unfolding guardian_read
  refused-IsTold file g h = elim (Option-cases (get_artefact vault id)) [
    | inl off ↦ absurd (ground (arith, off))
    | inr (a, on) ↦ elim (Bool-cases (eq_opt (owner_of sovereign a) (some member))) [
      | inr other ↦ absurd (ground (arith, on, other))
      | inl mine ↦ record {
        artefact = a;
        found = on;
        owned = (eq_opt_iff (owner_of sovereign a) (some member)).0 mine;
        told =
            read_authorized-refused
              (authorize_guardian_read w chain (request_for governor member at a)) a
              (receipt_for governor member at a id) file g (ground (arith, on, mine));
      }
    ]
  ]

  IsTold-refused :
      (file : ReceiptFile) (g : GuardianRead)
      → (g ≡ no_edge) ⊎ (g ≡ expired)
      → IsTold g
      → guardian_read w unseal sovereign vault chain governor member id at file
        ≡ (some (refused g), file)
  unfolding read_authorized
  IsTold-refused file g (inl e) k =
      guardian_read-found k.artefact file k.found k.owned ∙ ground (arith, k.told, e)
  IsTold-refused file g (inr e) k =
      guardian_read-found k.artefact file k.found k.owned ∙ ground (arith, k.told, e)

-- What a read that shows nothing tells. It answers `not available`, and leaves no receipt, exactly
-- when the artefact of that id, if there is one and the member owns it, is outside the kinds or the
-- ceiling of the governor's guardianship: one that does not exist, one of another member and one
-- that is not covered are answered alike. It answers that there is no edge, or that the edge has
-- expired, and leaves no receipt, exactly when the member owns the artefact of that id and the read
-- of it is refused so: with no edge or an expired one, the answer tells whether it exists.
pub guardian_read-IsTold :
    (w : Warden) (unseal : Text → Option Text) (sovereign : Option Text) (vault : List Artefact)
    (chain : List SignedRuleset) (governor member id at : Text) (file : ReceiptFile)
    → ((guardian_read w unseal sovereign vault chain governor member id at file
          ≡ (some not_available, file))
        ↔ ((a : Artefact)
            → get_artefact vault id ≡ some a
            → owner_of sovereign a ≡ some member
            → authorize_guardian_read w chain (request_for governor member at a) ≡ out_of_scope))
      × ((g : GuardianRead)
          → (g ≡ no_edge) ⊎ (g ≡ expired)
          → (guardian_read w unseal sovereign vault chain governor member id at file
              ≡ (some (refused g), file))
            ↔ IsTold w unseal sovereign vault chain governor member id at g)
guardian_read-IsTold w unseal sovereign vault chain governor member id at file = (
  (
    λ h a on owned.
        read_authorized-not_available w unseal sovereign vault chain governor member id at
          (authorize_guardian_read w chain (request_for governor member at a)) a
          (receipt_for governor member at a id) file
          (ap (λ x. x.0)
            (sym (
                guardian_read-found w unseal sovereign vault chain governor member id at a file on
                  owned)
              ∙ h)),
    hidden-not_available w unseal sovereign vault chain governor member id at file,
  ),
  λ g kind. (
    λ h.
        refused-IsTold w unseal sovereign vault chain governor member id at file g
          (ap (λ x. x.0) h),
    IsTold-refused w unseal sovereign vault chain governor member id at file g kind,
  ),
)
