-- ===== src/Adapters/Registry/RoundTrip.antt =====
-- The registry's format (crates/colui-adapters/src/registry/format.rs): what is read is well-formed,
-- and what is written is read back.
use colui.Prelude.{
  ◌≡◌, ◌↔◌, refl, ap, ◌∙◌, Bool, true, not, ◌&&◌, List, [], ◌∷◌, map, ok, any, all, arith, ◌==◌,
  nat_eq, eqb_iff, Result-cases, inl, inr, is_ok,
}
use colui.Domain.Text.{Text, Uuids}
use colui.Domain.AppError.{ProfileId}
use colui.Domain.Profile.{ProjectProfile, validate_draft}
use colui.App.Profiles.Mutations.{RegistrySnapshot, has_id}
use colui.App.Profiles.Lists.{is_unique}
use colui.App.Profiles.Validity.{WellFormed, is_valid, draft_of}
use colui.Adapters.Registry.Format.{
  Serde, ReadsBack, to_registry, from_registry, validate_profiles, validate_snapshot, decode,
  decode_file, encode, snapshot_of, file_of,
}

-- No profile has an id that was seen.
abbrev unseen : List ProfileId → ProjectProfile → Bool
unseen ids p = not (any (λ id. id == p.id) ids)

all-unseen :
    (id : ProfileId) (ids : List ProfileId) (ps : List ProjectProfile)
    → all (unseen (id ∷ ids)) ps ≡ (not (any (has_id id) ps) && all (unseen ids) ps)
all-unseen id ids [] = refl
all-unseen id ids (p ∷ ps) = ground (arith, all-unseen id ids ps, eqb_iff id p.id, eqb_iff p.id id)

module _ ⦃u : Uuids⦄ where
  validate_profiles-eq :
      (ids : List ProfileId) (ps : List ProjectProfile)
      → is_ok (validate_profiles ids ps) ≡ (is_unique ps && all is_valid ps && all (unseen ids) ps)
  unfolding validate_profiles is_unique
  validate_profiles-eq ids [] = refl
  validate_profiles-eq ids (p ∷ ps) = elim (Result-cases (validate_draft (draft_of p))) [
    | inl (a, e) ↦ ground (arith, validate_profiles-eq (p.id ∷ ids) ps, all-unseen p.id ids ps)
    | inr (a, e) ↦ ground (arith, validate_profiles-eq (p.id ∷ ids) ps, all-unseen p.id ids ps)
  ]

  all-unseen_nothing : (ps : List ProjectProfile) → all (unseen []) ps ≡ true
  all-unseen_nothing [] = refl
  all-unseen_nothing (p ∷ ps) = all-unseen_nothing ps

  -- The validation of a snapshot accepts exactly the well-formed ones.
  pub validate_snapshot_iff : (s : RegistrySnapshot) → (validate_snapshot s ≡ ok tt) ↔ WellFormed s
  unfolding validate_snapshot
  validate_snapshot_iff s = elim (Result-cases (validate_profiles [] s.profiles)) [
    | inl (a, e) ↦ ground (arith, validate_profiles-eq [] s.profiles, all-unseen_nothing s.profiles)
    | inr (a, e) ↦ ground (arith, validate_profiles-eq [] s.profiles, all-unseen_nothing s.profiles)
  ]

  map-from_registry : (ps : List ProjectProfile) → map from_registry (map to_registry ps) ≡ ps
  map-from_registry [] = refl
  map-from_registry (p ∷ ps) = ap (λ l. p ∷ l) (map-from_registry ps)

  -- A registry that is read is well-formed.
  pub decode-WellFormed :
      (s : Serde) (content : Text) (t : RegistrySnapshot) → decode s content ≡ ok t → WellFormed t
  unfolding decode
  decode-WellFormed s content t h = elim (Result-cases (s.from_slice content)) [
    | inl (file, e) ↦ elim (Result-cases (validate_snapshot (snapshot_of file))) [
      | inl (_, f) ↦ ground (arith, (validate_snapshot_iff (snapshot_of file)).0)
      | inr (a, f) ↦ ground arith
    ]
    | inr (a, e) ↦ ground arith
  ]

  snapshot_of-file_of : (t : RegistrySnapshot) → snapshot_of (file_of t) ≡ t
  snapshot_of-file_of t =
      ap (λ ps. record { registry_revision = t.registry_revision; profiles = ps })
        (map-from_registry t.profiles)

  decode_file-file_of : (t : RegistrySnapshot) → WellFormed t → decode_file (ok (file_of t)) ≡ ok t
  decode_file-file_of t w = rw (snapshot_of-file_of t, (validate_snapshot_iff t).1 w) refl

  -- What is encoded of a well-formed snapshot is decoded to the same snapshot.
  pub decode-encode :
      (s : Serde) (t : RegistrySnapshot) (content : Text)
      → ReadsBack s
      → WellFormed t
      → encode s t ≡ ok content
      → decode s content ≡ ok t
  unfolding encode decode
  decode-encode s t content reads w h = elim (Result-cases (s.to_vec_pretty (file_of t))) [
    | inl (c, e) ↦
        let same : c ≡ content = ground arith in
        ap decode_file (reads (file_of t) content (e ∙ ap ok same)) ∙ decode_file-file_of t w
    | inr (a, e) ↦ ground arith
  ]
