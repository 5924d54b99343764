-- ===== src/App/Profiles/Outcomes.antt =====
-- What the caller of an operation of crates/colui-app/src/profiles.rs is told, against what the
-- store keeps.
use colui.Prelude.{
  false, Option, none, List, [], ◌∷◌, Bool-cases, ◌==◌, refl, is_ok, ℕ, ◌≡◌, ◌∙◌, sym, ap, true,
  some, Result, ok, err, Result-cases, inl, inr, arith, find, subst, String, nat_eq, eqb_iff,
  Option-cases,
}
use colui.Domain.Text.{Uuids}
use colui.Domain.AppError.{AppError, ProfileId}
use colui.Domain.Profile.{ProfileDraft, ProjectProfile, from_draft, profile_of_draft}
use colui.Domain.Profile.Equality.{profile_eq, profiles_eq}
use colui.App.Profiles.Mutations.{RegistrySnapshot, ProfilePatch, get_profile, has_id}
use colui.App.Profiles.Lists.{is_unique}
use colui.App.Profiles.Validity.{Mutation, apply_mutation, create, update, remove}
use colui.App.Profiles.Lookup.{view, effect, allows, apply_mutation-view, apply_mutation-allows}
use colui.App.Profiles.Services.{Services, StoreLaws}
use colui.App.Profiles.Operations.{
  guarded, create_profile, update_profile, remove_profile, get_stored_profile,
}

abbrev revision_in : Option ProjectProfile → Option ℕ
revision_in none = none
revision_in (some p) = some p.revision

profiles_eq-revision :
    (id : ProfileId) (ps qs : List ProjectProfile)
    → profiles_eq ps qs ≡ true
    → revision_in (find (has_id id) ps) ≡ revision_in (find (has_id id) qs)
unfolding profiles_eq profile_eq
profiles_eq-revision id [] [] h = refl
profiles_eq-revision id [] (q ∷ qs) h = cc
profiles_eq-revision id (p ∷ ps) [] h = cc
profiles_eq-revision id (p ∷ ps) (q ∷ qs) h =
    let same_id : p.id ≡ q.id = (eqb_iff p.id q.id).0 (ground arith) in
    let same_revision : p.revision ≡ q.revision =
      (eqb_iff p.revision q.revision).0 (ground arith) in
    let more = profiles_eq-revision id ps qs (ground arith) in
    elim (Bool-cases (p.id == id)) [
      | inl e ↦ let e' = rw same_id at e in rw (e, e') (ap some same_revision)
      | inr e ↦ let e' = rw same_id at e in rw (e, e') more
    ]

unlike :
    ⦃u : Uuids⦄ (m : Mutation) (s made : RegistrySnapshot)
    → allows m (view s) ≡ true
    → ((j : ProfileId) → view made j ≡ effect m (view s) j)
    → ((id : ProfileId) → revision_in (view made id) ≡ revision_in (view s id))
    → ⊥
unlike (create id draft) s made a v r = ground (arith, v id, r id, eqb_iff id id)
unlike (update id expected patch) s made a v r = elim (Option-cases (find (has_id id) s.profiles)) [
  | inl e ↦ ground arith
  | inr (c, e) ↦ ground (arith, v id, r id, eqb_iff id id)
]
unlike (remove id expected) s made a v r = elim (Option-cases (find (has_id id) s.profiles)) [
  | inl e ↦ ground arith
  | inr (c, e) ↦ ground (arith, v id, r id, eqb_iff id id)
]

-- A change that succeeds makes profiles that Rust does not take for those before.
apply_mutation-differs :
    ⦃u : Uuids⦄ (m : Mutation) (s made : RegistrySnapshot)
    → is_unique s.profiles ≡ true
    → apply_mutation m s ≡ ok made
    → profiles_eq made.profiles s.profiles ≡ false
apply_mutation-differs m s made h changed =
    elim (Bool-cases (profiles_eq made.profiles s.profiles)) [
      | inr e ↦ e
      | inl e ↦
          let allowed = apply_mutation-allows m s in
          absurd (
            unlike m s made
              (let ok_now : is_ok (apply_mutation m s) ≡ true = rw changed refl in ground arith)
              (apply_mutation-view m s made h changed).0
              (λ id. profiles_eq-revision id made.profiles s.profiles e))
    ]

module _ {W : Type 0} (services : Services W) (laws : StoreLaws services) ⦃u : Uuids⦄ where
  -- A guarded mutation that returns has stored what the mutation made of the stored snapshot.
  guarded-ok :
      {A : Type 0} (f : RegistrySnapshot → Result AppError RegistrySnapshot)
      (finish : RegistrySnapshot → Result AppError A) (s : RegistrySnapshot)
      (r : Result AppError (Unit {0}) × W) (a : A)
      → laws.stored r.1 ≡ s
      → ((made : RegistrySnapshot) → f s ≡ ok made → profiles_eq made.profiles s.profiles ≡ false)
      → (guarded services f finish r).0 ≡ ok a
      → (t : RegistrySnapshot) × (made : RegistrySnapshot) × ((f s ≡ ok made)
          × ((made.profiles ≡ t.profiles)
              × ((finish t ≡ ok a) × (laws.stored (guarded services f finish r).1 ≡ t))))
  guarded-ok f finish s (err e, w) a same differs h = cc
  guarded-ok f finish s (ok entered, w) a same differs h =
      elim (Result-cases (services.mutate f w).0) [
        | inl (t, e) ↦
            let (made, (changed, (alike, keeps))) = laws.mutate_ok f w t e in
            let changed' : f s ≡ ok made = subst (λ z. f z ≡ ok made) same changed in
            let kept : laws.stored (services.mutate f w).1 ≡ t = elim keeps [
              | inl k ↦ k
              | inr (alike', k) ↦ let no = differs made changed' in cc (rw same at alike')
            ] in
            (t, made, (changed', (alike, (cc (rw e at h), laws.drop_stored _ ∙ kept))))
        | inr (x, e) ↦ cc (rw e at h)
      ]

  alike-view :
      (made t : RegistrySnapshot) (j : ProfileId)
      → made.profiles ≡ t.profiles
      → view t j ≡ view made j
  alike-view made t j alike = ap (λ ps. find (has_id j) ps) (sym alike)

  get-ok :
      (operation : String) (id : ProfileId) (t : RegistrySnapshot) (p : ProjectProfile)
      → get_profile operation id t ≡ ok p
      → view t id ≡ some p
  unfolding get_profile
  get-ok operation id t p h = elim (Option-cases (find (has_id id) t.profiles)) [
    | inl e ↦ cc (rw e at h)
    | inr (q, e) ↦ ground arith
  ]

  -- On a store that keeps its laws and has one profile of each id, a created profile is returned as
  -- it is stored: the draft's profile under the generated id, with every other id as before.
  pub create_profile-ok :
      (draft : ProfileDraft) (w : W) (p : ProjectProfile)
      → is_unique (laws.stored w).profiles ≡ true
      → (create_profile services draft w).0 ≡ ok p
      → (p ≡ profile_of_draft (services.generate w).0 draft)
        × ((j : ProfileId)
            → view (laws.stored (create_profile services draft w).1) j
              ≡ effect (create (services.generate w).0 draft) (view (laws.stored w)) j)
  unfolding create_profile apply_mutation
  create_profile-ok draft w p h k =
      let (id, v) = services.generate w in
      elim (Result-cases (from_draft (services.generate w).0 draft)) [
        | inl (q, e) ↦ rw e (
            let (t, made, (changed, (alike, (got, kept)))) =
              guarded-ok _ _ (laws.stored w) (services.acquire_mutation (services.generate w).1) p
                (laws.acquire_stored _ ∙ laws.generate_stored w)
                (λ made c.
                  apply_mutation-differs (create (services.generate w).0 draft) (laws.stored w) made
                    h (rw e c))
                (rw e at k) in
            let (views, _) =
              apply_mutation-view (create (services.generate w).0 draft) (laws.stored w) made h
                (rw e changed) in
            (
              ground (
                arith,
                get-ok "create_profile" id t p got,
                alike-view made t id alike,
                views id,
                eqb_iff id id,
              ),
              λ j. rw kept (alike-view made t j alike ∙ views j),
            ))
        | inr (x, e) ↦ cc (rw e at k)
      ]

  -- On a store that keeps its laws and has one profile of each id, an updated profile is returned as
  -- it is stored, and the update has had its effect on the stored map and no other.
  pub update_profile-ok :
      (id : ProfileId) (expected : ℕ) (patch : ProfilePatch) (w : W) (p : ProjectProfile)
      → is_unique (laws.stored w).profiles ≡ true
      → (update_profile services id expected patch w).0 ≡ ok p
      → (view (laws.stored (update_profile services id expected patch w).1) id ≡ some p)
        × ((j : ProfileId)
            → view (laws.stored (update_profile services id expected patch w).1) j
              ≡ effect (update id expected patch) (view (laws.stored w)) j)
  unfolding update_profile apply_mutation
  update_profile-ok id expected patch w p h k =
      let (t, made, (changed, (alike, (got, kept)))) =
        guarded-ok _ _ (laws.stored w) (services.acquire_mutation w) p (laws.acquire_stored _)
          (λ made c. apply_mutation-differs (update id expected patch) (laws.stored w) made h c)
          k in
      let (views, _) =
        apply_mutation-view (update id expected patch) (laws.stored w) made h changed in
      (
        rw kept (get-ok "update_profile" id t p got),
        λ j. rw kept (alike-view made t j alike ∙ views j),
      )

  -- On a store that keeps its laws and has one profile of each id, a removal that succeeds has taken
  -- the profile, and no other, out of the stored map.
  pub remove_profile-ok :
      (id : ProfileId) (expected : ℕ) (w : W)
      → is_unique (laws.stored w).profiles ≡ true
      → (remove_profile services id expected w).0 ≡ ok tt
      → (j : ProfileId)
      → view (laws.stored (remove_profile services id expected w).1) j
        ≡ effect (remove id expected) (view (laws.stored w)) j
  unfolding remove_profile apply_mutation
  remove_profile-ok id expected w h k j =
      let (t, made, (changed, (alike, (got, kept)))) =
        guarded-ok _ _ (laws.stored w) (services.acquire_mutation w) tt (laws.acquire_stored _)
          (λ made c. apply_mutation-differs (remove id expected) (laws.stored w) made h c) k in
      rw kept (
        alike-view made t j alike
        ∙ (apply_mutation-view (remove id expected) (laws.stored w) made h changed).0 j)

  -- On a store that keeps its laws, a profile that is returned by its id is the stored one.
  pub get_stored_profile-ok :
      (id : ProfileId) (w : W) (p : ProjectProfile)
      → (get_stored_profile services id w).0 ≡ ok p
      → view (laws.stored w) id ≡ some p
  unfolding get_stored_profile
  get_stored_profile-ok id w p h = elim (Result-cases (services.load w).0) [
    | inl (t, e) ↦
        let same = laws.load_ok w t e in
        subst (λ z. view z id ≡ some p) same (get-ok "get_profile" id t p (rw e at h))
    | inr (x, e) ↦ cc (rw e at h)
  ]
