-- ===== src/Domain/Profile/Validation.antt =====
-- What a draft must be to pass `validate_draft` (crates/colui-domain/src/profile.rs).
use mathlib.Core.List.{
  Mem, Mem-prop, Nodup, Nodup-cons, Nodup-nil, mem-cons, mem-cons_self, mem-cons_of_mem,
  not-mem-nil,
}
use mathlib.Core.Logic.Or
use mathlib.Core.HLevel.{⊥_prop}
use colui.Prelude.{
  ◌≡◌, refl, subst, ◌≢◌, ◌↔◌, true, false, List, [], ◌∷◌, ◌++◌, map, ok, any, arith, list_eq,
  Bool-cases, eq_true, eq_self, inl, inr,
}
use colui.Domain.Text.{Uuids}
use colui.Domain.FilePath.{FilePath, Component, component_eq, components, path_eq}
use colui.Domain.Profile.Defs.{ProfileDraft, is_empty, has_duplicate, validate_draft}

-- A set of paths holds a path if it holds one with the same components.
any-path_eq :
    (p : FilePath) (ps : List FilePath)
    → (any (path_eq p) ps ≡ true) ↔ Mem (components p) (map components ps)
any-path_eq p [] = (λ h. cc, λ m. absurd (not-mem-nil m))
any-path_eq p (q ∷ qs) = elim (Bool-cases (path_eq p q)) [
  | inl same ↦ (λ h. rw (eq_true (components p) (components q) same) mem-cons_self, λ m. rw same)
  | inr other ↦ (
    λ h. mem-cons_of_mem _ ((any-path_eq p qs).0 (rw other at h)),
    λ m. rw other (
        (any-path_eq p qs).1 (
          Or.elim Mem-prop (mem-cons.0 m) (λ e. cc (eq_self (components q), e, other))
            (λ tail. tail))),
  )
]

abbrev Distinct : List FilePath → List FilePath → Type 0
Distinct seen ps =
    Nodup (map components ps)
    × ((c : List Component) → Mem c (map components ps) → ¬ Mem c (map components seen))

-- A list of paths without a duplicate is distinct, and apart from the paths seen before.
has_duplicate-Distinct :
    (seen ps : List FilePath) → has_duplicate seen ps ≡ false → Distinct seen ps
unfolding has_duplicate
has_duplicate-Distinct seen [] h = (Nodup-nil, λ c m. absurd (not-mem-nil m))
has_duplicate-Distinct seen (p ∷ ps) h = elim (Bool-cases (any (path_eq p) seen)) [
  | inl old ↦ cc (rw old at h)
  | inr new ↦
      let (nodup, apart) = has_duplicate-Distinct (p ∷ seen) ps (rw new at h) in
      (
        Nodup-cons.1 (λ m. apart (components p) m mem-cons_self, nodup),
        λ c m old.
            Or.elim ⊥_prop (mem-cons.0 m)
              (λ e.
                cc (new, (any-path_eq p seen).1 (subst (λ x. Mem x (map components seen)) e old)))
              (λ tail. apart c tail (mem-cons_of_mem _ old)),
      )
]

Distinct-has_duplicate :
    (seen ps : List FilePath) → Distinct seen ps → has_duplicate seen ps ≡ false
unfolding has_duplicate
Distinct-has_duplicate seen [] d = refl
Distinct-has_duplicate seen (p ∷ ps) (nodup, apart) = elim (Bool-cases (any (path_eq p) seen)) [
  | inl old ↦ absurd (apart (components p) mem-cons_self ((any-path_eq p seen).0 old))
  | inr new ↦
      let (fresh, rest) = Nodup-cons.0 nodup in
      rw new (
        Distinct-has_duplicate (p ∷ seen) ps (
          rest,
          λ c m old.
              Or.elim ⊥_prop (mem-cons.0 old)
                (λ e. fresh (subst (λ x. Mem x (map components ps)) e m))
                (λ tail. apart c (mem-cons_of_mem _ m) tail),
        ))
]

is_empty-eq-true : (ps : List FilePath) → (is_empty ps ≡ true) ↔ (ps ≡ [])
is_empty-eq-true [] = ground arith
is_empty-eq-true (p ∷ ps) = ground arith

module _ ⦃u : Uuids⦄ (draft : ProfileDraft) where
  -- A draft passes validation exactly when it has a Compose file and no two of its Compose and
  -- environment files have the same components, however they are spelled.
  pub validate_draft_iff : (validate_draft draft ≡ ok tt) ↔ (
      (draft.compose_files ≢ [])
      × Nodup (map components (draft.compose_files ++ draft.environment_files)))
  unfolding validate_draft
  validate_draft_iff = (
    λ h. (
      ground (arith, is_empty-eq-true draft.compose_files),
      (has_duplicate-Distinct [] (draft.compose_files ++ draft.environment_files) (ground arith)).0,
    ),
    λ (present, nodup). ground (
      arith,
      is_empty-eq-true draft.compose_files,
      Distinct-has_duplicate [] (draft.compose_files ++ draft.environment_files)
          (nodup, λ c m. not-mem-nil),
    ),
  )
