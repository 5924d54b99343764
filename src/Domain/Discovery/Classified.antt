-- ===== src/Domain/Discovery/Classified.antt =====
-- What the classes of candidates mean (crates/colui-domain/src/discovery.rs).
use colui.Prelude.{
  ◌≡◌, ◌↔◌, refl, Bool, true, not, ◌&&◌, List, [], ◌∷◌, any, filter, length, arith, ◌==◌, nat_eq,
  list_eq, length-filter-le,
}
use colui.Domain.Discovery.Observations.{
  NormalizedObservation, NormalizedProfile, already_registered, new_unambiguous, is_complete,
}
use colui.Domain.Discovery.Candidates.{
  classify, same_name, differs_from, matches, metadata_conflict,
}

-- A search in a filtered list.
any-filter :
    (p q : NormalizedObservation → Bool) (os : List NormalizedObservation)
    → any p (filter q os) ≡ any (λ o. q o && p o) os
any-filter p q [] = refl
any-filter p q (o ∷ os) = ground (arith, any-filter p q os)

-- Whether another observation of the name has another directory or other files.
abbrev pub contradicted : NormalizedObservation → List NormalizedObservation → Bool
contradicted r os = any (λ o. same_name r o && differs_from r o) os

module _ (r : NormalizedObservation) (identity observations : List NormalizedObservation)
    (named : List NormalizedProfile) where
  -- A candidate is new exactly when its name is valid, its directory and files are known, no
  -- observation contradicts it, and no profile has its name. It is registered exactly when the same
  -- holds but one profile has its name, and that one has its directory and files.
  pub classify_iff :
      ((classify r identity observations named ≡ new_unambiguous) ↔ (
        (is_complete r
          && not (metadata_conflict r identity)
          && not (contradicted r observations)
          && length named == 0)
        ≡ true))
      × ((classify r identity observations named ≡ already_registered) ↔ (
          (is_complete r
            && not (metadata_conflict r identity)
            && not (contradicted r observations)
            && length named == 1
            && length (filter (matches r) named) == 1)
          ≡ true))
  unfolding classify
  classify_iff =
      let contradicts = any-filter (differs_from r) (same_name r) observations in
      let matching = length-filter-le (matches r) named in
      (ground (arith, contradicts, matching), ground (arith, contradicts, matching))
