-- ===== src/Domain/Discovery/Candidates.antt =====
-- crates/colui-domain/src/discovery.rs: candidates of the observed groups, their order and their classification.
use Prim.Native.Nat.{Ordering}
use colui.Prelude.{
  ℕ, ◌+◌, Bool, true, false, not, ◌&&◌, ◌||◌, List, [], ◌∷◌, ◌++◌, map, Option, any, filter, length,
  if◌then◌else◌, ltb, unwrap_or, ◌==◌, nat_eq, list_eq, option_eq,
}
use colui.Domain.Text.{Text, Uuids}
use colui.Domain.Inventory.{ComposeObservationGroup, RuntimeSessionId}
use colui.Domain.Order.{
  update_entry, list_order, nat_order, option_order, list_cmp, option_cmp, then_compare,
}
use colui.Domain.Profile.{ProjectProfile}
use colui.Domain.Discovery.Digest.{candidate_id}
use colui.Domain.Discovery.Observations.{
  CandidateId, DiscoveryConflictSource, DiscoveryConflictEvidence, DiscoveryClassification,
  DiscoveryCandidate, NormalizedObservation, NormalizedProfile, is_complete, observation_evidence,
  profile_evidence, u32_of, normalize_observation, normalize_profile, runtime_observation,
  registered_profile, new_unambiguous, name_conflict, incomplete_metadata, already_registered,
}

abbrev placed_by : {A : Type 0} → Ordering → A → A → List A → List A → List A
placed_by Ordering.gt x y ys rest = y ∷ rest
placed_by _ x y ys rest = x ∷ y ∷ ys

-- A stable sort.
module _ {A : Type 0} (cmp : A → A → Ordering) where
  abbrev insert_by : A → List A → List A
  insert_by x [] = x ∷ []
  insert_by x (y ∷ ys) = placed_by (cmp x y) x y ys (insert_by x ys)

  abbrev pub sort_by : List A → List A
  sort_by [] = []
  sort_by (x ∷ xs) = insert_by x (sort_by xs)

abbrev bool_cmp : Bool → Bool → Ordering
bool_cmp true true = Ordering.eq
bool_cmp false false = Ordering.eq
bool_cmp false true = Ordering.lt
bool_cmp true false = Ordering.gt

abbrev observation_cmp : NormalizedObservation → NormalizedObservation → Ordering
observation_cmp a b = then_compare (list_cmp a.name b.name) (
    then_compare (bool_cmp a.valid_name b.valid_name) (
      then_compare (option_cmp a.working_directory b.working_directory) (
        then_compare (list_cmp a.config_files b.config_files)
          (Prim.Native.Nat.compare a.container_count b.container_count))))

abbrev candidate_cmp : DiscoveryCandidate → DiscoveryCandidate → Ordering
candidate_cmp a b = then_compare (list_cmp a.compose_project_name b.compose_project_name) (
    then_compare (option_cmp a.working_directory b.working_directory) (
      then_compare (list_cmp a.config_files b.config_files)
        (list_cmp a.candidate_id b.candidate_id)))

-- Whether the directory and the files of two observations are the same.
abbrev pub same_tuple : Option Text → List Text → NormalizedObservation → Bool
same_tuple directory files o = directory == o.working_directory && files == o.config_files

abbrev pub matches : NormalizedObservation → NormalizedProfile → Bool
matches r p = p.comparable && same_tuple p.working_directory p.config_files r

abbrev pub same_name : NormalizedObservation → NormalizedObservation → Bool
same_name r o = r.valid_name && o.valid_name && o.name == r.name

abbrev pub differs_from : NormalizedObservation → NormalizedObservation → Bool
differs_from r o = not (same_tuple o.working_directory o.config_files r)

abbrev pub runtime_conflict : NormalizedObservation → List NormalizedObservation → Bool
runtime_conflict r observations = any (differs_from r) (filter (same_name r) observations)

abbrev pub profile_conflict : NormalizedObservation → List NormalizedProfile → Bool
profile_conflict r named =
    let count = length (filter (matches r) named) in
    not (length named == 0) && (not (count == length named) || ltb 1 count)

abbrev pub metadata_conflict : NormalizedObservation → List NormalizedObservation → Bool
metadata_conflict r identity = any (λ o. not (o.config_files == r.config_files)) identity

-- The classification of a candidate by its first observation, its other observations, those of all
-- candidates, and the profiles of its name.
unfoldable pub classify :
    NormalizedObservation
    → List NormalizedObservation
    → List NormalizedObservation
    → List NormalizedProfile
    → DiscoveryClassification
classify r identity observations named =
    if not r.valid_name
    then incomplete_metadata
    else if metadata_conflict r identity
    then name_conflict
    else if not (is_complete r)
    then incomplete_metadata
    else if runtime_conflict r observations || profile_conflict r named
    then name_conflict
    else if length (filter (matches r) named) == 1
    then already_registered
    else new_unambiguous

abbrev source_eq : DiscoveryConflictSource → DiscoveryConflictSource → Bool
source_eq runtime_observation runtime_observation = true
source_eq registered_profile registered_profile = true
source_eq _ _ = false

abbrev evidence_eq : DiscoveryConflictEvidence → DiscoveryConflictEvidence → Bool
evidence_eq a b =
    source_eq a.source b.source
    && a.profile_id == b.profile_id
    && a.working_directory == b.working_directory
    && a.config_files == b.config_files

abbrev add_evidence :
    List NormalizedObservation → List DiscoveryConflictEvidence → List DiscoveryConflictEvidence
add_evidence [] conflicts = conflicts
add_evidence (o ∷ os) conflicts = add_evidence os (
    if any (evidence_eq (observation_evidence o)) conflicts
    then conflicts
    else conflicts ++ observation_evidence o ∷ [])

abbrev is_name_conflict : DiscoveryClassification → Bool
is_name_conflict name_conflict = true
is_name_conflict _ = false

abbrev evidence_of :
    NormalizedObservation
    → List NormalizedObservation
    → List NormalizedObservation
    → List NormalizedProfile
    → List DiscoveryConflictEvidence
evidence_of r identity observations named =
    let by_identity : List DiscoveryConflictEvidence =
      if metadata_conflict r identity then add_evidence identity [] else [] in
    let by_runtime : List DiscoveryConflictEvidence =
      if runtime_conflict r observations
      then add_evidence (filter (differs_from r) (filter (same_name r) observations)) by_identity
      else by_identity in
    if profile_conflict r named then by_runtime ++ map profile_evidence named else by_runtime

abbrev conflicts_of :
    DiscoveryClassification → List DiscoveryConflictEvidence → List DiscoveryConflictEvidence
conflicts_of c evidence = if is_name_conflict c then evidence else []

abbrev saturating_sum : ℕ → List NormalizedObservation → ℕ
saturating_sum count [] = count
saturating_sum count (o ∷ os) = saturating_sum (u32_of (count + o.container_count)) os

-- The candidate of the observations with one id, the first of which stands for them.
unfoldable pub candidate_of :
    RuntimeSessionId
    → ℕ
    → List NormalizedObservation
    → List NormalizedProfile
    → CandidateId
    → NormalizedObservation
    → List NormalizedObservation
    → DiscoveryCandidate
unfolding classify
candidate_of session generation observations named id r others =
    let identity = r ∷ others in
    let c = classify r identity observations named in
    record {
      candidate_id = id;
      runtime_session_id = session;
      inventory_generation = generation;
      compose_project_name = r.name;
      working_directory = r.working_directory;
      config_files = r.config_files;
      container_count = saturating_sum 0 identity;
      classification = c;
      conflicts = conflicts_of c (evidence_of r identity observations named);
      ignored = false;
    }

abbrev pub push_observation :
    NormalizedObservation → Option (List NormalizedObservation) → List NormalizedObservation
push_observation o old = unwrap_or old [] ++ o ∷ []

abbrev by_identity :
    RuntimeSessionId
    → List NormalizedObservation
    → List (CandidateId × List NormalizedObservation)
    → List (CandidateId × List NormalizedObservation)
by_identity session [] m = m
by_identity session (o ∷ os) m =
    by_identity session os
      (update_entry (candidate_id session o.name o.working_directory) (push_observation o) m)

module _ ⦃u : Uuids⦄ where
  abbrev profile_cmp : NormalizedProfile → NormalizedProfile → Ordering
  profile_cmp a b = then_compare (option_cmp a.working_directory b.working_directory) (
      then_compare (list_cmp a.config_files b.config_files)
        (list_cmp (u.to_text a.profile_id) (u.to_text b.profile_id)))

  -- The profiles of a name, in their order.
  abbrev named_profiles : Text → List ProjectProfile → List NormalizedProfile
  named_profiles name profiles =
      sort_by profile_cmp
        (map normalize_profile (filter (λ p. p.compose_project_name == name) profiles))

  abbrev candidates_from :
      RuntimeSessionId
      → ℕ
      → List NormalizedObservation
      → List ProjectProfile
      → List (CandidateId × List NormalizedObservation)
      → List DiscoveryCandidate
  candidates_from session generation observations profiles [] = []
  candidates_from session generation observations profiles ((id, []) ∷ m) =
      candidates_from session generation observations profiles m
  candidates_from session generation observations profiles ((id, r ∷ others) ∷ m) =
      candidate_of session generation observations (named_profiles r.name profiles) id r others
      ∷ candidates_from session generation observations profiles m

  unfoldable pub classify_candidates :
      RuntimeSessionId
      → ℕ
      → List ComposeObservationGroup
      → List ProjectProfile
      → List DiscoveryCandidate
  unfolding candidate_of
  classify_candidates session generation groups profiles =
      let observations = sort_by observation_cmp (map normalize_observation groups) in
      sort_by candidate_cmp (
        candidates_from session generation observations profiles
          (by_identity session observations []))
