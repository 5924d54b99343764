-- ===== src/Domain/Discovery/Observations.antt =====
-- crates/colui-domain/src/discovery.rs: observed groups and profiles in one form.
use colui.Prelude.{
  ℕ, Bool, true, false, ◌&&◌, List, [], ◌∷◌, ◌++◌, Option, none, some, any, all, length,
  if◌then◌else◌, leb, u32_max, is_some, is_ok, ◌==◌, nat_eq, list_eq, option_eq,
}
use colui.Domain.Text.{Text}
use colui.Domain.AppError.{ProfileId}
use colui.Domain.FilePath.{
  FilePath, Component, parent_dir, normal, is_absolute, components, push, pop_absolute, to_str,
}
use colui.Domain.Identity.{compose_project_name}
use colui.Domain.Inventory.{ComposeObservationGroup, RuntimeSessionId}
use colui.Domain.Order.{list_order, nat_order, option_order}
use colui.Domain.Profile.{ProjectProfile}
use colui.Domain.Trim.{trim}

abbrev pub CandidateId : Type 0
CandidateId = Text

pub data DiscoveryConflictSource : Type 0 where
  runtime_observation registered_profile : DiscoveryConflictSource

pub record DiscoveryConflictEvidence : Type 0 where
  pub source : DiscoveryConflictSource
  pub profile_id : Option ProfileId
  pub working_directory : Option Text
  pub config_files : List Text

pub data DiscoveryClassification : Type 0 where
  new_unambiguous name_conflict incomplete_metadata already_registered : DiscoveryClassification

pub record DiscoveryCandidate : Type 0 where
  pub candidate_id : CandidateId
  pub runtime_session_id : RuntimeSessionId
  pub inventory_generation : ℕ
  pub compose_project_name : Text
  pub working_directory : Option Text
  pub config_files : List Text
  pub container_count : ℕ
  pub classification : DiscoveryClassification
  pub conflicts : List DiscoveryConflictEvidence
  pub ignored : Bool

pub record NormalizedObservation : Type 0 where
  pub name : Text
  pub valid_name : Bool
  pub working_directory : Option Text
  pub config_files : List Text
  pub container_count : ℕ

pub record NormalizedProfile : Type 0 where
  pub profile_id : ProfileId
  pub working_directory : Option Text
  pub config_files : List Text
  pub comparable : Bool

abbrev pub is_nonempty : List Text → Bool
is_nonempty [] = false
is_nonempty (f ∷ fs) = true

-- `NormalizedObservation::is_complete`
abbrev pub is_complete : NormalizedObservation → Bool
is_complete o = o.valid_name && is_some o.working_directory && is_nonempty o.config_files

abbrev pub observation_evidence : NormalizedObservation → DiscoveryConflictEvidence
observation_evidence o = record {
  source = runtime_observation;
  profile_id = none;
  working_directory = o.working_directory;
  config_files = o.config_files;
}

abbrev pub profile_evidence : NormalizedProfile → DiscoveryConflictEvidence
profile_evidence p = record {
  source = registered_profile;
  profile_id = some p.profile_id;
  working_directory = p.working_directory;
  config_files = p.config_files;
}

abbrev pub push_part : FilePath → Component → FilePath
push_part normalized parent_dir = pop_absolute normalized
push_part normalized (normal value) = push normalized value
push_part normalized _ = normalized

abbrev pub push_parts : FilePath → List Component → FilePath
push_parts normalized [] = normalized
push_parts normalized (c ∷ cs) = push_parts (push_part normalized c) cs

unfoldable pub normalize_absolute : FilePath → Option Text
normalize_absolute path =
    if is_absolute path then to_str (push_parts (b'/' ∷ []) (components path)) else none

abbrev pub absolute_of : Option Text → Text → Option Text
absolute_of directory path =
    if is_absolute path
    then normalize_absolute path
    else elim directory [ none ↦ none | some d ↦ normalize_absolute (push d path) ]

abbrev pub add_file : Option Text → List Text → List Text
add_file none files = files
add_file (some f) files = if any (λ g. g == f) files then files else files ++ f ∷ []

-- The loop of `normalize_files`, with the files so far.
unfoldable pub files_from : Option Text → List Text → List Text → List Text
files_from directory normalized [] = normalized
files_from directory normalized (f ∷ fs) = elim (trim f == []) [
  | true ↦ files_from directory normalized fs
  | false ↦ files_from directory (add_file (absolute_of directory (trim f)) normalized) fs
]

unfoldable pub normalize_files : Option Text → List Text → List Text
unfolding files_from
normalize_files directory files = files_from directory [] files

abbrev pub u32_of : ℕ → ℕ
u32_of n = if leb n u32_max then n else u32_max

abbrev pub and_normalized : Option Text → Option Text
and_normalized none = none
and_normalized (some value) = normalize_absolute (trim value)

unfoldable pub normalize_observation : ComposeObservationGroup → NormalizedObservation
unfolding normalize_files normalize_absolute
normalize_observation group =
    let directory = and_normalized group.working_directory in
    record {
      name = trim group.compose_project_name;
      valid_name = is_ok (compose_project_name (trim group.compose_project_name));
      working_directory = directory;
      config_files = normalize_files directory group.config_files;
      container_count = u32_of (length group.container_ids);
    }

abbrev pub text_directory : Option Text → Option Text
text_directory none = none
text_directory (some value) = normalize_absolute value

unfoldable pub normalize_profile : ProjectProfile → NormalizedProfile
unfolding normalize_files normalize_absolute
normalize_profile profile =
    let directory = text_directory (to_str profile.working_directory) in
    let readable = all (λ p. is_some (to_str p)) profile.compose_files in
    let files : List Text =
      if is_some directory && readable
      then normalize_files directory profile.compose_files
      else [] in
    record {
      profile_id = profile.id;
      working_directory = directory;
      config_files = files;
      comparable = is_some directory && readable && is_nonempty files;
    }
