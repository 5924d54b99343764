-- ===== src/Domain/Discovery/Tests.antt =====
-- Candidates (crates/colui-domain/src/discovery.rs) of small groups.
use colui.Prelude.{
  ◌≡◌, ◌↔◌, refl, true, not, ◌&&◌, [], ◌∷◌, some, length, filter, nat_eq, ◌==◌, arith,
}
use colui.Domain.Text.{bytes}
use colui.Domain.Discovery.Encoding.{encode_candidate-injective}
use colui.Domain.Discovery.Observations.{
  NormalizedObservation, NormalizedProfile, new_unambiguous, already_registered, is_complete,
}
use colui.Domain.Discovery.Candidates.{classify, metadata_conflict, matches}
use colui.Domain.Discovery.Classified.{contradicted, classify_iff}

abbrev web : NormalizedObservation
web = record {
  name = bytes "web";
  valid_name = true;
  working_directory = some (bytes "/srv/web");
  config_files = bytes "/srv/web/compose.yaml" ∷ [];
  container_count = 2;
}

abbrev profile : NormalizedProfile
profile = record {
  profile_id = 7;
  working_directory = some (bytes "/srv/web");
  config_files = bytes "/srv/web/compose.yaml" ∷ [];
  comparable = true;
}

classify_iff_example :
    ((classify web (web ∷ []) (web ∷ []) (profile ∷ []) ≡ new_unambiguous) ↔ (
      (is_complete web
        && not (metadata_conflict web (web ∷ []))
        && not (contradicted web (web ∷ []))
        && length (profile ∷ []) == 0)
      ≡ true))
    × ((classify web (web ∷ []) (web ∷ []) (profile ∷ []) ≡ already_registered) ↔ (
        (is_complete web
          && not (metadata_conflict web (web ∷ []))
          && not (contradicted web (web ∷ []))
          && length (profile ∷ []) == 1
          && length (filter (matches web) (profile ∷ [])) == 1)
        ≡ true))
classify_iff_example = classify_iff web (web ∷ []) (web ∷ []) (profile ∷ [])

encode_candidate-injective_example :
    (bytes "web" ≡ bytes "web") × (some (bytes "/srv") ≡ some (bytes "/srv"))
encode_candidate-injective_example =
    encode_candidate-injective 5 (bytes "web") (bytes "web") (some (bytes "/srv"))
      (some (bytes "/srv")) (omega arith) (omega arith) (omega arith) (omega arith) refl
