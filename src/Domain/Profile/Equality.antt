-- ===== src/Domain/Profile/Equality.antt =====
-- The derived equality of `ProjectProfile` (crates/colui-domain/src/profile.rs).
use colui.Prelude.{Bool, true, false, ◌&&◌, List, [], ◌∷◌, ◌==◌, nat_eq, list_eq}
use colui.Domain.FilePath.{FilePath, path_eq}
use colui.Domain.Profile.{ProjectProfile, RegistrationOrigin}

-- The derived equality of profiles, where paths are equal if their components are.
abbrev pub origin_eq : RegistrationOrigin → RegistrationOrigin → Bool
origin_eq RegistrationOrigin.manual RegistrationOrigin.manual = true
origin_eq RegistrationOrigin.discovered RegistrationOrigin.discovered = true
origin_eq RegistrationOrigin.migrated RegistrationOrigin.migrated = true
origin_eq _ _ = false

abbrev pub paths_eq : List FilePath → List FilePath → Bool
paths_eq [] [] = true
paths_eq [] (q ∷ qs) = false
paths_eq (p ∷ ps) [] = false
paths_eq (p ∷ ps) (q ∷ qs) = path_eq p q && paths_eq ps qs

unfoldable pub profile_eq : ProjectProfile → ProjectProfile → Bool
profile_eq p q =
    p.id == q.id
    && p.revision == q.revision
    && p.display_name == q.display_name
    && p.compose_project_name == q.compose_project_name
    && path_eq p.working_directory q.working_directory
    && paths_eq p.compose_files q.compose_files
    && paths_eq p.environment_files q.environment_files
    && origin_eq p.registration_origin q.registration_origin

unfoldable pub profiles_eq : List ProjectProfile → List ProjectProfile → Bool
unfolding profile_eq
profiles_eq [] [] = true
profiles_eq [] (q ∷ qs) = false
profiles_eq (p ∷ ps) [] = false
profiles_eq (p ∷ ps) (q ∷ qs) = profile_eq p q && profiles_eq ps qs
