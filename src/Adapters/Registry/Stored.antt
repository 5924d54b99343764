-- ===== src/Adapters/Registry/Stored.antt =====
-- What `mutate` of crates/colui-adapters/src/registry/format.rs stores.
use colui.Prelude.{
  ◌≡◌, refl, sym, ◌∙◌, ap, inl, inr, Option, ok_or, none, some, Result, ok, err, list_eq, nat_eq,
  arith, Result-cases, Option-cases, Bool-cases,
}
use colui.Prelude.Map.{lookup}
use colui.Domain.Text.{Text, Uuids}
use colui.Domain.FilePath.{FilePath}
use colui.Domain.AppError.{AppError}
use colui.App.Profiles.Mutations.{RegistrySnapshot}
use colui.App.Profiles.Lists.{is_unique}
use colui.App.Profiles.Validity.{WellFormed}
use colui.Adapters.Registry.Disk.{IoError, IoErrorKind, Disk, keep, read, no_such_file, fault_error}
use colui.Adapters.Registry.Frames.{file_call-cases}
use colui.Adapters.Registry.Format.{Serde, decode}
use colui.Adapters.Registry.RoundTrip.{decode-WellFormed}
use colui.Adapters.Registry.Lock.{RegistryConfig}
use colui.Adapters.Registry.Store.{empty_snapshot, load_bytes}

pub read-ok :
    (p : FilePath) (d : Disk) (content : Text)
    → (read p d).0 ≡ ok content
    → lookup p d.files ≡ some content
unfolding read
read-ok p d content h =
    elim (file_call-cases keep (λ d'. (ok_or (lookup p d'.files) no_such_file, d')) d) [
      | inl (e, (rest, f)) ↦ cc (rw f at h)
      | inr (rest, f) ↦ elim (Option-cases (lookup p d.files)) [
        | inl g ↦ cc (rw (f, g) at h)
        | inr (c, g) ↦ let same = rw (f, g) at h in ground arith
      ]
    ]

-- A file is reported as missing only when it is.
pub read-missing :
    (p : FilePath) (d : Disk) (e : IoError)
    → (read p d).0 ≡ err e
    → e.kind ≡ IoErrorKind.not_found
    → lookup p d.files ≡ none
unfolding read
read-missing p d e h k =
    elim (file_call-cases keep (λ d'. (ok_or (lookup p d'.files) no_such_file, d')) d) [
      | inl (e', (rest, f)) ↦
          let same : err (fault_error e') ≡ err e = sym (ap (λ x. x.0) f) ∙ h in
          elim (Bool-cases e'.denied) [ inl g ↦ ground arith | inr g ↦ ground arith ]
      | inr (rest, f) ↦ elim (Option-cases (lookup p d.files)) [
        | inl g ↦ g
        | inr (c, g) ↦ cc (rw (f, g) at h)
      ]
    ]

module _ ⦃u : Uuids⦄ (s : Serde) (config : RegistryConfig) where
  abbrev content_of : Option Text → Result AppError RegistrySnapshot
  content_of none = ok empty_snapshot
  content_of (some content) = decode s content

  -- The snapshot that the registry's file holds; without a file it is empty.
  abbrev pub stored : Disk → Result AppError RegistrySnapshot
  stored d = content_of (lookup config.canonical_path d.files)

  pub stored-WellFormed : (d : Disk) (t : RegistrySnapshot) → stored d ≡ ok t → WellFormed t
  unfolding is_unique
  stored-WellFormed d t h = elim (Option-cases (lookup config.canonical_path d.files)) [
    | inl e ↦ let same : empty_snapshot ≡ t = ground arith in rw (sym same) (refl, refl)
    | inr (c, e) ↦ decode-WellFormed s c t (ground arith)
  ]

  -- What is loaded is stored.
  pub load_bytes-ok :
      (d : Disk) (t : RegistrySnapshot) → (load_bytes s config d).0 ≡ ok t → stored d ≡ ok t
  unfolding load_bytes
  load_bytes-ok d t h = elim (Result-cases (read config.canonical_path d).0) [
    | inl (c, e) ↦ ground (arith, read-ok config.canonical_path d c e)
    | inr (e, f) ↦ ground (arith, read-missing config.canonical_path d e f)
  ]
