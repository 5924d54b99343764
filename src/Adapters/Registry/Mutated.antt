-- ===== src/Adapters/Registry/Mutated.antt =====
-- `mutate` of crates/colui-adapters/src/registry/format.rs does what a profile store promises.
use colui.Prelude.{
  ℕ, ◌+◌, ◌≡◌, refl, sym, ◌∙◌, ap, ◌⊎◌, inl, inr, true, false, Option, none, some, Result, ok, ◌==◌,
  list_eq, nat_eq, arith, Bool-cases,
}
use colui.Prelude.Map.{lookup}
use colui.Domain.Text.{Uuids}
use colui.Domain.FilePath.{FilePath, parent_absolute}
use colui.Domain.AppError.{AppError}
use colui.App.Profiles.Mutations.{RegistrySnapshot}
use colui.App.Profiles.Validity.{WellFormed}
use colui.Adapters.Registry.Disk.{Disk, touch, open_or_create}
use colui.Adapters.Registry.Frames.{
  Leaves, pure_step, then_do-Leaves, then_do-ok, or_io-Leaves, read-Leaves, touch-Leaves,
  open_or_create-Leaves,
}
use colui.Adapters.Registry.Writes.{atomic_write, temp_of, io_error}
use colui.Adapters.Registry.Atomicity.{atomic_write-Replaces}
use colui.Domain.Profile.Equality.{profiles_eq}
use colui.Adapters.Registry.Format.{Serde, ReadsBack, snapshot_eq}
use colui.Adapters.Registry.RoundTrip.{decode-encode, validate_snapshot_iff}
use colui.Adapters.Registry.Lock.{RegistryConfig, LockAttempts, lock, lock_loop, make_parent}
use colui.Adapters.Registry.Store.{load_bytes, mutate, store, write_changed, reread_error}
use colui.Adapters.Registry.Stored.{stored, stored-WellFormed, load_bytes-ok}

pub pure_step-Leaves : {A : Type 0} (q : FilePath) (r : Result AppError A) → Leaves q (pure_step r)
unfolding pure_step
pure_step-Leaves q r d = refl

module _ ⦃u : Uuids⦄ where
  make_parent-Leaves : (q : FilePath) (o : Option FilePath) → Leaves q (make_parent o)
  make_parent-Leaves q none = pure_step-Leaves q (ok tt)
  make_parent-Leaves q (some p) = or_io-Leaves q touch _ (touch-Leaves q)

  pub lock-Leaves :
      (q : FilePath) (config : RegistryConfig) (attempts : LockAttempts)
      → (config.lock_path == q) ≡ false
      → Leaves q (lock config attempts)
  unfolding lock
  lock-Leaves q config attempts apart =
      then_do-Leaves _ _ q (make_parent-Leaves q (parent_absolute config.lock_path)) (λ _.
        then_do-Leaves _ _ q
          (or_io-Leaves q (open_or_create config.lock_path) (io_error "open_registry_lock")
            (open_or_create-Leaves config.lock_path q apart))
          (λ _. pure_step-Leaves q (lock_loop config.lock_timeout 5 attempts).0))

module _ ⦃u : Uuids⦄ (s : Serde) (config : RegistryConfig) where
  pub load_bytes-Leaves : (q : FilePath) → Leaves q (load_bytes s config)
  unfolding load_bytes
  load_bytes-Leaves q = read-Leaves q config.canonical_path

  -- Steps that leave the registry's file leave what is stored.
  pub stored-eq :
      (d d' : Disk)
      → lookup config.canonical_path d'.files ≡ lookup config.canonical_path d.files
      → stored s config d' ≡ stored s config d
  stored-eq d d' h = rw h refl

  -- What is returned has the profiles that the change made. If they differ from those before they
  -- are stored at the next revision, else the file stays as it is.
  abbrev pub Stores : RegistrySnapshot → RegistrySnapshot → RegistrySnapshot → Disk → Type 0
  Stores before made t after =
      (made.profiles ≡ t.profiles)
      × (((profiles_eq made.profiles before.profiles ≡ false)
            × ((t.registry_revision ≡ before.registry_revision + 1)
                × (stored s config after ≡ ok t)))
          ⊎ ((profiles_eq made.profiles before.profiles ≡ true)
              × ((t.registry_revision ≡ before.registry_revision)
                  × (stored s config after ≡ ok before))))

module _ ⦃u : Uuids⦄ (s : Serde) (config : RegistryConfig) (reads : ReadsBack s) (uuid : ℕ)
    (parent : FilePath) (at_parent : parent_absolute config.canonical_path ≡ some parent)
    (temp_apart : (temp_of parent uuid == config.canonical_path) ≡ false) where
  -- A snapshot that is written is stored, and returned.
  pub write_changed-ok :
      (e : AppError) (after t : RegistrySnapshot) (d : Disk)
      → WellFormed after
      → (write_changed s config uuid e after d).0 ≡ ok t
      → (t ≡ after) × (stored s config (write_changed s config uuid e after d).1 ≡ ok after)
  unfolding pure_step
  write_changed-ok e after t d w h =
      let (content, (encoded, e1)) = then_do-ok _ _ d t h in
      let (_, (written, e2)) = then_do-ok _ _ d t (rw e1 at h) in
      let wd = (atomic_write uuid config.canonical_path content d).1 in
      let (reread, (loaded, e3)) = then_do-ok _ _ wd t (rw (e1, e2) at h) in
      let now : lookup config.canonical_path wd.files ≡ some content =
        elim (atomic_write-Replaces uuid config.canonical_path content parent at_parent temp_apart
          d) [ inl new ↦ new | inr (old, (_, failed)) ↦ cc ] in
      let there : stored s config wd ≡ ok after =
        rw now (decode-encode s after content reads w encoded) in
      let same : reread ≡ after = ground (arith, load_bytes-ok s config wd reread loaded) in
      let kept =
        stored-eq s config wd (load_bytes s config wd).1
          (load_bytes-Leaves s config config.canonical_path wd) in
      elim (Bool-cases (snapshot_eq reread after)) [
        | inl equal ↦
            let result = rw (e1, e2, e3, equal) at h in
            (ground arith, rw (e1, e2, e3) (kept ∙ there))
        | inr differs ↦ cc (rw (e1, e2, e3, differs) at h)
      ]

  store-ok :
      (before made t : RegistrySnapshot) (d : Disk)
      → stored s config d ≡ ok before
      → WellFormed made
      → (store s config uuid before before made d).0 ≡ ok t
      → Stores s config before made t (store s config uuid before before made d).1
  unfolding pure_step
  store-ok before made t d b w h = elim (Bool-cases (profiles_eq made.profiles before.profiles)) [
    | inl same ↦ let result = rw same at h in rw same (ground arith, inr (refl, (ground arith, b)))
    | inr differs ↦
        let (r, (advanced, e)) = then_do-ok _ _ d t (rw differs at h) in
        let (returned, kept) =
          write_changed-ok (reread_error s) (record made { registry_revision = r }) t d w
            (rw (differs, e) at h) in
        rw (differs, e) (ground arith, inl (refl, (ground arith, kept ∙ ap ok (sym returned))))
  ]

  -- A change of the registry that succeeds was made of the snapshot that was stored, and kept it
  -- well-formed. If the profiles are not equal to those before, as Rust compares them, what is
  -- returned is stored, at the next revision. Else the file is left as it is, and what is returned
  -- has the revision of the file. Conditions: serde_json reads back what it prints, the lock's file
  -- and the temporary file are not the registry's file, and the latter is in a directory.
  pub mutate-Stores :
      (attempts : LockAttempts) (mutation : RegistrySnapshot → Result AppError RegistrySnapshot)
      (d : Disk) (t : RegistrySnapshot)
      → (config.lock_path == config.canonical_path) ≡ false
      → (mutate s config attempts uuid mutation d).0 ≡ ok t
      → (before : RegistrySnapshot) × ((made : RegistrySnapshot) × ((stored s config d ≡ ok before)
            × ((mutation before ≡ ok made)
                × (WellFormed made
                    × Stores s config before made t (mutate s config attempts uuid mutation d).1))))
  unfolding mutate pure_step
  mutate-Stores attempts mutation d t lock_apart h =
      let d1 = (lock config attempts d).1 in
      let (_, (locked, e1)) = then_do-ok (lock config attempts) _ d t h in
      let (before, (loaded, e2)) = then_do-ok (load_bytes s config) _ d1 t (rw e1 at h) in
      let d2 = (load_bytes s config d1).1 in
      let (original, (encoded, e3)) = then_do-ok _ _ d2 t (rw (e1, e2) at h) in
      let (made, (changed, e4)) = then_do-ok _ _ d2 t (rw (e1, e2, e3) at h) in
      let (_, (valid, e5)) = then_do-ok _ _ d2 t (rw (e1, e2, e3, e4) at h) in
      let (o, (decoded, e6)) = then_do-ok _ _ d2 t (rw (e1, e2, e3, e4, e5) at h) in
      let b1 = load_bytes-ok s config d1 before loaded in
      let b =
        sym
          (stored-eq s config d d1 (lock-Leaves config.canonical_path config attempts lock_apart d))
        ∙ b1 in
      let b2 =
        stored-eq s config d1 d2 (load_bytes-Leaves s config config.canonical_path d1) ∙ b1 in
      let same : o ≡ before =
        let back =
          decode-encode s before original reads (stored-WellFormed s config d before b) encoded in
        ground arith in
      let well = (validate_snapshot_iff made).0 valid in
      (
        before,
        (
          made,
          (
            b,
            (
              changed,
              (
                well,
                rw (e1, e2, e3, e4, e5, e6, same)
                    (store-ok before made t d2 b2 well (rw (e1, e2, e3, e4, e5, e6, same) at h)),
              ),
            ),
          ),
        ),
      )
