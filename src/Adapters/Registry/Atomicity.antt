-- ===== src/Adapters/Registry/Atomicity.antt =====
-- The registry's writes are atomic (crates/colui-adapters/src/registry/format.rs).
use colui.Prelude.{
  ℕ, ◌≡◌, refl, sym, ◌∙◌, ap, ◌⊎◌, inl, inr, false, some, String, ok, err, ◌==◌, list_eq, nat_eq,
  arith, Result-cases, Option-cases, eq_self, take,
}
use colui.Prelude.Map.{lookup, lookup-insert, insert, remove}
use colui.Domain.Text.{Text, Uuids}
use colui.Domain.FilePath.{FilePath, parent_absolute}
use colui.Domain.AppError.{AppError}
use colui.Adapters.Registry.Disk.{
  IoError, Disk, Step, keep, put, put_all, renamed, touch, create_new, create, write_all, rename,
  remove_file,
}
use colui.Adapters.Registry.Frames.{
  Leaves, then_do, or_io, then_do-Leaves, then_do-ok, or_io-Leaves, file_call-cases,
  create_new-Leaves, create-Leaves, write_all-Leaves, touch-Leaves, remove_file-Leaves,
  rename-Leaves,
}
use colui.Adapters.Registry.Writes.{
  write_synced, replace_synced, io_error, or_clean_up, temp_of, backup_temp_of, atomic_write,
  atomic_backup,
}

or_io-ok :
    {A : Type 0} (m : Step IoError A) (f : IoError → AppError) (d : Disk) (a : A)
    → (or_io m f d).0 ≡ ok a
    → ((m d).0 ≡ ok a) × ((or_io m f d).1 ≡ (m d).1)
unfolding or_io
or_io-ok m f d a h = elim (Result-cases (m d).0) [
  | inl (b, e) ↦ ground arith
  | inr (b, e) ↦ cc (rw e at h)
]

touch-ok : (d : Disk) → (touch d).1.files ≡ d.files
unfolding touch
touch-ok d = elim (file_call-cases keep (λ d'. (ok tt, d')) d) [
  | inl (e, (rest, f)) ↦ rw f refl
  | inr (rest, f) ↦ rw f refl
]

write_all-ok :
    (p : FilePath) (content : Text) (d : Disk)
    → (write_all p content d).0 ≡ ok tt
    → lookup p (write_all p content d).1.files ≡ some content
unfolding write_all
write_all-ok p content d h =
    elim (file_call-cases (λ n. put p (take n content)) (put_all p content) d) [
      | inl (e, (rest, f)) ↦ cc (rw f at h)
      | inr (rest, f) ↦ rw f (lookup-insert p p content d.files ∙ rw (eq_self p) refl)
    ]

-- A file is renamed, or nothing changes.
rename-cases :
    (from to : FilePath) (d : Disk)
    → ((rename from to d).1.files ≡ d.files) × ((e : IoError) × ((rename from to d).0 ≡ err e))
      ⊎ ((content : Text) × ((lookup from d.files ≡ some content)
            × ((rename from to d).1.files ≡ insert to content (remove from d.files))))
unfolding rename
rename-cases from to d =
    elim (file_call-cases keep (λ d'. renamed from to (lookup from d'.files) d') d) [
      | inl (e, (rest, f)) ↦ inl (rw f (refl, (_, refl)))
      | inr (rest, f) ↦ elim (Option-cases (lookup from d.files)) [
        | inl g ↦ inl (rw (f, g) (refl, (_, refl)))
        | inr (content, g) ↦ inr (content, (g, rw (f, g) refl))
      ]
    ]

module _ ⦃u : Uuids⦄ (opening : Step IoError (Unit {0})) (temp : FilePath) (content : Text)
    (writing syncing : String) where
  pub write_synced-Leaves :
      (q : FilePath)
      → Leaves q opening
      → (temp == q) ≡ false
      → Leaves q (write_synced opening temp content writing syncing)
  unfolding write_synced
  write_synced-Leaves q o apart = then_do-Leaves _ _ q (or_io-Leaves q _ _ o) (λ _.
      then_do-Leaves _ _ q (or_io-Leaves q _ _ (write_all-Leaves temp q apart content))
        (λ _. or_io-Leaves q _ _ (touch-Leaves q)))

  -- When a file is written and synced its content is there.
  pub write_synced-ok :
      (d : Disk)
      → (write_synced opening temp content writing syncing d).0 ≡ ok tt
      → lookup temp (write_synced opening temp content writing syncing d).1.files ≡ some content
  unfolding write_synced or_io
  write_synced-ok d h =
      let (a, (e, f)) = then_do-ok _ _ d tt h in
      let (b, (g, k)) = then_do-ok _ _ _ tt (rw f at h) in
      rw (f, k, touch-ok)
        (write_all-ok temp content (or_io opening (io_error writing) d).1
          (or_io-ok (write_all temp content) (io_error writing)
            (or_io opening (io_error writing) d).1 b g).0)

module _ ⦃u : Uuids⦄ (temp path : FilePath) (renaming opening_op syncing : String) where
  -- After the renaming no call of `replace_synced` changes a file.
  replace_synced-lookup :
      (q : FilePath) (d : Disk)
      → lookup q (replace_synced temp path renaming opening_op syncing d).1.files
        ≡ lookup q (rename temp path d).1.files
  unfolding replace_synced then_do or_io
  replace_synced-lookup q d = elim (Result-cases (rename temp path d).0) [
    | inl (a, e) ↦ rw e (
        then_do-Leaves (or_io touch (io_error opening_op)) (λ _. or_io touch (io_error syncing)) q
          (or_io-Leaves q touch (io_error opening_op) (touch-Leaves q))
          (λ _. or_io-Leaves q touch (io_error syncing) (touch-Leaves q)) (rename temp path d).1)
    | inr (a, e) ↦ rw e refl
  ]

  replace_synced-err :
      (d : Disk) (e : IoError)
      → (rename temp path d).0 ≡ err e
      → (replace_synced temp path renaming opening_op syncing d).0 ≡ err (io_error renaming e)
  unfolding replace_synced then_do or_io
  replace_synced-err d e h = rw h refl

-- The path has the new content, or it has the old one and the step failed.
abbrev pub Replaces : FilePath → Text → Step AppError (Unit {0}) → Type 0
Replaces path content m =
    (d : Disk)
    → (lookup path (m d).1.files ≡ some content)
      ⊎ ((lookup path (m d).1.files ≡ lookup path d.files) × ((e : AppError) × ((m d).0 ≡ err e)))

module _ ⦃u : Uuids⦄ (opening : Step IoError (Unit {0})) (temp path : FilePath) (content : Text)
    (writing syncing renaming opening_op syncing_op : String) where
  abbrev closure : Step AppError (Unit {0})
  closure =
      then_do (write_synced opening temp content writing syncing)
        (λ _. replace_synced temp path renaming opening_op syncing_op)

  pub closure-Replaces :
      Leaves path opening → (temp == path) ≡ false → Replaces path content closure
  unfolding then_do
  closure-Replaces o apart d =
      let first = write_synced opening temp content writing syncing in
      let second = replace_synced temp path renaming opening_op syncing_op in
      let kept = write_synced-Leaves opening temp content writing syncing path o apart d in
      elim (Result-cases (first d).0) [
        | inl (_, e) ↦
            let written = write_synced-ok opening temp content writing syncing d e in
            elim (rename-cases temp path (first d).1) [
              | inl (same, (f, failed)) ↦ inr (
                  rw e (
                    replace_synced-lookup temp path renaming opening_op syncing_op path (first d).1
                        ∙ (ap (lookup path) same ∙ kept),
                    (
                      io_error renaming f,
                      replace_synced-err temp path renaming opening_op syncing_op (first d).1 f
                          failed,
                    ),
                  ))
              | inr (c, (old, new)) ↦ inl (
                  rw e (
                    replace_synced-lookup temp path renaming opening_op syncing_op path (first d).1
                    ∙ (ap (lookup path) new
                        ∙ (lookup-insert path path c (remove temp (first d).1.files)
                            ∙ (rw (eq_self path) (sym old ∙ written))))))
            ]
        | inr (f, e) ↦ inr (rw e (kept, (f, refl)))
      ]

  pub closure-Leaves :
      (q : FilePath)
      → Leaves q opening
      → (temp == q) ≡ false
      → (path == q) ≡ false
      → Leaves q closure
  closure-Leaves q o apart other =
      then_do-Leaves _ _ q (write_synced-Leaves opening temp content writing syncing q o apart)
        (λ _ d.
          replace_synced-lookup temp path renaming opening_op syncing_op q d
          ∙ rename-Leaves path q other temp apart d)

module _ (m : Step AppError (Unit {0})) (temp : FilePath) where
  pub or_clean_up-Leaves :
      (q : FilePath)
      → (temp == q) ≡ false
      → Leaves q m
      → Leaves q (or_clean_up m (remove_file temp))
  unfolding or_clean_up
  or_clean_up-Leaves q apart h d = elim (Result-cases (m d).0) [
    | inl (a, e) ↦ rw e (h d)
    | inr (a, e) ↦ rw e (remove_file-Leaves temp q apart (m d).1 ∙ h d)
  ]

  pub or_clean_up-Replaces :
      (path : FilePath) (content : Text)
      → (temp == path) ≡ false
      → Replaces path content m
      → Replaces path content (or_clean_up m (remove_file temp))
  unfolding or_clean_up
  or_clean_up-Replaces path content apart h d = elim (Result-cases (m d).0) [
    | inl (a, e) ↦ elim (h d) [ inl new ↦ rw e (inl new) | inr (old, (f, failed)) ↦ cc (e, failed) ]
    | inr (a, e) ↦
        let cleaned = remove_file-Leaves temp path apart (m d).1 in
        elim (h d) [
          | inl new ↦ rw e (inl (cleaned ∙ new))
          | inr (old, failed) ↦ rw e (inr (cleaned ∙ old, (a, refl)))
        ]
  ]

module _ ⦃u : Uuids⦄ (uuid : ℕ) (path : FilePath) (content : Text) (parent : FilePath)
    (at_parent : parent_absolute path ≡ some parent) where
  then_do-Replaces :
      (m n : Step AppError (Unit {0}))
      → ((d : Disk) → (m d).1.files ≡ d.files)
      → Replaces path content n
      → Replaces path content (then_do m (λ _. n))
  unfolding then_do
  then_do-Replaces m n same h d = elim (Result-cases (m d).0) [
    | inl (a, e) ↦ elim (h (m d).1) [
      | inl new ↦ rw e (inl new)
      | inr (old, failed) ↦ rw e (inr (old ∙ ap (lookup path) (same d), failed))
    ]
    | inr (a, e) ↦ rw e (inr (ap (lookup path) (same d), (a, refl)))
  ]

  -- A write of the registry puts the whole content in place, or it fails; a write that fails leaves
  -- the old content or the new one, and never another.
  pub atomic_write-Replaces :
      (temp_of parent uuid == path) ≡ false → Replaces path content (atomic_write uuid path content)
  unfolding atomic_write or_io
  atomic_write-Replaces apart = rw at_parent (
      then_do-Replaces (or_io touch _) _ touch-ok (
        or_clean_up-Replaces _ (temp_of parent uuid) path content apart (
          closure-Replaces (create_new (temp_of parent uuid)) (temp_of parent uuid) path content _ _
            _ _ _ (create_new-Leaves (temp_of parent uuid) path apart) apart)))

  pub atomic_backup-Replaces :
      (backup_temp_of parent uuid == path) ≡ false
      → Replaces path content (atomic_backup uuid path content)
  unfolding atomic_backup or_io
  atomic_backup-Replaces apart = rw at_parent (
      then_do-Replaces (or_io touch _) _ touch-ok (
        or_clean_up-Replaces _ (backup_temp_of parent uuid) path content apart (
          closure-Replaces (create (backup_temp_of parent uuid)) (backup_temp_of parent uuid) path
            content _ _ _ _ _ (create-Leaves (backup_temp_of parent uuid) path apart) apart)))

  -- A write changes no file but its own and the temporary one.
  pub atomic_write-Leaves :
      (q : FilePath)
      → (temp_of parent uuid == q) ≡ false
      → (path == q) ≡ false
      → Leaves q (atomic_write uuid path content)
  unfolding atomic_write
  atomic_write-Leaves q apart other = rw at_parent (
      then_do-Leaves _ _ q (or_io-Leaves q touch _ (touch-Leaves q)) (λ _.
        or_clean_up-Leaves _ (temp_of parent uuid) q apart (
          closure-Leaves (create_new (temp_of parent uuid)) (temp_of parent uuid) path content _ _ _
            _ _ q (create_new-Leaves (temp_of parent uuid) q apart) apart other)))
