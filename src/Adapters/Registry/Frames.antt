-- ===== src/Adapters/Registry/Frames.antt =====
-- Steps on the files composed (crates/colui-adapters/src/registry/format.rs), and what a composed
-- step leaves as it was.
use colui.Prelude.{
  ℕ, ◌≡◌, refl, ◌⊎◌, ◌∙◌, ap, false, List, [], ◌∷◌, Option, none, some, Result, ok, err, ◌==◌,
  list_eq, nat_eq, Result-cases, Option-cases, inl, inr, take,
}
use colui.Prelude.Map.{lookup, lookup-insert, lookup-remove, insert, remove}
use colui.Domain.Text.{Text}
use colui.Domain.FilePath.{FilePath}
use colui.Domain.AppError.{AppError}
use colui.Adapters.Registry.Disk.{
  IoError, Fault, fault_error, Disk, Step, attempt, file_call, touch, read, create_new,
  open_or_create, create, write_all, rename, remove_file,
}

module _ {E A : Type 0} where
  unfoldable pub pure_step : Result E A → Step E A
  pure_step r d = (r, d)

  abbrev continue_with : {B : Type 0} → Result E A → (A → Step E B) → Step E B
  continue_with (ok a) f d = f a d
  continue_with (err e) f d = (err e, d)

  -- The `?` operator.
  unfoldable pub then_do : {B : Type 0} → Step E A → (A → Step E B) → Step E B
  then_do m f d = continue_with (m d).0 f (m d).1

abbrev pub map_err : {A : Type 0} → (IoError → AppError) → Result IoError A → Result AppError A
map_err f (ok a) = ok a
map_err f (err e) = err (f e)

unfoldable pub or_io : {A : Type 0} → Step IoError A → (IoError → AppError) → Step AppError A
or_io m f d = (map_err f (m d).0, (m d).1)

-- The content of one path is the same after a step, however the step ends.
abbrev pub Leaves : {E A : Type 0} → FilePath → Step E A → Type 0
Leaves q m = (d : Disk) → lookup q (m d).1.files ≡ lookup q d.files

module _ {E A B : Type 0} (m : Step E A) (f : A → Step E B) where
  pub then_do-Leaves :
      (q : FilePath) → Leaves q m → ((a : A) → Leaves q (f a)) → Leaves q (then_do m f)
  unfolding then_do
  then_do-Leaves q h k d = elim (Result-cases (m d).0) [
    | inl (a, e) ↦ rw e (k a (m d).1 ∙ h d)
    | inr (a, e) ↦ rw e (h d)
  ]

  -- A composed step that succeeds is two steps that succeed.
  pub then_do-ok :
      (d : Disk) (b : B)
      → (then_do m f d).0 ≡ ok b
      → (a : A) × (((m d).0 ≡ ok a) × (then_do m f d ≡ f a (m d).1))
  unfolding then_do
  then_do-ok d b h = elim (Result-cases (m d).0) [
    | inl (a, e) ↦ (a, (e, rw e refl))
    | inr (a, e) ↦ cc (rw e at h)
  ]

module _ {A : Type 0} where
  attempt-cases :
      (faults : List (Option Fault)) (spoil : ℕ → Disk → Disk) (run : Step IoError A) (d : Disk)
      → d.faults ≡ faults
      → ((e : Fault) × ((rest : List (Option Fault)) × (attempt faults spoil run d
              ≡ (err (fault_error e), spoil e.written (record d { faults = rest })))))
        ⊎ ((rest : List (Option Fault)) × (attempt faults spoil run d
              ≡ run (record d { faults = rest })))
  attempt-cases [] spoil run d e = inr ([], ap (λ l. run (record d { faults = l })) e)
  attempt-cases (none ∷ rest) spoil run d e = inr (rest, refl)
  attempt-cases (some e ∷ rest) spoil run d f = inl (e, (rest, refl))

  -- A call fails or is carried out.
  pub file_call-cases :
      (spoil : ℕ → Disk → Disk) (run : Step IoError A) (d : Disk)
      → ((e : Fault) × ((rest : List (Option Fault)) × (file_call spoil run d
              ≡ (err (fault_error e), spoil e.written (record d { faults = rest })))))
        ⊎ ((rest : List (Option Fault)) × (file_call spoil run d
              ≡ run (record d { faults = rest })))
  unfolding file_call
  file_call-cases spoil run d = attempt-cases d.faults spoil run d refl

module _ {A : Type 0} (q : FilePath) where
  pub or_io-Leaves :
      (m : Step IoError A) (f : IoError → AppError) → Leaves q m → Leaves q (or_io m f)
  unfolding or_io
  or_io-Leaves m f h = h

  attempt-Leaves :
      (faults : List (Option Fault)) (spoil : ℕ → Disk → Disk) (run : Step IoError A)
      → ((n : ℕ) (d : Disk) → lookup q (spoil n d).files ≡ lookup q d.files)
      → Leaves q run
      → Leaves q (attempt faults spoil run)
  attempt-Leaves [] spoil run s h d = h d
  attempt-Leaves (none ∷ rest) spoil run s h d = h (record d { faults = rest })
  attempt-Leaves (some e ∷ rest) spoil run s h d = s e.written (record d { faults = rest })

  pub file_call-Leaves :
      (spoil : ℕ → Disk → Disk) (run : Step IoError A)
      → ((n : ℕ) (d : Disk) → lookup q (spoil n d).files ≡ lookup q d.files)
      → Leaves q run
      → Leaves q (file_call spoil run)
  unfolding file_call
  file_call-Leaves spoil run s h d = attempt-Leaves d.faults spoil run s h d

module _ (q : FilePath) where
  pub touch-Leaves : Leaves q touch
  unfolding touch
  touch-Leaves = file_call-Leaves q _ _ (λ n d. refl) (λ d. refl)

  pub read-Leaves : (p : FilePath) → Leaves q (read p)
  unfolding read
  read-Leaves p = file_call-Leaves q _ _ (λ n d. refl) (λ d. refl)

module _ (p q : FilePath) (apart : (p == q) ≡ false) where
  lookup-put : (content : Text) (d : Disk) → lookup q (insert p content d.files) ≡ lookup q d.files
  lookup-put content d = lookup-insert p q content d.files ∙ rw apart refl

  pub create_new-Leaves : Leaves q (create_new p)
  unfolding create_new
  create_new-Leaves =
      file_call-Leaves q _ _ (λ n d. refl)
        (λ d. elim (Option-cases (lookup p d.files)) [
          | inl e ↦ rw e (lookup-put [] d)
          | inr (a, e) ↦ rw e refl
        ])

  pub open_or_create-Leaves : Leaves q (open_or_create p)
  unfolding open_or_create
  open_or_create-Leaves =
      file_call-Leaves q _ _ (λ n d. refl)
        (λ d. elim (Option-cases (lookup p d.files)) [
          | inl e ↦ rw e (lookup-put [] d)
          | inr (a, e) ↦ rw e refl
        ])

  pub create-Leaves : Leaves q (create p)
  unfolding create
  create-Leaves = file_call-Leaves q _ _ (λ n d. refl) (λ d. lookup-put [] d)

  pub write_all-Leaves : (content : Text) → Leaves q (write_all p content)
  unfolding write_all
  write_all-Leaves content =
      file_call-Leaves q _ _ (λ n d. lookup-put (take n content) d) (λ d. lookup-put content d)

  pub remove_file-Leaves : Leaves q (remove_file p)
  unfolding remove_file
  remove_file-Leaves =
      file_call-Leaves q _ _ (λ n d. refl)
        (λ d. elim (Option-cases (lookup p d.files)) [
          | inl e ↦ rw e refl
          | inr (a, e) ↦ rw e (lookup-remove p q d.files ∙ rw apart refl)
        ])

  pub rename-Leaves : (from : FilePath) → (from == q) ≡ false → Leaves q (rename from p)
  unfolding rename
  rename-Leaves from other =
      file_call-Leaves q _ _ (λ n d. refl)
        (λ d. elim (Option-cases (lookup from d.files)) [
          | inl e ↦ rw e refl
          | inr (a, e) ↦ rw e (
              lookup-insert p q a (remove from d.files)
              ∙ rw apart (lookup-remove from q d.files ∙ rw other refl))
        ])
