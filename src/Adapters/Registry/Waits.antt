-- ===== src/Adapters/Registry/Waits.antt =====
-- Bounds of crates/colui-adapters/src/registry/format.rs: how long the lock is waited for, and how
-- many copies are kept.
use colui.Prelude.{
  zero, suc, ◌+◌, ◌<◌, ap, sym, get_elem?, Result, ℕ, ◌-◌, ◌*◌, ◌≤◌, ◌≡◌, refl, ◌∙◌, true, false,
  List, [], ◌∷◌, none, some, ok, err, length, take, drop, if◌then◌else◌, leb, arith, length-drop,
  any, eq_self, eq_true, subst, ◌==◌, list_eq, nat_eq, Option-cases, Result-cases, inl, inr,
  Bool-cases,
}
use colui.Prelude.Map.{lookup, lookup-remove}
use colui.Domain.Text.{Uuids}
use colui.Domain.FilePath.{FilePath, parent_absolute}
use colui.Domain.AppError.{AppError}
use colui.Adapters.Registry.Disk.{IoError, Disk, Step, removed, keep, remove_file}
use colui.Adapters.Registry.Frames.{
  Leaves, then_do-Leaves, then_do-ok, or_io, or_io-Leaves, file_call-cases, remove_file-Leaves,
}
use colui.Adapters.Registry.Lock.{
  RegistryConfig, LockAttempts, acquires, fails, blocked, min, lock_loop, is_locked,
}
use colui.Adapters.Registry.Writes.{io_error}
use colui.Adapters.Registry.Artifacts.{
  remove_each, prune_artifacts, too_many, artifacts_of, read_artifacts,
}
use colui.Adapters.Registry.Mutated.{pure_step-Leaves}

-- The tries from one of them on, the first being number 0.
abbrev pub tries_from : ℕ → LockAttempts → LockAttempts
tries_from zero attempts = attempts
tries_from (suc k) (blocked elapsed later more) = tries_from k more
tries_from (suc k) attempts = attempts

-- How long each sleep is to be, in milliseconds, while there is time.
abbrev pub planned : ℕ → ℕ
planned zero = 5
planned (suc zero) = 10
planned (suc (suc zero)) = 20
planned (suc (suc (suc zero))) = 40
planned (suc (suc (suc (suc zero)))) = 80
planned _ = 100

planned-next : (k : ℕ) → min (planned k * 2) 100 ≡ planned (suc k)
planned-next zero = refl
planned-next (suc zero) = refl
planned-next (suc (suc zero)) = refl
planned-next (suc (suc (suc zero))) = refl
planned-next (suc (suc (suc (suc zero)))) = refl
planned-next (suc (suc (suc (suc (suc k))))) = refl

-- A try that finds the lock held, with the time passed when it is read first and second.
abbrev pub HeldAt : LockAttempts → ℕ → ℕ → Type 0
HeldAt attempts elapsed later = (more : LockAttempts) × (attempts ≡ blocked elapsed later more)

leb_le : (m n : ℕ) → leb m n ≡ true → m ≤ n
leb_le m n h = ground arith

leb_gt : (m n : ℕ) → leb m n ≡ false → n < m
leb_gt m n h = ground arith

module _ ⦃u : Uuids⦄ where
  -- The outcome that belongs to the last try.
  abbrev pub Ends : ℕ → LockAttempts → Result AppError (Unit {0}) → Type 0
  Ends timeout acquires result = result ≡ ok tt
  Ends timeout (fails e) result = result ≡ err (io_error "lock_registry" e)
  Ends timeout (blocked elapsed later more) result = (timeout ≤ elapsed) × (result ≡ err is_locked)

  first_or_rest :
      (timeout j delay elapsed later : ℕ) (more : LockAttempts) (sleeps : List ℕ)
      → delay ≡ planned j
      → leb timeout elapsed ≡ false
      → ((k slept : ℕ)
          → get_elem? sleeps k ≡ some slept
          → (e : ℕ) × (l : ℕ) × HeldAt (tries_from k more) e l
            × (e < timeout)
            × (slept ≡ min (planned (suc j + k)) (timeout - l)))
      → (k slept : ℕ) → get_elem? (min delay (timeout - later) ∷ sleeps) k ≡ some slept
      → (e : ℕ) × (l : ℕ) × HeldAt (tries_from k (blocked elapsed later more)) e l
        × (e < timeout)
        × (slept ≡ min (planned (j + k)) (timeout - l))
  first_or_rest timeout j delay elapsed later more sleeps d left rest zero slept h =
      let same : min delay (timeout - later) ≡ slept = ground arith in
      let at_j : planned j ≡ planned (j + 0) = ap planned (omega arith) in
      (
        elapsed,
        later,
        (more, refl),
        leb_gt timeout elapsed left,
        sym same ∙ ap (λ x. min x (timeout - later)) (d ∙ at_j),
      )
  first_or_rest timeout j delay elapsed later more sleeps d left rest (suc k) slept h =
      let (e, l, held, early, long) = rest k slept h in
      (e, l, held, early, long ∙ ap (λ n. min (planned n) (timeout - l)) (omega arith))

  waits_from :
      (timeout j delay : ℕ) (attempts : LockAttempts)
      → delay ≡ planned j
      → (let answer = lock_loop timeout delay attempts in
          ((k slept : ℕ)
            → get_elem? answer.1 k ≡ some slept
            → (elapsed : ℕ) × (later : ℕ) × HeldAt (tries_from k attempts) elapsed later
              × (elapsed < timeout)
              × (slept ≡ min (planned (j + k)) (timeout - later)))
          × Ends timeout (tries_from (length answer.1) attempts) answer.0)
  unfolding lock_loop
  waits_from timeout j delay acquires d = (λ k slept h. cc, refl)
  waits_from timeout j delay (fails e) d = (λ k slept h. cc, refl)
  waits_from timeout j delay (blocked elapsed later more) d =
      elim (Bool-cases (leb timeout elapsed)) [
        | inl over ↦ rw over (λ k slept h. cc, (leb_le timeout elapsed over, refl))
        | inr left ↦
            let next = min (delay * 2) 100 in
            let (sleeps, ends) =
              waits_from timeout (suc j) next more (ap (λ x. min (x * 2) 100) d ∙ planned-next j) in
            rw left (
              first_or_rest timeout j delay elapsed later more (lock_loop timeout next more).1 d
                  left sleeps,
              ends,
            )
      ]

  -- The lock is waited for in sleeps of 5, 10, 20, 40, 80, and then 100 ms, each cut to what is left
  -- of the timeout when it begins. A try is followed by a sleep only if it found the lock held before
  -- the timeout. The try after the last sleep decides: the lock is taken if it is free then, an error
  -- of the call is reported, and a lock that is held is reported as locked only at the timeout or
  -- later.
  pub lock_loop-waits :
      (timeout : ℕ) (attempts : LockAttempts)
      → (let answer = lock_loop timeout 5 attempts in
          ((k slept : ℕ)
            → get_elem? answer.1 k ≡ some slept
            → (elapsed : ℕ) × (later : ℕ) × HeldAt (tries_from k attempts) elapsed later
              × (elapsed < timeout)
              × (slept ≡ min (planned k) (timeout - later)))
          × Ends timeout (tries_from (length answer.1) attempts) answer.0)
  lock_loop-waits timeout attempts =
      let (sleeps, ends) = waits_from timeout 0 5 attempts refl in
      (
        λ k slept h.
            let (e, l, held, early, long) = sleeps k slept h in
            (e, l, held, early, long ∙ ap (λ n. min (planned n) (timeout - l)) (omega arith)),
        ends,
      )

  remove_file-ok :
      (p : FilePath) (d : Disk)
      → (remove_file p d).0 ≡ ok tt
      → lookup p (remove_file p d).1.files ≡ none
  unfolding remove_file
  remove_file-ok p d h = elim (file_call-cases keep (λ d'. removed p (lookup p d'.files) d') d) [
    | inl (e, (rest, f)) ↦ cc (rw f at h)
    | inr (rest, f) ↦ elim (Option-cases (lookup p d.files)) [
      | inl g ↦ cc (rw (f, g) at h)
      | inr (c, g) ↦ rw (f, g) (lookup-remove p p d.files ∙ rw (eq_self p) refl)
    ]
  ]

  pub succeeded :
      {A : Type 0} (m : Step IoError A) (f : IoError → AppError) (d : Disk) (a : A)
      → (or_io m f d).0 ≡ ok a
      → (m d).0 ≡ ok a
  unfolding or_io
  succeeded m f d a h = elim (Result-cases (m d).0) [
    | inl (b, e) ↦ ground arith
    | inr (b, e) ↦ cc (rw e at h)
  ]

  read_artifacts-ok :
      (parent : FilePath) (d : Disk) (artifacts : List FilePath)
      → (read_artifacts parent d).0 ≡ ok artifacts
      → (artifacts ≡ artifacts_of parent d) × ((read_artifacts parent d).1.files ≡ d.files)
  unfolding read_artifacts artifacts_of
  read_artifacts-ok parent d artifacts h =
      elim (file_call-cases keep (λ d'. (ok (artifacts_of parent d'), d')) d) [
        | inl (e, (rest, f)) ↦ cc (rw f at h)
        | inr (rest, f) ↦ let same = rw f at h in (ground arith, rw f refl)
      ]

  remove_each-keeps :
      (q : FilePath) (ps : List FilePath) → any (λ p. p == q) ps ≡ false → Leaves q (remove_each ps)
  unfolding remove_each
  remove_each-keeps q [] h = pure_step-Leaves q (ok tt)
  remove_each-keeps q (p ∷ ps) h =
      then_do-Leaves _ _ q
        (or_io-Leaves q (remove_file p) _ (remove_file-Leaves p q (ground arith)))
        (λ _. remove_each-keeps q ps (ground arith))

  remove_each-removes :
      (q : FilePath) (ps : List FilePath) (d : Disk)
      → (remove_each ps d).0 ≡ ok tt
      → lookup q (remove_each ps d).1.files
        ≡ (if any (λ p. p == q) ps then none else lookup q d.files)
  unfolding remove_each or_io
  remove_each-removes q [] d h = pure_step-Leaves q (ok tt) d
  remove_each-removes q (p ∷ ps) d h =
      let (_, (one, e)) = then_do-ok _ _ d tt h in
      let d1 = (remove_file p d).1 in
      let done = remove_each-removes q ps d1 (rw e at h) in
      elim (Bool-cases (any (λ p. p == q) ps)) [
        | inl later ↦ rw e (ground (arith, done))
        | inr never ↦ elim (Bool-cases (p == q)) [
          | inl same ↦
              let path : p ≡ q = eq_true p q same in
              let gone = remove_file-ok p d (succeeded (remove_file p) _ d tt one) in
              rw (e, same) (done ∙ rw never (subst (λ x. lookup x d1.files ≡ none) path gone))
          | inr differs ↦ rw (e, differs) (done ∙ rw never (remove_file-Leaves p q differs d))
        ]
      ]

  -- Pruning that succeeds removes all but the last three of the files that it has listed, and no
  -- other file. Condition: the registry's file is in a directory.
  pub prune_artifacts-keeps_three :
      (config : RegistryConfig) (parent q : FilePath) (d : Disk)
      → parent_absolute config.canonical_path ≡ some parent
      → (prune_artifacts config d).0 ≡ ok tt
      → (lookup q (prune_artifacts config d).1.files ≡ (
          if any (λ p. p == q) (take (length (artifacts_of parent d) - 3) (artifacts_of parent d))
          then none
          else lookup q d.files))
        × (length (drop (length (artifacts_of parent d) - 3) (artifacts_of parent d)) ≤ 3)
  unfolding prune_artifacts or_io
  prune_artifacts-keeps_three config parent q d at_parent h =
      let (artifacts, (listed, e)) = then_do-ok _ _ d tt (rw at_parent at h) in
      let (same, kept) =
        read_artifacts-ok parent d artifacts
          (succeeded (read_artifacts parent) _ d artifacts listed) in
      (
        rw (at_parent, e)
            (remove_each-removes q (too_many artifacts) (read_artifacts parent d).1
                (rw (at_parent, e) at h)
              ∙ rw (same, kept) refl),
        omega (arith, length-drop (length (artifacts_of parent d) - 3) (artifacts_of parent d)),
      )
