-- ===== src/Adapters/Registry/Disk.antt =====
-- What crates/colui-adapters/src/registry/format.rs uses of `std::fs`: files by their path, and
-- calls that may fail at any point.
use colui.Prelude.{
  ℕ, Bool, if◌then◌else◌, List, [], ◌∷◌, Option, none, some, String, Result, ok, err, ok_or, take,
  list_eq, nat_eq,
}
use colui.Prelude.Map.{Map, lookup, insert, remove}
use colui.Domain.Text.{Text}
use colui.Domain.FilePath.{FilePath}

-- `io::ErrorKind`, as far as the registry looks at it.
pub data IoErrorKind : Type 0 where
  not_found permission_denied would_block uncategorized : IoErrorKind

pub record IoError : Type 0 where
  pub kind : IoErrorKind
  pub text : String

-- A failure of a call that is not that the file is missing; a write has then written some bytes.
pub record Fault : Type 0 where
  pub denied : Bool
  pub text : String
  pub written : ℕ

abbrev pub fault_error : Fault → IoError
fault_error f = record {
  kind = if f.denied then IoErrorKind.permission_denied else uncategorized;
  text = f.text;
}

-- The files, and how the next calls end: with `none` as the files say, or with a failure. When the
-- list is used up no further call fails.
pub record Disk : Type 0 where
  pub files : Map FilePath Text
  pub faults : List (Option Fault)

abbrev pub Step : Type 0 → Type 0 → Type 0
Step E A = Disk → Result E A × Disk

module _ {A : Type 0} where
  abbrev pub attempt : List (Option Fault) → (ℕ → Disk → Disk) → Step IoError A → Step IoError A
  attempt [] spoil run d = run d
  attempt (none ∷ rest) spoil run d = run (record d { faults = rest })
  attempt (some f ∷ rest) spoil run d =
      (err (fault_error f), spoil f.written (record d { faults = rest }))

  -- A call: what it does, and what it leaves behind when it fails.
  unfoldable pub file_call : (ℕ → Disk → Disk) → Step IoError A → Step IoError A
  file_call spoil run d = attempt d.faults spoil run d

abbrev pub keep : ℕ → Disk → Disk
keep n d = d

abbrev pub no_such_file : IoError
no_such_file = record {
  kind = IoErrorKind.not_found;
  text = "No such file or directory (os error 2)";
}

abbrev file_exists : IoError
file_exists = record { kind = uncategorized; text = "File exists (os error 17)" }

abbrev pub put : FilePath → Text → Disk → Disk
put p content d = record d { files = insert p content d.files }

abbrev pub put_all : FilePath → Text → Step IoError (Unit {0})
put_all p content d = (ok tt, put p content d)

-- Calls without an effect on the contents: `create_dir_all`, `sync_all`, opening a directory.
unfoldable pub touch : Step IoError (Unit {0})
touch = file_call keep (λ d. (ok tt, d))

-- `fs::read`
unfoldable pub read : FilePath → Step IoError Text
read p = file_call keep (λ d. (ok_or (lookup p d.files) no_such_file, d))

abbrev created : FilePath → Option Text → Step IoError (Unit {0})
created p none d = put_all p [] d
created p (some old) d = (err file_exists, d)

-- `OpenOptions::create_new`
unfoldable pub create_new : FilePath → Step IoError (Unit {0})
create_new p = file_call keep (λ d. created p (lookup p d.files) d)

abbrev opened : FilePath → Option Text → Step IoError (Unit {0})
opened p none d = put_all p [] d
opened p (some old) d = (ok tt, d)

-- `OpenOptions::create` without truncation
unfoldable pub open_or_create : FilePath → Step IoError (Unit {0})
open_or_create p = file_call keep (λ d. opened p (lookup p d.files) d)

-- `File::create`
unfoldable pub create : FilePath → Step IoError (Unit {0})
create p = file_call keep (put_all p [])

-- `write_all` on a file that is open and empty
unfoldable pub write_all : FilePath → Text → Step IoError (Unit {0})
write_all p content = file_call (λ n. put p (take n content)) (put_all p content)

abbrev pub renamed : FilePath → FilePath → Option Text → Step IoError (Unit {0})
renamed from to none d = (err no_such_file, d)
renamed from to (some content) d =
    (ok tt, record d { files = insert to content (remove from d.files) })

-- `fs::rename`
unfoldable pub rename : FilePath → FilePath → Step IoError (Unit {0})
rename from to = file_call keep (λ d. renamed from to (lookup from d.files) d)

abbrev pub removed : FilePath → Option Text → Step IoError (Unit {0})
removed p none d = (err no_such_file, d)
removed p (some content) d = (ok tt, record d { files = remove p d.files })

-- `fs::remove_file`
unfoldable pub remove_file : FilePath → Step IoError (Unit {0})
remove_file p = file_call keep (λ d. removed p (lookup p d.files) d)
