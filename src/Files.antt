-- ===== src/Files.antt =====
-- ddb/utils/file.py: `write_if_different`, on the file that it writes. File modes and
-- their changes, which chmod_monkey and the operating system make, are a parameter.
pub mod Writes
mod Samples
use docker_devbox_ddb.Prelude.{
  String, Bool, true, false, not, ◌&&◌, Option, none, some, Result, ok, err, ◌==◌, if◌then◌else◌,
  ◌≡◌,
}
use docker_devbox_ddb.Prelude.Exec.{Exec, try_finally}

-- The modes of a file: what the process may do, `chmod`, and the mode of a file that `open` makes
pub record Modes (M : Type 0) : Type 0 where
  pub is_readable : M → Bool
  pub is_writable : M → Bool
  pub add_read : M → M
  pub add_write : M → M
  pub new_mode : M
  pub writable-add_write : (m : M) → is_writable (add_write m) ≡ true
  pub writable-new_mode : is_writable new_mode ≡ true
  pub readable-add_read : (m : M) → is_readable (add_read m) ≡ true
  pub writable-add_read : (m : M) → is_writable (add_read m) ≡ is_writable m
  pub add_read_idem : (m : M) → add_read (add_read m) ≡ add_read m

-- What stands at a path
pub data Node (M : Type 0) : Type 0 where
  absent directory : Node M
  file : String → M → Node M

-- `OSError` of a file that cannot be opened for writing, and of `shutil.rmtree` of a file
pub data FileError : Type 0 where
  not_writable not_a_directory : FileError

module _ {M : Type 0} (modes : Modes M) where
  open modes use {is_readable, is_writable, add_read, add_write, new_mode}

  -- `chmod(file, '+r')` if it is a file
  abbrev pub allow_read : Node M → Node M
  allow_read (file text m) = file text (add_read m)
  allow_read absent = absent
  allow_read directory = directory

  -- `chmod(file, '+w')` if it is a file that is not writable
  abbrev pub allow_write : Node M → Node M
  allow_write (file text m) = file text (if is_writable m then m else add_write m)
  allow_write absent = absent
  allow_write directory = directory

  -- `with open(file, mode='w') as f: f.write(data)`
  unfoldable pub write : String → Exec (Node M) FileError Unit
  write text absent = (file text new_mode, ok tt)
  write text directory = (directory, err not_writable)
  write text (file old m) =
      if is_writable m then (file text m, ok tt) else (file old m, err not_writable)

  -- The existing data: what cannot be read is taken away with `shutil.rmtree`.
  unfoldable pub read_existing : Exec (Node M) FileError (Option String)
  read_existing absent = (absent, ok none)
  read_existing directory = (absent, ok none)
  read_existing (file text m) =
      if is_readable m then (file text m, ok (some text)) else (file text m, err not_a_directory)

  abbrev pub is_same : Option String → String → Bool
  is_same none text = false
  is_same (some old) text = old == text

  abbrev pub finish_write : Node M × Result FileError (Unit {0}) → Node M × Result FileError Bool
  finish_write (n, ok u) = (n, ok true)
  finish_write (n, err x) = (n, err x)

  -- Behind the read: nothing where the data is the same, else a write
  unfoldable pub write_unless_same :
      String → Node M × Result FileError (Option String) → Node M × Result FileError Bool
  unfolding write
  write_unless_same text (n, ok existing) =
      if is_same existing text then (n, ok false) else finish_write (write text (allow_write n))
  write_unless_same text (n, err x) = (n, err x)

  -- `write_if_different`
  unfoldable pub write_if_different : Bool → String → Exec (Node M) FileError Bool
  unfolding read_existing write_unless_same
  write_if_different readonly text n =
      try_finally (λ n'. write_unless_same text (read_existing n'))
        (if readonly then allow_read else (λ n'. n')) n
