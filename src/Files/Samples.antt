-- ===== src/Files/Samples.antt =====
-- A file that may be read, but not written. Its modes are whether it may be read and written.
use docker_devbox_ddb.Prelude.{Bool, true, false, not, ok, ◌==◌, ◌≡◌, refl}
use docker_devbox_ddb.Files.{
  Modes, file, write_if_different, read_existing, write_unless_same, write,
}
use docker_devbox_ddb.Files.Writes.{write_if_different_twice}

abbrev modes : Modes (Bool × Bool)
modes = record {
  is_readable = λ m. m.0;
  is_writable = λ m. m.1;
  add_read = λ m. (true, m.1);
  add_write = λ m. (m.0, true);
  new_mode = (true, true);
  writable-add_write = λ m. refl;
  writable-new_mode = refl;
  readable-add_read = λ m. refl;
  writable-add_read = λ m. refl;
  add_read_idem = λ m. refl;
}

rewritten :
    write_if_different modes true "new" (file "old" (true, false))
    ≡ (file "new" (true, true), ok true)
unfolding write_if_different read_existing write_unless_same write
rewritten = refl

write_if_different_twice_example :
    (m : Bool × Bool) × (write_if_different modes true "new" (file "old" (true, false))
      ≡ (file "new" m, ok (not ("old" == "new"))))
    × (write_if_different modes true "new" (file "new" m) ≡ (file "new" m, ok false))
write_if_different_twice_example =
    write_if_different_twice modes "new" (file "old" (true, false)) refl
