-- ===== src/Files/Writes.antt =====
-- ddb/utils/file.py, `write_if_different`: the file has the data, and is written only if it had not.
use docker_devbox_ddb.Prelude.{
  String, Bool, true, false, not, Result, ok, ◌==◌, ◌≡◌, refl, ap, eq_iff, eq_refl, Bool-cases, inl,
  inr, arith,
}
use docker_devbox_ddb.Files.{
  Modes, Node, absent, directory, file, allow_read, allow_write, write, finish_write, FileError,
  read_existing, write_unless_same, write_if_different,
}

module _ {M : Type 0} (modes : Modes M) where
  open modes use {is_readable, is_writable, add_read}

  -- A file is readable.
  abbrev pub IsOpen : Node M → Type 0
  IsOpen absent = Unit
  IsOpen directory = Unit
  IsOpen (file text m) = is_readable m ≡ true

  -- The answer: was something else there before?
  abbrev pub was_different : Node M → String → Bool
  was_different absent text = true
  was_different directory text = true
  was_different (file old m) text = not (old == text)

  write_if_different-same :
      (text : String) (m : M)
      → write_if_different modes true text (file text (add_read m))
        ≡ (file text (add_read m), ok false)
  unfolding write_if_different read_existing write_unless_same
  write_if_different-same text m =
      rw (modes.readable-add_read m, eq_refl text, modes.add_read_idem m) refl

  -- Where there is no file, one with the data is made.
  write_if_different-new :
      (text : String)
      → (write_if_different modes true text absent ≡ (file text (add_read modes.new_mode), ok true))
        × (write_if_different modes true text directory
            ≡ (file text (add_read modes.new_mode), ok true))
  unfolding write_if_different read_existing write_unless_same write
  write_if_different-new text = (refl, refl)

  write-allow_write :
      (text old : String) (m : M)
      → (m' : M) × (write modes text (allow_write modes (file old m)) ≡ (file text m', ok tt))
  unfolding write
  write-allow_write text old m = elim (Bool-cases (is_writable m)) [
    | inl may ↦ (m, rw (may, may) refl)
    | inr denied ↦ (modes.add_write m, rw (denied, modes.writable-add_write m) refl)
  ]

  write_if_different-file :
      (text old : String) (m : M)
      → is_readable m ≡ true
      → (m' : M) × (write_if_different modes true text (file old m)
          ≡ (file text (add_read m'), ok (not (old == text))))
  unfolding write_if_different read_existing write_unless_same write
  write_if_different-file text old m h = elim (Bool-cases (old == text)) [
    | inl same ↦ (
      m,
      rw (h, same)
          (ap (λ (t : String). (file t (add_read m), ok false)) (ground (arith, eq_iff old text))),
    )
    | inr other ↦
        let (m', e) = write-allow_write text old m in
        (
          m',
          rw (h, other)
              (ap
                (λ (q : Node M × Result FileError (Unit {0})).
                  (allow_read modes (finish_write modes q).0, (finish_write modes q).1))
                e),
        )
  ]

  -- On a readable file, a directory or nothing, `write_if_different` does not raise: it leaves a file
  -- with the data, and returns whether something else was there; and with the same data again it
  -- returns False and leaves the file as it is.
  pub write_if_different_twice :
      (text : String) (n : Node M)
      → IsOpen n
      → (m : M) × (write_if_different modes true text n ≡ (file text m, ok (was_different n text)))
        × (write_if_different modes true text (file text m) ≡ (file text m, ok false))
  write_if_different_twice text absent h = (
    add_read modes.new_mode,
    (write_if_different-new text).0,
    write_if_different-same text modes.new_mode,
  )
  write_if_different_twice text directory h = (
    add_read modes.new_mode,
    (write_if_different-new text).1,
    write_if_different-same text modes.new_mode,
  )
  write_if_different_twice text (file old m) h =
      let (m', e) = write_if_different-file text old m h in
      (add_read m', e, write_if_different-same text m')
