-- ===== src/Gitignore/Restore.antt =====
-- ddb/feature/gitignore/actions.py: `remove` takes off a `.gitignore` what `execute` put there.
use docker_devbox_ddb.Prelude.{
  String, true, false, some, List, [], ◌∷◌, ◌++◌, ◌==◌, contains, remove?, eq_string, ◌≡◌, refl, ap,
  ◌∙◌, eq_refl, arith, All, drop_last-snoc, append_assoc, append-nil,
}
use docker_devbox_ddb.Gitignore.{
  Markers, get_block_limit, is_block_limit, sanitize_block, has_text, write_gitignore_content,
  read_and_split, add_target, remove_target, ends_by_start,
}
use docker_devbox_ddb.Gitignore.Split.{
  IsPlain, IsStart, IsEnd, split-managed, split-plain, get_block_limit-IsStart,
  get_block_limit-IsEnd,
}

module _ (markers : Markers) where
  -- The file with a block of its own behind the lines that it had
  abbrev pub with_block : List String → List String → List String
  with_block lines content =
      lines ++ get_block_limit markers true ∷ (content ++ get_block_limit markers false ∷ [])

  plain_last :
      (lines : List String) → All (IsPlain markers) lines → ends_by_start markers lines ≡ false
  unfolding ends_by_start
  plain_last [] p = refl
  plain_last (x ∷ []) p = p.0.0
  plain_last (x ∷ y ∷ lines) p = plain_last (y ∷ lines) p.1

  start_last :
      (lines : List String) (s : String)
      → ends_by_start markers (lines ++ s ∷ []) ≡ is_block_limit markers s true
  unfolding ends_by_start
  start_last [] s = refl
  start_last (x ∷ []) s = refl
  start_last (x ∷ y ∷ lines) s = start_last (y ∷ lines) s

  has_text-append : (xs ys : List String) → has_text ys ≡ true → has_text (xs ++ ys) ≡ true
  has_text-append [] ys h = h
  has_text-append (x ∷ xs) ys h = ground (arith, has_text-append xs ys h)

  -- A target that is put in a file without limits stands alone in a block behind the file's lines.
  pub add_target-plain :
      (lines : List String) (target : String)
      → All (IsPlain markers) lines
      → (target == "") ≡ false
      → add_target markers target (some lines) ≡ some (with_block lines (target ∷ []))
  unfolding add_target read_and_split sanitize_block write_gitignore_content contains
  add_target-plain lines target p filled =
      rw
        (
          split-plain markers lines p,
          filled,
          plain_last lines p,
          append_assoc lines (get_block_limit markers true ∷ []) _,
          has_text-append lines
              (get_block_limit markers true ∷ target ∷ get_block_limit markers false ∷ [])
              (ground arith),
        )
        refl

  -- Taking the only target of a block off leaves the lines before the block, or no file where none
  -- of them has text.
  pub remove_target-alone :
      (lines : List String) (target : String)
      → All (IsPlain markers) lines
      → IsPlain markers target
      → remove_target markers target (some (with_block lines (target ∷ [])))
        ≡ write_gitignore_content lines
  unfolding remove_target read_and_split sanitize_block remove?
  remove_target-alone lines target p pt =
      let start = get_block_limit-IsStart markers in
      let stop = get_block_limit-IsEnd markers in
      rw
        (
          split-managed markers lines (target ∷ []) [] (get_block_limit markers true)
              (get_block_limit markers false) p (pt, tt) start stop,
          eq_refl,
          start_last lines (get_block_limit markers true),
          start.starts,
          stop.ends,
          drop_last-snoc lines (get_block_limit markers true),
          append-nil,
        )
        refl

  -- In a file without limits, a target that is put and removed leaves the file as it was, or
  -- removes the file where none of its lines has text.
  pub remove-add_target :
      (lines : List String) (target : String)
      → All (IsPlain markers) lines
      → IsPlain markers target
      → (target == "") ≡ false
      → remove_target markers target (add_target markers target (some lines))
        ≡ write_gitignore_content lines
  remove-add_target lines target p pt filled =
      ap (remove_target markers target) (add_target-plain lines target p filled)
      ∙ remove_target-alone lines target p pt

  -- In a file that has the block, a target that is not in it goes to the end of the block, which is
  -- not sorted; every other line stays where it is.
  pub add_target-managed :
      (lines content rest : List String) (target s e : String)
      → All (IsPlain markers) lines
      → All (IsPlain markers) content
      → IsStart markers s
      → IsEnd markers e
      → (target == "") ≡ false
      → contains content target ≡ false
      → add_target markers target (some (lines ++ s ∷ (content ++ e ∷ rest)))
        ≡ some (lines ++ s ∷ (content ++ target ∷ e ∷ rest))
  unfolding add_target read_and_split sanitize_block write_gitignore_content
  add_target-managed lines content rest target s e p pc st en filled fresh =
      rw
        (
          split-managed markers lines content rest s e p pc st en,
          fresh,
          has_text-append content (target ∷ []) (ground arith),
          start_last lines s,
          st.starts,
          en.ends,
          append_assoc lines (s ∷ []) _,
          append_assoc content (target ∷ []) (e ∷ rest),
          has_text-append lines (s ∷ (content ++ target ∷ e ∷ rest))
              (ground (arith, has_text-append content (target ∷ e ∷ rest) (ground arith))),
        )
        refl
