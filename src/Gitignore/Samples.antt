-- ===== src/Gitignore/Samples.antt =====
-- A `.gitignore` of two lines.
use docker_devbox_ddb.Prelude.{String, ◌≡◌, refl, true, false, some, [], ◌∷◌, contains, eq_string}
use docker_devbox_ddb.Gitignore.{
  Markers, split_block_lines, split_from, add_target, remove_target, is_block_limit,
  get_block_limit, read_and_split, sanitize_block, write_gitignore_content, ends_by_start,
}
use docker_devbox_ddb.Gitignore.Split.{IsPlain, get_block_limit-IsStart, get_block_limit-IsEnd}
use docker_devbox_ddb.Gitignore.Restore.{remove-add_target, add_target-managed}

abbrev markers : Markers
markers = record { first = "ddb"; others = [] }

added :
    add_target markers "/out" (some ("*.pyc" ∷ "" ∷ []))
    ≡ some ("*.pyc" ∷ "" ∷ "###> ddb ###" ∷ "/out" ∷ "###< ddb ###" ∷ [])
unfolding add_target read_and_split sanitize_block write_gitignore_content split_from is_block_limit
    get_block_limit contains ends_by_start split_block_lines
added = refl

pyc-IsPlain : IsPlain markers "*.pyc"
unfolding is_block_limit
pyc-IsPlain = (refl, refl)

out-IsPlain : IsPlain markers "/out"
unfolding is_block_limit
out-IsPlain = (refl, refl)

a-IsPlain : IsPlain markers "/a"
unfolding is_block_limit
a-IsPlain = (refl, refl)

end_line : is_block_limit markers (get_block_limit markers false) true ≡ false
unfolding is_block_limit get_block_limit
end_line = refl

remove-add_target_example :
    remove_target markers "/out" (add_target markers "/out" (some ("*.pyc" ∷ [])))
    ≡ write_gitignore_content ("*.pyc" ∷ [])
remove-add_target_example =
    remove-add_target markers ("*.pyc" ∷ []) "/out" (pyc-IsPlain, tt) out-IsPlain refl

not_there : contains {A = String} ("/out" ∷ []) "/a" ≡ false
unfolding contains
not_there = refl

add_target-managed_example :
    add_target markers "/a"
      (some ("*.pyc" ∷ get_block_limit markers true ∷ "/out" ∷ get_block_limit markers false ∷ []))
    ≡ some (
        "*.pyc" ∷ get_block_limit markers true ∷ "/out" ∷ "/a" ∷ get_block_limit markers false ∷ [])
add_target-managed_example =
    add_target-managed markers ("*.pyc" ∷ []) ("/out" ∷ []) [] "/a" (get_block_limit markers true)
      (get_block_limit markers false) (pyc-IsPlain, tt) (out-IsPlain, tt)
      (get_block_limit-IsStart markers) (get_block_limit-IsEnd markers) refl not_there
