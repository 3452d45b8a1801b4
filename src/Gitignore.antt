-- ===== src/Gitignore.antt =====
-- ddb/feature/gitignore/actions.py, class `UpdateGitignoreAction`: the block of generated files in a
-- `.gitignore`. A file is held by its lines, `read().split('\n')`.
pub mod Split
pub mod Restore
mod Samples
use Prim.Native.String.{◌++◌ as append}
use docker_devbox_ddb.Prelude.{
  String, Bool, true, false, not, ◌&&◌, ◌||◌, Option, none, some, List, [], ◌∷◌, ◌++◌, ◌==◌,
  if◌then◌else◌, contains, remove?, last?, drop_last, is_empty, eq_string,
}

-- `gitignore.markers`: the first one is written, and each one is read.
pub record Markers : Type 0 where
  pub first : String
  pub others : List String

unfoldable pub start_limit : String → String
start_limit marker = append "###> " (append marker " ###")

unfoldable pub end_limit : String → String
end_limit marker = append "###< " (append marker " ###")

-- `_get_block_limit`
unfoldable pub get_block_limit : Markers → Bool → String
unfolding start_limit end_limit
get_block_limit markers start = if start then start_limit markers.first else end_limit markers.first

unfoldable pub any_limit : (String → String) → List String → String → Bool
any_limit limit [] line = false
any_limit limit (marker ∷ markers) line = limit marker == line || any_limit limit markers line

-- `_is_block_limit(line, start)`, for the two values of `start` that the class uses
unfoldable pub is_block_limit : Markers → String → Bool → Bool
unfolding any_limit start_limit end_limit
is_block_limit markers line start =
    any_limit (if start then start_limit else end_limit) (markers.first ∷ markers.others) line

pub record Blocks : Type 0 where
  pub content : List String
  pub before : List String
  pub after : List String

-- The loop of `_split_block_lines`, with the values of `started` and `ended` at its head
unfoldable pub split_from : Markers → Bool → Bool → List String → Blocks
split_from markers started ended [] = record { content = []; before = []; after = [] }
split_from markers started ended (line ∷ lines) =
    let ended' = ended || is_block_limit markers line false in
    let rest = split_from markers (started || is_block_limit markers line true) ended' lines in
    if started
    then (if ended'
        then record rest { after = line ∷ rest.after }
        else record rest { content = line ∷ rest.content })
    else (if ended' then rest else record rest { before = line ∷ rest.before })

-- `_split_block_lines`
unfoldable pub split_block_lines : Markers → List String → Blocks
split_block_lines markers lines = split_from markers false false lines

-- `lines and self._is_block_limit(lines[-1], start=True)`
unfoldable pub ends_by_start : Markers → List String → Bool
ends_by_start markers [] = false
ends_by_start markers (line ∷ []) = is_block_limit markers line true
ends_by_start markers (line ∷ next ∷ lines) = ends_by_start markers (next ∷ lines)

-- `lines and self._is_block_limit(lines[0], start=False)`
abbrev pub begins_by_end : Markers → List String → Bool
begins_by_end markers [] = false
begins_by_end markers (line ∷ lines) = is_block_limit markers line false

abbrev pub has_text : List String → Bool
has_text [] = false
has_text (line ∷ lines) = not (line == "") || has_text lines

abbrev pub without_first : List String → List String
without_first [] = []
without_first (line ∷ lines) = lines

-- `_sanitize_block`. Its sorted and filtered `block_lines` is a new list, bound to a local name: the
-- caller's list stays as it is, and only the limits around it change.
unfoldable pub sanitize_block : Markers → Blocks → Blocks
sanitize_block markers b =
    if has_text b.content
    then record b {
      before =
          if ends_by_start markers b.before
          then b.before
          else (b.before ++ get_block_limit markers true ∷ []);
      after =
          if begins_by_end markers b.after
          then b.after
          else (get_block_limit markers false ∷ b.after);
    }
    else record b {
      before = if ends_by_start markers b.before then drop_last b.before else b.before;
      after = if begins_by_end markers b.after then without_first b.after else b.after;
    }

abbrev pub joined : Blocks → List String
joined b = b.before ++ (b.content ++ b.after)

-- `_write_gitignore_content`: `none` where the file is removed
unfoldable pub write_gitignore_content : List String → Option (List String)
write_gitignore_content lines = if has_text lines then some lines else none

-- `_read_and_split_gitignore_file`
unfoldable pub read_and_split : Markers → Option (List String) → Blocks
unfolding split_block_lines
read_and_split markers none = record { content = []; before = []; after = [] }
read_and_split markers (some lines) = split_block_lines markers lines

-- The end of `execute`, for a file that is not ignored yet: what the `.gitignore` is then
unfoldable pub add_target : Markers → String → Option (List String) → Option (List String)
add_target markers target file =
    let b = read_and_split markers file in
    if contains b.content target
    then file
    else write_gitignore_content
        (joined (sanitize_block markers (record b { content = b.content ++ target ∷ [] })))

-- `block_lines.remove(target_file)`, if it is there, and the rest of `remove`
abbrev pub keep_left :
    Markers → Option (List String) → Blocks → Option (List String) → Option (List String)
keep_left markers file b none = file
keep_left markers file b (some left) =
    write_gitignore_content (joined (sanitize_block markers (record b { content = left })))

-- The end of `remove`, for a file that the `.gitignore` ignores
unfoldable pub remove_target : Markers → String → Option (List String) → Option (List String)
remove_target markers target file =
    let b = read_and_split markers file in keep_left markers file b (remove? target b.content)
