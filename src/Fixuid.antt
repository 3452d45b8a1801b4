-- ===== src/Fixuid.antt =====
-- ddb/feature/fixuid/actions.py: the entrypoint of a Dockerfile, to which `fixuid -q` is added and from which it is
-- taken. The structure of a Dockerfile is what the third-party parser gives; json, `shlex` and the pattern of
-- the quotes are parameters.
pub mod Round
mod Samples
use text.Mathlib.Text.{starts_with}
use Prim.Native.String.{◌++◌ as append}
use docker_devbox_ddb.Prelude.{
  String, Bool, true, false, not, ◌&&◌, ◌||◌, Option, none, some, List, [], ◌∷◌, ◌++◌, ◌==◌,
  if◌then◌else◌,
}

-- An instruction of a Dockerfile
pub record Instruction : Type 0 where
  pub instruction : String
  pub value : String

-- The loop of `get_last_instruction`; a `FROM` begins a new stage.
unfoldable pub last_from :
    (Instruction → Bool) → String → Option Instruction → List Instruction → Option Instruction
last_from condition kind found [] = found
last_from condition kind found (i ∷ structure) =
    last_from condition kind
      (if i.instruction == "FROM"
        then none
        else if i.instruction == kind && condition i
        then some i
        else found)
      structure

-- `get_last_instruction`
unfoldable pub get_last_instruction :
    (Instruction → Bool) → String → List Instruction → Option Instruction
unfolding last_from
get_last_instruction condition kind structure = last_from condition kind none structure

abbrev pub value_of : Option Instruction → Option String
value_of none = none
value_of (some i) = some i.value

-- The properties `entrypoint` and `cmd`
unfoldable pub entrypoint : List Instruction → Option String
unfolding get_last_instruction
entrypoint structure = value_of (get_last_instruction (λ i. true) "ENTRYPOINT" structure)

unfoldable pub cmd : List Instruction → Option String
unfolding get_last_instruction
cmd structure = value_of (get_last_instruction (λ i. true) "CMD" structure)

-- What `json.loads`, `json.dumps`, `shlex.split` and the groups of the pattern of quotes give
pub record Texts : Type 0 where
  pub loads : String → List String
  pub dumps : List String → String
  pub split : String → List String
  pub unquote : String → String × String × String

abbrev pub is_given : Option String → Bool
is_given none = false
is_given (some text) = not (text == "")

-- The configuration of the base image: its entrypoint and its command, where it has them
pub record ImageConfig : Type 0 where
  pub image_entrypoint : Option (List String)
  pub image_cmd : Option (List String)

module _ (texts : Texts) where
  open texts use {loads, dumps, split, unquote}

  abbrev pub dumped : Option (List String) → Option String → Option String
  dumped none o = o
  dumped (some words) o = some (dumps words)

  abbrev pub image_part :
      Option ImageConfig → (ImageConfig → Option (List String)) → Option String → Option String
  image_part none part o = o
  image_part (some config) part o = dumped (part config) o

  -- `_get_cmd_and_entrypoint`: a command is taken from the base image only without an entrypoint.
  unfoldable pub get_cmd_and_entrypoint :
      List Instruction → Option ImageConfig → Option String × Option String
  unfolding entrypoint cmd
  get_cmd_and_entrypoint structure image =
      let e = entrypoint structure in
      let c = cmd structure in
      let c' =
        if not (is_given c) && not (is_given e)
        then image_part image (λ config. config.image_cmd) c
        else c in
      (
        if is_given c' then c' else none,
        if is_given e then e else image_part image (λ config. config.image_entrypoint) e,
      )

  -- The words of an entrypoint, whether it is a list, and its quotes
  pub record Parsed : Type 0 where
    pub words : List String
    pub as_list : Bool
    pub start_quote : String
    pub end_quote : String

  abbrev pub parse_text : String → Parsed
  parse_text text =
      if text == "" || text == "null"
      then record { words = []; as_list = true; start_quote = ""; end_quote = "" }
      else if starts_with text "["
      then record { words = loads text; as_list = true; start_quote = ""; end_quote = "" }
      else let (start_quote, middle, end_quote) = unquote text in
        record {
          words = split middle;
          as_list = false;
          start_quote = start_quote;
          end_quote = end_quote;
        }

  -- `_parse_entrypoint`
  unfoldable pub parse_entrypoint : Option String → Parsed
  parse_entrypoint none = record { words = []; as_list = true; start_quote = ""; end_quote = "" }
  parse_entrypoint (some text) = parse_text text

  -- `" ".join(words)`
  unfoldable pub join_words : List String → String
  join_words [] = ""
  join_words (word ∷ []) = word
  join_words (word ∷ next ∷ words) = append word (append " " (join_words (next ∷ words)))

  unfoldable pub print_entrypoint : Parsed → String
  unfolding join_words
  print_entrypoint p =
      if p.as_list
      then dumps p.words
      else append p.start_quote (append (join_words p.words) p.end_quote)

  -- The words behind `fixuid -q`, if they begin with it
  abbrev pub strip_prefix : List String → Option (List String)
  strip_prefix [] = none
  strip_prefix (a ∷ []) = none
  strip_prefix (a ∷ b ∷ words) = if a == "fixuid" && b == "-q" then some words else none

  abbrev pub with_prefix : List String → Option (List String) → List String
  with_prefix words none = "fixuid" ∷ "-q" ∷ words
  with_prefix words (some rest) = words

  abbrev pub without_prefix : List String → Option (List String) → List String
  without_prefix words none = words
  without_prefix words (some rest) = rest

  -- `_add_fixuid_entrypoint`
  unfoldable pub add_fixuid_entrypoint : Option String → String
  unfolding parse_entrypoint print_entrypoint
  add_fixuid_entrypoint e =
      let p = parse_entrypoint e in
      print_entrypoint (record p { words = with_prefix p.words (strip_prefix p.words) })

  -- `_remove_fixuid_entrypoint`
  unfoldable pub remove_fixuid_entrypoint : Option String → String
  unfolding parse_entrypoint print_entrypoint
  remove_fixuid_entrypoint e =
      let p = parse_entrypoint e in
      print_entrypoint (record p { words = without_prefix p.words (strip_prefix p.words) })
