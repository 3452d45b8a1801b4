-- ===== src/Fixuid/Round.antt =====
-- ddb/feature/fixuid/actions.py: what is added to an entrypoint is added once, and is taken away.
use text.Mathlib.Text.{starts_with}
use docker_devbox_ddb.Prelude.{
  String, true, false, ◌||◌, none, some, List, ◌∷◌, ◌==◌, ◌≡◌, refl, sym, ap, ◌∙◌,
}
use docker_devbox_ddb.Fixuid.{
  Texts, parse_entrypoint, print_entrypoint, strip_prefix, with_prefix, without_prefix,
  add_fixuid_entrypoint, remove_fixuid_entrypoint,
}

-- What json documents of a list: it is printed with a bracket first, and is read again.
pub record IsJson (texts : Texts) (words : List String) : Type 0 where
  pub bracket : starts_with (texts.dumps words) "[" ≡ true
  pub filled : (texts.dumps words == "" || texts.dumps words == "null") ≡ false
  pub loads-dumps : texts.loads (texts.dumps words) ≡ words

module _ (texts : Texts) where
  add-dumps :
      (words : List String)
      → IsJson texts words
      → add_fixuid_entrypoint texts (some (texts.dumps words))
        ≡ texts.dumps (with_prefix texts words (strip_prefix texts words))
  unfolding add_fixuid_entrypoint parse_entrypoint print_entrypoint
  add-dumps words j = rw (j.filled, j.bracket, j.loads-dumps) refl

  remove-dumps :
      (words : List String)
      → IsJson texts words
      → remove_fixuid_entrypoint texts (some (texts.dumps words))
        ≡ texts.dumps (without_prefix texts words (strip_prefix texts words))
  unfolding remove_fixuid_entrypoint parse_entrypoint print_entrypoint
  remove-dumps words j = rw (j.filled, j.bracket, j.loads-dumps) refl

  -- For an entrypoint that is a list which does not begin with `fixuid -q`: adding it puts it in front, adding it
  -- again changes nothing, and removing it gives the entrypoint back.
  pub remove-add_fixuid_entrypoint :
      (words : List String)
      → IsJson texts words
      → IsJson texts ("fixuid" ∷ "-q" ∷ words)
      → strip_prefix texts words ≡ none
      → let added = add_fixuid_entrypoint texts (some (texts.dumps words)) in
        (added ≡ texts.dumps ("fixuid" ∷ "-q" ∷ words))
        × (add_fixuid_entrypoint texts (some added) ≡ added)
        × (remove_fixuid_entrypoint texts (some added) ≡ texts.dumps words)
  remove-add_fixuid_entrypoint words j k n =
      let first = add-dumps words j ∙ ap (λ o. texts.dumps (with_prefix texts words o)) n in
      (
        first,
        ap (λ t. add_fixuid_entrypoint texts (some t)) first
            ∙ add-dumps ("fixuid" ∷ "-q" ∷ words) k
            ∙ sym first,
        ap (λ t. remove_fixuid_entrypoint texts (some t)) first
            ∙ remove-dumps ("fixuid" ∷ "-q" ∷ words) k,
      )
