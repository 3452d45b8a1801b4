-- ===== src/Render.antt =====
-- ddb/action/action.py, class `AbstractTemplateAction`: the rendering of a template, with its retries. What
-- the rendering and the program around it do is a parameter, and log output is left out.
pub mod Bound
pub mod Deletion
mod Samples
use docker_devbox_ddb.Prelude.{
  ℕ, zero, suc, String, Bool, true, false, not, ◌&&◌, ◌||◌, Option, none, some, List, [], ◌∷◌, ◌==◌,
  ltb, if◌then◌else◌, Result, ok, err,
}
use docker_devbox_ddb.Prelude.Exec.{Exec, pure, for_each, modify, and_then, ◌>>◌, ◌>>=◌}

-- What `_render_template` yields: a text, or for a template that is no file whether it was made
pub data Rendered : Type 0 where
  content : String → Rendered
  made : Bool → Rendered

-- `self`, `config` and the other parts, on a state `S`. The generator `_render_template` is the list of
-- its parts up to each `yield`, of which the last one may yield nothing.
pub record Host (S X : Type 0) : Type 0 where
  pub is_config_file : S → String → Bool
  pub render_template : String → String → List (Exec S X (Option (Rendered × String)))
  pub copy_if_different : String → String → Exec S X Unit
  pub write_if_different : String → String → Exec S X Bool
  pub set_cached : String → String → Exec S X Unit
  pub mark_as_processed : String → String → Exec S X Unit
  pub file_generated : String → String → Exec S X Unit
  pub autofix_render_error : String → String → String → X → Exec S X (Option String)
  pub is_exception : X → Bool
  pub recursion_error : X
  pub autofix : Bool
  pub eject : Bool

module _ {S X : Type 0} (host : Host S X) where
  open host use {
    is_config_file, render_template, copy_if_different, write_if_different, set_cached,
    mark_as_processed, file_generated, autofix_render_error, is_exception, recursion_error, autofix,
    eject,
  }

  abbrev pub when : Bool → Exec S X Unit → Exec S X Unit
  when false m s = (s, ok tt)
  when true m s = m s

  -- `write_if_different` and the cache, for a text: whether the file was written
  abbrev pub write_rendered : Rendered → String → String → Exec S X Bool
  write_rendered (made b) target destination s = (s, ok false)
  write_rendered (content text) target destination s =
      (write_if_different destination text >>= (λ written. set_cached target text >> pure written))
        s

  abbrev pub is_made : Rendered → Bool
  is_made (made b) = b
  is_made (content text) = false

  -- The body of the loop over what was rendered
  unfoldable pub process_rendered :
      String → String → String → Option (Rendered × String) → Exec S X Unit
  process_rendered template target original none s = (s, ok tt)
  process_rendered template target original (some (rendered, destination)) s =
      (when (not (original == template) && autofix) (copy_if_different template original)
          >> (write_rendered rendered target destination >>= (λ written.
              mark_as_processed template destination
              >> when (written || (is_made rendered || eject))
                  (file_generated original destination))))
        s

  -- The loop, which is the body of the `try`
  unfoldable pub attempt : String → String → String → Exec S X Unit
  unfolding process_rendered
  attempt template target original =
      for_each (λ part. part >>= process_rendered template target original)
        (render_template template target)

  -- What `_autofix_render_error` gave: the template to render again, or the error to raise
  abbrev pub retry :
      X → (String → Exec S X Unit) → S × Result X (Option String) → S × Result X (Unit {0})
  retry x again (s, err y) = if is_exception y then (s, err x) else (s, err y)
  retry x again (s, ok none) = (s, err x)
  retry x again (s, ok (some template)) = if template == "" then (s, err x) else again template s

  -- The `except` clause
  abbrev pub rescue :
      ℕ
      → String
      → String
      → String
      → (String → Exec S X Unit)
      → S × Result X (Unit {0})
      → S × Result X (Unit {0})
  rescue retries template target original again (s, ok u) = (s, ok u)
  rescue retries template target original again (s, err x) =
      if not (is_exception x) || ltb 50 retries
      then (s, err x)
      else retry x again (autofix_render_error template target original x s)

  -- `execute`, with `migrate_retries_count` and `original_template`. The fuel is the depth of Python's
  -- stack of calls.
  unfoldable pub execute_from : ℕ → ℕ → String → String → String → Exec S X Unit
  execute_from zero retries original target template s = (s, err recursion_error)
  execute_from (suc fuel) retries original target template s =
      if is_config_file s target
      then (s, ok tt)
      else rescue retries template target original (execute_from fuel (suc retries) original target)
          (attempt template target original s)

  -- `execute(template, target)`
  unfoldable pub execute : ℕ → String → String → Exec S X Unit
  unfolding execute_from
  execute fuel template target = execute_from fuel 0 template target template
