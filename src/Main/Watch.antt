-- ===== src/Main/Watch.antt =====
-- ddb/__main__.py, `handle_watch`: the watchers of the actions, and the loop that waits for the stop event.
pub mod Ending
mod Samples
use docker_devbox_ddb.Prelude.{
  ℕ, zero, suc, ◌+◌, String, Bool, true, false, List, [], ◌∷◌, Option, none, some, is_empty, Result,
  ok, err, if◌then◌else◌,
}
use docker_devbox_ddb.Prelude.Exec.{Exec, for_each, modify, and_then, ◌>>◌}

-- `context.watching`, the event `_watch_started_event`, and the rest
pub record Watching (W : Type 0) : Type 0 where
  pub watching : Bool
  pub is_started : Bool
  pub world : W

-- The methods of `WatchSupport`
pub record Watchers (A S X : Type 0) : Type 0 where
  pub start_watching : A → Exec S X Unit
  pub stop_watching : A → Exec S X Unit
  pub join_watching : A → Exec S X Unit

-- What one `_watch_stop_event.wait(1)` ends with: its timeout, the event, or a `KeyboardInterrupt`
pub data Waited : Type 0 where
  timed_out stop_event interrupted : Waited

abbrev pub has_ended : Waited → Bool
has_ended timed_out = false
has_ended stop_event = true
has_ended interrupted = true

-- The `while` loop, from a round: whether it ends within the fuel
unfoldable pub wait_until : (ℕ → Waited) → ℕ → ℕ → Bool
wait_until waits zero round = false
wait_until waits (suc fuel) round =
    let rest = wait_until waits fuel (suc round) in if has_ended (waits round) then true else rest

module _ {A W X : Type 0} (watchers : Watchers A (Watching W) X) (waits : ℕ → Waited) where
  open watchers use {start_watching, stop_watching, join_watching}

  abbrev pub mark_started : Watching W → Watching W
  mark_started s = record s { is_started = true }

  abbrev pub set_watching : Bool → Watching W → Watching W
  set_watching b s = record s { watching = b }

  -- The `try` statement around the loop, and what follows: the answer is whether it was left.
  abbrev pub watch : ℕ → List A → Exec (Watching W) X Bool
  watch fuel supports s =
      if wait_until waits fuel 0
      then (for_each stop_watching supports
            >> (for_each join_watching supports >> (λ t. (t, ok true))))
          (set_watching false (set_watching true s))
      else (set_watching true s, ok false)

  -- `handle_watch`, with the actions that support it
  unfoldable pub handle_watch : ℕ → List A → Exec (Watching W) X Bool
  unfolding wait_until
  handle_watch fuel supports s =
      if is_empty supports
      then (s, ok true)
      else (for_each start_watching supports >> (modify mark_started >> watch fuel supports)) s
