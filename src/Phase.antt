-- ===== src/Phase.antt =====
-- ddb/phase/phase.py, `DefaultPhase` and `execute_phase`. Phases emit their event on the bus; what its
-- listeners do is a parameter, and they may change all of the program's state.
pub mod Once
mod Samples
use Prim.Native.String.{◌++◌}
use docker_devbox_ddb.Prelude.{
  String, Bool, true, false, ◌&&◌, Option, none, some, Result, ok, if◌then◌else◌,
}
use docker_devbox_ddb.Prelude.Exec.{Exec, and_then, try_finally}
use docker_devbox_ddb.Dict.{lookup}
use docker_devbox_ddb.Cache.{Cache, set, flush}
use docker_devbox_ddb.Bus.{Bus, Calls, emit}

-- The project's cache, the context's current phase and command, by name, and the rest of the world
pub record App (W : Type 0) : Type 0 where
  pub cache : Cache Bool
  pub phase : Option String
  pub command : Option String
  pub world : W

pub record Phase : Type 0 where
  pub name : String
  pub run_once : Bool

abbrev pub runned_cache_key : Phase → String
runned_cache_key p = "phase.runned." ++ p.name

-- `bool(value)` of what the cache gives
abbrev pub is_true : Option Bool → Bool
is_true none = false
is_true (some b) = b

module _ {W : Type 0} where
  unfoldable pub was_run : Phase → App W → Bool
  was_run p s = is_true (lookup (runned_cache_key p) s.cache.entries)

  -- `cache.set(runned_cache_key, True)` and `cache.flush()`
  unfoldable pub mark_run : Phase → App W → App W
  unfolding set flush
  mark_run p s = record s { cache = flush (set (runned_cache_key p) true s.cache) }

  abbrev pub enter_phase : Phase → App W → App W
  enter_phase p s = record s { phase = some p.name }

  abbrev pub leave_phase : App W → App W
  leave_phase s = record s { phase = none }

module _ {L W E : Type 0} (calls : Calls L Unit (App W) E) (bus : Bus L) where
  -- `DefaultPhase.execute`
  unfoldable pub execute : Phase → Exec (App W) E Unit
  unfolding was_run mark_run
  execute p s =
      if p.run_once && was_run p s
      then (s, ok tt)
      else (let (s', r) = emit calls bus ("phase:" ++ p.name) tt s in
          and_then r (λ _ t. (mark_run p t, ok tt)) s')

  -- `execute_phase`
  unfoldable pub execute_phase : Phase → Exec (App W) E Unit
  execute_phase p s = try_finally (execute p) leave_phase (enter_phase p s)
