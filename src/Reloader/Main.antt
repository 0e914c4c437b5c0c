-- ===== src/Reloader/Main.antt =====
-- `main` of cmd/reloader/main.go: the flags, the start and the watch loop.
pub mod Laws
use nginx_operator.Base.{ℕ, String, Bool, true, false, List, [], ◌∷◌, Result, ok, err}
use nginx_operator.Version.{BuildVars, Runtime, get, to_string}
use nginx_operator.Reloader.Files.{Visit}
use nginx_operator.Reloader.Check.{Reloader, Round, check_and_reload, start}

-- The flags. Durations are in seconds.
pub record Flags : Type 0 where
  pub watch_dir : String
  pub nginx_binary : String
  pub reload_timeout : ℕ
  pub poll_interval : ℕ
  pub health_addr : String
  pub debug : Bool
  pub show_version : Bool

-- Their values where the command line has none.
abbrev pub default_flags : Flags
default_flags = record {
  watch_dir = "/etc/nginx";
  nginx_binary = "/usr/sbin/nginx";
  reload_timeout = 30;
  poll_interval = 2;
  health_addr = ":8082";
  debug = false;
  show_version = false;
}

-- What the `select` of the loop receives, in order: a tick with what its round meets, a signal, the
-- end of the context.
pub data Event : Type 0 where
  tick : Round → Event
  signalled : (signal : String) → Event
  cancelled : Event

-- The program is still watching, or has left the loop.
pub data Watch : Type 0 where
  watching stopped : Reloader → Watch

-- How the program stands after what it has received: the version printed and code 0, code 1 with a
-- message, or in the loop.
pub data Progress : Type 0 where
  printed : (line : String) → Progress
  exited : ℕ → (message : String) → Progress
  looping : Watch → Progress

module _ (sha256_hex : String → String) where
  -- The loop. An error of a round is only logged.
  unfoldable pub watch : Reloader → List Event → Watch
  watch r [] = watching r
  watch r (tick round ∷ events) = watch (check_and_reload sha256_hex r round).state events
  watch r (signalled signal ∷ events) = stopped r
  watch r (cancelled ∷ events) = stopped r

  -- What follows on the first hash.
  unfoldable pub watch_from : List Event → Result Reloader → Progress
  watch_from events (err problem) = exited 1 problem
  watch_from events (ok r) = looping (watch r events)

  unfoldable pub main : Flags → BuildVars → Runtime → List Visit → List Event → Progress
  main flags vars runtime visits events = elim flags.show_version [
    | true ↦ printed (to_string (get vars runtime))
    | false ↦ watch_from events (start sha256_hex visits)
  ]
