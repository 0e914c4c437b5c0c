-- ===== src/Reloader/Check.antt =====
-- `checkAndReload` and the main loop of cmd/reloader/main.go.
pub mod Laws
pub mod Runs
pub mod Converges
use nginx_operator.Base.{
  ℕ, ◌+◌, ◌%◌, String, ◌<>◌, ◌==◌, Bool, true, false, List, [], ◌∷◌, Option, none, some, Result, ok,
  err, wrap, if◌then◌else◌,
}
use Prim.Native.Nat.{◌^◌}
use nginx_operator.Api.Meta.{Time}
use nginx_operator.Reloader.Files.{Visit, compute_config_hash}

-- The fields that change. `reload_count` is an int64, as the number modulo 2 ^ 64.
pub record Reloader : Type 0 where
  pub last_config_hash : String
  pub last_reload_time : Time
  pub reload_count : ℕ
  pub last_error : String
  pub healthy : Bool

-- The outcome of a command: its output, and an error if it failed or timed out.
pub record CommandResult : Type 0 where
  pub output : String
  pub failed : Option String

-- What one round of the loop meets.
pub record Round : Type 0 where
  pub visits : List Visit
  pub test_run : CommandResult
  pub reload_run : CommandResult
  pub now : Time

-- The commands that a round runs.
pub data Command : Type 0 where
  test_config reload_config : Command

-- `validateConfig` and `reloadNginx`: the error, if any, with the output in it.
unfoldable pub command_error : String → CommandResult → Option String
command_error name c = elim c.failed [
  | none ↦ none
  | some problem ↦ some (name <> " failed: " <> c.output <> ": " <> problem)
]

unfoldable pub validate_config : Round → Option String
unfolding command_error
validate_config e = command_error "nginx -t" e.test_run

unfoldable pub reload_nginx : Round → Option String
unfolding command_error
reload_nginx e = command_error "nginx -s reload" e.reload_run

-- The state after a round, its error, and the commands that it ran, in order.
pub record Outcome : Type 0 where
  pub state : Reloader
  pub error : Option String
  pub commands : List Command

abbrev pub failed_with : String → Reloader → Reloader
failed_with problem r = record r { last_error = problem; healthy = false }

abbrev pub reloaded : String → Time → Reloader → Reloader
reloaded hash now r = record {
  last_config_hash = hash;
  last_reload_time = now;
  reload_count = (r.reload_count + 1) % 2 ^ 64;
  last_error = "";
  healthy = true;
}

-- What follows on a configuration that passed the test.
unfoldable pub reload_step : Reloader → String → Round → Outcome
reload_step r hash e = elim (reload_nginx e) [
  | some problem ↦ record {
    state = failed_with problem r;
    error = some ("reload failed: " <> problem);
    commands = test_config ∷ reload_config ∷ [];
  }
  | none ↦ record {
    state = reloaded hash e.now r;
    error = none;
    commands = test_config ∷ reload_config ∷ [];
  }
]

-- What follows on a hash that differs from the last one.
unfoldable pub changed_step : Reloader → String → Round → Outcome
changed_step r hash e = elim (validate_config e) [
  | some problem ↦ record {
    state = failed_with problem r;
    error = some ("config validation failed: " <> problem);
    commands = test_config ∷ [];
  }
  | none ↦ reload_step r hash e
]

module _ (sha256_hex : String → String) where
  unfoldable pub check_and_reload : Reloader → Round → Outcome
  check_and_reload r e = elim (compute_config_hash sha256_hex e.visits) [
    | err problem ↦ record {
      state = r;
      error = some ("failed to compute config hash: " <> problem);
      commands = [];
    }
    | ok hash ↦
        if hash == r.last_config_hash
        then record { state = r; error = none; commands = [] }
        else changed_step r hash e
  ]

  -- The main loop over its rounds, until a signal ends them; an error is only logged.
  unfoldable pub run_loop : Reloader → List Round → Reloader
  run_loop r [] = r
  run_loop r (e ∷ es) = run_loop (check_and_reload r e).state es

  -- The start: the program exits if the first hash cannot be computed.
  unfoldable pub start : List Visit → Result Reloader
  start visits = elim (compute_config_hash sha256_hex visits) [
    | err problem ↦ err ("failed to compute initial config hash: " <> problem)
    | ok hash ↦ ok (record {
      last_config_hash = hash;
      last_reload_time = 0;
      reload_count = 0;
      last_error = "";
      healthy = true;
    })
  ]
