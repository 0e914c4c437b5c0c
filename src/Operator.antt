-- ===== src/Operator.antt =====
-- cmd/operator/main.go: the start of the operator.
pub mod Laws
use nginx_operator.Base.{
  String, ◌==◌, Bool, true, false, ℕ, [], ◌∷◌, Option, none, some, if◌then◌else◌,
}
use nginx_operator.Version.{BuildVars, Runtime, Info, get, to_string}
use nginx_operator.Controller.Run.{Run, return, ◌>>=◌}
use nginx_operator.Controller.Wiring.{Wiring, server_wiring, route_wiring, upstream_wiring}

-- The flags. Durations are in seconds.
pub record Flags : Type 0 where
  pub metrics_addr : String
  pub probe_addr : String
  pub enable_leader_election : Bool
  pub leader_election_id : String
  pub leader_election_ns : String
  pub lease_duration : ℕ
  pub renew_deadline : ℕ
  pub retry_period : ℕ
  pub debug : Bool
  pub show_version : Bool
  pub reloader_tag : String

-- Their values where the command line has none.
abbrev pub default_flags : Flags
default_flags = record {
  metrics_addr = ":8080";
  probe_addr = ":8081";
  enable_leader_election = true;
  leader_election_id = "nginx-operator-leader.nginx.devops.click";
  leader_election_ns = "";
  lease_duration = 15;
  renew_deadline = 10;
  retry_period = 2;
  debug = false;
  show_version = false;
  reloader_tag = "";
}

pub data Level : Type 0 where
  info_level debug_level : Level

-- `zapcore.ISO8601TimeEncoder`
pub data TimeEncoder : Type 0 where
  iso8601_time_encoder : TimeEncoder

-- The fields of `zap.Options` that are set.
pub record LoggerOptions : Type 0 where
  pub development : Bool
  pub level : Level
  pub time_encoder : TimeEncoder

-- The fields of `ctrl.Options` that are set, but for the scheme.
pub record ManagerOptions : Type 0 where
  pub metrics_bind_address : String
  pub health_probe_bind_address : String
  pub leader_election : Bool
  pub leader_election_id : String
  pub leader_election_namespace : String
  pub lease_duration : ℕ
  pub renew_deadline : ℕ
  pub retry_period : ℕ

-- The calls that `main` makes, with what they are given.
pub data Call : Type 0 where
  print_line : String → Call
  set_logger : LoggerOptions → Call
  log_start : Info → Call
  get_config : Call
  new_manager : ManagerOptions → Call
  new_generator : Call
  setup_server : Wiring → (reloader_tag : String) → Call
  setup_route setup_upstream : Wiring → Call
  add_healthz_check add_readyz_check : String → Call
  start_manager : Call

-- `main` returns, or exits with a code after a message in the log, or `GetConfigOrDie` ends it.
pub data Ending : Type 0 where
  returned died : Ending
  exited : ℕ → (message : String) → Ending

unfoldable pub logger_options : Flags → LoggerOptions
logger_options flags = record {
  development = flags.debug;
  level = if flags.debug then debug_level else info_level;
  time_encoder = iso8601_time_encoder;
}

unfoldable pub manager_options : Flags → ManagerOptions
manager_options flags = record {
  metrics_bind_address = flags.metrics_addr;
  health_probe_bind_address = flags.probe_addr;
  leader_election = flags.enable_leader_election;
  leader_election_id = flags.leader_election_id;
  leader_election_namespace = flags.leader_election_ns;
  lease_duration = flags.lease_duration;
  renew_deadline = flags.renew_deadline;
  retry_period = flags.retry_period;
}

-- The tag of the sidecar's image: that of the flag, or the version of the build.
unfoldable pub reloader_tag_for : Flags → Info → String
reloader_tag_for flags info = if flags.reloader_tag == "" then info.version else flags.reloader_tag

module _ {W : Type 0} where
  -- An error ends the program, and without one the rest follows.
  unfoldable pub or_end : Ending → Run W Call Ending → Option String → Run W Call Ending
  or_end ending rest none = rest
  or_end ending rest (some problem) = return ending

  -- `setupLog.Error(err, message)` and `os.Exit(1)`
  abbrev pub or_exit : String → Run W Call Ending → Option String → Run W Call Ending
  or_exit message = or_end (exited 1 message)

-- `host` is the machine and the libraries: it answers each call with the next state and an error.
module _ {W : Type 0} (host : Call → W → W × Option String) where
  unfoldable pub call : Call → Run W Call (Option String)
  call c w =
      let (next, problem) = host c w in record { world = next; calls = c ∷ []; value = problem }

  -- From the health probes on.
  unfoldable pub serve : Run W Call Ending
  serve = do
    e1 ← call (add_healthz_check "healthz")
    or_exit "unable to set up health check"
        (do
          e2 ← call (add_readyz_check "readyz")
          or_exit "unable to set up ready check"
              (do e3 ← call start_manager; or_exit "problem running manager" (return returned) e3)
              e2)
        e1

  -- The three controllers, and what follows.
  unfoldable pub register_and_serve : String → Run W Call Ending
  register_and_serve tag = do
    e1 ← call (setup_server server_wiring tag)
    or_exit "unable to create controller"
        (do
          e2 ← call (setup_route route_wiring)
          or_exit "unable to create controller"
              (do
                e3 ← call (setup_upstream upstream_wiring)
                or_exit "unable to create controller" serve e3)
              e2)
        e1

  -- From the controller manager on.
  unfoldable pub set_up : Flags → Info → Run W Call Ending
  set_up flags info = do
    e1 ← call get_config
    or_end died
        (do
          e2 ← call (new_manager (manager_options flags))
          or_exit "unable to create controller manager"
              (do
                e3 ← call new_generator
                or_exit "unable to create config generator"
                    (register_and_serve (reloader_tag_for flags info)) e3)
              e2)
        e1

  unfoldable pub main : Flags → BuildVars → Runtime → Run W Call Ending
  main flags vars runtime =
      let info = get vars runtime in
      if flags.show_version
      then (do ignored ← call (print_line (to_string info)); return (exited 0 ""))
      else (do
        ignored ← call (set_logger (logger_options flags))
        logged ← call (log_start info)
        set_up flags info)
