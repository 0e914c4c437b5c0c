-- ===== src/Version.antt =====
-- internal/version/version.go: what the build says of itself.
use nginx_operator.Base.{String, ◌<>◌}

-- `Version`, `GitCommit` and `BuildDate`, which the linker sets.
pub record BuildVars : Type 0 where
  pub version : String
  pub git_commit : String
  pub build_date : String

-- Their values where the linker sets nothing.
abbrev pub unset_vars : BuildVars
unset_vars = record { version = "dev"; git_commit = "unknown"; build_date = "unknown" }

-- What the package runtime says of the running program.
pub record Runtime : Type 0 where
  pub go_version : String
  pub os : String
  pub arch : String

pub record Info : Type 0 where
  pub version : String
  pub git_commit : String
  pub build_date : String
  pub go_version : String
  pub platform : String

-- `Get`
unfoldable pub get : BuildVars → Runtime → Info
get vars runtime = record {
  version = vars.version;
  git_commit = vars.git_commit;
  build_date = vars.build_date;
  go_version = runtime.go_version;
  platform = runtime.os <> "/" <> runtime.arch;
}

-- `String`
unfoldable pub to_string : Info → String
to_string i =
    "nginx-operator " <> i.version <> " (commit: " <> i.git_commit <> ", built: " <> i.build_date
    <> ", go: " <> i.go_version <> ", platform: " <> i.platform <> ")"
