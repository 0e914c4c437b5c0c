-- ===== src/Reloader/Health.antt =====
-- The health endpoint of cmd/reloader/main.go.
use nginx_operator.Base.{ℕ, ltb, ◌-◌, String, ◌<>◌, Bool, true, false, if◌then◌else◌}
use nginx_operator.Base.Int.{ℤ, pos, negsuc}
use nginx_operator.Base.Text.{show_ℤ}
use nginx_operator.Api.Meta.{Time}
use nginx_operator.Reloader.Check.{Reloader}

-- An int64 from its pattern modulo 2 ^ 64.
abbrev pub to_int64 : ℕ → ℤ
to_int64 n = if ltb n 0x8000000000000000 then pos n else negsuc (0xffffffffffffffff - n)

-- `/healthz`: the status code and the body
unfoldable pub healthz : Reloader → ℕ × String
healthz r = if r.healthy then (200, "ok") else (503, "unhealthy")

abbrev show_bool : Bool → String
show_bool true = "true"
show_bool false = "false"

-- `/status`; the layout of a time is an argument
unfoldable pub status_body : (Time → String) → Reloader → String
status_body format r =
    "{\"healthy\":"
    <> show_bool r.healthy
    <> ",\"lastReload\":\""
    <> format r.last_reload_time
    <> "\",\"reloadCount\":"
    <> show_ℤ (to_int64 r.reload_count)
    <> ",\"configHash\":\""
    <> r.last_config_hash
    <> "\",\"lastError\":\""
    <> r.last_error
    <> "\"}"
