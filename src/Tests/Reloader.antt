-- ===== src/Tests/Reloader.antt =====
-- Instances for cmd/reloader/main.go.
use nginx_operator.Reloader.Check.Converges.{IsLoaded, run_loop-IsLoaded}
use nginx_operator.Base.{
  inl, List, inr, false, ◌≡◌, ◌⊎◌, refl, String, ◌<>◌, true, ◌∷◌, [], none, some, ok, Any, arith,
  eq_iff,
}
use nginx_operator.Reloader.Files.{
  is_config_file, Visit, directory, file, walk_bytes, visit_bytes, is_config_file,
  compute_config_hash,
}
use nginx_operator.Reloader.Files.Laws.{compute_config_hash_merged}
use nginx_operator.Reloader.Check.{
  changed_step, reload_step, reload_nginx, Reloader, CommandResult, Round, validate_config,
  check_and_reload, run_loop, start,
}
use nginx_operator.Reloader.Check.Laws.{Ends, check_and_reload-Ends}
use nginx_operator.Reloader.Check.Runs.{
  IsCoherent, Applied, run_loop-IsCoherent, run_loop-last_config_hash, run_loop_reverted,
}

-- A digest for the instances
abbrev digest : String → String
digest s = "hash of " <> s

abbrev main_file : String → Visit
main_file text = file "/etc/nginx/nginx.conf" (ok text)

abbrev loaded : Reloader
loaded = record {
  last_config_hash = "hash of /etc/nginx/nginx.confold";
  last_reload_time = 0;
  reload_count = 0;
  last_error = "";
  healthy = true;
}

abbrev success : CommandResult
success = record { output = ""; failed = none }

abbrev changed : Round
changed = record {
  visits = directory "/etc/nginx" ∷ main_file "new" ∷ [];
  test_run = success;
  reload_run = success;
  now = 5;
}

abbrev broken : Round
broken = record {
  visits = directory "/etc/nginx" ∷ main_file "bad" ∷ [];
  test_run = record { output = "unexpected end of file"; failed = some "exit status 1" };
  reload_run = success;
  now = 6;
}

abbrev reverted : Round
reverted = record {
  visits = directory "/etc/nginx" ∷ main_file "old" ∷ [];
  test_run = success;
  reload_run = success;
  now = 7;
}

check_and_reload-Ends_example : Ends digest loaded changed (check_and_reload digest loaded changed)
check_and_reload-Ends_example = check_and_reload-Ends digest loaded changed

run_loop-IsCoherent_example : IsCoherent (run_loop digest loaded (changed ∷ broken ∷ []))
unfolding start compute_config_hash walk_bytes visit_bytes is_config_file
run_loop-IsCoherent_example =
    run_loop-IsCoherent digest (main_file "old" ∷ []) loaded (changed ∷ broken ∷ []) refl

run_loop-last_config_hash_example :
    ((run_loop digest loaded (broken ∷ changed ∷ [])).last_config_hash ≡ loaded.last_config_hash)
    ⊎ Any
        (Applied digest (run_loop digest loaded (broken ∷ changed ∷ [])).last_config_hash)
        (broken ∷ changed ∷ [])
run_loop-last_config_hash_example = run_loop-last_config_hash digest loaded (broken ∷ changed ∷ [])

run_loop_reverted_example : run_loop digest loaded (broken ∷ reverted ∷ []) ≡ record {
  last_config_hash = "hash of /etc/nginx/nginx.confold";
  last_reload_time = 0;
  reload_count = 0;
  last_error = "nginx -t failed: unexpected end of file: exit status 1";
  healthy = false;
}
unfolding compute_config_hash validate_config walk_bytes visit_bytes is_config_file
run_loop_reverted_example =
    run_loop_reverted digest loaded broken (reverted ∷ []) refl
      (ground (arith, eq_iff "hash of /etc/nginx/nginx.confbad" "hash of /etc/nginx/nginx.confold"))
      refl (refl, tt)

-- The first visit of a walk: the directory itself
abbrev root : List Visit
root = directory "/etc/nginx/conf.d" ∷ []

compute_config_hash_merged_example :
    compute_config_hash digest (
      directory "/etc/nginx/conf.d"
      ∷ file "/etc/nginx/conf.d/a.conf" (ok "x")
      ∷ file "/etc/nginx/conf.d/b.conf" (ok "y")
      ∷ [])
    ≡ compute_config_hash digest (
        directory "/etc/nginx/conf.d"
        ∷ file "/etc/nginx/conf.d/a.conf" (ok ("x" <> ("/etc/nginx/conf.d/b.conf" <> "y")))
        ∷ [])
unfolding is_config_file
compute_config_hash_merged_example =
    compute_config_hash_merged digest root "/etc/nginx/conf.d/a.conf" "/etc/nginx/conf.d/b.conf" "x"
      "y" [] refl refl

site_counts : is_config_file "/etc/nginx/conf.d/site.conf" ≡ true
unfolding is_config_file
site_counts = refl

types_do_not : is_config_file "/etc/nginx/mime.types" ≡ false
unfolding is_config_file
types_do_not = refl

broken_then_changed : (run_loop digest loaded (broken ∷ changed ∷ [])).healthy ≡ true
unfolding run_loop check_and_reload changed_step reload_step compute_config_hash walk_bytes
    visit_bytes is_config_file validate_config reload_nginx
broken_then_changed = refl

-- A directory that stays as it is, tested wrongly once and well twice
abbrev settling : List Round
settling = record changed { test_run = broken.test_run } ∷ changed ∷ record changed { now = 9 } ∷ []

run_loop-IsLoaded_example :
    IsLoaded digest "hash of /etc/nginx/nginx.confnew" loaded (run_loop digest loaded settling)
unfolding compute_config_hash validate_config reload_nginx walk_bytes visit_bytes is_config_file
run_loop-IsLoaded_example =
    run_loop-IsLoaded digest "hash of /etc/nginx/nginx.confnew" loaded settling
      (ground (arith, eq_iff "hash of /etc/nginx/nginx.confnew" "hash of /etc/nginx/nginx.confold"))
      (refl, (refl, (refl, tt))) (inr (inl (refl, refl)))
