-- ===== src/Reloader/Check/Laws.antt =====
-- The state machine of the sidecar of cmd/reloader/main.go.
use Prim.Native.Nat.{◌^◌}
use nginx_operator.Base.{
  ◌+◌, ◌%◌, true, false, ◌≡◌, refl, ◌≢◌, inl, inr, String, ◌==◌, eq_iff, ==-false_iff, ap, ◌∙◌, [],
  ◌∷◌, none, some, ok, err, Bool-cases, Option-cases, Result-cases,
}
use nginx_operator.Reloader.Files.{compute_config_hash}
use nginx_operator.Reloader.Check.{
  Reloader, Round, test_config, reload_config, validate_config, reload_nginx, Outcome, reload_step,
  changed_step, check_and_reload,
}

module _ (sha256_hex : String → String) where
  -- The ways in which a round can end.
  pub data Ends (r : Reloader) (e : Round) (o : Outcome) : Type 0 where
    unreadable :
        {problem : String}
        → compute_config_hash sha256_hex e.visits ≡ err problem
        → o.state ≡ r
        → o.error ≢ none
        → o.commands ≡ []
        → Ends r e o
    unchanged :
        compute_config_hash sha256_hex e.visits ≡ ok r.last_config_hash
        → o.state ≡ r
        → o.error ≡ none
        → o.commands ≡ []
        → Ends r e o
    refused :
        {hash problem : String}
        → compute_config_hash sha256_hex e.visits ≡ ok hash
        → hash ≢ r.last_config_hash
        → validate_config e ≡ some problem
        → o.state ≡ record {
          last_config_hash = r.last_config_hash;
          last_reload_time = r.last_reload_time;
          reload_count = r.reload_count;
          last_error = problem;
          healthy = false;
        }
        → o.error ≢ none
        → o.commands ≡ test_config ∷ []
        → Ends r e o
    not_reloaded :
        {hash problem : String}
        → compute_config_hash sha256_hex e.visits ≡ ok hash
        → hash ≢ r.last_config_hash
        → validate_config e ≡ none
        → reload_nginx e ≡ some problem
        → o.state ≡ record {
          last_config_hash = r.last_config_hash;
          last_reload_time = r.last_reload_time;
          reload_count = r.reload_count;
          last_error = problem;
          healthy = false;
        }
        → o.error ≢ none
        → o.commands ≡ test_config ∷ reload_config ∷ []
        → Ends r e o
    done :
        {hash : String}
        → compute_config_hash sha256_hex e.visits ≡ ok hash
        → hash ≢ r.last_config_hash
        → validate_config e ≡ none
        → reload_nginx e ≡ none
        → o.state ≡ record {
          last_config_hash = hash;
          last_reload_time = e.now;
          reload_count = (r.reload_count + 1) % 2 ^ 64;
          last_error = "";
          healthy = true;
        }
        → o.error ≡ none
        → o.commands ≡ test_config ∷ reload_config ∷ []
        → Ends r e o

  changed_step-Ends :
      (r : Reloader) (e : Round) (hash : String)
      → compute_config_hash sha256_hex e.visits ≡ ok hash
      → hash ≢ r.last_config_hash
      → Ends r e (changed_step r hash e)
  unfolding changed_step reload_step
  changed_step-Ends r e hash found differs = elim (Option-cases (validate_config e)) [
    | inr (problem, bad) ↦ rw (bad, changed_step) (refused found differs bad refl (λ h. cc) refl)
    | inl good ↦ elim (Option-cases (reload_nginx e)) [
      | inr (problem, bad) ↦
          rw (good, changed_step, bad, reload_step)
            (not_reloaded found differs good bad refl (λ h. cc) refl)
      | inl fine ↦
          rw (good, changed_step, fine, reload_step) (done found differs good fine refl refl refl)
    ]
  ]

  -- A round ends in one of five ways. If the directory cannot be read, or its hash is the last one,
  -- the state stays and no command runs. Otherwise the test runs first; the reload runs only if the
  -- test passed; a failure of either leaves the hash, the count and the time as they were and marks
  -- the sidecar unhealthy with the problem as its error text; if both pass, the hash and the time are
  -- those of the round, the count is one more (as an unsigned number of 64 bits), and the sidecar is
  -- healthy without an error text.
  pub check_and_reload-Ends :
      (r : Reloader) (e : Round) → Ends r e (check_and_reload sha256_hex r e)
  unfolding check_and_reload
  check_and_reload-Ends r e = elim (Result-cases (compute_config_hash sha256_hex e.visits)) [
    | inr (problem, bad) ↦ rw (bad, check_and_reload) (unreadable bad refl (λ h. cc) refl)
    | inl (hash, found) ↦ elim (Bool-cases (hash == r.last_config_hash)) [
      | inl same ↦
          rw (found, same, check_and_reload)
            (unchanged (found ∙ ap ok ((eq_iff hash r.last_config_hash).0 same)) refl refl refl)
      | inr other ↦
          rw (found, other, check_and_reload)
            (changed_step-Ends r e hash found ((==-false_iff hash r.last_config_hash).0 other))
    ]
  ]
