-- ===== src/Reloader/Check/Runs.antt =====
-- Runs of the main loop of cmd/reloader/main.go.
use text.Mathlib.TextLemmas.{cons≢nil, nil-append, cons-append, append_assoc}
use nginx_operator.Base.{
  false, ==-false_iff, ok-ne-err, ok-injective, subst, Result-cases, sym, ◌≡◌, refl, ◌≢◌, ◌↔◌, ◌⊎◌,
  inl, inr, String, ◌<>◌, eq_iff, true, List, [], ◌∷◌, Option, none, some, ok, ap, ◌∙◌, All, Any,
}
use nginx_operator.Reloader.Files.{compute_config_hash, Visit}
use nginx_operator.Reloader.Check.{
  changed_step, Reloader, Round, command_error, validate_config, reload_nginx, failed_with,
  check_and_reload, run_loop, start,
}
use nginx_operator.Reloader.Check.Laws.{
  unreadable, unchanged, refused, not_reloaded, done, check_and_reload-Ends,
}

-- The flag and the error text agree.
abbrev pub IsCoherent : Reloader → Type 0
IsCoherent r = (r.healthy ≡ true) ↔ (r.last_error ≡ "")

append_empty : (s t : String) → s <> t ≡ "" → (s ≡ "") × (t ≡ "")
append_empty String.[] t e = (refl, sym (nil-append t) ∙ e)
append_empty (String.◌∷◌ x s) t e = absurd (cons≢nil (sym (cons-append _ _ _) ∙ e))

text_of : Option String → String
text_of none = ""
text_of (some s) = s

command_error≢empty :
    (name output : String) (failed : Option String) {problem : String}
    → command_error name (record { output = output; failed = failed }) ≡ some problem
    → problem ≢ ""
unfolding command_error text_of
command_error≢empty name output none found empty = cc
command_error≢empty name output (some p) found empty =
    let e =
      (append_empty (name <> " failed: ") (output <> ": " <> p)
        (append_assoc name _ _ ∙ ap text_of found ∙ empty)).0 in
    cons≢nil (append_empty name " failed: " e).1

failed_with-IsCoherent :
    (r : Reloader) {problem : String} → problem ≢ "" → IsCoherent (failed_with problem r)
failed_with-IsCoherent r told = (λ h. cc, λ h. absurd (told h))

module _ (sha256_hex : String → String) where
  check_and_reload-IsCoherent :
      (r : Reloader) (e : Round) → IsCoherent r → IsCoherent (check_and_reload sha256_hex r e).state
  unfolding validate_config reload_nginx
  check_and_reload-IsCoherent r e coherent = elim (check_and_reload-Ends sha256_hex r e) [
    | unreadable _ stays _ _ ↦ rw stays coherent
    | unchanged _ stays _ _ ↦ rw stays coherent
    | refused _ _ bad stays _ _ ↦
        rw stays (failed_with-IsCoherent r (command_error≢empty _ _ _ bad))
    | not_reloaded _ _ _ bad stays _ _ ↦
        rw stays (failed_with-IsCoherent r (command_error≢empty _ _ _ bad))
    | done _ _ _ _ stays _ _ ↦ rw stays (λ h. refl, λ h. refl)
  ]

  run_loop-IsCoherent_from :
      (es : List Round) (r : Reloader) → IsCoherent r → IsCoherent (run_loop sha256_hex r es)
  unfolding run_loop
  run_loop-IsCoherent_from [] r coherent = coherent
  run_loop-IsCoherent_from (e ∷ es) r coherent =
      run_loop-IsCoherent_from es (check_and_reload sha256_hex r e).state
        (check_and_reload-IsCoherent r e coherent)

  start_found :
      (visits : List Visit) (hash : String)
      → compute_config_hash sha256_hex visits ≡ ok hash
      → start sha256_hex visits
        ≡ ok (record {
          last_config_hash = hash;
          last_reload_time = 0;
          reload_count = 0;
          last_error = "";
          healthy = true;
        })
  unfolding start
  start_found visits hash found = rw (found, start) refl

  start-IsCoherent :
      (visits : List Visit) (r : Reloader) → start sha256_hex visits ≡ ok r → IsCoherent r
  unfolding start
  start-IsCoherent visits r started = elim (Result-cases (compute_config_hash sha256_hex visits)) [
    | inl (hash, found) ↦
        let begun = start_found visits hash found in
        subst IsCoherent (ok-injective (sym begun ∙ started)) (λ h. refl, λ h. refl)
    | inr (problem, bad) ↦ absurd (
        ok-ne-err {e = "failed to compute initial config hash: " <> problem}
          (sym started ∙ rw (bad, start) refl))
  ]

  -- Along the whole run of a started sidecar, `healthy` is set exactly when no error text is kept.
  pub run_loop-IsCoherent :
      (visits : List Visit) (r : Reloader) (es : List Round)
      → start sha256_hex visits ≡ ok r
      → IsCoherent (run_loop sha256_hex r es)
  run_loop-IsCoherent visits r es started =
      run_loop-IsCoherent_from es r (start-IsCoherent visits r started)

  -- A configuration was applied in a round: the test passed, and then the reload.
  abbrev pub Applied : String → Round → Type 0
  Applied hash e =
      (compute_config_hash sha256_hex e.visits ≡ ok hash)
      × (validate_config e ≡ none)
      × (reload_nginx e ≡ none)

  check_and_reload-last_config_hash :
      (r : Reloader) (e : Round)
      → ((check_and_reload sha256_hex r e).state.last_config_hash ≡ r.last_config_hash)
        ⊎ Applied (check_and_reload sha256_hex r e).state.last_config_hash e
  check_and_reload-last_config_hash r e = elim (check_and_reload-Ends sha256_hex r e) [
    | unreadable _ stays _ _ ↦ inl (ap (λ s. s.last_config_hash) stays)
    | unchanged _ stays _ _ ↦ inl (ap (λ s. s.last_config_hash) stays)
    | refused _ _ _ stays _ _ ↦ inl (ap (λ s. s.last_config_hash) stays)
    | not_reloaded _ _ _ _ stays _ _ ↦ inl (ap (λ s. s.last_config_hash) stays)
    | done found _ good fine stays _ _ ↦ inr (rw stays (found, good, fine))
  ]

  -- After any rounds, the hash the sidecar keeps is the one it had before them, or that of a
  -- configuration which one of the rounds read, tested and reloaded without an error.
  pub run_loop-last_config_hash :
      (r : Reloader) (es : List Round)
      → ((run_loop sha256_hex r es).last_config_hash ≡ r.last_config_hash)
        ⊎ Any (Applied (run_loop sha256_hex r es).last_config_hash) es
  unfolding run_loop
  run_loop-last_config_hash r [] = inl refl
  run_loop-last_config_hash r (e ∷ es) =
      let next = (check_and_reload sha256_hex r e).state in
      elim (run_loop-last_config_hash next es) [
        | inr applied ↦ inr (inr applied)
        | inl stays ↦ elim (check_and_reload-last_config_hash r e) [
          | inl same ↦ inl (stays ∙ same)
          | inr applied ↦ inr (inl (rw stays applied))
        ]
      ]

  check_and_reload-unchanged :
      (r : Reloader) (e : Round)
      → compute_config_hash sha256_hex e.visits ≡ ok r.last_config_hash
      → (check_and_reload sha256_hex r e).state ≡ r
  unfolding check_and_reload
  check_and_reload-unchanged r e found =
      rw (found, (eq_iff r.last_config_hash r.last_config_hash).1 refl, check_and_reload) refl

  pub run_loop-unchanged :
      (r : Reloader) (es : List Round)
      → All (λ e. compute_config_hash sha256_hex e.visits ≡ ok r.last_config_hash) es
      → run_loop sha256_hex r es ≡ r
  unfolding run_loop
  run_loop-unchanged r [] same = refl
  run_loop-unchanged r (e ∷ es) (here, rest) =
      rw (check_and_reload-unchanged r e here) (run_loop-unchanged r es rest)

  check_and_reload-refused :
      (r : Reloader) (e : Round) {hash problem : String}
      → compute_config_hash sha256_hex e.visits ≡ ok hash
      → hash ≢ r.last_config_hash
      → validate_config e ≡ some problem
      → (check_and_reload sha256_hex r e).state ≡ failed_with problem r
  unfolding check_and_reload changed_step
  check_and_reload-refused r e {hash} {problem} found differs bad =
      rw
        (
          found,
          (==-false_iff hash r.last_config_hash).1 differs,
          check_and_reload,
          bad,
          changed_step,
        )
        refl

  -- A configuration that fails its test leaves the sidecar unhealthy, with that failure as its
  -- error text and with the hash, the time and the count from before, for as long as the later rounds
  -- find files of the hash that was loaded before it.
  pub run_loop_reverted :
      (r : Reloader) (e : Round) (es : List Round) {hash problem : String}
      → compute_config_hash sha256_hex e.visits ≡ ok hash
      → hash ≢ r.last_config_hash
      → validate_config e ≡ some problem
      → All (λ later. compute_config_hash sha256_hex later.visits ≡ ok r.last_config_hash) es
      → run_loop sha256_hex r (e ∷ es) ≡ record {
        last_config_hash = r.last_config_hash;
        last_reload_time = r.last_reload_time;
        reload_count = r.reload_count;
        last_error = problem;
        healthy = false;
      }
  unfolding run_loop
  run_loop_reverted r e es {hash} {problem} found differs bad later =
      rw (check_and_reload-refused r e found differs bad)
        (run_loop-unchanged (failed_with problem r) es later)
