-- ===== src/Reloader/Check/Converges.antt =====
-- The main loop of cmd/reloader/main.go while the directory stays as it is.
use nginx_operator.Base.{
  ◌≡◌, refl, ◌≢◌, ◌∙◌, sym, ap, inl, inr, ◌⊎◌, ok-ne-err, ok-injective, ◌+◌, ◌%◌, String, true,
  List, [], ◌∷◌, none, ok, All, Any,
}
use Prim.Native.Nat.{◌^◌}
use nginx_operator.Reloader.Files.{compute_config_hash}
use nginx_operator.Reloader.Check.{
  Reloader, Round, validate_config, reload_nginx, failed_with, reloaded, check_and_reload, run_loop,
}
use nginx_operator.Reloader.Check.Laws.{
  unreadable, unchanged, refused, not_reloaded, done, check_and_reload-Ends,
}
use nginx_operator.Reloader.Check.Runs.{run_loop-unchanged}

-- The test and the reload of a round end without an error.
abbrev pub Passes : Round → Type 0
Passes e = (validate_config e ≡ none) × (reload_nginx e ≡ none)

module _ (sha256_hex : String → String) (hash : String) where
  -- A round finds the directory with this hash.
  abbrev pub Steady : Round → Type 0
  Steady e = compute_config_hash sha256_hex e.visits ≡ ok hash

  -- The configuration is loaded, by one more reload than there were, and nothing is wrong.
  pub record IsLoaded (before after : Reloader) : Type 0 where
    pub loaded : after.last_config_hash ≡ hash
    pub once : after.reload_count ≡ (before.reload_count + 1) % 2 ^ 64
    pub healthy : after.healthy ≡ true
    pub no_error : after.last_error ≡ ""

  -- One round: it loads the configuration, or it does not pass and only the health changes.
  round_lem :
      (r : Reloader) (e : Round)
      → Steady e
      → hash ≢ r.last_config_hash
      → (Passes e × ((check_and_reload sha256_hex r e).state ≡ reloaded hash e.now r))
        ⊎ ((Passes e → ⊥)
            × ((problem : String) × ((check_and_reload sha256_hex r e).state
                  ≡ failed_with problem r)))
  round_lem r e steady differs = elim (check_and_reload-Ends sha256_hex r e) [
    | unreadable bad _ _ _ ↦ absurd (ok-ne-err (sym steady ∙ bad))
    | unchanged found _ _ _ ↦ absurd (differs (ok-injective (sym steady ∙ found)))
    | refused _ _ bad stays _ _ ↦ inr (λ (good, _). cc, (_, stays))
    | not_reloaded _ _ _ bad stays _ _ ↦ inr (λ (_, fine). cc, (_, stays))
    | done found _ good fine stays _ _ ↦
        inl ((good, fine), stays ∙ ap (λ h. reloaded h e.now r) (ok-injective (sym found ∙ steady)))
  ]

  -- If the directory has the same hash in every round, another one than the loaded, and the test and
  -- the reload pass in one of the rounds, then at the end of them that configuration is loaded, by
  -- exactly one reload, and the sidecar is healthy with no error text, however many rounds failed
  -- before and passed after.
  pub run_loop-IsLoaded :
      (r : Reloader) (es : List Round)
      → hash ≢ r.last_config_hash
      → All Steady es
      → Any Passes es
      → IsLoaded r (run_loop sha256_hex r es)
  unfolding run_loop
  run_loop-IsLoaded r [] differs steady passes = absurd passes
  run_loop-IsLoaded r (e ∷ es) differs (here, steady) passes = elim (round_lem r e here differs) [
    | inl (_, loads) ↦
        rw (loads, run_loop-unchanged sha256_hex (reloaded hash e.now r) es steady)
          (record { loaded = refl; once = refl; healthy = refl; no_error = refl })
    | inr (fails, (problem, stays)) ↦ elim passes [
      | inl pass ↦ absurd (fails pass)
      | inr later ↦
          let rest = run_loop-IsLoaded (failed_with problem r) es differs steady later in
          rw stays (record {
            loaded = rest.loaded;
            once = rest.once;
            healthy = rest.healthy;
            no_error = rest.no_error;
          })
    ]
  ]
