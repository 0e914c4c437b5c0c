-- ===== src/Operator/Laws.antt =====
-- The order in which cmd/operator/main.go sets the operator up, and how it ends.
use nginx_operator.Base.{
  inl, inr, ◌⊎◌, ◌≡◌, refl, String, Bool, true, false, List, [], ◌∷◌, Option, none, some,
  if◌then◌else◌,
}
use nginx_operator.Version.{BuildVars, Runtime, Info, get}
use nginx_operator.Controller.Run.{Ran, Run, return, ◌>>=◌}
use nginx_operator.Controller.Wiring.{server_wiring, route_wiring, upstream_wiring}
use nginx_operator.Operator.{
  to_string, print_line, Flags, Call, set_logger, log_start, get_config, new_manager, new_generator,
  setup_server, setup_route, setup_upstream, add_healthz_check, add_readyz_check, start_manager,
  Ending, returned, died, exited, logger_options, manager_options, reloader_tag_for, call, or_end,
  serve, register_and_serve, set_up, main,
}

-- The calls whose error is looked at, in order, with the end of the program on an error.
abbrev pub checked_steps : Flags → Info → List (Call × Ending)
checked_steps flags info =
    (get_config, died)
    ∷ (new_manager (manager_options flags), exited 1 "unable to create controller manager")
    ∷ (new_generator, exited 1 "unable to create config generator")
    ∷ (
      setup_server server_wiring (reloader_tag_for flags info),
      exited 1 "unable to create controller",
    )
    ∷ (setup_route route_wiring, exited 1 "unable to create controller")
    ∷ (setup_upstream upstream_wiring, exited 1 "unable to create controller")
    ∷ (add_healthz_check "healthz", exited 1 "unable to set up health check")
    ∷ (add_readyz_check "readyz", exited 1 "unable to set up ready check")
    ∷ (start_manager, exited 1 "problem running manager")
    ∷ []

module _ {W : Type 0} (host : Call → W → W × Option String) where
  -- The calls of the steps, up to the first that gives an error.
  run_steps : List (Call × Ending) → Run W Call Ending
  run_steps [] = return returned
  run_steps ((c, ending) ∷ rest) = call host c >>= or_end ending (run_steps rest)

  -- The calls of some first steps, all without an error but for the last, if the program ends by it.
  abbrev pub Runs : List (Call × Ending) → W → List Call → Ending → Type 0
  Runs [] w calls e = (calls ≡ []) × (e ≡ returned)
  Runs ((c, ending) ∷ rest) w calls e =
      ((problem : String) × ((host c w).1 ≡ some problem) × (calls ≡ c ∷ []) × (e ≡ ending))
      ⊎ ((later : List Call) × ((host c w).1 ≡ none)
          × (calls ≡ c ∷ later)
          × Runs rest (host c w).0 later e)

  -- One step more, for the answer that it gets.
  step-Runs :
      (c : Call) (ending : Ending) (rest : List (Call × Ending)) (w : W) (problem : Option String)
      → (host c w).1 ≡ problem
      → ((w' : W) → Runs rest w' (run_steps rest w').calls (run_steps rest w').value)
      → let later = or_end ending (run_steps rest) problem (host c w).0 in
        Runs ((c, ending) ∷ rest) w (c ∷ later.calls) later.value
  unfolding or_end return
  step-Runs c ending rest w none e follow = inr (_, e, refl, follow (host c w).0)
  step-Runs c ending rest w (some problem) e follow = inl (problem, e, refl, refl)

  run_steps-Runs :
      (steps : List (Call × Ending)) (w : W)
      → Runs steps w (run_steps steps w).calls (run_steps steps w).value
  unfolding run_steps return ◌>>=◌ call
  run_steps-Runs [] w = (refl, refl)
  run_steps-Runs ((c, ending) ∷ rest) w =
      step-Runs c ending rest w _ refl (λ w'. run_steps-Runs rest w')

  set_up-eq-run_steps :
      (flags : Flags) (info : Info) → set_up host flags info ≡ run_steps (checked_steps flags info)
  unfolding set_up register_and_serve serve run_steps
  set_up-eq-run_steps flags info = refl

  -- The calls and the end of `main`, where the version is asked for and where it is not.
  abbrev pub Ends : Bool → Flags → Info → W → Ran W Call Ending → Type 0
  Ends true flags info w r = (r.calls ≡ print_line (to_string info) ∷ []) × (r.value ≡ exited 0 "")
  Ends false flags info w r =
      (later : List Call) × (r.calls ≡ set_logger (logger_options flags) ∷ log_start info ∷ later)
      × Runs (checked_steps flags info)
          (host (log_start info) (host (set_logger (logger_options flags)) w).0).0 later r.value

  main_by_flag :
      (shown : Bool) (flags : Flags) (info : Info) (w : W)
      → Ends shown flags info w (
          (if shown
              then call host (print_line (to_string info)) >>= (λ ignored. return (exited 0 ""))
              else call host (set_logger (logger_options flags))
                >>= (λ ignored. call host (log_start info) >>= (λ logged. set_up host flags info)))
            w)
  unfolding return ◌>>=◌ call
  main_by_flag true flags info w = (refl, refl)
  main_by_flag false flags info w =
      (_, refl, rw (set_up-eq-run_steps flags info) (run_steps-Runs (checked_steps flags info) _))

  -- If the version is asked for, it is printed, and the program exits with code 0. Otherwise the
  -- logger is set, the start is logged, and the steps follow in the order of the list: client
  -- configuration, manager, generator, the three controllers, the two checks, the start of the
  -- manager. The first that gives an error is the last call, and the program ends in the way that
  -- the list has for it; if none does, the program returns.
  pub main-Ends :
      (flags : Flags) (vars : BuildVars) (runtime : Runtime) (w : W)
      → Ends flags.show_version flags (get vars runtime) w (main host flags vars runtime w)
  unfolding main
  main-Ends flags vars runtime w = main_by_flag flags.show_version flags (get vars runtime) w
