-- ===== src/Controller/Verdicts.antt =====
-- What the reconcilers of internal/controller return.
use nginx_operator.Base.{◌≡◌, refl, [], [], ◌≡◌, String, ◌<>◌, false, Option, none, some}
use nginx_operator.Controller.Run.{Run, Sends, return, return-Sends}
use nginx_operator.Controller.Cluster.{Verdict, Write}

-- `ctrl.Result{}, nil`
abbrev pub done : Verdict
done = record { requeue = false; requeue_after = 0; error = none }

-- `ctrl.Result{}, err`
abbrev pub stopped : String → Verdict
stopped problem = record { requeue = false; requeue_after = 0; error = some problem }

-- `ctrl.Result{RequeueAfter: 5 * time.Second}, err`
abbrev pub retry_soon : String → Verdict
retry_soon problem = record { requeue = false; requeue_after = 5; error = some problem }

module _ {W : Type 0} where
  -- What follows if the step before it gave no error.
  unfoldable pub unless_failed : String → Run W Write Verdict → Option String → Run W Write Verdict
  unless_failed prefix rest none = rest
  unless_failed prefix rest (some problem) = return (stopped (prefix <> ": " <> problem))

  pub unless_failed-Sends :
      {P : Write → Type 0} {Q : Verdict → Type 0} (prefix : String) (rest : Run W Write Verdict)
      (problem : Option String)
      → ((v : Verdict) → Q v)
      → Sends P Q rest
      → Sends P Q (unless_failed prefix rest problem)
  unfolding unless_failed
  unless_failed-Sends prefix rest none q h = h
  unless_failed-Sends prefix rest (some problem) q h = return-Sends _ (q _)

  pub unless_failed_quiet :
      (prefix : String) (v : Verdict) (problem : Option String) (w : W)
      → (unless_failed prefix (return v) problem w).calls ≡ []
  unfolding unless_failed return
  unless_failed_quiet prefix v none w = refl
  unless_failed_quiet prefix v (some problem) w = refl
