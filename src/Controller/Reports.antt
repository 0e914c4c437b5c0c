-- ===== src/Controller/Reports.antt =====
-- What a list of conditions that `setCondition` of internal/controller writes says about readiness.
use nginx_operator.Base.{◌≡◌, refl, ◌∙◌, String, ◌==◌, false, List, some}
use nginx_operator.Base.Int.{ℤ}
use nginx_operator.Api.Meta.{Condition, Time, condition_ready}
use nginx_operator.Controller.Conditions.{set_condition}
use nginx_operator.Controller.Conditions.Laws.{
  find_condition, condition_set, find_condition-set_condition,
}

-- There is a condition `Ready`; it has the status, at the generation.
abbrev pub IsReported : ℤ → String → List Condition → Type 0
IsReported generation status conditions =
    (c : Condition) × (find_condition condition_ready conditions ≡ some c)
    × (c.status ≡ status)
    × (c.observed_generation ≡ generation)

-- `Ready` was set.
pub set_ready-IsReported :
    (now : Time) (status reason message : String) (generation : ℤ) (cs : List Condition)
    → IsReported generation status
        (set_condition now condition_ready status reason message generation cs)
set_ready-IsReported now status reason message generation cs = (
  condition_set now condition_ready status reason message generation cs,
  find_condition-set_condition now condition_ready status reason message generation condition_ready
      cs,
  refl,
  refl,
)

-- The same, for a generation that is known to be equal.
pub set_ready_at-IsReported :
    (now : Time) (status reason message : String) (generation g : ℤ) (cs : List Condition)
    → generation ≡ g
    → IsReported g status (set_condition now condition_ready status reason message generation cs)
set_ready_at-IsReported now status reason message generation g cs e =
    let (c, at, same, old) = set_ready-IsReported now status reason message generation cs in
    (c, at, same, old ∙ e)

-- Another condition was set.
pub set_other-IsReported :
    (now : Time) (type status reason message : String) (generation g : ℤ) (s : String)
    (cs : List Condition)
    → (type == condition_ready) ≡ false
    → IsReported g s cs
    → IsReported g s (set_condition now type status reason message generation cs)
set_other-IsReported now type status reason message generation g s cs other (c, at, same, old) = (
  c,
  find_condition-set_condition now type status reason message generation condition_ready cs
      ∙ rw other at,
  same,
  old,
)
