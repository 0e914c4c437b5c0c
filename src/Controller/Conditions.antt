-- ===== src/Controller/Conditions.antt =====
-- `setCondition` of internal/controller/nginxserver_controller.go.
pub mod Laws
use nginx_operator.Base.{String, ◌==◌, List, [], ◌∷◌, if◌then◌else◌}
use nginx_operator.Base.Int.{ℤ}
use nginx_operator.Api.Meta.{Condition, Time}

-- The assignments to the condition that is found.
unfoldable pub revise : Time → String → String → String → ℤ → Condition → Condition
revise now status reason message generation c = record c {
  last_transition_time = if c.status == status then c.last_transition_time else now;
  status = status;
  reason = reason;
  message = message;
  observed_generation = generation;
}

-- The loop, which ends at the first condition of the type, and the append behind it.
unfoldable pub set_condition :
    Time → String → String → String → String → ℤ → List Condition → List Condition
set_condition now type status reason message generation [] =
    record {
      type = type;
      status = status;
      observed_generation = generation;
      last_transition_time = now;
      reason = reason;
      message = message;
    }
    ∷ []
set_condition now type status reason message generation (c ∷ cs) =
    let rest = set_condition now type status reason message generation cs in
    if c.type == type then revise now status reason message generation c ∷ cs else c ∷ rest
