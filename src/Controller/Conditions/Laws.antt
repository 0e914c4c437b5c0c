-- ===== src/Controller/Conditions/Laws.antt =====
-- What `setCondition` of internal/controller/nginxserver_controller.go keeps and changes.
use nginx_operator.Base.{
  ◌≡◌, refl, String, ◌==◌, eq_iff, List, [], ◌∷◌, Option, none, some, if◌then◌else◌, arith,
}
use nginx_operator.Base.Int.{ℤ}
use nginx_operator.Api.Meta.{Condition, Time}
use nginx_operator.Controller.Conditions.{revise, set_condition}

-- The first condition of a type.
abbrev pub find_condition : String → List Condition → Option Condition
find_condition type [] = none
find_condition type (c ∷ cs) = if c.type == type then some c else find_condition type cs

-- Each type stands at most once.
abbrev pub DistinctTypes : List Condition → Type 0
DistinctTypes [] = Unit
DistinctTypes (c ∷ cs) = (find_condition c.type cs ≡ none) × DistinctTypes cs

-- The time of the last transition: that of the old condition if there is one with the same status,
-- and else the time given.
abbrev pub transition_time : Time → String → Option Condition → Time
transition_time now status none = now
transition_time now status (some c) = if c.status == status then c.last_transition_time else now

module _ (now : Time) (type status reason message : String) (generation : ℤ) where
  abbrev pub condition_set : List Condition → Condition
  condition_set cs = record {
    type = type;
    status = status;
    observed_generation = generation;
    last_transition_time = transition_time now status (find_condition type cs);
    reason = reason;
    message = message;
  }

  -- Afterwards the condition of the type has the status, reason, message and generation given; its
  -- transition time is the old one exactly if there was one with the same status. Every other type
  -- finds what it found before.
  pub find_condition-set_condition :
      (k : String) (cs : List Condition)
      → find_condition k (set_condition now type status reason message generation cs)
        ≡ (if type == k then some (condition_set cs) else find_condition k cs)
  unfolding set_condition revise
  find_condition-set_condition k [] = refl
  find_condition-set_condition k (c ∷ cs) =
      ground (
        arith,
        eq_iff c.type type,
        eq_iff c.type k,
        eq_iff type k,
        find_condition-set_condition k cs,
      )

  -- Types that differ stay different.
  pub set_condition-DistinctTypes :
      (cs : List Condition)
      → DistinctTypes cs
      → DistinctTypes (set_condition now type status reason message generation cs)
  unfolding set_condition revise
  set_condition-DistinctTypes [] h = (refl, tt)
  set_condition-DistinctTypes (c ∷ cs) (fresh, h) = ground (
    arith,
    eq_iff c.type type,
    eq_iff type c.type,
    set_condition-DistinctTypes cs h,
    find_condition-set_condition c.type cs,
  )
