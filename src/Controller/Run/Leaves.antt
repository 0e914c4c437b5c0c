-- ===== src/Controller/Run/Leaves.antt =====
-- Runs that leave what an observation of the world sees as it is.
use nginx_operator.Base.{◌≡◌, refl, ◌∙◌, Bool, true, false, if◌then◌else◌}
use nginx_operator.Controller.Run.{Run, return, ask, ◌>>=◌}

module _ {W Call B : Type 0} (see : W → B) where
  -- From every world, the observation is the same afterwards.
  pub record Leaves {A : Type 0} (m : Run W Call A) : Type 0 where
    pub kept : (w : W) → see (m w).world ≡ see w

  pub return-Leaves : {A : Type 0} (a : A) → Leaves (return a)
  unfolding return
  return-Leaves a = record { kept = λ w. refl }

  pub ask-Leaves : {A : Type 0} (f : W → A) → Leaves (ask f)
  unfolding ask
  ask-Leaves f = record { kept = λ w. refl }

  pub bind-Leaves :
      {A A' : Type 0} (m : Run W Call A) (f : A → Run W Call A')
      → Leaves m
      → ((a : A) → Leaves (f a))
      → Leaves (m >>= f)
  unfolding ◌>>=◌
  bind-Leaves m f first next = record {
    kept = λ w. (next (m w).value).kept (m w).world ∙ first.kept w;
  }

  pub if-Leaves :
      {A : Type 0} (b : Bool) (m n : Run W Call A)
      → Leaves m
      → Leaves n
      → Leaves (if b then m else n)
  if-Leaves true m n h k = h
  if-Leaves false m n h k = k
