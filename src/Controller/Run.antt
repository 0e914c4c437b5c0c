-- ===== src/Controller/Run.antt =====
-- Steps on the world outside the operator, with the writes that they sent to the API server.
pub mod Leaves
use nginx_operator.Base.{
  Bool, true, false, if◌then◌else◌, All-map, ◌≡◌, refl, List, [], ◌∷◌, ◌++◌, All,
}

pub record Ran (W : Type 0) (Call : Type 0) (A : Type 0) : Type 0 where
  pub world : W
  pub calls : List Call
  pub value : A

abbrev pub Run : Type 0 → Type 0 → Type 0 → Type 0
Run W Call A = W → Ran W Call A

module _ {W Call : Type 0} where
  unfoldable pub return : {A : Type 0} → A → Run W Call A
  return a w = record { world = w; calls = []; value = a }

  -- A read, which sends no write.
  unfoldable pub ask : {A : Type 0} → (W → A) → Run W Call A
  ask f w = record { world = w; calls = []; value = f w }

  infixl 5 ◌>>=◌
  unfoldable pub ◌>>=◌ : {A B : Type 0} → Run W Call A → (A → Run W Call B) → Run W Call B
  (m >>= f) w =
      let first = m w in
      let second = f first.value first.world in
      record { world = second.world; calls = first.calls ++ second.calls; value = second.value }

All-append : {C : Type 0} (P : C → Type 0) (xs ys : List C) → All P xs → All P ys → All P (xs ++ ys)
All-append P [] ys _ h = h
All-append P (x ∷ xs) ys (p, g) h = (p, All-append P xs ys g h)

-- From every world, every write of a run satisfies `P`, and its value satisfies `Q`.
pub record Sends {W Call A : Type 0} (P : Call → Type 0) (Q : A → Type 0) (m : Run W Call A)
    : Type 0 where
  pub sent : (w : W) → All P (m w).calls
  pub ended : (w : W) → Q (m w).value

module _ {W Call : Type 0} where
  pub return-Sends :
      {A : Type 0} {P : Call → Type 0} {Q : A → Type 0} (a : A) → Q a → Sends {W = W} P Q (return a)
  unfolding return
  return-Sends a q = record { sent = λ w. tt; ended = λ w. q }

  pub ask-Sends :
      {A : Type 0} {P : Call → Type 0} {Q : A → Type 0} (f : W → A)
      → ((w : W) → Q (f w))
      → Sends P Q (ask f)
  unfolding ask
  ask-Sends f q = record { sent = λ w. tt; ended = q }

  pub bind-Sends :
      {A B : Type 0} {P : Call → Type 0} {Q : A → Type 0} {R : B → Type 0} (m : Run W Call A)
      (f : A → Run W Call B)
      → Sends P Q m
      → ((a : A) → Q a → Sends P R (f a))
      → Sends P R (m >>= f)
  unfolding ◌>>=◌
  bind-Sends {P} m f first next = record {
    sent = λ w.
        All-append P (m w).calls _ (first.sent w)
          ((next (m w).value (first.ended w)).sent (m w).world);
    ended = λ w. (next (m w).value (first.ended w)).ended (m w).world;
  }

  pub weaken-Sends :
      {A : Type 0} {P P' : Call → Type 0} {Q : A → Type 0} (m : Run W Call A)
      → ((c : Call) → P c → P' c)
      → Sends P Q m
      → Sends P' Q m
  weaken-Sends m f s = record { sent = λ w. All-map f _ (s.sent w); ended = s.ended }

  pub if-Sends :
      {A : Type 0} {P : Call → Type 0} {Q : A → Type 0} (b : Bool) (m n : Run W Call A)
      → (b ≡ true → Sends P Q m)
      → (b ≡ false → Sends P Q n)
      → Sends P Q (if b then m else n)
  if-Sends true m n yes_ no_ = yes_ refl
  if-Sends false m n yes_ no_ = no_ refl
