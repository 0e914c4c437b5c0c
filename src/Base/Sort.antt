-- ===== src/Base/Sort.antt =====
-- `sort.Slice(xs, less)`. Up to twelve elements Go's sort is this insertion sort; beyond that it
-- may leave elements that compare alike in another order.
use mathlib.Core.List.{Perm, perm_middle, append-nil}
use mathlib.Core.List.Perm
use nginx_operator.Base.{
  ◌↔◌, ◌≡◌, Bool, true, false, List, [], ◌∷◌, ◌++◌, All, if◌then◌else◌, arith, Bool-cases, inl, inr,
}

module _ {ℓ} {A : Type ℓ} (less : A → A → Bool) where
  unfoldable pub insert_sorted : A → List A → List A
  insert_sorted x [] = x ∷ []
  insert_sorted x (y ∷ ys) = if less x y then x ∷ y ∷ ys else y ∷ insert_sorted x ys

  unfoldable pub sort_from : List A → List A → List A
  sort_from done [] = done
  sort_from done (x ∷ xs) = sort_from (insert_sorted x done) xs

  unfoldable pub sort_slice : List A → List A
  unfolding sort_from insert_sorted
  sort_slice xs = sort_from [] xs

  -- No element compares less than one that stands before it.
  abbrev pub IsSorted : List A → Type ℓ
  IsSorted [] = Unit
  IsSorted (x ∷ xs) = All (λ y. less y x ≡ false) xs × IsSorted xs

  insert_sorted-perm : (x : A) (ys : List A) → Perm (insert_sorted x ys) (x ∷ ys)
  unfolding insert_sorted
  insert_sorted-perm x [] = Perm.refl (x ∷ [])
  insert_sorted-perm x (y ∷ ys) = elim (Bool-cases (less x y)) [
    | inl before ↦ rw before (Perm.refl (x ∷ y ∷ ys))
    | inr after ↦ rw after (Perm.trans (Perm.cons y (insert_sorted-perm x ys)) (Perm.swap x y ys))
  ]

  sort_from-perm : (done xs : List A) → Perm (sort_from done xs) (done ++ xs)
  unfolding sort_from
  sort_from-perm done [] = rw append-nil (Perm.refl done)
  sort_from-perm done (x ∷ xs) = Perm.trans (sort_from-perm (insert_sorted x done) xs) (
      Perm.trans (Perm.append (insert_sorted-perm x done) (Perm.refl xs))
        (Perm.symm (perm_middle done xs)))

  pub sort_slice-perm : (xs : List A) → Perm (sort_slice xs) xs
  unfolding sort_slice
  sort_slice-perm xs = sort_from-perm [] xs

  module _ {κ} (P : A → Type κ) where
    All-insert : (x : A) (ys : List A) → All P (insert_sorted x ys) ↔ (P x × All P ys)
    unfolding insert_sorted
    All-insert x [] = (λ h. h, λ h. h)
    All-insert x (y ∷ ys) =
        let (to, from) = All-insert x ys in
        elim (Bool-cases (less x y)) [
          | inl before ↦ rw before ((λ h. h), (λ h. h))
          | inr after ↦
              rw after (λ (p, h). ((to h).0, (p, (to h).1)), λ (p, (q, h)). (q, from (p, h)))
        ]

    All-sort_from : (done xs : List A) → All P (sort_from done xs) ↔ (All P done × All P xs)
    unfolding sort_from
    All-sort_from done [] = (λ h. (h, tt), λ (h, _). h)
    All-sort_from done (x ∷ xs) =
        let (to, from) = All-sort_from (insert_sorted x done) xs in
        let (open_, close) = All-insert x done in
        (
          λ h. let (d, r) = to h in let (p, d') = open_ d in (d', (p, r)),
          λ (d, (p, r)). from (close (p, d), r),
        )

    pub All-sort_slice : (xs : List A) → All P (sort_slice xs) ↔ All P xs
    unfolding sort_slice
    All-sort_slice xs = let (to, from) = All-sort_from [] xs in (λ h. (to h).1, λ h. from (tt, h))

  -- `less` is a strict weak order.
  module _ (asymmetric : (x y : A) → less x y ≡ true → less y x ≡ false)
      (transitive : (x y z : A) → less y x ≡ false → less z y ≡ false → less z x ≡ false) where
    All-later :
        (x y : A) (zs : List A)
        → less y x ≡ false
        → All (λ z. less z y ≡ false) zs
        → All (λ z. less z x ≡ false) zs
    All-later x y [] h a = tt
    All-later x y (z ∷ zs) h (a, as') = (transitive x y z h a, All-later x y zs h as')

    All-insert_sorted :
        (w x : A) (ys : List A)
        → less x w ≡ false
        → All (λ y. less y w ≡ false) ys
        → All (λ y. less y w ≡ false) (insert_sorted x ys)
    unfolding insert_sorted
    All-insert_sorted w x [] h a = (h, tt)
    All-insert_sorted w x (y ∷ ys) h (a, b) = ground (arith, All-insert_sorted w x ys h b)

    insert_sorted-IsSorted : (x : A) (ys : List A) → IsSorted ys → IsSorted (insert_sorted x ys)
    unfolding insert_sorted
    insert_sorted-IsSorted x [] s = (tt, tt)
    insert_sorted-IsSorted x (y ∷ ys) (a, s) = elim (Bool-cases (less x y)) [
      | inl before ↦
          rw before ((asymmetric x y before, All-later x y ys (asymmetric x y before) a), (a, s))
      | inr after ↦ rw after (All-insert_sorted y x ys after a, insert_sorted-IsSorted x ys s)
    ]

    sort_from-IsSorted : (done xs : List A) → IsSorted done → IsSorted (sort_from done xs)
    unfolding sort_from
    sort_from-IsSorted done [] s = s
    sort_from-IsSorted done (x ∷ xs) s =
        sort_from-IsSorted (insert_sorted x done) xs (insert_sorted-IsSorted x done s)

    pub sort_slice-IsSorted : (xs : List A) → IsSorted (sort_slice xs)
    unfolding sort_slice
    sort_slice-IsSorted xs = sort_from-IsSorted [] xs tt
