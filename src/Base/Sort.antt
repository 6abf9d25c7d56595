-- ===== src/Base/Sort.antt =====
-- ORDER BY: a stable sort by a test for "comes before or at the same place".
use mathlib.Core.List.{Perm}
use mathlib.Core.List.Perm
use game_server_manager.Base.{
  ◌≡◌, Bool, true, false, List, [], ◌∷◌, if◌then◌else◌, inl, inr, Bool-cases, All, All-implies,
}

module _ {A : Type 0} where
  unfoldable pub place : (A → A → Bool) → A → List A → List A
  place before x [] = x ∷ []
  place before x (y ∷ ys) = if before x y then x ∷ y ∷ ys else y ∷ place before x ys

  unfoldable pub sort : (A → A → Bool) → List A → List A
  unfolding place
  sort before [] = []
  sort before (x ∷ xs) = place before x (sort before xs)

  -- Each element comes before all that follow.
  abbrev pub IsSorted : (A → A → Bool) → List A → Type 0
  IsSorted before [] = Unit
  IsSorted before (x ∷ xs) = All (λ y. before x y ≡ true) xs × IsSorted before xs

  place-All :
      (P : A → Type 0) (before : A → A → Bool) (x : A) (ys : List A)
      → P x
      → All P ys
      → All P (place before x ys)
  unfolding place
  place-All P before x [] h k = (h, tt)
  place-All P before x (y ∷ ys) h k = elim (Bool-cases (before x y)) [
    | inl e ↦ rw e (h, k)
    | inr e ↦ rw e (k.0, place-All P before x ys h k.1)
  ]

  place-Perm : (before : A → A → Bool) (x : A) (ys : List A) → Perm (place before x ys) (x ∷ ys)
  unfolding place
  place-Perm before x [] = Perm.rfl
  place-Perm before x (y ∷ ys) = elim (Bool-cases (before x y)) [
    | inl e ↦ rw e Perm.rfl
    | inr e ↦ rw e (Perm.trans (Perm.cons y (place-Perm before x ys)) (Perm.swap x y ys))
  ]

  -- A sorted list has the same elements, each as often.
  pub sort-Perm : (before : A → A → Bool) (xs : List A) → Perm (sort before xs) xs
  unfolding sort
  sort-Perm before [] = Perm.rfl
  sort-Perm before (x ∷ xs) =
      Perm.trans (place-Perm before x (sort before xs)) (Perm.cons x (sort-Perm before xs))

  pub sort-All :
      (P : A → Type 0) (before : A → A → Bool) (xs : List A) → All P xs → All P (sort before xs)
  unfolding sort
  sort-All P before [] h = tt
  sort-All P before (x ∷ xs) h =
      place-All P before x (sort before xs) h.0 (sort-All P before xs h.1)

  module _ (before : A → A → Bool) (total : (x y : A) → before x y ≡ false → before y x ≡ true)
      (transitive : (x y z : A) → before x y ≡ true → before y z ≡ true → before x z ≡ true) where
    place-IsSorted :
        (x : A) (ys : List A) → IsSorted before ys → IsSorted before (place before x ys)
    unfolding place
    place-IsSorted x [] h = (tt, tt)
    place-IsSorted x (y ∷ ys) h = elim (Bool-cases (before x y)) [
      | inl e ↦ rw e (
        (
          e,
          All-implies (λ z. before y z ≡ true) (λ z. before x z ≡ true) ys
              (λ z k. transitive x y z e k) h.0,
        ),
        h,
      )
      | inr e ↦ rw e (
        place-All (λ z. before y z ≡ true) before x ys (total x y e) h.0,
        place-IsSorted x ys h.1,
      )
    ]

    pub sort-IsSorted : (xs : List A) → IsSorted before (sort before xs)
    unfolding sort
    sort-IsSorted [] = tt
    sort-IsSorted (x ∷ xs) = place-IsSorted x (sort before xs) (sort-IsSorted xs)
