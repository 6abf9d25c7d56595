-- ===== src/Db/Rows.antt =====
-- Finding rows in a table after an UPDATE or a DELETE.
use mathlib.Core.Option
use game_server_manager.Base.{
  ◌≡◌, refl, Bool, true, false, not, none, some, List, [], ◌∷◌, ◌++◌, arith, if◌then◌else◌, find,
  keep, is_some, All, inl, inr, Bool-cases, Option-cases,
}
use game_server_manager.Db.{update_rows}

module _ {ℓ} {A : Type ℓ} (p test : A → Bool) (change : A → A) where
  abbrev pub changed : A → A
  changed x = if test x then change x else x

  -- An update that no row's membership in the search depends on changes what the search finds.
  pub find-update_rows :
      (xs : List A)
      → ((x : A) → p (change x) ≡ p x)
      → find p (update_rows test change xs) ≡ Option.map changed (find p xs)
  find-update_rows [] same = refl
  find-update_rows (x ∷ xs) same = ground (arith, same x, find-update_rows xs same)

module _ {ℓ} {A : Type ℓ} (p : A → Bool) where
  pub find-append_none :
      (xs : List A) (x : A)
      → find p xs ≡ none
      → find p (xs ++ x ∷ []) ≡ (if p x then some x else none)
  find-append_none [] x e = refl
  find-append_none (y ∷ xs) x e = ground (arith, find-append_none xs x)

  pub find-append_other : (xs : List A) (x : A) → p x ≡ false → find p (xs ++ x ∷ []) ≡ find p xs
  find-append_other [] x e = rw e refl
  find-append_other (y ∷ xs) x e = ground (arith, find-append_other xs x)

  pub find-append_some : (xs ys : List A) (x : A) → find p xs ≡ some x → find p (xs ++ ys) ≡ some x
  find-append_some [] ys x e = ground arith
  find-append_some (y ∷ xs) ys x e = ground (arith, find-append_some xs ys x)

module _ {ℓ} {A : Type ℓ} (p q : A → Bool) where
  pub find-keep_other :
      (xs : List A)
      → ((x : A) → p x ≡ true → q x ≡ false)
      → find p (keep (λ x. not (q x)) xs) ≡ find p xs
  find-keep_other [] apart = refl
  find-keep_other (x ∷ xs) apart = ground (arith, apart x, find-keep_other xs apart)

  -- An update of rows that the search does not look for.
  pub find-update_other :
      (change : A → A) (xs : List A)
      → ((x : A) → p (change x) ≡ p x)
      → ((x : A) → p x ≡ true → q x ≡ false)
      → find p (update_rows q change xs) ≡ find p xs
  find-update_other change [] same apart = refl
  find-update_other change (x ∷ xs) same apart =
      ground (arith, same x, apart x, find-update_other change xs same apart)

module _ {ℓ} {A : Type ℓ} (p : A → Bool) where
  pub find-keep_self : (xs : List A) → find p (keep (λ x. not (p x)) xs) ≡ none
  find-keep_self [] = refl
  find-keep_self (x ∷ xs) = ground (arith, find-keep_self xs)

module _ {A : Type 0} where
  pub All-update_rows :
      (P : A → Type 0) (test : A → Bool) (change : A → A) (xs : List A)
      → ((x : A) → P x → P (change x))
      → All P xs
      → All P (update_rows test change xs)
  All-update_rows P test change [] f h = tt
  All-update_rows P test change (x ∷ xs) f h =
      (one (test x), All-update_rows P test change xs f h.1)
    where
      one : (b : Bool) → P (if b then change x else x)
      one true = f x h.0
      one false = h.0

  -- What is kept passes the test too.
  pub All-keep_passing :
      (P Q : A → Type 0) (p : A → Bool) (xs : List A)
      → ((x : A) → p x ≡ true → P x → Q x)
      → All P xs
      → All Q (keep p xs)
  All-keep_passing P Q p [] f h = tt
  All-keep_passing P Q p (x ∷ xs) f h = elim (Bool-cases (p x)) [
    | inl e ↦ rw e (f x e h.0, All-keep_passing P Q p xs f h.1)
    | inr e ↦ rw e (All-keep_passing P Q p xs f h.1)
  ]

  pub is_some-find-update_rows :
      (p test : A → Bool) (change : A → A) (xs : List A)
      → ((x : A) → p (change x) ≡ p x)
      → is_some (find p xs) ≡ true
      → is_some (find p (update_rows test change xs)) ≡ true
  is_some-find-update_rows p test change xs same h = elim (Option-cases (find p xs)) [
    | inl e ↦ let bad : false ≡ true = rw e at h in absurd (cc)
    | inr (x, e) ↦ rw (find-update_rows p test change xs same, e) refl
  ]

  pub is_some-find-append :
      (p : A → Bool) (xs ys : List A)
      → is_some (find p xs) ≡ true
      → is_some (find p (xs ++ ys)) ≡ true
  is_some-find-append p xs ys h = elim (Option-cases (find p xs)) [
    | inl e ↦ let bad : false ≡ true = rw e at h in absurd (cc)
    | inr (x, e) ↦ rw (find-append_some p xs ys x e) refl
  ]

  pub is_some-find-last :
      (p : A → Bool) (xs : List A) (x : A) → p x ≡ true → is_some (find p (xs ++ x ∷ [])) ≡ true
  is_some-find-last p xs x h = elim (Option-cases (find p xs)) [
    | inl e ↦ rw (find-append_none p xs x e, h) refl
    | inr (y, e) ↦ rw (find-append_some p xs (x ∷ []) y e) refl
  ]
