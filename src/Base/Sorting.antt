-- ===== src/Base/Sorting.antt =====
-- Python's `sorted` and SQL's ORDER BY: stable, by insertion.
use mathlib.Core.Path.{◌≡◌, refl, sym, ap, ◌∙◌}
use mathlib.Core.Logic.{inl, inr}
use mathlib.Core.Bool.{Bool, true, false, false≢true}
use mathlib.Core.List.{List, [], ◌∷◌}
use native.Mathlib.Omega.{arith}
use ai_memory_hub.Base.Tests.{if◌then◌else◌, Bool-cases}
use ai_memory_hub.Base.Lists.{All, keep}
use ai_memory_hub.Base.Tables.{count_where}

module _ {ℓ} {A : Type ℓ} where
  -- `before x y` says that `x` may stand before `y`; it holds both ways on equal keys.
  unfoldable pub insert_by : (A → A → Bool) → A → List A → List A
  insert_by before x [] = x ∷ []
  insert_by before x (y ∷ ys) =
      let rest = insert_by before x ys in if before x y then x ∷ y ∷ ys else y ∷ rest

  unfoldable pub sort_by : (A → A → Bool) → List A → List A
  unfolding insert_by
  sort_by before [] = []
  sort_by before (x ∷ xs) = insert_by before x (sort_by before xs)

  -- Each element may stand before the next.
  abbrev pub Follows : (A → A → Bool) → A → List A → Type 0
  Follows before x [] = Unit
  Follows before x (y ∷ ys) = before x y ≡ true

  abbrev pub Sorted : (A → A → Bool) → List A → Type 0
  Sorted before [] = Unit
  Sorted before (x ∷ xs) = Follows before x xs × Sorted before xs

module _ {ℓ} {A : Type ℓ} (before : A → A → Bool) where
  All-insert_by {κ} :
      (P : A → Type κ) (x : A) (xs : List A) → P x → All P xs → All P (insert_by before x xs)
  unfolding insert_by
  All-insert_by P x [] h k = (h, tt)
  All-insert_by P x (y ∷ ys) h k = elim (Bool-cases (before x y)) [
    | inl e ↦ rw (e, All) (h, k)
    | inr e ↦ rw (e, All) (k.0, All-insert_by P x ys h k.1)
  ]

  pub All-sort_by {κ} : (P : A → Type κ) (xs : List A) → All P xs → All P (sort_by before xs)
  unfolding sort_by
  All-sort_by P [] h = tt
  All-sort_by P (x ∷ xs) h = All-insert_by P x (sort_by before xs) h.0 (All-sort_by P xs h.1)

  count_where-insert_by :
      (p : A → Bool) (x : A) (xs : List A)
      → count_where p (insert_by before x xs) ≡ count_where p (x ∷ xs)
  unfolding insert_by count_where
  count_where-insert_by p x [] = refl
  count_where-insert_by p x (y ∷ ys) = elim (Bool-cases (before x y)) [
    | inl e ↦ rw e refl
    | inr e ↦ rw e (omega (arith, count_where-insert_by p x ys))
  ]

  -- Sorting keeps how often each kind of element stands in the list.
  pub count_where-sort_by :
      (p : A → Bool) (xs : List A) → count_where p (sort_by before xs) ≡ count_where p xs
  unfolding sort_by count_where
  count_where-sort_by p [] = refl
  count_where-sort_by p (x ∷ xs) =
      omega (arith, count_where-insert_by p x (sort_by before xs), count_where-sort_by p xs)

  keep_first : (p : A → Bool) (x : A) (xs : List A) → p x ≡ true → keep p (x ∷ xs) ≡ x ∷ keep p xs
  keep_first p x xs h = rw (h, keep) refl

  keep_later : (p : A → Bool) (x : A) (xs : List A) → p x ≡ false → keep p (x ∷ xs) ≡ keep p xs
  keep_later p x xs h = rw (h, keep) refl

  keep_same :
      (p : A → Bool) (x : A) (xs ys : List A)
      → keep p xs ≡ keep p ys
      → keep p (x ∷ xs) ≡ keep p (x ∷ ys)
  keep_same p x xs ys h = elim (Bool-cases (p x)) [
    | inl e ↦ keep_first p x xs e ∙ ap (λ zs. x ∷ zs) h ∙ sym (keep_first p x ys e)
    | inr e ↦ keep_later p x xs e ∙ h ∙ sym (keep_later p x ys e)
  ]

  -- Elements that may stand before each other keep their order.
  keep-insert_by :
      (p : A → Bool) (x : A) (xs : List A)
      → ((y : A) → p x ≡ true → p y ≡ true → before x y ≡ true)
      → keep p (insert_by before x xs) ≡ keep p (x ∷ xs)
  unfolding insert_by
  keep-insert_by p x [] free = refl
  keep-insert_by p x (y ∷ ys) free = elim (Bool-cases (before x y)) [
    | inl e ↦ rw e refl
    | inr e ↦ rw e (
        keep_same p y (insert_by before x ys) (x ∷ ys) (keep-insert_by p x ys free)
        ∙ elim (Bool-cases (p x)) [
          | inl here ↦ elim (Bool-cases (p y)) [
            | inl there ↦ absurd (false≢true (sym e ∙ free y here there))
            | inr off ↦
                keep_later p y (x ∷ ys) off
                ∙ keep_same p x ys (y ∷ ys) (sym (keep_later p y ys off))
          ]
          | inr away ↦
              keep_same p y (x ∷ ys) ys (keep_later p x ys away)
              ∙ sym (keep_later p x (y ∷ ys) away)
        ])
  ]

  pub keep-sort_by :
      (p : A → Bool) (xs : List A)
      → ((x y : A) → p x ≡ true → p y ≡ true → before x y ≡ true)
      → keep p (sort_by before xs) ≡ keep p xs
  unfolding sort_by
  keep-sort_by p [] free = refl
  keep-sort_by p (x ∷ xs) free =
      keep-insert_by p x (sort_by before xs) (free x)
      ∙ keep_same p x (sort_by before xs) xs (keep-sort_by p xs free)

  module _ (total : (x y : A) → before x y ≡ false → before y x ≡ true) where
    Follows-insert_by :
        (y x : A) (xs : List A)
        → before y x ≡ true
        → Follows before y xs
        → Follows before y (insert_by before x xs)
    unfolding insert_by
    Follows-insert_by y x [] h k = h
    Follows-insert_by y x (z ∷ zs) h k = elim (Bool-cases (before x z)) [
      | inl e ↦ rw (e, Follows) h
      | inr e ↦ rw (e, Follows) k
    ]

    Sorted-insert_by :
        (x : A) (xs : List A) → Sorted before xs → Sorted before (insert_by before x xs)
    unfolding insert_by
    Sorted-insert_by x [] h = (tt, tt)
    Sorted-insert_by x (y ∷ ys) h = elim (Bool-cases (before x y)) [
      | inl e ↦ rw (e, Sorted) (e, h)
      | inr e ↦
          rw (e, Sorted) (Follows-insert_by y x ys (total x y e) h.0, Sorted-insert_by x ys h.1)
    ]

    pub sort_by-Sorted : (xs : List A) → Sorted before (sort_by before xs)
    unfolding sort_by
    sort_by-Sorted [] = tt
    sort_by-Sorted (x ∷ xs) = Sorted-insert_by x (sort_by before xs) (sort_by-Sorted xs)
