-- ===== src/Base/Members.antt =====
-- Elements of a list.
use mathlib.Core.Path.{◌≡◌, refl, ap, subst, ◌∙◌}
use mathlib.Core.Logic.{◌⊎◌, inl, inr}
use mathlib.Core.Bool.{Bool, true, false≢true}
use mathlib.Core.List.{List, [], ◌∷◌}
use ai_memory_hub.Base.Tests.{Bool-cases}
use mathlib.Core.Option.{some}
use ai_memory_hub.Base.Lists.{any, All}
use ai_memory_hub.Base.Tables.{find, some_inj}

module _ {A : Type 0} where
  -- One of the list.
  abbrev pub In : A → List A → Type 0
  In x [] = ⊥
  In x (y ∷ ys) = (y ≡ x) ⊎ In x ys

  pub any-In : (p : A → Bool) (xs : List A) → any p xs ≡ true → (x : A) × In x xs × (p x ≡ true)
  any-In p [] h = absurd (false≢true h)
  any-In p (x ∷ xs) h = elim (Bool-cases (p x)) [
    | inl e ↦ (x, inl refl, e)
    | inr e ↦ let (y, there, hit) = any-In p xs (rw e at h) in (y, inr there, hit)
  ]

  pub In-any : (p : A → Bool) (xs : List A) (x : A) → In x xs → p x ≡ true → any p xs ≡ true
  In-any p [] x m h = absurd m
  In-any p (y ∷ xs) x (inl e) h = rw (ap p e ∙ h) refl
  In-any p (y ∷ xs) x (inr m) h = elim (Bool-cases (p y)) [
    | inl e ↦ rw e refl
    | inr e ↦ rw e (In-any p xs x m h)
  ]

  pub All-In {κ} : (P : A → Type κ) (xs : List A) (x : A) → All P xs → In x xs → P x
  All-In P [] x h m = absurd m
  All-In P (y ∷ xs) x h (inl e) = subst P e h.0
  All-In P (y ∷ xs) x h (inr m) = All-In P xs x h.1 m

  pub find-In : (p : A → Bool) (xs : List A) {x : A} → find p xs ≡ some x → In x xs
  unfolding find
  find-In p [] h = absurd (cc h)
  find-In p (y ∷ xs) h = elim (Bool-cases (p y)) [
    | inl e ↦ inl (some_inj (rw e at h))
    | inr e ↦ inr (find-In p xs (rw e at h))
  ]
