-- ===== src/Base/Tables.antt =====
-- SQL tables as lists of rows: what SELECT, UPDATE, DELETE and COUNT do on them.
use Prim.Native.Nat.{ℕ, ◌+◌}
use mathlib.Core.Path.{◌≡◌, refl}
use mathlib.Core.Logic.{inl, inr}
use mathlib.Core.Bool.{Bool, true, false}
use mathlib.Core.Option.{Option, none, some}
use mathlib.Core.List.{List, [], ◌∷◌, ◌++◌}
use native.Mathlib.Omega.{arith}
use ai_memory_hub.Base.Tests.{if◌then◌else◌, Bool-cases}
use ai_memory_hub.Base.Lists.{All, any}

pub some_inj {ℓ} : {A : Type ℓ} {a b : A} → some a ≡ some b → a ≡ b
some_inj h = cc

module _ {ℓ} {A : Type ℓ} where
  -- SELECT … WHERE p, the first row.
  unfoldable pub find : (A → Bool) → List A → Option A
  find p [] = none
  find p (x ∷ xs) = if p x then some x else find p xs

  -- UPDATE … SET f WHERE p.
  unfoldable pub update_where : (A → Bool) → (A → A) → List A → List A
  update_where p f [] = []
  update_where p f (x ∷ xs) = (if p x then f x else x) ∷ update_where p f xs

  -- SELECT COUNT(*) … WHERE p.
  unfoldable pub count_where : (A → Bool) → List A → ℕ
  count_where p [] = 0
  count_where p (x ∷ xs) = (if p x then 1 else 0) + count_where p xs

  pub All-update_where {κ} :
      (P : A → Type κ) (p : A → Bool) (f : A → A) (xs : List A)
      → ((x : A) → p x ≡ true → P x → P (f x))
      → All P xs
      → All P (update_where p f xs)
  unfolding update_where
  All-update_where P p f [] step h = tt
  All-update_where P p f (x ∷ xs) step h = elim (Bool-cases (p x)) [
    | inl e ↦ (rw e (step x e h.0), All-update_where P p f xs step h.1)
    | inr e ↦ (rw e h.0, All-update_where P p f xs step h.1)
  ]

  pub All-find {κ} :
      (P : A → Type κ) (p : A → Bool) (xs : List A) {x : A}
      → All P xs
      → find p xs ≡ some x
      → P x × (p x ≡ true)
  unfolding find
  All-find P p [] h e = absurd (cc e)
  All-find P p (y ∷ ys) h e = elim (Bool-cases (p y)) [
    | inl t ↦ let same = some_inj (rw t at e) in rw (← same) (h.0, t)
    | inr t ↦ All-find P p ys h.1 (rw t at e)
  ]

  pub find-passes : (p : A → Bool) (xs : List A) {x : A} → find p xs ≡ some x → p x ≡ true
  unfolding find
  find-passes p [] h = absurd (cc h)
  find-passes p (y ∷ xs) h = elim (Bool-cases (p y)) [
    | inl t ↦ rw (some_inj (rw t at h)) at t
    | inr t ↦ find-passes p xs (rw t at h)
  ]

  pub find-append :
      (p : A → Bool) (xs ys : List A) {x : A} → find p xs ≡ some x → find p (xs ++ ys) ≡ some x
  unfolding find
  find-append p [] ys h = absurd (cc h)
  find-append p (y ∷ xs) ys h = elim (Bool-cases (p y)) [
    | inl t ↦ rw t (rw t at h)
    | inr t ↦ rw t (find-append p xs ys (rw t at h))
  ]

  -- The row that is added last, where no other passes the test.
  pub find-snoc :
      (p : A → Bool) (xs : List A) (x : A)
      → any p xs ≡ false
      → p x ≡ true
      → find p (xs ++ x ∷ []) ≡ some x
  unfolding find
  find-snoc p [] x h k = rw k refl
  find-snoc p (y ∷ xs) x h k = elim (Bool-cases (p y)) [
    | inl t ↦ absurd (ground (arith, h, t))
    | inr t ↦ rw t (find-snoc p xs x (ground (arith, h, t)) k)
  ]

  pub find-none : (p : A → Bool) (xs : List A) → All (λ x. p x ≡ false) xs → find p xs ≡ none
  unfolding find
  find-none p [] h = refl
  find-none p (x ∷ xs) h = rw h.0 (find-none p xs h.1)

  pub find-none-All : (p : A → Bool) (xs : List A) → find p xs ≡ none → All (λ x. p x ≡ false) xs
  unfolding find
  find-none-All p [] h = tt
  find-none-All p (x ∷ xs) h = elim (Bool-cases (p x)) [
    | inl t ↦ absurd (cc (rw t at h))
    | inr t ↦ (t, find-none-All p xs (rw t at h))
  ]

abbrev pub map_option {ℓ κ} : {A : Type ℓ} {B : Type κ} → (A → B) → Option A → Option B
map_option f none = none
map_option f (some a) = some (f a)

pub map_option-some {ℓ κ} :
    {A : Type ℓ} {B : Type κ} (f : A → B) (o : Option A) {b : B}
    → map_option f o ≡ some b
    → (a : A) × (o ≡ some a) × (f a ≡ b)
map_option-some f none h = absurd (cc h)
map_option-some f (some a) h = (a, refl, some_inj h)

module _ {ℓ} {A : Type ℓ} where
  pub find-update_where :
      (q p : A → Bool) (f : A → A) (xs : List A)
      → ((x : A) → q (f x) ≡ q x)
      → find q (update_where p f xs) ≡ map_option (λ x. if p x then f x else x) (find q xs)
  unfolding find update_where
  find-update_where q p f [] h = refl
  find-update_where q p f (x ∷ xs) h = elim (Bool-cases (q x)) [
    | inl t ↦ elim (Bool-cases (p x)) [ inl u ↦ rw (t, u, h x, t) refl | inr u ↦ rw (t, u, t) refl ]
    | inr t ↦ elim (Bool-cases (p x)) [
      | inl u ↦ rw (t, u, h x, t) (find-update_where q p f xs h)
      | inr u ↦ rw (t, u, t) (find-update_where q p f xs h)
    ]
  ]

  pub any-find : (p : A → Bool) (xs : List A) → any p xs ≡ true → (x : A) × (find p xs ≡ some x)
  unfolding find
  any-find p [] h = absurd (cc h)
  any-find p (x ∷ xs) h = elim (Bool-cases (p x)) [
    | inl t ↦ rw t (x, refl)
    | inr t ↦ rw t (any-find p xs (rw t at h))
  ]

  pub find-snoc_other :
      (q : A → Bool) (xs : List A) (y : A) → q y ≡ false → find q (xs ++ y ∷ []) ≡ find q xs
  unfolding find
  find-snoc_other q [] y h = rw h refl
  find-snoc_other q (x ∷ xs) y h = elim (Bool-cases (q x)) [
    | inl t ↦ rw t refl
    | inr t ↦ rw t (find-snoc_other q xs y h)
  ]
