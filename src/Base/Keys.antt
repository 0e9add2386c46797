-- ===== src/Base/Keys.antt =====
-- Primary keys: tables whose rows have distinct keys.
use mathlib.Core.Path.{◌≡◌, refl, ap, ◌∙◌, sym}
use mathlib.Core.Logic.{inl, inr}
use mathlib.Core.Bool.{Bool, true, false, false≢true, ◌||◌}
use mathlib.Core.Option.{some}
use mathlib.Core.List.{List, [], ◌∷◌, ◌++◌}
use native.Mathlib.Omega.{arith}
use ai_memory_hub.Base.Tests.{Bool-cases, ◌==◌, if◌then◌else◌}
use ai_memory_hub.Base.Lists.{All, All-mono, any}
use ai_memory_hub.Base.Strings.{Text, text_eq, text_beq_iff, text_beq_comm}
use ai_memory_hub.Base.Tables.{find, update_where, All-find}

module _ {ℓ} {A : Type ℓ} where
  pub any-append : (p : A → Bool) (xs ys : List A) → any p (xs ++ ys) ≡ (any p xs || any p ys)
  any-append p [] ys = refl
  any-append p (x ∷ xs) ys = ground (arith, any-append p xs ys)

  pub any-update_where :
      (q p : A → Bool) (f : A → A) (xs : List A)
      → ((x : A) → q (f x) ≡ q x)
      → any q (update_where p f xs) ≡ any q xs
  unfolding update_where
  any-update_where q p f [] h = refl
  any-update_where q p f (x ∷ xs) h = elim (Bool-cases (p x)) [
    | inl e ↦ rw (e, h x, any-update_where q p f xs h) refl
    | inr e ↦ rw (e, any-update_where q p f xs h) refl
  ]

  pub update_where-none :
      (p : A → Bool) (f : A → A) (xs : List A)
      → All (λ x. p x ≡ false) xs
      → update_where p f xs ≡ xs
  unfolding update_where
  update_where-none p f [] h = refl
  update_where-none p f (x ∷ xs) h = rw (h.0, update_where-none p f xs h.1) refl

  pub any-false : (p : A → Bool) (xs : List A) → any p xs ≡ false → All (λ x. p x ≡ false) xs
  any-false p [] h = tt
  any-false p (x ∷ xs) h = (ground arith, any-false p xs (ground arith))

  -- The rows have distinct keys.
  abbrev pub UniqueBy : (A → Text) → List A → Type 0
  UniqueBy key [] = Unit
  UniqueBy key (x ∷ xs) = (any (λ y. key y == key x) xs ≡ false) × UniqueBy key xs

  pub UniqueBy-snoc :
      (key : A → Text) (xs : List A) (r : A)
      → any (λ x. key x == key r) xs ≡ false
      → UniqueBy key xs
      → UniqueBy key (xs ++ r ∷ [])
  UniqueBy-snoc key [] r h u = (refl, tt)
  UniqueBy-snoc key (x ∷ xs) r h u = (
    ground (arith, any-append (λ y. key y == key x) xs (r ∷ []), text_beq_comm (key r) (key x)),
    UniqueBy-snoc key xs r (ground arith) u.1,
  )

  pub UniqueBy-update_where :
      (key : A → Text) (p : A → Bool) (f : A → A) (xs : List A)
      → ((x : A) → key (f x) ≡ key x)
      → UniqueBy key xs
      → UniqueBy key (update_where p f xs)
  unfolding update_where
  UniqueBy-update_where key p f [] h u = tt
  UniqueBy-update_where key p f (x ∷ xs) h u = (
    rw (kept (p x))
        (any-update_where (λ y. key y == key x) p f xs (λ y. ap (λ k. k == key x) (h y)) ∙ u.0),
    UniqueBy-update_where key p f xs h u.1,
  )
    where
      kept : (b : Bool) → key (if b then f x else x) ≡ key x
      kept true = h x
      kept false = refl

  -- The row that a query for one key finds is the only row with that key.
  pub find-only :
      (key : A → Text) (k : Text) (p : A → Bool) (xs : List A) {r : A}
      → ((x : A) → p x ≡ true → key x ≡ k)
      → UniqueBy key xs
      → find p xs ≡ some r
      → All (λ x. (key x == k) ≡ true → p x ≡ true) xs
  unfolding find
  find-only key k p [] sound u e = tt
  find-only key k p (x ∷ xs) {r} sound u e = elim (Bool-cases (p x)) [
    | inl t ↦ (
      λ _. t,
      All-mono _ _ xs (λ y no_key same. absurd (false≢true (sym no_key ∙ same)))
          (rw (sound x t) at (any-false _ xs u.0)),
    )
    | inr t ↦ (λ same. absurd (second (rw t at e) same), find-only key k p xs sound u.1 (rw t at e))
  ]
    where
      second : find p xs ≡ some r → (key x == k) ≡ true → ⊥
      second found same =
          let (other, hit) =
            All-find (λ y. (key y == key x) ≡ false) p xs (any-false _ xs u.0) found in
          false≢true
            (sym other ∙ (text_beq_iff _ _).1 (sound r hit ∙ sym ((text_beq_iff _ _).0 same)))
