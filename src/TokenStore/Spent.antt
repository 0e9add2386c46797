-- ===== src/TokenStore/Spent.antt =====
-- Rows of memory/backend/metadata_store.py that are used once: the row with a key is there, and its
-- `consumed_at` column is set.
use ai_memory_hub.Base.{
  Text, ◌≡◌, refl, ap, ◌∙◌, sym, Bool, true, false, Option, some, arith, List, [], ◌∷◌, ◌++◌, ◌==◌,
  text_eq, any, find, update_where, All, All-append, All-mono, All-update_where, any-append,
  any-update_where, UniqueBy, find-only, text_beq_iff, false≢true, Bool-cases, inl, inr,
}
use ai_memory_hub.TokenStore.Rows.{is_null}

module _ {A : Type 0} (key : A → Text) (used : A → Option Text) where
  abbrev pub IsSpent : Text → List A → Type 0
  IsSpent k xs =
      (any (λ x. key x == k) xs ≡ true)
      × All (λ x. (key x == k) ≡ true → is_null (used x) ≡ false) xs

  pub IsSpent-snoc :
      (k : Text) (xs : List A) (row : A)
      → any (λ x. key x == key row) xs ≡ false
      → IsSpent k xs
      → IsSpent k (xs ++ row ∷ [])
  IsSpent-snoc k xs row fresh (there, done) = (
    any-append (λ x. key x == k) xs (row ∷ []) ∙ rw there,
    All-append _ xs (row ∷ []) done (
      (λ same. absurd (false≢true (sym fresh ∙ rw ((text_beq_iff (key row) k).0 same) there))),
      tt,
    ),
  )

  pub IsSpent-update_where :
      (k : Text) (p : A → Bool) (f : A → A) (xs : List A)
      → ((x : A) → key (f x) ≡ key x)
      → ((x : A) → is_null (used x) ≡ false → is_null (used (f x)) ≡ false)
      → IsSpent k xs
      → IsSpent k (update_where p f xs)
  IsSpent-update_where k p f xs same keep (there, done) = (
    any-update_where (λ x. key x == k) p f xs (λ x. ap (λ i. i == k) (same x)) ∙ there,
    All-update_where _ p f xs (λ x _ h e. keep x (h (ap (λ i. i == k) (sym (same x)) ∙ e))) done,
  )

  -- The update that hands a row out leaves it spent.
  pub IsSpent-first :
      (k : Text) (p : A → Bool) (f : A → A) (xs : List A) {r : A}
      → ((x : A) → p x ≡ true → key x ≡ k)
      → ((x : A) → key (f x) ≡ key x)
      → ((x : A) → is_null (used (f x)) ≡ false)
      → UniqueBy key xs
      → find p xs ≡ some r
      → IsSpent k (update_where p f xs)
  unfolding update_where find
  IsSpent-first k p f [] sound same marks u e = absurd (cc e)
  IsSpent-first k p f (x ∷ xs) sound same marks u e = (
    any-update_where (λ y. key y == k) p f (x ∷ xs) (λ y. ap (λ i. i == k) (same y))
        ∙ found (x ∷ xs) e,
    all_marked (x ∷ xs) (find-only key k p (x ∷ xs) sound u e),
  )
    where
      found : (ys : List A) {r : A} → find p ys ≡ some r → any (λ y. key y == k) ys ≡ true
      found [] h = absurd (cc h)
      found (y ∷ ys) h = elim (Bool-cases (p y)) [
        | inl t ↦ rw (sound y t) (rw ((text_beq_iff k k).1 refl))
        | inr t ↦ ground (arith, found ys (rw t at h))
      ]

      all_marked :
          (ys : List A)
          → All (λ y. (key y == k) ≡ true → p y ≡ true) ys
          → All (λ y. (key y == k) ≡ true → is_null (used y) ≡ false) (update_where p f ys)
      all_marked [] h = tt
      all_marked (y ∷ ys) h = elim (Bool-cases (p y)) [
        | inl t ↦ (rw t (λ _. marks y), all_marked ys h.1)
        | inr t ↦ (rw t (λ same'. absurd (false≢true (sym t ∙ h.0 same'))), all_marked ys h.1)
      ]

  -- A query that wants a row that is not used finds none, and changes nothing.
  pub IsSpent-none :
      (k : Text) (p : A → Bool) (xs : List A)
      → ((x : A) → p x ≡ true → (key x ≡ k) × (is_null (used x) ≡ true))
      → IsSpent k xs
      → All (λ x. p x ≡ false) xs
  IsSpent-none k p xs sound (there, done) =
      All-mono _ _ xs
        (λ x h. elim (Bool-cases (p x)) [
          | inl t ↦
              let (at, free) = sound x t in
              absurd (false≢true (sym (h ((text_beq_iff _ _).1 at)) ∙ free))
          | inr t ↦ t
        ])
        done
