-- ===== src/Embedding/Bounds.antt =====
-- The batches of memory/ingestion/mvp_ingestion.py against the limits of the provider and the texts.
use ai_memory_hub.Base.{
  Text, ℕ, ◌≤◌, ◌≡◌, refl, ◌∙◌, sym, true, Option, List, [], ◌∷◌, ◌++◌, ◌||◌, arith, append-nil,
  append_assoc, is_empty, concat, concat-append, All, Bool-cases, inl, inr, ℤ, below_one,
  below_one-to_ℕ, to_ℕ, ok, ok-injective, raise-ne-ok, bind-eq-ok,
}
use ai_memory_hub.Embedding.{
  Loop, start, step, loop, finish, size_limit_of, byte_limit_of, is_bad_limit,
  embedding_text_batches,
}
use ai_memory_hub.Embedding.Limits.{Fits, step-eq-ok, loop-Inv, finish-Fits, start-Inv}

-- The texts that the loop has taken so far.
abbrev pub taken : Loop → List Text
taken s = concat s.batches ++ s.current

step-taken :
    (size_limit : ℕ) (byte_limit : Option ℕ) (t : Text) (s s' : Loop)
    → step size_limit byte_limit t s ≡ ok s'
    → taken s' ≡ taken s ++ t ∷ []
step-taken size_limit byte_limit t s s' h =
    let (alone, cases) = step-eq-ok size_limit byte_limit t s h in
    elim cases [
      | inl (full, e) ↦ rw e (simp (concat-append, append-nil, append_assoc))
      | inr (less, e) ↦ rw e (simp append_assoc)
    ]

loop-taken :
    (size_limit : ℕ) (byte_limit : Option ℕ) (ts : List Text) (s s' : Loop)
    → loop size_limit byte_limit ts s ≡ ok s'
    → taken s' ≡ taken s ++ ts
unfolding loop
loop-taken size_limit byte_limit [] s s' h = rw (← ok-injective h) (sym (append-nil (taken s)))
loop-taken size_limit byte_limit (t ∷ ts) s s' h =
    let (mid, one, rest) = bind-eq-ok (step size_limit byte_limit t s) _ h in
    loop-taken size_limit byte_limit ts mid s' rest
    ∙ (rw (step-taken size_limit byte_limit t s mid one) (append_assoc (taken s) (t ∷ []) ts))

concat-finish : (s : Loop) → concat (finish s) ≡ taken s
unfolding finish
concat-finish s = elim (Bool-cases (is_empty s.current)) [
  | inl e ↦ rw e (rw (nil s.current e) (sym (append-nil (concat s.batches))))
  | inr e ↦ rw e (simp (concat-append, append-nil))
]
  where
    nil : (ts : List Text) → is_empty ts ≡ true → ts ≡ []
    nil [] h = refl
    nil (t ∷ ts) h = cc

-- What a result of `embedding_text_batches` tells of the limits and of the loop.
pub batches-eq-ok :
    (texts : List Text) (max_size max_bytes : Option ℤ) {bs : List (List Text)}
    → embedding_text_batches texts max_size max_bytes ≡ ok bs
    → (1 ≤ to_ℕ (size_limit_of texts max_size))
      × (s : Loop) × (loop
            (to_ℕ (size_limit_of texts max_size))
            (byte_limit_of max_bytes)
            texts
            start
          ≡ ok s)
      × (bs ≡ finish s)
unfolding embedding_text_batches
batches-eq-ok texts max_size max_bytes h =
    elim (Bool-cases (below_one (size_limit_of texts max_size) || is_bad_limit max_bytes)) [
      | inl bad ↦ absurd (raise-ne-ok (rw bad at h))
      | inr good ↦
          let size = to_ℕ (size_limit_of texts max_size) in
          let (s, run, e) =
            bind-eq-ok (loop size (byte_limit_of max_bytes) texts start) _ (rw good at h) in
          (
            below_one-to_ℕ (size_limit_of texts max_size) (ground arith),
            s,
            run,
            sym (ok-injective e),
          )
    ]

-- If the batching succeeds, the batches joined are the texts in their order, and every batch is
-- not empty, holds at most the size limit of texts, and its JSON array keeps the byte limit.
pub embedding_text_batches-Fits :
    (texts : List Text) (max_size max_bytes : Option ℤ) (bs : List (List Text))
    → embedding_text_batches texts max_size max_bytes ≡ ok bs
    → (concat bs ≡ texts)
      × All (Fits (to_ℕ (size_limit_of texts max_size)) (byte_limit_of max_bytes)) bs
embedding_text_batches-Fits texts max_size max_bytes bs h =
    let (room, s, run, e) = batches-eq-ok texts max_size max_bytes h in
    let size = to_ℕ (size_limit_of texts max_size) in
    let bytes = byte_limit_of max_bytes in
    rw e (
      concat-finish s ∙ loop-taken size bytes texts start s run,
      finish-Fits size bytes room s
          (loop-Inv size bytes room texts start s (start-Inv size bytes room) run),
    )
