-- ===== src/Embedding/Limits.antt =====
-- The limits of the provider on a batch, and the loop of memory/ingestion/mvp_ingestion.py that keeps
-- them.
use ai_memory_hub.Base.{
  any, Text, ℕ, suc, ◌+◌, ◌≤◌, ◌≡◌, refl, sym, true, false, Option, List, [], ◌∷◌, ◌++◌, ◌⊎◌, arith,
  length, is_empty, length-append, All, All-append, Bool-cases, inl, inr, ok, ok-injective,
  raise-ne-ok, bind-eq-ok,
}
use ai_memory_hub.Embedding.{
  is_surrogate, encoded_bytes, text_bytes, tail_bytes, embedding_batch_input_bytes, exceeds, Loop,
  start, too_large, close, append, is_full, separator_bytes, step, loop, finish,
}

-- What the provider accepts: a batch that is not empty and keeps both limits.
pub record Fits (size_limit : ℕ) (byte_limit : Option ℕ) (batch : List Text) : Type 0 where
  pub not_empty : 1 ≤ length batch
  pub in_size : length batch ≤ size_limit
  pub in_bytes : exceeds byte_limit (embedding_batch_input_bytes batch) ≡ false

tail_bytes-snoc :
    (ts : List Text) (t : Text) → tail_bytes (ts ++ t ∷ []) ≡ tail_bytes ts + (1 + text_bytes t)
unfolding tail_bytes
tail_bytes-snoc [] t = omega arith
tail_bytes-snoc (u ∷ ts) t = omega (arith, tail_bytes-snoc ts t)

-- The running count of bytes is the length of the JSON array.
input_bytes-snoc :
    (ts : List Text) (t : Text)
    → embedding_batch_input_bytes (ts ++ t ∷ [])
      ≡ embedding_batch_input_bytes ts + (separator_bytes ts + text_bytes t)
unfolding embedding_batch_input_bytes
input_bytes-snoc [] t = omega arith
input_bytes-snoc (u ∷ ts) t = omega (arith, tail_bytes-snoc ts t)

length-snoc : (ts : List Text) (t : Text) → length (ts ++ t ∷ []) ≡ suc (length ts)
length-snoc ts t = omega (arith, length-append ts (t ∷ []))

pub record Inv (size_limit : ℕ) (byte_limit : Option ℕ) (s : Loop) : Type 0 where
  closed : All (Fits size_limit byte_limit) s.batches
  counted : s.current_bytes ≡ embedding_batch_input_bytes s.current
  open_size : length s.current ≤ size_limit
  open_bytes :
      is_empty s.current ≡ false
      → exceeds byte_limit (embedding_batch_input_bytes s.current) ≡ false

nonempty : (ts : List Text) → is_empty ts ≡ false → 1 ≤ length ts
nonempty [] h = cc
nonempty (t ∷ ts) h = omega arith

module _ (size_limit : ℕ) (byte_limit : Option ℕ) (room : 1 ≤ size_limit) where
  Fits-current :
      (s : Loop)
      → Inv size_limit byte_limit s
      → is_empty s.current ≡ false
      → Fits size_limit byte_limit s.current
  Fits-current s inv e = record {
    not_empty = nonempty s.current e;
    in_size = inv.open_size;
    in_bytes = inv.open_bytes e;
  }

  close-Inv :
      (s : Loop)
      → Inv size_limit byte_limit s
      → is_empty s.current ≡ false
      → Inv size_limit byte_limit (close s)
  unfolding embedding_batch_input_bytes
  close-Inv s inv e = record {
    closed =
        All-append (Fits size_limit byte_limit) s.batches (s.current ∷ []) inv.closed
          (Fits-current s inv e, tt);
    counted = refl;
    open_size = omega arith;
    open_bytes = λ h. cc;
  }

  append-Inv :
      (t : Text) (s : Loop)
      → Inv size_limit byte_limit s
      → suc (length s.current) ≤ size_limit
      → exceeds byte_limit (s.current_bytes + separator_bytes s.current + text_bytes t) ≡ false
      → Inv size_limit byte_limit (append t (text_bytes t) s)
  append-Inv t s inv small light = record {
    closed = inv.closed;
    counted = omega (arith, input_bytes-snoc s.current t, inv.counted);
    open_size = omega (arith, length-snoc s.current t);
    open_bytes = λ _. rw same light;
  }
    where
      same :
          embedding_batch_input_bytes (s.current ++ t ∷ [])
          ≡ s.current_bytes + separator_bytes s.current + text_bytes t
      same = omega (arith, input_bytes-snoc s.current t, inv.counted)

  not_full :
      (s : Loop) (bytes : ℕ)
      → Inv size_limit byte_limit s
      → exceeds byte_limit (2 + bytes) ≡ false
      → is_full size_limit byte_limit s bytes ≡ false
      → (suc (length s.current) ≤ size_limit)
        × (exceeds byte_limit (s.current_bytes + separator_bytes s.current + bytes) ≡ false)
  unfolding embedding_batch_input_bytes
  not_full s bytes inv alone h = go s.current s.current_bytes inv.counted h
    where
      go :
          (current : List Text) (used : ℕ)
          → used ≡ embedding_batch_input_bytes current
          → is_full size_limit byte_limit
              (record { batches = []; current = current; current_bytes = used })
              bytes
            ≡ false
          → (suc (length current) ≤ size_limit)
            × (exceeds byte_limit (used + separator_bytes current + bytes) ≡ false)
      go [] used e h =
          let two : used + 0 + bytes ≡ 2 + bytes = omega arith in (omega arith, rw two alone)
      go (t ∷ ts) used e h = (ground arith, ground arith)

-- The cases of a step that does not raise.
pub step-eq-ok :
    (size_limit : ℕ) (byte_limit : Option ℕ) (t : Text) (s : Loop) {s' : Loop}
    → step size_limit byte_limit t s ≡ ok s'
    → (exceeds byte_limit (2 + text_bytes t) ≡ false)
      × ((is_full size_limit byte_limit s (text_bytes t) ≡ true)
            × (s' ≡ append t (text_bytes t) (close s))
          ⊎ (is_full size_limit byte_limit s (text_bytes t) ≡ false)
            × (s' ≡ append t (text_bytes t) s))
unfolding step too_large encoded_bytes
step-eq-ok size_limit byte_limit t s h = elim (Bool-cases (any is_surrogate t)) [
  | inl bad ↦ absurd (raise-ne-ok (rw bad at h))
  | inr good ↦ elim (Bool-cases (exceeds byte_limit (2 + text_bytes t))) [
    | inl big ↦ absurd (raise-ne-ok (rw (good, big) at h))
    | inr alone ↦ elim (Bool-cases (is_full size_limit byte_limit s (text_bytes t))) [
      | inl full ↦ (alone, inl (full, sym (ok-injective (rw (good, alone, full) at h))))
      | inr less ↦ (alone, inr (less, sym (ok-injective (rw (good, alone, less) at h))))
    ]
  ]
]

module _ (size_limit : ℕ) (byte_limit : Option ℕ) (room : 1 ≤ size_limit) where
  step-Inv :
      (t : Text) (s s' : Loop)
      → Inv size_limit byte_limit s
      → step size_limit byte_limit t s ≡ ok s'
      → Inv size_limit byte_limit s'
  step-Inv t s s' inv h =
      let (alone, cases) = step-eq-ok size_limit byte_limit t s h in
      elim cases [
        | inl (full, e) ↦ rw e (after_close alone full)
        | inr (less, e) ↦
            let (small, light) =
              not_full size_limit byte_limit room s (text_bytes t) inv alone less in
            rw e (append-Inv size_limit byte_limit room t s inv small light)
      ]
    where
      after_close :
          exceeds byte_limit (2 + text_bytes t) ≡ false
          → is_full size_limit byte_limit s (text_bytes t) ≡ true
          → Inv size_limit byte_limit (append t (text_bytes t) (close s))
      after_close alone full =
          let inv' : Inv size_limit byte_limit (close s) =
            close-Inv size_limit byte_limit room s inv (ground arith) in
          let (small, light) =
            not_full size_limit byte_limit room (close s) (text_bytes t) inv' alone refl in
          append-Inv size_limit byte_limit room t (close s) inv' small light

  pub loop-Inv :
      (ts : List Text) (s s' : Loop)
      → Inv size_limit byte_limit s
      → loop size_limit byte_limit ts s ≡ ok s'
      → Inv size_limit byte_limit s'
  unfolding loop
  loop-Inv [] s s' inv h = rw (← ok-injective h) inv
  loop-Inv (t ∷ ts) s s' inv h =
      let (mid, one, rest) = bind-eq-ok (step size_limit byte_limit t s) _ h in
      loop-Inv ts mid s' (step-Inv t s mid inv one) rest

  pub finish-Fits :
      (s : Loop) → Inv size_limit byte_limit s → All (Fits size_limit byte_limit) (finish s)
  unfolding finish
  finish-Fits s inv = elim (Bool-cases (is_empty s.current)) [
    | inl e ↦ rw e inv.closed
    | inr e ↦ rw e (
        All-append (Fits size_limit byte_limit) s.batches (s.current ∷ []) inv.closed
          (Fits-current size_limit byte_limit room s inv e, tt))
  ]

  pub start-Inv : Inv size_limit byte_limit start
  unfolding embedding_batch_input_bytes
  start-Inv = record { closed = tt; counted = refl; open_size = omega arith; open_bytes = λ h. cc }
