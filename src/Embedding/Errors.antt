-- ===== src/Embedding/Errors.antt =====
-- When the batching of memory/ingestion/mvp_ingestion.py raises.
use ai_memory_hub.Base.{
  Text, ℕ, ◌+◌, ◌≤◌, ◌<◌, ◌≡◌, ◌↔◌, ◌⊎◌, refl, sym, ◌∙◌, Bool, true, false, ◌&&◌, ◌||◌, not, Option,
  some, none, List, [], ◌∷◌, all, any, leb, Bool-cases, inl, inr, ℤ, pos, negsuc, zero, suc, to_ℕ,
  Result, ok, raise, ◌>>=◌, below_one, All, arith,
}
use ai_memory_hub.Embedding.{
  text_bytes, tail_bytes, embedding_batch_input_bytes, is_surrogate, encoded_bytes, exceeds, Loop,
  start, too_large, step, loop, finish, size_limit_of, byte_limit_of, is_bad_limit,
  embedding_text_batches,
}

abbrev pub is_ok {ℓ} : {A : Type ℓ} → Result A → Bool
is_ok (ok a) = true
is_ok (raise e) = false

-- What an attribute of the provider may be: no integer, or a positive one.
pub data GoodLimit : Option ℤ → Type 0 where
  absent : GoodLimit none
  positive : (n : ℕ) → 1 ≤ n → GoodLimit (some (pos n))

-- A text without surrogates.
abbrev pub IsEncodable : Text → Type 0
IsEncodable t = All (λ c. (c < 0xd800) ⊎ (0xdfff < c)) t

-- The JSON array of the text alone keeps the limit, where there is one.
pub data FitsAlone (t : Text) : Option ℤ → Type 0 where
  unbounded : FitsAlone t none
  within : (n : ℕ) → embedding_batch_input_bytes (t ∷ []) ≤ n → FitsAlone t (some (pos n))

abbrev takes : Option ℕ → Text → Bool
takes byte_limit t = not (any is_surrogate t) && not (exceeds byte_limit (2 + text_bytes t))

is_ok-bind : {A B : Type 0} (m : Result A) (f : A → B) → is_ok (m >>= λ a. ok (f a)) ≡ is_ok m
is_ok-bind (ok a) f = refl
is_ok-bind (raise e) f = refl

is_ok-loop :
    (size : ℕ) (bytes : Option ℕ) (ts : List Text) (s : Loop)
    → is_ok (loop size bytes ts s) ≡ all (takes bytes) ts
unfolding loop step too_large encoded_bytes
is_ok-loop size bytes [] s = refl
is_ok-loop size bytes (t ∷ ts) s = elim (Bool-cases (any is_surrogate t)) [
  | inl bad ↦ rw bad refl
  | inr good ↦ elim (Bool-cases (exceeds bytes (2 + text_bytes t))) [
    | inl big ↦ rw (good, big) refl
    | inr alone ↦ rw (good, alone) (is_ok-loop size bytes ts _)
  ]
]

abbrev run : List Text → Option ℤ → Option ℤ → Result Loop
run texts max_size max_bytes =
    loop (to_ℕ (size_limit_of texts max_size)) (byte_limit_of max_bytes) texts start

is_ok-batches :
    (texts : List Text) (max_size max_bytes : Option ℤ)
    → is_ok (embedding_text_batches texts max_size max_bytes) ≡ (
        not (below_one (size_limit_of texts max_size) || is_bad_limit max_bytes)
        && all (takes (byte_limit_of max_bytes)) texts)
unfolding embedding_text_batches
is_ok-batches texts max_size max_bytes =
    elim (Bool-cases (below_one (size_limit_of texts max_size) || is_bad_limit max_bytes)) [
      | inl bad ↦ rw bad
      | inr good ↦ rw good (
          is_ok-bind (run texts max_size max_bytes) finish
          ∙ is_ok-loop (to_ℕ (size_limit_of texts max_size)) (byte_limit_of max_bytes) texts start)
    ]

IsEncodable-iff : (t : Text) → any is_surrogate t ≡ false ↔ IsEncodable t
IsEncodable-iff [] = (λ _. tt, λ _. refl)
IsEncodable-iff (c ∷ t) = (
  λ h. (apart c (ground (arith, h)), (IsEncodable-iff t).0 (ground (arith, h))),
  λ h. rw ((IsEncodable-iff t).1 h.1) (plain c h.0),
)
  where
    apart : (c : ℕ) → is_surrogate c ≡ false → (c < 0xd800) ⊎ (0xdfff < c)
    apart c h = elim (Bool-cases (leb 0xd800 c)) [
      | inl e ↦ inr (ground (arith, h, e))
      | inr e ↦ inl (ground (arith, e))
    ]

    plain : (c : ℕ) → (c < 0xd800) ⊎ (0xdfff < c) → (is_surrogate c || false) ≡ false
    plain c (inl low) = ground (arith, low)
    plain c (inr high) = ground (arith, high)

positive_iff : (z : ℤ) → below_one z ≡ false ↔ GoodLimit (some z)
positive_iff (pos zero) = (λ h. absurd (cc h), λ h. absurd (none_at_zero h))
  where
    none_at_zero : GoodLimit (some (pos 0)) → ⊥
    none_at_zero (positive n h) = omega (arith, h)
positive_iff (pos (suc n)) = (λ _. positive (suc n) (omega arith), λ _. refl)
positive_iff (negsuc n) = (λ h. absurd (cc h), λ h. absurd (none_below h))
  where
    none_below : GoodLimit (some (negsuc n)) → ⊥
    none_below h = elim h [ ]

size_iff :
    (texts : List Text) (max_size : Option ℤ)
    → below_one (size_limit_of texts max_size) ≡ false ↔ GoodLimit max_size
size_iff [] none = (λ _. absent, λ _. refl)
size_iff (t ∷ ts) none = (λ _. absent, λ _. refl)
size_iff texts (some z) = positive_iff z

bytes_iff : (max_bytes : Option ℤ) → is_bad_limit max_bytes ≡ false ↔ GoodLimit max_bytes
bytes_iff none = (λ _. absent, λ _. refl)
bytes_iff (some z) = positive_iff z

alone_iff :
    (t : Text) (max_bytes : Option ℤ)
    → GoodLimit max_bytes
    → exceeds (byte_limit_of max_bytes) (2 + text_bytes t) ≡ false ↔ FitsAlone t max_bytes
unfolding embedding_batch_input_bytes tail_bytes
alone_iff t none good = (λ _. unbounded, λ _. refl)
alone_iff t (some (pos n)) good = (λ h. within n (ground (arith, h)), λ h. small h)
  where
    small : FitsAlone t (some (pos n)) → exceeds (some n) (2 + text_bytes t) ≡ false
    small (within _ h) = ground (arith, h)
alone_iff t (some (negsuc n)) good = elim good [ ]

takes_iff :
    (t : Text) (max_bytes : Option ℤ)
    → GoodLimit max_bytes
    → takes (byte_limit_of max_bytes) t ≡ true ↔ (IsEncodable t × FitsAlone t max_bytes)
takes_iff t max_bytes good = (
  λ h. (
    (IsEncodable-iff t).0 (ground (arith, h)),
    (alone_iff t max_bytes good).0 (ground (arith, h)),
  ),
  λ (a, b). rw ((IsEncodable-iff t).1 a, (alone_iff t max_bytes good).1 b) refl,
)

all_iff :
    (texts : List Text) (max_bytes : Option ℤ)
    → GoodLimit max_bytes
    → all (takes (byte_limit_of max_bytes)) texts ≡ true
      ↔ All (λ t. IsEncodable t × FitsAlone t max_bytes) texts
all_iff [] max_bytes good = (λ _. tt, λ _. refl)
all_iff (t ∷ ts) max_bytes good = (
  λ h. (
    (takes_iff t max_bytes good).0 (ground (arith, h)),
    (all_iff ts max_bytes good).0 (ground (arith, h)),
  ),
  λ (a, b). rw ((takes_iff t max_bytes good).1 a, (all_iff ts max_bytes good).1 b) refl,
)

-- The batching returns batches exactly if each limit that is an integer is positive, no text has a
-- surrogate, which UTF-8 does not encode, and the JSON array of each text alone keeps the byte
-- limit; otherwise it raises.
pub embedding_text_batches-ok_iff :
    (texts : List Text) (max_size max_bytes : Option ℤ)
    → is_ok (embedding_text_batches texts max_size max_bytes) ≡ true ↔ (
        GoodLimit max_size
        × GoodLimit max_bytes
        × All (λ t. IsEncodable t × FitsAlone t max_bytes) texts)
embedding_text_batches-ok_iff texts max_size max_bytes = (
  λ h.
      let split = sym (is_ok-batches texts max_size max_bytes) ∙ h in
      let good = (bytes_iff max_bytes).0 (ground (arith, split)) in
      (
        (size_iff texts max_size).0 (ground (arith, split)),
        good,
        (all_iff texts max_bytes good).0 (ground (arith, split)),
      ),
  λ (size, bytes, each).
      is_ok-batches texts max_size max_bytes
      ∙ rw
          (
            (size_iff texts max_size).1 size,
            (bytes_iff max_bytes).1 bytes,
            (all_iff texts max_bytes bytes).1 each,
          )
          refl,
)
