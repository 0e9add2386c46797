-- ===== src/IndexStates/Parsing.antt =====
-- The chunk index that is read back from a chunk id.
use ai_memory_hub.Base.{
  Text, ℕ, zero, suc, ◌+◌, ◌-◌, ◌*◌, ◌/◌, ◌%◌, ◌<◌, pos, ◌≡◌, refl, ap, ◌∙◌, Bool, true, false,
  ◌&&◌, not, some, [], ◌∷◌, ◌++◌, get_elem?, all, is_empty, leb, eqb, ltb, int_text, digits, strip,
  arith, Bool-cases, inl, inr,
}
use ai_memory_hub.IndexStates.Ids.{
  is_digits, int_from, index_of_part, split_colon, chunk_index_from_chunk_id,
  legacy_manifest_chunk_id,
}

abbrev is_digit : ℕ → Bool
is_digit c = leb 48 c && leb c 57

all-append : (p : ℕ → Bool) (s t : Text) → all p s ≡ true → all p t ≡ true → all p (s ++ t) ≡ true
all-append p [] t h k = k
all-append p (c ∷ s) t h k = ground (arith, h, all-append p s t (ground (arith, h)) k)

int_from-append : (n : ℕ) (s t : Text) → int_from n (s ++ t) ≡ int_from (int_from n s) t
unfolding int_from
int_from-append n [] t = refl
int_from-append n (c ∷ s) t = int_from-append (n * 10 + (c - 48)) s t

nonempty-snoc : (s : Text) (c : ℕ) → is_empty (s ++ c ∷ []) ≡ false
nonempty-snoc [] c = refl
nonempty-snoc (d ∷ s) c = refl

-- The digits of a number are digits, and they make it up.
digits-int :
    (fuel n : ℕ)
    → n < fuel
    → (all is_digit (digits fuel n) ≡ true)
      × (int_from 0 (digits fuel n) ≡ n)
      × (is_empty (digits fuel n) ≡ false)
unfolding digits int_from
digits-int zero n h = absurd (omega (arith, h))
digits-int (suc fuel) n h = elim (Bool-cases (ltb n 10)) [
  | inl small ↦ rw (small, digits) (ground arith, omega arith, refl)
  | inr large ↦
      let (here, value, _) = digits-int fuel (n / 10) (ground (arith, large, h)) in
      rw (large, digits)
        (
          all-append is_digit (digits fuel (n / 10)) _ here (ground arith),
          int_from-append 0 (digits fuel (n / 10)) _
              ∙ ap (λ m. m * 10 + (48 + n % 10 - 48)) value
              ∙ omega arith,
          nonempty-snoc (digits fuel (n / 10)) _,
        )
]

-- A text without a colon.
abbrev pub no_colon : Text → Bool
no_colon s = all (λ c. not (eqb c b':')) s

split_colon-cut : (s t : Text) → no_colon s ≡ true → split_colon (s ++ b':' ∷ t) ≡ s ∷ split_colon t
unfolding split_colon
split_colon-cut [] t h = refl
split_colon-cut (c ∷ s) t h =
    let other : eqb c 58 ≡ false = ground (arith, h) in
    rw (other, split_colon-cut s t (ground (arith, h))) refl

split_colon-whole : (s : Text) → no_colon s ≡ true → split_colon s ≡ s ∷ []
unfolding split_colon
split_colon-whole [] h = refl
split_colon-whole (c ∷ s) h =
    let other : eqb c 58 ≡ false = ground (arith, h) in
    rw (other, split_colon-whole s (ground (arith, h))) refl

digits-no_colon : (s : Text) → all is_digit s ≡ true → no_colon s ≡ true
digits-no_colon [] h = refl
digits-no_colon (c ∷ s) h = ground (arith, h, digits-no_colon s (ground (arith, h)))

index_of_decimal : (n : ℕ) → index_of_part (some (int_text (pos n))) ≡ some (pos n)
unfolding int_text is_digits
index_of_decimal n =
    let (here, value, present) = digits-int (suc n) n (omega arith) in
    rw (present, here) (ap (λ m. some (pos m)) value)

-- From the id of a chunk that the manifest has without one, with or without a hash, the index of the
-- chunk is read back, where the memory id has no colon.
pub legacy_manifest_chunk_id-read :
    (memory_id message_hash : Text) (n : ℕ)
    → no_colon memory_id ≡ true
    → chunk_index_from_chunk_id (legacy_manifest_chunk_id memory_id (pos n) message_hash)
      ≡ some (pos n)
unfolding chunk_index_from_chunk_id legacy_manifest_chunk_id int_text
legacy_manifest_chunk_id-read memory_id message_hash n clean =
    let text = int_text (pos n) in
    let plain = digits-no_colon text (digits-int (suc n) n (omega arith)).0 in
    elim (Bool-cases (is_empty (strip message_hash))) [
      | inl e ↦ rw e (
          ap (λ parts. index_of_part (get_elem? parts 1))
            (split_colon-cut memory_id text clean
              ∙ ap (λ parts. memory_id ∷ parts) (split_colon-whole text plain))
          ∙ index_of_decimal n)
      | inr e ↦ rw e (
          ap (λ parts. index_of_part (get_elem? parts 1))
            (split_colon-cut memory_id (text ++ b':' ∷ strip message_hash) clean
              ∙ ap (λ parts. memory_id ∷ parts) (split_colon-cut text (strip message_hash) plain))
          ∙ index_of_decimal n)
    ]
