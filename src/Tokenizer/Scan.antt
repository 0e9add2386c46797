-- ===== src/Tokenizer/Scan.antt =====
-- The matches of the heuristic tokens of memory/ingestion/tokenizer.py on a text that is cut.
use ai_memory_hub.Base.{
  ℕ, zero, suc, ◌+◌, ◌-◌, ◌≤◌, ◌≡◌, refl, ap, sym, subst, arith, Text, Bool, true, false, Option,
  none, some, List, [], ◌∷◌, length, take, get_elem?, All, All-mono, is_space, Bool-cases, inl, inr,
  some_inj,
}
use ai_memory_hub.Tokenizer.Matches.{Match, open_at, matches_from}

module _ (is_word : ℕ → Bool) where
  -- The three ways of a step.
  word_step :
      (i : ℕ) (w : Option ℕ) (c : ℕ) (cs : Text)
      → is_word c ≡ true
      → matches_from is_word i w (c ∷ cs) ≡ matches_from is_word (suc i) (some (open_at i w)) cs
  unfolding matches_from
  word_step i w c cs h = rw (h, matches_from) refl

  word_ends :
      (i s c : ℕ) (cs : Text)
      → is_word c ≡ false
      → matches_from is_word i (some s) (c ∷ cs)
        ≡ record { start = s; stop = i } ∷ matches_from is_word i none (c ∷ cs)
  unfolding matches_from
  word_ends i s c cs h = rw (h, matches_from) refl

  space_step :
      (i c : ℕ) (cs : Text)
      → is_word c ≡ false
      → is_space c ≡ true
      → matches_from is_word i none (c ∷ cs) ≡ matches_from is_word (suc i) none cs
  unfolding matches_from
  space_step i c cs h k = rw (h, k, matches_from) refl

  sign_step :
      (i c : ℕ) (cs : Text)
      → is_word c ≡ false
      → is_space c ≡ false
      → matches_from is_word i none (c ∷ cs)
        ≡ record { start = i; stop = suc i } ∷ matches_from is_word (suc i) none cs
  unfolding matches_from
  sign_step i c cs h k = rw (h, k, matches_from) refl

  -- The steps as an induction on the text.
  pub data Scan : ℕ → Option ℕ → Text → List Match → Type 0 where
    ends_plain : (i : ℕ) → Scan i none [] []
    ends_word : (i s : ℕ) → Scan i (some s) [] (record { start = s; stop = i } ∷ [])
    word :
        (i : ℕ) (w : Option ℕ) (c : ℕ) (cs : Text) (ms : List Match)
        → is_word c ≡ true
        → Scan (suc i) (some (open_at i w)) cs ms
        → Scan i w (c ∷ cs) ms
    closes :
        (i s c : ℕ) (cs : Text) (ms : List Match)
        → is_word c ≡ false
        → Scan i none (c ∷ cs) ms
        → Scan i (some s) (c ∷ cs) (record { start = s; stop = i } ∷ ms)
    space :
        (i c : ℕ) (cs : Text) (ms : List Match)
        → is_word c ≡ false
        → is_space c ≡ true
        → Scan (suc i) none cs ms
        → Scan i none (c ∷ cs) ms
    sign :
        (i c : ℕ) (cs : Text) (ms : List Match)
        → is_word c ≡ false
        → is_space c ≡ false
        → Scan (suc i) none cs ms
        → Scan i none (c ∷ cs) (record { start = i; stop = suc i } ∷ ms)

  Scan-plain :
      (i c : ℕ) (cs : Text)
      → is_word c ≡ false
      → Scan (suc i) none cs (matches_from is_word (suc i) none cs)
      → Scan i none (c ∷ cs) (matches_from is_word i none (c ∷ cs))
  Scan-plain i c cs h r = elim (Bool-cases (is_space c)) [
    | inl blank ↦
        subst (Scan i none (c ∷ cs)) (sym (space_step i c cs h blank)) (space i c cs _ h blank r)
    | inr solid ↦
        subst (Scan i none (c ∷ cs)) (sym (sign_step i c cs h solid)) (sign i c cs _ h solid r)
  ]

  Scan-other :
      (i : ℕ) (w : Option ℕ) (c : ℕ) (cs : Text)
      → is_word c ≡ false
      → Scan i none (c ∷ cs) (matches_from is_word i none (c ∷ cs))
      → Scan i w (c ∷ cs) (matches_from is_word i w (c ∷ cs))
  Scan-other i none c cs h r = r
  Scan-other i (some s) c cs h r =
      subst (Scan i (some s) (c ∷ cs)) (sym (word_ends i s c cs h)) (closes i s c cs _ h r)

  pub scan : (t : Text) (i : ℕ) (w : Option ℕ) → Scan i w t (matches_from is_word i w t)
  unfolding matches_from
  scan [] i none = ends_plain i
  scan [] i (some s) = ends_word i s
  scan (c ∷ cs) i w = elim (Bool-cases (is_word c)) [
    | inl inside ↦
        subst (Scan i w (c ∷ cs)) (sym (word_step i w c cs inside))
          (word i w c cs _ inside (scan cs (suc i) (some (open_at i w))))
    | inr outside ↦ Scan-other i w c cs outside (Scan-plain i c cs outside (scan cs (suc i) none))
  ]

  -- Every match ends after the position.
  Scan-stops :
      {i : ℕ} {w : Option ℕ} {t : Text} {ms : List Match} → Scan i w t ms → All (λ m. i ≤ m.stop) ms
  Scan-stops (ends_plain i) = tt
  Scan-stops (ends_word i s) = (omega arith, tt)
  Scan-stops (word i w c cs ms h r) = All-mono _ _ ms (λ m le. omega (arith, le)) (Scan-stops r)
  Scan-stops (closes i s c cs ms h r) = (omega arith, Scan-stops r)
  Scan-stops (space i c cs ms h k r) = All-mono _ _ ms (λ m le. omega (arith, le)) (Scan-stops r)
  Scan-stops (sign i c cs ms h k r) =
      (omega arith, All-mono _ _ ms (λ m le. omega (arith, le)) (Scan-stops r))

  stop-ge :
      (i n : ℕ) (ms : List Match) (m : Match)
      → All (λ m. i ≤ m.stop) ms
      → get_elem? ms n ≡ some m
      → i ≤ m.stop
  stop-ge i n [] m h e = absurd (cc e)
  stop-ge i zero (x ∷ ms) m h e = rw (← some_inj e) h.0
  stop-ge i (suc n) (x ∷ ms) m h e = stop-ge i n ms m h.1 e

  -- The number of matches of a text cut after `k` characters.
  abbrev pub cut : ℕ → ℕ → Option ℕ → Text → ℕ
  cut k i w t = length (matches_from is_word i w (take k t))

  cut-nil : (k i : ℕ) (s : ℕ) → cut k i (some s) [] ≤ 1
  unfolding matches_from
  cut-nil zero i s = omega arith
  cut-nil (suc k) i s = omega arith

  cut-plain : (i : ℕ) (t : Text) → cut 0 i none t ≤ 0
  unfolding matches_from
  cut-plain i t = omega arith

  cut-zero : (i : ℕ) (w : Option ℕ) (t : Text) → cut 0 i w t ≤ 1
  unfolding matches_from
  cut-zero i none t = omega arith
  cut-zero i (some s) t = omega arith

  cut-closes :
      (k i s c : ℕ) (cs : Text)
      → is_word c ≡ false
      → cut k i (some s) (c ∷ cs) ≤ suc (cut k i none (c ∷ cs))
  unfolding matches_from
  cut-closes zero i s c cs h = omega arith
  cut-closes (suc k) i s c cs h =
      subst (λ l. length l ≤ suc (cut (suc k) i none (c ∷ cs)))
        (sym (word_ends i s c (take k cs) h)) (omega arith)

  -- One character more, and one match more or none.
  cut-later :
      (i stop : ℕ) (w w' : Option ℕ) (c : ℕ) (cs : Text) (n : ℕ)
      → suc i ≤ stop
      → ((ds : Text)
          → length (matches_from is_word i w (c ∷ ds))
            ≤ n + length (matches_from is_word (suc i) w' ds))
      → cut (stop - i) i w (c ∷ cs) ≤ n + cut (stop - suc i) (suc i) w' cs
  cut-later i stop w w' c cs n h k =
      let longer : suc (stop - suc i) ≡ stop - i = omega (arith, h) in
      subst (λ x. cut x i w (c ∷ cs) ≤ n + cut (stop - suc i) (suc i) w' cs) longer
        (k (take (stop - suc i) cs))

  same_length : {xs ys : List Match} → xs ≡ ys → length xs ≤ 0 + length ys
  same_length h = omega (arith, ap length h)

  one_longer : {xs ys : List Match} {m : Match} → xs ≡ m ∷ ys → length xs ≤ 1 + length ys
  one_longer h = omega (arith, ap length h)

  -- A text cut at the end of match `n` has at most `n + 1` matches.
  pub Scan-cut :
      {i : ℕ} {w : Option ℕ} {t : Text} {ms : List Match}
      → Scan i w t ms
      → (n : ℕ) (m : Match) → get_elem? ms n ≡ some m
      → cut (m.stop - i) i w t ≤ suc n
  Scan-cut (ends_plain i) n m e = absurd (cc e)
  Scan-cut (ends_word i s) n m e = omega (arith, cut-nil (m.stop - i) i s)
  Scan-cut (word i w c cs ms h r) n m e =
      let late = stop-ge (suc i) n ms m (Scan-stops r) e in
      omega (
        arith,
        cut-later i m.stop w (some (open_at i w)) c cs 0 late
            (λ ds. same_length (word_step i w c ds h)),
        Scan-cut r n m e,
      )
  Scan-cut (closes i s c cs ms h r) zero m e =
      let stop_is : i ≡ m.stop = ap (λ x. x.stop) (some_inj e) in
      let no_more : 0 ≡ m.stop - i = omega (arith, stop_is) in
      subst (λ k. cut k i (some s) (c ∷ cs) ≤ 1) no_more (cut-zero i (some s) (c ∷ cs))
  Scan-cut (closes i s c cs ms h r) (suc n) m e =
      omega (arith, cut-closes (m.stop - i) i s c cs h, Scan-cut r n m e)
  Scan-cut (space i c cs ms h k r) n m e =
      let late = stop-ge (suc i) n ms m (Scan-stops r) e in
      omega (
        arith,
        cut-later i m.stop none none c cs 0 late (λ ds. same_length (space_step i c ds h k)),
        Scan-cut r n m e,
      )
  Scan-cut (sign i c cs ms h k r) zero m e =
      let stop_is : suc i ≡ m.stop = ap (λ x. x.stop) (some_inj e) in
      let no_more : 0 ≡ m.stop - suc i = omega (arith, stop_is) in
      let empty_rest : cut (m.stop - suc i) (suc i) none cs ≤ 0 =
        subst (λ x. cut x (suc i) none cs ≤ 0) no_more (cut-plain (suc i) cs) in
      omega (
        arith,
        empty_rest,
        cut-later i m.stop none none c cs 1 (omega (arith, stop_is))
            (λ ds. one_longer (sign_step i c ds h k)),
      )
  Scan-cut (sign i c cs ms h k r) (suc n) m e =
      let late = stop-ge (suc i) n ms m (Scan-stops r) e in
      omega (
        arith,
        cut-later i m.stop none none c cs 1 late (λ ds. one_longer (sign_step i c ds h k)),
        Scan-cut r n m e,
      )

  -- A beginning of a text has no more matches than the text.
  Scan-nonempty : {i s : ℕ} {t : Text} {ms : List Match} → Scan i (some s) t ms → 1 ≤ length ms
  Scan-nonempty (ends_word i s) = omega arith
  Scan-nonempty (word i _ c cs ms h r) = Scan-nonempty r
  Scan-nonempty (closes i s c cs ms h r) = omega arith

  matches-nil :
      {i : ℕ} {w : Option ℕ} {t : Text} {ms : List Match}
      → Scan i w t ms
      → length (matches_from is_word i w []) ≤ length ms
  unfolding matches_from
  matches-nil {w = none} r = omega arith
  matches-nil {w = some s} r = omega (arith, Scan-nonempty r)

  pub Scan-take :
      {i : ℕ} {w : Option ℕ} {t : Text} {ms : List Match}
      → Scan i w t ms
      → (k : ℕ) → cut k i w t ≤ length ms
  Scan-take r zero = matches-nil r
  Scan-take (ends_plain i) (suc k) = matches-nil (ends_plain i)
  Scan-take (ends_word i s) (suc k) = matches-nil (ends_word i s)
  Scan-take (word i w c cs ms h r) (suc k) =
      omega (arith, same_length (word_step i w c (take k cs) h), Scan-take r k)
  Scan-take (closes i s c cs ms h r) (suc k) =
      omega (arith, cut-closes (suc k) i s c cs h, Scan-take r (suc k))
  Scan-take (space i c cs ms h j r) (suc k) =
      omega (arith, same_length (space_step i c (take k cs) h j), Scan-take r k)
  Scan-take (sign i c cs ms h j r) (suc k) =
      omega (arith, one_longer (sign_step i c (take k cs) h j), Scan-take r k)
