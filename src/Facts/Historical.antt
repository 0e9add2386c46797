-- ===== src/Facts/Historical.antt =====
-- The latest and the historical entries of a timeline in memory/ingestion/fact_timeline.py.
use ai_memory_hub.Base.{
  map, eqb, ◌&&◌, ◌||◌, ◌<◌, ◌⊎◌, none, some, Option-cases, subst, In, All-keep, All-both, All-mono,
  text_eq, text_beq_iff, text_beq_refl, ℕ, suc, ◌+◌, ◌≤◌, ◌≡◌, refl, sym, ap, ◌∙◌, Bool, true,
  false, false≢true, not, List, [], ◌∷◌, keep, any, ◌==◌, arith, Bool-cases, inl, inr, All,
  All-keep_mono, count_where,
}
use ai_memory_hub.Facts.Entries.{Clock, FactTimelineEntry}
use ai_memory_hub.Facts.Timeline.{
  numbered, latest_entry_ids, time_rank, latest_group_key, latest_entries, historical_entries,
}
use ai_memory_hub.Facts.Order.{Descending, Descending-rank}

module _ {ℓ} {A : Type ℓ} where
  -- A list falls into what passes a test and what fails it.
  keep-parts :
      (p q : A → Bool) (xs : List A)
      → count_where q (keep p xs) + count_where q (keep (λ x. not (p x)) xs) ≡ count_where q xs
  unfolding count_where
  keep-parts p q [] = omega arith
  keep-parts p q (x ∷ xs) = elim (Bool-cases (p x)) [
    | inl e ↦ rw (e, count_where) (omega (arith, keep-parts p q xs))
    | inr e ↦ rw (e, count_where) (omega (arith, keep-parts p q xs))
  ]

-- The places of the entries that pass a test.
abbrev places : (FactTimelineEntry → Bool) → ℕ → List FactTimelineEntry → List ℕ
places p n entries = map (λ q. q.0) (keep (λ q. p q.1) (numbered n entries))

places_head :
    (p : FactTimelineEntry → Bool) (i n : ℕ) (e : FactTimelineEntry) (es : List FactTimelineEntry)
    → any (eqb i) (places p n (e ∷ es)) ≡ (p e && eqb i n || any (eqb i) (places p (suc n) es))
unfolding numbered
places_head p i n e es = elim (Bool-cases (p e)) [
  | inl t ↦ rw (t, keep) refl
  | inr f ↦ rw (f, keep) refl
]

places_fresh :
    (p : FactTimelineEntry → Bool) (i n : ℕ) (es : List FactTimelineEntry)
    → i < n
    → any (eqb i) (places p n es) ≡ false
unfolding numbered
places_fresh p i n [] h = refl
places_fresh p i n (e ∷ es) h =
    let rest = places_fresh p i (suc n) es (omega (arith, h)) in
    places_head p i n e es ∙ rw rest (apart (p e))
  where
    apart : (b : Bool) → (b && eqb i n || false) ≡ false
    apart b = ground (arith, h)

-- Whether a place is taken tells, for each entry, whether it passes the test.
outside-keep :
    (p : FactTimelineEntry → Bool) (taken : ℕ → Bool) (n : ℕ) (es : List FactTimelineEntry)
    → ((i : ℕ) → n ≤ i → taken i ≡ any (eqb i) (places p n es))
    → map (λ q. q.1) (keep (λ q. not (taken q.0)) (numbered n es)) ≡ keep (λ e. not (p e)) es
unfolding numbered
outside-keep p taken n [] known = refl
outside-keep p taken n (e ∷ es) known =
    let rest = outside-keep p taken (suc n) es later_known in
    elim (Bool-cases (p e)) [
      | inl t ↦ rw (here ∙ t, t, keep) rest
      | inr f ↦ rw (here ∙ f, f, keep) (ap (λ xs. e ∷ xs) rest)
    ]
  where
    here : taken n ≡ p e
    here =
        known n (omega arith)
        ∙ places_head p n n e es
        ∙ rw (places_fresh p n (suc n) es (omega arith)) (same (p e))
      where
        same : (b : Bool) → (b && eqb n n || false) ≡ b
        same b = ground arith

    later_known : (i : ℕ) → suc n ≤ i → taken i ≡ any (eqb i) (places p (suc n) es)
    later_known i h =
        known i (omega (arith, h))
        ∙ places_head p i n e es
        ∙ apart (p e) (any (eqb i) (places p (suc n) es))
      where
        apart : (b c : Bool) → (b && eqb i n || c) ≡ c
        apart b c = ground (arith, h)

-- The entries that are none of the latest objects are those of another group.
historical_entries-keep :
    (clock : Clock) (first : FactTimelineEntry) (rest : List FactTimelineEntry)
    → historical_entries clock (first ∷ rest)
      ≡ keep (λ e. not (latest_group_key clock e == latest_group_key clock first)) (first ∷ rest)
unfolding historical_entries latest_entry_ids
historical_entries-keep clock first rest =
    outside-keep (λ e. latest_group_key clock e == latest_group_key clock first) _ 0 (first ∷ rest)
      (λ i _. refl)

-- An entry without a time, or with an earlier one.
abbrev pub Older : ℕ → FactTimelineEntry → Type 0
Older t e = (e.parsed_stored_at ≡ none) ⊎ ((u : ℕ) × (e.parsed_stored_at ≡ some u) × (u < t))

-- An entry without a time, or with this one.
abbrev pub Simultaneous : ℕ → FactTimelineEntry → Type 0
Simultaneous t e = (e.parsed_stored_at ≡ none) ⊎ (e.parsed_stored_at ≡ some t)

key_timed :
    (clock : Clock) (e : FactTimelineEntry) {t : ℕ}
    → e.parsed_stored_at ≡ some t
    → latest_group_key clock e ≡ clock.isoformat t
unfolding latest_group_key
key_timed clock e h = rw h refl

apart-Older :
    (clock : Clock) (t : ℕ) (e first : FactTimelineEntry)
    → first.parsed_stored_at ≡ some t
    → time_rank e.parsed_stored_at ≤ suc t
    → not (latest_group_key clock e == latest_group_key clock first) ≡ true
    → Older t e
apart-Older clock t e first at low apart = elim (Option-cases e.parsed_stored_at) [
  | inl untimed ↦ inl untimed
  | inr (u, timed) ↦
      let below : suc u ≤ suc t = rw timed at low in
      elim (Bool-cases (eqb u t)) [
        | inl same ↦
            let equal : u ≡ t = ground (arith, same) in
            let keys =
              key_timed clock e timed ∙ ap clock.isoformat equal ∙ sym (key_timed clock first at) in
            absurd (false≢true (sym (ap not ((text_beq_iff _ _).1 keys)) ∙ apart))
        | inr other ↦ inr (u, timed, ground (arith, other, below))
      ]
]

alike-Simultaneous :
    (clock : Clock) (t : ℕ) (e first : FactTimelineEntry)
    → ((m n : ℕ) → clock.isoformat m ≡ clock.isoformat n → m ≡ n)
    → first.parsed_stored_at ≡ some t
    → (latest_group_key clock e == latest_group_key clock first) ≡ true
    → Simultaneous t e
alike-Simultaneous clock t e first injective at alike = elim (Option-cases e.parsed_stored_at) [
  | inl untimed ↦ inl untimed
  | inr (u, timed) ↦
      let keys =
        sym (key_timed clock e timed) ∙ (text_beq_iff _ _).0 alike ∙ key_timed clock first at in
      inr (timed ∙ ap some (injective u t keys))
]

-- The latest and the historical entries make up the timeline, each entry as often as it is there.
-- If `isoformat` tells times apart, the timeline descends and its first entry has a time, then the
-- first entry is a latest one, no latest entry has another time, and each historical entry has an
-- earlier time or none.
pub latest_entries-historical :
    (clock : Clock) (first : FactTimelineEntry) (rest : List FactTimelineEntry) (t : ℕ)
    → ((m n : ℕ) → clock.isoformat m ≡ clock.isoformat n → m ≡ n)
    → Descending (first ∷ rest)
    → first.parsed_stored_at ≡ some t
    → ((p : FactTimelineEntry → Bool)
        → count_where p (latest_entries clock (first ∷ rest))
            + count_where p (historical_entries clock (first ∷ rest))
          ≡ count_where p (first ∷ rest))
      × In first (latest_entries clock (first ∷ rest))
      × All (Simultaneous t) (latest_entries clock (first ∷ rest))
      × All (Older t) (historical_entries clock (first ∷ rest))
unfolding latest_entries
latest_entries-historical clock first rest t injective descending at =
    let is_latest : FactTimelineEntry → Bool =
      λ e. latest_group_key clock e == latest_group_key clock first in
    let same = text_beq_refl (latest_group_key clock first) in
    let low : All (λ e. time_rank e.parsed_stored_at ≤ suc t) (first ∷ rest) = (
      rw at (omega arith),
      All-mono _ _ rest (λ e le. omega (arith, le, ap time_rank at))
          (Descending-rank first rest descending),
    ) in
    (
      (λ p.
          ap (λ es. count_where p (keep is_latest (first ∷ rest)) + count_where p es)
            (historical_entries-keep clock first rest)
          ∙ keep-parts is_latest p (first ∷ rest)),
      rw (same, keep) (inl refl),
      All-mono _ _ _ (λ e. alike-Simultaneous clock t e first injective at)
          (All-keep is_latest (first ∷ rest)),
      subst (All (Older t)) (sym (historical_entries-keep clock first rest)) (
          All-mono _ _ _ (λ e (low, apart). apart-Older clock t e first at low apart)
            (All-both _ _ _ (All-keep_mono _ (λ e. not (is_latest e)) (first ∷ rest) low)
              (All-keep (λ e. not (is_latest e)) (first ∷ rest)))),
    )
