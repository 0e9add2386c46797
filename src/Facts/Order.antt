-- ===== src/Facts/Order.antt =====
-- The order of the timeline that memory/ingestion/fact_timeline.py projects.
use ai_memory_hub.Base.{
  str_or_empty, some, none, ◌<◌, sym, ap, ◌∙◌, text_beq_iff, ◌==◌, Bool-cases, inl, inr, sort_by,
  keep-sort_by, Text, text_eq, text_beq, text_beq_comm, ℕ, ◌≤◌, ◌≡◌, refl, Bool, true, false,
  false≢true, ◌&&◌, ◌||◌, not, Option, List, [], ◌∷◌, map, keep, ltb, eqb, text_ltb, arith, All,
  All-mono, Sorted, sort_by-Sorted, count_where, count_where-sort_by,
}
use ai_memory_hub.Facts.Entries.{Clock, Fact, Memory, FactTimelineEntry, timeline_entry, or_text}
use ai_memory_hub.Facts.Timeline.{key_below, newest_first, time_rank, project, is_deleted}

text_ltb_asym : (s t : Text) → text_ltb s t ≡ true → text_ltb t s ≡ false
unfolding text_ltb
text_ltb_asym s [] h = absurd (false≢true h)
text_ltb_asym [] (b ∷ t) h = refl
text_ltb_asym (a ∷ s) (b ∷ t) h = ground (arith, h, text_ltb_asym s t)

text_ltb_apart : (s t : Text) → text_ltb s t ≡ true → text_beq s t ≡ false
unfolding text_ltb text_beq
text_ltb_apart s [] h = absurd (false≢true h)
text_ltb_apart [] (b ∷ t) h = refl
text_ltb_apart (a ∷ s) (b ∷ t) h = ground (arith, h, text_ltb_apart s t)

-- A comparison by a number, then by two texts.
lexicographic_asym :
    (m n : ℕ) (below above same same' below' above' : Bool)
    → (below ≡ true → above ≡ false)
    → (below ≡ true → same ≡ false)
    → (above ≡ true → same' ≡ false)
    → same' ≡ same
    → (below' ≡ true → above' ≡ false)
    → (ltb m n || eqb m n && (below || same && below')) ≡ true
    → (ltb n m || eqb n m && (above || same' && above')) ≡ false
lexicographic_asym m n below above same same' below' above' p q q' r t h = ground arith

key_below_asym : (a b : FactTimelineEntry) → key_below a b ≡ true → key_below b a ≡ false
unfolding key_below
key_below_asym a b h =
    let s = or_text a.stored_at [] in
    let t = or_text b.stored_at [] in
    lexicographic_asym (time_rank a.parsed_stored_at) (time_rank b.parsed_stored_at) (text_ltb s t)
      (text_ltb t s) (text_beq s t) (text_beq t s)
      (text_ltb (str_or_empty a.fact.id) (str_or_empty b.fact.id))
      (text_ltb (str_or_empty b.fact.id) (str_or_empty a.fact.id)) (text_ltb_asym s t)
      (text_ltb_apart s t) (text_ltb_apart t s) (text_beq_comm t s)
      (text_ltb_asym (str_or_empty a.fact.id) (str_or_empty b.fact.id)) h

newest_first_total : (a b : FactTimelineEntry) → newest_first a b ≡ false → newest_first b a ≡ true
unfolding newest_first
newest_first_total a b h = rw (key_below_asym a b (negated (key_below a b) h)) refl
  where
    negated : (b : Bool) → not b ≡ false → b ≡ true
    negated b h = ground arith

abbrev pub stored_text : FactTimelineEntry → Text
stored_text e = or_text e.stored_at []

abbrev pub id_text : FactTimelineEntry → Text
id_text e = str_or_empty e.fact.id

-- Why an entry may stand above another: a time above none, the later time, and at the same time the
-- greater text of it, and then no lesser id.
pub data Above (a b : FactTimelineEntry) : Type 0 where
  timed : (t : ℕ) → a.parsed_stored_at ≡ some t → b.parsed_stored_at ≡ none → Above a b
  later : (t u : ℕ) → a.parsed_stored_at ≡ some t → b.parsed_stored_at ≡ some u → u < t → Above a b
  by_text :
      a.parsed_stored_at ≡ b.parsed_stored_at
      → text_ltb (stored_text b) (stored_text a) ≡ true
      → Above a b
  by_id :
      a.parsed_stored_at ≡ b.parsed_stored_at
      → stored_text a ≡ stored_text b
      → text_ltb (id_text a) (id_text b) ≡ false
      → Above a b

-- Each entry may stand above the next.
abbrev pub Descending : List FactTimelineEntry → Type 0
Descending [] = Unit
Descending (a ∷ []) = Unit
Descending (a ∷ b ∷ rest) = Above a b × Descending (b ∷ rest)

text_ltb_tri : (s t : Text) → text_ltb s t ≡ false → text_ltb t s ≡ false → text_beq s t ≡ true
unfolding text_ltb text_beq
text_ltb_tri [] [] h k = refl
text_ltb_tri [] (b ∷ t) h k = absurd (cc h)
text_ltb_tri (a ∷ s) [] h k = absurd (cc k)
text_ltb_tri (a ∷ s) (b ∷ t) h k = ground (arith, h, k, text_ltb_tri s t)

text_ltb_irrefl : (s : Text) → text_ltb s s ≡ false
unfolding text_ltb
text_ltb_irrefl [] = refl
text_ltb_irrefl (a ∷ s) = ground (arith, text_ltb_irrefl s)

tie-Above :
    (a b : FactTimelineEntry)
    → a.parsed_stored_at ≡ b.parsed_stored_at
    → (text_ltb (stored_text a) (stored_text b)
        || stored_text a == stored_text b && text_ltb (id_text a) (id_text b))
      ≡ false
    → Above a b
tie-Above a b same h = elim (Bool-cases (text_ltb (stored_text b) (stored_text a))) [
  | inl e ↦ by_text same e
  | inr e ↦
      let equal = text_ltb_tri (stored_text a) (stored_text b) (ground (arith, h)) e in
      by_id same ((text_beq_iff (stored_text a) (stored_text b)).0 equal) (ground (arith, h, equal))
]

newest_first-Above : (a b : FactTimelineEntry) → newest_first a b ≡ true → Above a b
unfolding newest_first key_below
newest_first-Above a b h = by_times a.parsed_stored_at b.parsed_stored_at refl refl h
  where
    ties : Bool
    ties =
        text_ltb (stored_text a) (stored_text b)
        || stored_text a == stored_text b && text_ltb (id_text a) (id_text b)

    by_times :
        (p q : Option ℕ)
        → a.parsed_stored_at ≡ p
        → b.parsed_stored_at ≡ q
        → not (ltb (time_rank p) (time_rank q) || eqb (time_rank p) (time_rank q) && ties) ≡ true
        → Above a b
    by_times none none e f h = tie-Above a b (e ∙ sym f) (ground (arith, h))
    by_times none (some u) e f h = absurd (ground (arith, h))
    by_times (some t) none e f h = timed t e f
    by_times (some t) (some u) e f h = elim (Bool-cases (ltb u t)) [
      | inl less ↦ later t u e f (ground (arith, less))
      | inr more ↦
          let same : t ≡ u = ground (arith, h, more) in
          tie-Above a b (e ∙ ap some same ∙ sym f) (ground (arith, h, same))
    ]

Sorted-Descending :
    (entries : List FactTimelineEntry) → Sorted newest_first entries → Descending entries
Sorted-Descending [] h = tt
Sorted-Descending (a ∷ []) h = tt
Sorted-Descending (a ∷ b ∷ rest) h = (newest_first-Above a b h.0, Sorted-Descending (b ∷ rest) h.1)

-- Entries that the order does not tell apart.
abbrev pub SameKey : FactTimelineEntry → FactTimelineEntry → Type 0
SameKey a b =
    (a.parsed_stored_at ≡ b.parsed_stored_at)
    × (stored_text a ≡ stored_text b)
    × (id_text a ≡ id_text b)

SameKey-newest_first : (a b : FactTimelineEntry) → SameKey a b → newest_first a b ≡ true
unfolding newest_first key_below
SameKey-newest_first a b (e, f, g) =
    rw (e, f, g, text_ltb_irrefl (stored_text b), text_ltb_irrefl (id_text b))
      (equal (time_rank b.parsed_stored_at) (text_beq (stored_text b) (stored_text b)))
  where
    equal : (n : ℕ) (same : Bool) → not (ltb n n || eqb n n && (false || same && false)) ≡ true
    equal n same = ground arith

-- The projected timeline has each entry of a fact that is not deleted, as often as the facts have
-- it, and no other. It descends: a time stands above none, a later time above an earlier one, at
-- the same time the greater text, and then the id that is no less. Entries with the same time, text
-- and id stand in the order of their facts.
pub project-Descending :
    (clock : Clock) (lookup : Option (Text → Option Memory)) (facts : List Fact)
    → Descending (project clock lookup facts)
      × ((p : FactTimelineEntry → Bool)
          → count_where p (project clock lookup facts)
            ≡ count_where p
                (map (timeline_entry clock lookup) (keep (λ fact. not (is_deleted fact)) facts)))
      × ((p : FactTimelineEntry → Bool)
          → ((a b : FactTimelineEntry) → p a ≡ true → p b ≡ true → SameKey a b)
          → keep p (project clock lookup facts)
            ≡ keep p
                (map (timeline_entry clock lookup) (keep (λ fact. not (is_deleted fact)) facts)))
unfolding project
project-Descending clock lookup facts =
    let entries = map (timeline_entry clock lookup) (keep (λ fact. not (is_deleted fact)) facts) in
    (
      Sorted-Descending (sort_by newest_first entries)
          (sort_by-Sorted newest_first newest_first_total entries),
      λ p. count_where-sort_by newest_first p entries,
      λ p alike.
          keep-sort_by newest_first p entries (λ a b h k. SameKey-newest_first a b (alike a b h k)),
    )

Above-rank :
    (a b : FactTimelineEntry)
    → Above a b
    → time_rank b.parsed_stored_at ≤ time_rank a.parsed_stored_at
Above-rank a b (timed t e f) = rw (e, f) (omega arith)
Above-rank a b (later t u e f less) = rw (e, f) (omega (arith, less))
Above-rank a b (by_text same _) = rw same (omega arith)
Above-rank a b (by_id same _ _) = rw same (omega arith)

-- In a descending timeline no entry is newer than the first.
pub Descending-rank :
    (first : FactTimelineEntry) (rest : List FactTimelineEntry)
    → Descending (first ∷ rest)
    → All (λ e. time_rank e.parsed_stored_at ≤ time_rank first.parsed_stored_at) rest
Descending-rank first [] h = tt
Descending-rank first (next ∷ rest) h =
    let near = Above-rank first next h.0 in
    (near, All-mono _ _ rest (λ e le. omega (arith, le, near)) (Descending-rank next rest h.1))
