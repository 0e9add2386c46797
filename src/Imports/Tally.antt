-- ===== src/Imports/Tally.antt =====
-- The counts of memory/import_outcomes.py against the statuses of the receipts.
use ai_memory_hub.Base.{
  Text, text_eq, text_beq, text_beq_iff, ℕ, suc, ◌+◌, ◌≡◌, sym, subst, Bool, true, List, [], ◌∷◌,
  length, ◌==◌, if◌then◌else◌, arith, Bool-cases, inl, inr, count_where,
}
use ai_memory_hub.Imports.{
  Counts, no_counts, count_status, count_from, import_counts, outcome_inserted,
  outcome_deduplicated, outcome_appended, outcome_stale, outcome_conflict, outcome_error,
}

abbrev one_if : Bool → ℕ
one_if b = if b then 1 else 0

-- What one status changes.
abbrev Counted : Text → Counts → Counts → Type 0
Counted status c d =
    (d.processed ≡ c.processed)
    × (d.inserted ≡ one_if (status == outcome_inserted) + c.inserted)
    × (d.deduplicated ≡ one_if (status == outcome_deduplicated) + c.deduplicated)
    × (d.appended ≡ one_if (status == outcome_appended) + c.appended)
    × (d.stale ≡ one_if (status == outcome_stale) + c.stale)
    × (d.conflicted ≡ one_if (status == outcome_conflict) + c.conflicted)
    × (d.failed ≡ one_if (status == outcome_error) + c.failed)

module _ (c : Counts) where
  -- A status that is one of the outcomes.
  at_outcome :
      (status outcome : Text)
      → text_beq status outcome ≡ true
      → Counted outcome c (count_status outcome c)
      → Counted status c (count_status status c)
  at_outcome status outcome e h =
      subst (λ s. Counted s c (count_status s c)) (sym ((text_beq_iff status outcome).0 e)) h

  count_status-Counted : (status : Text) → Counted status c (count_status status c)
  unfolding count_status text_beq
  count_status-Counted s = elim (Bool-cases (s == outcome_inserted)) [
    | inl e ↦ at_outcome s outcome_inserted e (ground arith)
    | inr e₁ ↦ elim (Bool-cases (s == outcome_deduplicated)) [
      | inl e ↦ at_outcome s outcome_deduplicated e (ground arith)
      | inr e₂ ↦ elim (Bool-cases (s == outcome_appended)) [
        | inl e ↦ at_outcome s outcome_appended e (ground arith)
        | inr e₃ ↦ elim (Bool-cases (s == outcome_stale)) [
          | inl e ↦ at_outcome s outcome_stale e (ground arith)
          | inr e₄ ↦ elim (Bool-cases (s == outcome_conflict)) [
            | inl e ↦ at_outcome s outcome_conflict e (ground arith)
            | inr e₅ ↦ elim (Bool-cases (s == outcome_error)) [
              | inl e ↦ at_outcome s outcome_error e (ground arith)
              | inr e₆ ↦ rw (e₁, e₂, e₃, e₄, e₅, e₆) (ground arith)
            ]
          ]
        ]
      ]
    ]
  ]

-- The counts as numbers of statuses.
abbrev pub Tallied : List Text → Counts → Counts → Type 0
Tallied statuses c d =
    (d.processed ≡ length statuses + c.processed)
    × (d.inserted ≡ count_where (λ s. s == outcome_inserted) statuses + c.inserted)
    × (d.deduplicated ≡ count_where (λ s. s == outcome_deduplicated) statuses + c.deduplicated)
    × (d.appended ≡ count_where (λ s. s == outcome_appended) statuses + c.appended)
    × (d.stale ≡ count_where (λ s. s == outcome_stale) statuses + c.stale)
    × (d.conflicted ≡ count_where (λ s. s == outcome_conflict) statuses + c.conflicted)
    × (d.failed ≡ count_where (λ s. s == outcome_error) statuses + c.failed)

count_from-Tallied :
    (statuses : List Text) (c : Counts) → Tallied statuses c (count_from statuses c)
unfolding count_from count_where
count_from-Tallied [] c = ground arith
count_from-Tallied (s ∷ statuses) c =
    let counted : Counts = record c { processed = suc c.processed } in
    let one = count_status-Counted counted s in
    let rest = count_from-Tallied statuses (count_status s counted) in
    (
      omega (arith, one.0, rest.0),
      omega (arith, one.1, rest.1),
      omega (arith, one.2, rest.2),
      omega (arith, one.3, rest.3),
      omega (arith, one.4, rest.4),
      omega (arith, one.5, rest.5),
      omega (arith, one.6, rest.6),
    )

-- Of the statuses of the receipts, `processed` counts all and each of the other counts those that
-- are its outcome; a status that is no outcome is counted as processed only.
pub import_counts-Tallied :
    (statuses : List Text) → Tallied statuses no_counts (import_counts statuses)
unfolding import_counts
import_counts-Tallied statuses = count_from-Tallied statuses no_counts
