-- ===== src/Context/Table.antt =====
-- The table of `_longest_exact_edge_overlap` in memory/ingestion/mvp_ingestion.py.
use ai_memory_hub.Base.{
  Text, ℕ, zero, suc, ◌≤◌, ◌≡◌, ◌≢◌, refl, sym, ap, ◌∙◌, arith, List, [], ◌∷◌, length, take, drop,
  set, replicate, Bool-cases, inl, inr, eqb, length-set, length-drop, length-replicate, take_snoc,
  drop_head,
}
use ai_memory_hub.Context.Overlap.{
  entry, matches, fall, advance, prefix_lengths_from, prefix_lengths,
}
use ai_memory_hub.Context.Borders.{Best, Best-of_suc, zero-IsOverlap}
use ai_memory_hub.Context.Longest.{Good, advance-Best, fall_miss}

entry-set : (t : List ℕ) (i v : ℕ) → suc i ≤ length t → entry (set t i v) i ≡ v
unfolding entry
entry-set [] i v h = absurd (omega (arith, h))
entry-set (m ∷ t) zero v h = refl
entry-set (m ∷ t) (suc i) v h = entry-set t i v (omega (arith, h))

entry-set_other : (t : List ℕ) (i j v : ℕ) → j ≢ i → entry (set t i v) j ≡ entry t j
unfolding entry
entry-set_other [] i j v h = refl
entry-set_other (m ∷ t) zero zero v h = absurd (h refl)
entry-set_other (m ∷ t) zero (suc j) v h = refl
entry-set_other (m ∷ t) (suc i) zero v h = refl
entry-set_other (m ∷ t) (suc i) (suc j) v h = entry-set_other t i j v (λ e. h (ap suc e))

entry-replicate : (n j : ℕ) → entry (replicate n 0) j ≡ 0
unfolding entry
entry-replicate zero j = refl
entry-replicate (suc n) zero = refl
entry-replicate (suc n) (suc j) = entry-replicate n j

-- Before the round `index` of the first loop.
record Building (p : Text) (index m : ℕ) (table : List ℕ) : Type 0 where
  good : Good p table index
  clear : (j : ℕ) → index ≤ j → entry table j ≡ 0
  size : length table ≡ length p
  border : Best p (take index p) index m

-- What a round does to the table.
record Recorded (index m : ℕ) (table table' : List ℕ) : Type 0 where
  written : entry table' index ≡ m
  others : (j : ℕ) → j ≢ index → entry table' j ≡ entry table j
  kept : length table' ≡ length table

Building-next :
    (p : Text) (index m m' : ℕ) (table table' : List ℕ)
    → Building p index m table
    → Recorded index m' table table'
    → Best p (take (suc index) p) (suc index) m'
    → Building p (suc index) m' table'
unfolding Good
Building-next p index m m' table table' b r best = record {
  good = λ i h. elim (Bool-cases (eqb i index)) [
    | inl same ↦ let e : i ≡ index = ground (arith, same) in rw (e, r.written) best
    | inr other ↦
        let e : i ≢ index = ground (arith, other) in
        rw (r.others i e) (b.good i (ground (arith, other, h)))
  ];
  clear = λ j h. r.others j (λ e. absurd (omega (arith, h, e))) ∙ b.clear j (omega (arith, h));
  size = r.kept ∙ b.size;
  border = best;
}

prefix_lengths_from-Good :
    (p rest : Text) (index m : ℕ) (table : List ℕ)
    → drop index p ≡ rest
    → index ≤ length p
    → Building p index m table
    → Good p (prefix_lengths_from p rest index m table) (length p)
unfolding prefix_lengths_from
prefix_lengths_from-Good p [] index m table e h b =
    let all_read : length p ≡ index = omega (arith, length-drop index p, ap length e, h) in
    rw all_read b.good
prefix_lengths_from-Good p (c ∷ rest) index m table e h b =
    let (here, next, room) = drop_head index p e in
    let short = b.border.short in
    let best : Best p (take (suc index) p) (suc index) (advance p table c m) =
      rw (take_snoc index p here) (
        advance-Best p table index (take index p) c index m b.good (omega (arith, short))
          b.border) in
    elim (Bool-cases (matches p c (fall p table c m m))) [
      | inl hit ↦
          let r = fall p table c m m in
          rw (hit, prefix_lengths_from)
            (prefix_lengths_from-Good p rest (suc index) (suc r) (set table index (suc r)) next room
              (Building-next p index m (suc r) table (set table index (suc r)) b
                (record {
                  written = entry-set table index (suc r) (omega (arith, room, b.size));
                  others = λ j other. entry-set_other table index j (suc r) other;
                  kept = length-set table index (suc r);
                })
                (rw (hit, advance) at best)))
      | inr miss ↦
          let r = fall p table c m m in
          let start : r ≡ 0 =
            fall_miss p table index (take index p) c m b.good (omega (arith, short))
              b.border.overlap miss in
          rw (miss, prefix_lengths_from)
            (prefix_lengths_from-Good p rest (suc index) r table next room (
              Building-next p index m r table table b
                (record {
                  written = b.clear index (omega arith) ∙ sym start;
                  others = λ j other. refl;
                  kept = refl;
                })
                (rw (miss, advance) at best)))
    ]

-- The first loop fills in the whole table.
pub prefix_lengths-Good : (p : Text) → 1 ≤ length p → Good p (prefix_lengths p) (length p)
unfolding prefix_lengths Good
prefix_lengths-Good p h =
    prefix_lengths_from-Good p (drop 1 p) 1 0 (replicate (length p) 0) refl h (record {
      good = λ i k.
          let first : i ≡ 0 = omega (arith, k) in rw (first, entry-replicate (length p) 0) start;
      clear = λ j _. entry-replicate (length p) j;
      size = length-replicate (length p) 0;
      border = start;
    })
  where
    start : Best p (take 1 p) 1 0
    start =
        Best-of_suc p (take 1 p) 1 0 (zero-IsOverlap p (take 1 p)) (omega arith)
          λ j k o. absurd (omega (arith, k))
