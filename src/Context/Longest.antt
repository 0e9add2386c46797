-- ===== src/Context/Longest.antt =====
-- The loops of `_longest_exact_edge_overlap` in memory/ingestion/mvp_ingestion.py against the
-- overlaps of the two texts.
use ai_memory_hub.Base.{
  Text, ℕ, zero, suc, ◌-◌, ◌≤◌, ◌<◌, ◌≡◌, ◌⊎◌, refl, sym, ap, ◌∙◌, arith, Bool, true, false, some,
  List, [], ◌∷◌, ◌++◌, length, get_elem?, take, nat_eq, option_eq, Bool-cases, false≢true, inl, inr,
  eqb,
}
use ai_memory_hub.Context.Overlap.{entry, matches, fall, advance}
use ai_memory_hub.Context.Borders.{
  IsOverlap, Best, Best-of_suc, zero-IsOverlap, snoc-IsOverlap, snoc-IsOverlap_inv,
  IsOverlap-inside, IsOverlap-outside,
}

matches-some : (p : Text) (c m : ℕ) → matches p c m ≡ true → get_elem? p m ≡ some c
unfolding matches
matches-some p c m h = ((option_eq ⦃e = nat_eq⦄).eq_means (get_elem? p m) (some c)).0 h

some-matches : (p : Text) (c m : ℕ) → get_elem? p m ≡ some c → matches p c m ≡ true
unfolding matches
some-matches p c m h = ((option_eq ⦃e = nat_eq⦄).eq_means (get_elem? p m) (some c)).1 h

get_elem?-lt : (xs : Text) (i c : ℕ) → get_elem? xs i ≡ some c → suc i ≤ length xs
get_elem?-lt [] i c h = absurd (cc h)
get_elem?-lt (x ∷ xs) zero c h = omega arith
get_elem?-lt (x ∷ xs) (suc i) c h = omega (arith, get_elem?-lt xs i c h)

-- The first `n` entries are the borders of the beginnings of `p`.
unfoldable pub Good : Text → List ℕ → ℕ → Type 0
Good p table n = (i : ℕ) → i < n → Best p (take (suc i) p) (suc i) (entry table i)

pub suc-less_one : (m : ℕ) → suc m - 1 ≡ m
suc-less_one m = omega arith

-- An overlap that the next character extends.
abbrev Extends : Text → Text → ℕ → ℕ → Type 0
Extends p s c j = IsOverlap p s j × (get_elem? p j ≡ some c)

-- What the inner `while` leaves: the longest overlap that the character extends, or 0.
record Fallen (p s : Text) (c m r : ℕ) : Type 0 where
  overlap : IsOverlap p s r
  shorter : r ≤ m
  longest : (j : ℕ) → j ≤ m → Extends p s c j → j ≤ r
  stops : (matches p c r ≡ true) ⊎ (r ≡ 0)

fall-Fallen :
    (p : Text) (table : List ℕ) (n : ℕ) (s : Text) (c fuel m : ℕ)
    → Good p table n
    → m ≤ n
    → m ≤ fuel
    → IsOverlap p s m
    → Fallen p s c m (fall p table c fuel m)
unfolding fall Good
fall-Fallen p table n s c zero m good h k o = record {
  overlap = o;
  shorter = omega arith;
  longest = λ j le _. le;
  stops = inr (omega (arith, k));
}
fall-Fallen p table n s c (suc fuel) zero good h k o = record {
  overlap = o;
  shorter = omega arith;
  longest = λ j le _. le;
  stops = inr refl;
}
fall-Fallen p table n s c (suc fuel) (suc m) good h k o = elim (Bool-cases (matches p c (suc m))) [
  | inl hit ↦
      rw (hit, fall)
        (record { overlap = o; shorter = omega arith; longest = λ j le _. le; stops = inl hit })
  | inr miss ↦
      let border = good m (omega (arith, h)) in
      let short = border.short in
      let rest =
        fall-Fallen p table n s c fuel (entry table m) good (omega (arith, h, short))
          (omega (arith, k, short))
          (IsOverlap-outside p s (entry table m) (suc m) o border.overlap) in
      rw (miss, fall, suc-less_one m)
        (record {
          overlap = rest.overlap;
          shorter = omega (arith, rest.shorter, short);
          longest = λ j le ext. elim (Bool-cases (eqb j (suc m))) [
            | inl same ↦ absurd (ground (arith, same, miss, some-matches p c j ext.1))
            | inr other ↦
                let less : j < suc m = ground (arith, other, le) in
                rest.longest j (border.longest j less (IsOverlap-inside p s j (suc m) o le ext.0))
                  ext
          ];
          stops = rest.stops;
        })
]

stopped : {hit : Bool} {r : ℕ} → (hit ≡ true) ⊎ (r ≡ 0) → hit ≡ false → r ≡ 0
stopped (inl hit) miss = absurd (false≢true (sym miss ∙ hit))
stopped (inr e) miss = e

module _ (p : Text) (table : List ℕ) where
  -- Where the inner `while` ends without a match.
  pub fall_miss :
      (n : ℕ) (s : Text) (c m : ℕ)
      → Good p table n
      → m ≤ n
      → IsOverlap p s m
      → matches p c (fall p table c m m) ≡ false
      → fall p table c m m ≡ 0
  fall_miss n s c m good h o miss =
      stopped (fall-Fallen p table n s c m m good h (omega arith) o).stops miss

  -- The character that the `while` left the length for extends it, or none does.
  pub advance-Best :
      (n : ℕ) (s : Text) (c b m : ℕ)
      → Good p table n
      → m ≤ n
      → Best p s b m
      → Best p (s ++ c ∷ []) (suc b) (advance p table c m)
  unfolding advance
  advance-Best n s c b m good h best =
      let r = fall p table c m m in
      let fallen = fall-Fallen p table n s c m m good h (omega arith) best.overlap in
      let at_most = fallen.shorter in
      let bounded = best.short in
      let most : (j : ℕ) → suc j < suc b → IsOverlap p (s ++ c ∷ []) (suc j) → j ≤ r = λ j small o.
        let ext = snoc-IsOverlap_inv p s c j o in
        fallen.longest j (best.longest j (omega (arith, small)) ext.0) ext in
      elim (Bool-cases (matches p c r)) [
        | inl hit ↦
            let here = matches-some p c r hit in
            rw hit (
              Best-of_suc p (s ++ c ∷ []) (suc b) (suc r)
                (snoc-IsOverlap p s c r fallen.overlap here (get_elem?-lt p r c here))
                (omega (arith, at_most, bounded)) λ j small o. omega (arith, most j small o))
        | inr miss ↦
            let start : r ≡ 0 = stopped fallen.stops miss in
            let miss_start : matches p c 0 ≡ false = ap (matches p c) (sym start) ∙ miss in
            rw (miss, start)
              (Best-of_suc p (s ++ c ∷ []) (suc b) 0 (zero-IsOverlap p (s ++ c ∷ [])) (omega arith)
                λ j small o.
                  let ext = snoc-IsOverlap_inv p s c j o in
                  let first : j ≡ 0 = omega (arith, most j small o, start) in
                  absurd (false≢true (sym miss_start ∙ some-matches p c 0 (rw first at ext.1))))
      ]
