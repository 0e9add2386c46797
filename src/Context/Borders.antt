-- ===== src/Context/Borders.antt =====
-- Ends of one text that are beginnings of another, for the loops of `_longest_exact_edge_overlap`.
use ai_memory_hub.Base.{
  Text, ℕ, zero, suc, ◌-◌, ◌≤◌, ◌<◌, ◌≡◌, sym, ap, ◌∙◌, arith, some, [], ◌∷◌, ◌++◌, length,
  get_elem?, take, drop, length-take, length-append, drop-drop, drop-append, drop-all, take_snoc,
  snoc_inj, get_elem?-some,
}

-- The last `j` characters of `s` are the first `j` of `p`.
abbrev pub IsOverlap : Text → Text → ℕ → Type 0
IsOverlap p s j = (j ≤ length s) × (j ≤ length p) × (drop (length s - j) s ≡ take j p)

-- The longest overlap shorter than `b`.
pub record Best (p s : Text) (b m : ℕ) : Type 0 where
  pub overlap : IsOverlap p s m
  pub short : m < b
  pub longest : (j : ℕ) → j < b → IsOverlap p s j → j ≤ m

pub zero-IsOverlap : (p s : Text) → IsOverlap p s 0
zero-IsOverlap p s = (omega arith, omega arith, drop-all (length s - 0) s (omega arith))

length-snoc : (s : Text) (c : ℕ) → length (s ++ c ∷ []) ≡ suc (length s)
length-snoc s c = omega (arith, length-append s (c ∷ []))

drop-snoc :
    (s : Text) (c j : ℕ)
    → j ≤ length s
    → drop (length (s ++ c ∷ []) - suc j) (s ++ c ∷ []) ≡ drop (length s - j) s ++ c ∷ []
drop-snoc s c j h =
    ap (λ n. drop n (s ++ c ∷ [])) (omega (arith, length-snoc s c))
    ∙ drop-append (length s - j) s (c ∷ []) (omega arith)

-- One more character on both.
pub snoc-IsOverlap :
    (p s : Text) (c j : ℕ)
    → IsOverlap p s j
    → get_elem? p j ≡ some c
    → suc j ≤ length p
    → IsOverlap p (s ++ c ∷ []) (suc j)
snoc-IsOverlap p s c j (h, k, e) hit room = (
  omega (arith, length-snoc s c, h),
  room,
  drop-snoc s c j h ∙ ap (λ r. r ++ c ∷ []) e ∙ sym (take_snoc j p hit),
)

pub snoc-IsOverlap_inv :
    (p s : Text) (c j : ℕ)
    → IsOverlap p (s ++ c ∷ []) (suc j)
    → IsOverlap p s j × (get_elem? p j ≡ some c)
snoc-IsOverlap_inv p s c j (h, k, e) =
    let short : j ≤ length s = omega (arith, length-snoc s c, h) in
    let (x, hit) = get_elem?-some p j (omega (arith, k)) in
    let (same, last) =
      snoc_inj (drop (length s - j) s) (take j p)
        (sym (drop-snoc s c j short) ∙ e ∙ take_snoc j p hit) in
    ((short, omega (arith, k), same), hit ∙ ap some (sym last))

-- An overlap that is not longer than another one is an overlap of that one.
inside :
    (p s : Text) (j k : ℕ)
    → IsOverlap p s k
    → j ≤ k
    → drop (length s - j) s ≡ drop (k - j) (take k p)
inside p s j k (h, _, e) le =
    sym (drop-drop (k - j) (length s - k) (length s - j) s (omega (arith, h, le)))
    ∙ ap (drop (k - j)) e

length-take_le : (p : Text) (k : ℕ) → k ≤ length p → length (take k p) ≡ k
length-take_le p k h = omega (arith, length-take k p, h)

pub IsOverlap-inside :
    (p s : Text) (j k : ℕ) → IsOverlap p s k → j ≤ k → IsOverlap p s j → IsOverlap p (take k p) j
IsOverlap-inside p s j k big le (h, r, e) =
    let size = length-take_le p k big.1 in
    (
      omega (arith, size, le),
      r,
      ap (λ n. drop (n - j) (take k p)) size ∙ sym (inside p s j k big le) ∙ e,
    )

pub IsOverlap-outside :
    (p s : Text) (j k : ℕ) → IsOverlap p s k → IsOverlap p (take k p) j → IsOverlap p s j
IsOverlap-outside p s j k big (h, r, e) =
    let size = length-take_le p k big.1 in
    let le : j ≤ k = omega (arith, size, h) in
    (
      omega (arith, le, big.0),
      r,
      inside p s j k big le ∙ sym (ap (λ n. drop (n - j) (take k p)) size) ∙ e,
    )

-- The overlaps that are not empty decide.
pub Best-of_suc :
    (p s : Text) (b m : ℕ)
    → IsOverlap p s m
    → m < b
    → ((j : ℕ) → suc j < b → IsOverlap p s (suc j) → suc j ≤ m)
    → Best p s b m
Best-of_suc p s b m o h most = record { overlap = o; short = h; longest = longest }
  where
    longest : (j : ℕ) → j < b → IsOverlap p s j → j ≤ m
    longest zero k o = omega arith
    longest (suc j) k o = most j k o
