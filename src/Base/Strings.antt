-- ===== src/Base/Strings.antt =====
-- Texts as lists of code points, with the parts of Python's `str` that the program uses.
use Prim.Native.Nat.{ℕ}
use Prim.Native.Char.{code}
use Prim.Native.String.{String}
use mathlib.Core.Path.{◌≡◌, refl, sym, ap, ◌∙◌}
use mathlib.Core.Logic.{◌↔◌, inl, inr}
use mathlib.Core.Bool.{Bool, true, false, ◌&&◌, ◌||◌}
use mathlib.Core.List.{List, [], ◌∷◌, ◌++◌, reverse, reverse-append, reverse-reverse, reverse-cons}
use native.Mathlib.Omega.{arith}
use ai_memory_hub.Base.Lists.{All, All-append}
use ai_memory_hub.Base.Tests.{Eq, eqb, ltb, leb, Bool-cases}

abbrev pub Text : Type 0
Text = List ℕ

-- The code points of a literal.
abbrev pub codes : String → Text
codes String.[] = []
codes (String.◌∷◌ c s) = code c ∷ codes s

unfoldable pub text_beq : Text → Text → Bool
text_beq [] [] = true
text_beq (a ∷ s) (b ∷ t) = eqb a b && text_beq s t
text_beq _ _ = false

pub text_beq_iff : (s t : Text) → (text_beq s t ≡ true) ↔ (s ≡ t)
unfolding text_beq
text_beq_iff [] [] = ground arith
text_beq_iff (a ∷ s) (b ∷ t) = ground (arith, text_beq_iff s t)
text_beq_iff (a ∷ s) [] = ground arith
text_beq_iff [] (b ∷ t) = ground arith

pub text_beq_refl : (s : Text) → text_beq s s ≡ true
text_beq_refl s = (text_beq_iff s s).1 refl

instance abbrev pub text_eq : Eq Text
text_eq = record { eq = text_beq; eq_means = text_beq_iff }

-- `a < b` on texts: by code points, which is also the order of SQLite's BINARY collation.
unfoldable pub text_ltb : Text → Text → Bool
text_ltb s [] = false
text_ltb [] (b ∷ t) = true
text_ltb (a ∷ s) (b ∷ t) = ltb a b || eqb a b && text_ltb s t

-- `str.isspace` of one character.
unfoldable pub is_space : ℕ → Bool
is_space c =
    leb 0x09 c && leb c 0x0d
    || leb 0x1c c && leb c 0x20
    || eqb c 0x85
    || eqb c 0xa0
    || eqb c 0x1680
    || leb 0x2000 c && leb c 0x200a
    || eqb c 0x2028
    || eqb c 0x2029
    || eqb c 0x202f
    || eqb c 0x205f
    || eqb c 0x3000

-- `str.lstrip`, `str.rstrip` and `str.strip` with no argument.
unfoldable pub lstrip : Text → Text
unfolding is_space
lstrip [] = []
lstrip (c ∷ s) = elim (is_space c) [ true ↦ lstrip s | false ↦ c ∷ s ]

unfoldable pub rstrip : Text → Text
unfolding lstrip
rstrip s = reverse (lstrip (reverse s))

unfoldable pub strip : Text → Text
unfolding rstrip
strip s = rstrip (lstrip s)

-- `s.startswith(p)`
unfoldable pub starts_with : Text → Text → Bool
starts_with s [] = true
starts_with [] (b ∷ p) = false
starts_with (a ∷ s) (b ∷ p) = eqb a b && starts_with s p

-- `s.endswith(p)`
unfoldable pub ends_with : Text → Text → Bool
unfolding starts_with
ends_with s p = starts_with (reverse s) (reverse p)

pub text_beq_comm : (s t : Text) → text_beq s t ≡ text_beq t s
unfolding text_beq
text_beq_comm [] [] = refl
text_beq_comm (a ∷ s) (b ∷ t) = ground (arith, text_beq_comm s t)
text_beq_comm (a ∷ s) [] = refl
text_beq_comm [] (b ∷ t) = refl

-- What `lstrip` cuts off.
pub lstrip-suffix :
    (s : Text) → (pre : Text) × All (λ c. is_space c ≡ true) pre × (s ≡ pre ++ lstrip s)
unfolding lstrip
lstrip-suffix [] = ([], tt, refl)
lstrip-suffix (c ∷ s) = elim (Bool-cases (is_space c)) [
  | inl blank ↦
      let (pre, spaces, e) = lstrip-suffix s in
      rw (blank, lstrip) (c ∷ pre, (blank, spaces), ap (λ r. c ∷ r) e)
  | inr solid ↦ rw (solid, lstrip) ([], tt, refl)
]

All-reverse : (P : ℕ → Type 0) (s : Text) → All P s → All P (reverse s)
All-reverse P [] h = tt
All-reverse P (c ∷ s) h =
    rw (reverse-cons c s) (All-append P (reverse s) (c ∷ []) (All-reverse P s h.1) (h.0, tt))

-- `s.rstrip()` is a beginning of `s`; the rest is white space.
pub rstrip-prefix :
    (s : Text) → (rest : Text) × All (λ c. is_space c ≡ true) rest × (s ≡ rstrip s ++ rest)
unfolding rstrip
rstrip-prefix s =
    let (pre, spaces, e) = lstrip-suffix (reverse s) in
    (
      reverse pre,
      All-reverse (λ c. is_space c ≡ true) pre spaces,
      sym (reverse-reverse s) ∙ ap reverse e ∙ reverse-append pre (lstrip (reverse s)),
    )
