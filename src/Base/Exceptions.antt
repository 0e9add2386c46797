-- ===== src/Base/Exceptions.antt =====
-- Python exceptions as values.
use Prim.Native.String.{String}
use mathlib.Core.Path.{◌≡◌, refl, ap}

-- The exception classes that the modelled code raises, with their messages.
pub data Exc : Type 0 where
  value_error permission_error runtime_error : String → Exc
  client_quota_exceeded state_quota_exceeded integrity_error unicode_encode_error : Exc

pub data Result {ℓ} (A : Type ℓ) : Type ℓ where
  ok : A → Result A
  raise : Exc → Result A

-- A statement that raises ends the block.
infixl 5 ◌>>=◌
abbrev pub ◌>>=◌ {ℓ κ} : {A : Type ℓ} {B : Type κ} → Result A → (A → Result B) → Result B
raise exc >>= rest = raise exc
ok value >>= rest = rest value

pub raise-ne-ok {ℓ} : {A : Type ℓ} {exc : Exc} {a : A} → ¬ (raise exc ≡ ok a)
raise-ne-ok h = cc

pub ok-injective {ℓ} : {A : Type ℓ} {a b : A} → ok a ≡ ok b → a ≡ b
ok-injective h = cc

-- For chains of statements: the value of the first and the run of the rest, handed to the rest of
-- a proof.
pub bind_elim {ℓ κ μ} :
    {A : Type ℓ} {B : Type κ} {P : Type μ} (m : Result A) (rest : A → Result B) {b : B}
    → (m >>= rest) ≡ ok b
    → ((a : A) → m ≡ ok a → rest a ≡ ok b → P)
    → P
bind_elim (raise exc) rest h k = absurd (raise-ne-ok h)
bind_elim (ok a) rest h k = k a refl h

-- The same as a triple.
pub bind-eq-ok {ℓ κ} :
    {A : Type ℓ} {B : Type κ} (m : Result A) (rest : A → Result B) {b : B}
    → (m >>= rest) ≡ ok b
    → (a : A) × (m ≡ ok a) × (rest a ≡ ok b)
bind-eq-ok m rest h = bind_elim m rest h λ a first second. (a, first, second)

pub bind-ok {ℓ κ} :
    {A : Type ℓ} {B : Type κ} {m : Result A} {a : A} (rest : A → Result B)
    → m ≡ ok a
    → (m >>= rest) ≡ rest a
bind-ok rest h = ap (λ r. r >>= rest) h
