-- ===== src/OauthEndpoint/Handler.antt =====
-- A handler of memory/api/oauth_authorization.py: what one request does to the token store when no
-- other runs between its calls. Each call of the store is a transaction of its own, so what a call
-- changed stays when the handler raises after it.
use Prim.Native.String.{String}
use ai_memory_hub.Base.{Result, ok, raise, Exc}
use ai_memory_hub.TokenStore.Rows.{Store}

-- A handler returns, or raises the HTTP error of `_oauth_error`, or passes on an exception.
pub data Outcome {ℓ} (A : Type ℓ) : Type ℓ where
  done : A → Outcome A
  oauth_error : String → String → Outcome A
  failed : Exc → Outcome A

abbrev pub Handler {ℓ} : Type ℓ → Type ℓ
Handler A = Store → Outcome A × Store

abbrev pub after {ℓ κ} :
    {A : Type ℓ} {B : Type κ} → Outcome A → Store → (A → Handler B) → Outcome B × Store
after (done a) t next = next a t
after (oauth_error error description) t next = (oauth_error error description, t)
after (failed e) t next = (failed e, t)

infixl 5 ◌>>=◌
unfoldable pub ◌>>=◌ {ℓ κ} : {A : Type ℓ} {B : Type κ} → Handler A → (A → Handler B) → Handler B
◌>>=◌ m next s = let r = m s in after r.0 r.1 next

unfoldable pub return {ℓ} : {A : Type ℓ} → A → Handler A
return a s = (done a, s)

unfoldable pub raise_oauth {ℓ} : {A : Type ℓ} → String → String → Handler A
raise_oauth error description s = (oauth_error error description, s)

-- A call of the store: if it raises, its transaction is rolled back.
abbrev pub settle {ℓ} : {A : Type ℓ} → Result (A × Store) → Store → Outcome A × Store
settle (ok (a, t)) s = (done a, t)
settle (raise e) s = (failed e, s)

unfoldable pub call {ℓ} : {A : Type ℓ} → (Store → Result (A × Store)) → Handler A
call operation s = settle (operation s) s

-- A call that only reads.
abbrev pub settle_read {ℓ} : {A : Type ℓ} → Result A → Store → Outcome A × Store
settle_read (ok a) s = (done a, s)
settle_read (raise e) s = (failed e, s)

unfoldable pub look {ℓ} : {A : Type ℓ} → (Store → Result A) → Handler A
look query s = settle_read (query s) s
