-- ===== src/TokenStore/Logins.antt =====
-- Logins at external providers in memory/backend/metadata_store.py: a state is used once.
mod Examples
use ai_memory_hub.Base.{
  ℕ, Text, text_eq, text_beq, text_beq_iff, text_beq_refl, codes, ◌≡◌, refl, sym, ap, subst, ◌∙◌,
  Bool, true, false, false≢true, ◌&&◌, Option, none, some, List, [], ◌∷◌, ◌++◌, leb, any, keep,
  ◌==◌, if◌then◌else◌, Result, ok, raise, ok-injective, raise-ne-ok, bind_elim, find, update_where,
  update_where-none, count_where, map_option, map_option-some, All, All-mono, All-append,
  All-keep_mono, All-update_where, UniqueBy, find-only, find-none, Bool-cases, inl, inr, arith,
}
use ai_memory_hub.TokenStore.Rows.{is_null}
use ai_memory_hub.TokenStore.Spent.{IsSpent-first}
use ai_memory_hub.TokenStore.ProviderStates.{
  ProviderState, is_active, insert_state, create_oauth_provider_state, consumable, state_consumed,
  consume_oauth_provider_state, hash_oauth_ephemeral_secret,
}

-- A call that does not raise, where no call creates a state with the hash again.
pub data LoginStep (digest : Text → Text → Text) (hash : Text) (s t : List ProviderState)
    : Type 0 where
  create :
      (now state provider browser nonce verifier payload expires_at : Text) (most all_most : ℕ)
      → ((h : Text)
          → hash_oauth_ephemeral_secret digest (codes "state") state ≡ ok h
          → text_beq h hash ≡ false)
      → create_oauth_provider_state digest now state provider browser nonce verifier payload
          expires_at most all_most s
        ≡ ok t
      → LoginStep digest hash s t
  consume :
      (now state provider browser : Text) (found : Option ProviderState)
      → consume_oauth_provider_state digest now state provider browser s ≡ ok (found, t)
      → LoginStep digest hash s t

pub data LoginReach (digest : Text → Text → Text) (hash : Text) (s : List ProviderState)
    : List ProviderState → Type 0 where
  here : LoginReach digest hash s s
  next :
      {t u : List ProviderState}
      → LoginReach digest hash s t
      → LoginStep digest hash t u
      → LoginReach digest hash s u

-- No row with the hash can be consumed.
IsUsedUp : Text → ProviderState → Type 0
IsUsedUp hash r = (r.state_hash == hash) ≡ true → is_null r.consumed_at ≡ false

insert_state-eq-ok :
    (now : Text) (row : ProviderState) (m n : ℕ) (rows : List ProviderState)
    {t : List ProviderState}
    → insert_state now row m n rows ≡ ok t
    → t ≡ rows ++ row ∷ []
unfolding insert_state
insert_state-eq-ok now row m n rows h =
    elim (Bool-cases (leb n (count_where (is_active now) rows))) [
      | inl e ↦ absurd (raise-ne-ok (rw e at h))
      | inr e ↦
          elim (Bool-cases (
            leb m (
              count_where
                (λ r. r.browser_session_hash == row.browser_session_hash && is_active now r)
                rows))) [
                  | inl f ↦ absurd (raise-ne-ok (rw f at (rw e at h)))
                  | inr f ↦ elim (Bool-cases (any (λ r. r.state_hash == row.state_hash) rows)) [
                    | inl g ↦ absurd (raise-ne-ok (rw g at (rw f at (rw e at h))))
                    | inr g ↦ sym (ok-injective (rw g at (rw f at (rw e at h))))
                  ]
                ]
    ]

module _ (digest : Text → Text → Text) (hash : Text) where
  updated-IsUsedUp :
      (now h provider browser : Text) (rows : List ProviderState)
      → All (IsUsedUp hash) rows
      → All
          (IsUsedUp hash)
          (update_where (consumable now h provider browser) (state_consumed now) rows)
  unfolding IsUsedUp
  updated-IsUsedUp now h provider browser rows spent =
      All-update_where (IsUsedUp hash) (consumable now h provider browser) (state_consumed now) rows
        (λ r _ _ _. refl) spent

  LoginStep-IsUsedUp :
      (s t : List ProviderState)
      → LoginStep digest hash s t
      → All (IsUsedUp hash) s
      → All (IsUsedUp hash) t
  unfolding create_oauth_provider_state consume_oauth_provider_state IsUsedUp
  LoginStep-IsUsedUp s t
        (create now state provider browser nonce verifier payload expires_at most all_most other h)
        spent =
      bind_elim (hash_oauth_ephemeral_secret digest (codes "state") state) _ h λ hs hashed h₁.
        bind_elim (hash_oauth_ephemeral_secret digest (codes "browser-session") browser) _ h₁
          λ hb _ h₂.
            subst (All (IsUsedUp hash))
              (sym (insert_state-eq-ok now _ most all_most (keep (is_active now) s) h₂))
              (All-append (IsUsedUp hash) (keep (is_active now) s) _
                (All-keep_mono (IsUsedUp hash) (is_active now) s spent)
                ((λ same. absurd (false≢true (sym (other hs hashed) ∙ same))), tt))
  LoginStep-IsUsedUp s t (consume now state provider browser found h) spent =
      bind_elim (hash_oauth_ephemeral_secret digest (codes "state") state) _ h λ hs hashed h₁.
        bind_elim (hash_oauth_ephemeral_secret digest (codes "browser-session") browser) _ h₁
          λ hb _ h₂.
            subst (All (IsUsedUp hash)) (ap (λ w. w.1) (ok-injective h₂))
              (updated-IsUsedUp now hs provider hb s spent)

  LoginReach-IsUsedUp :
      (s t : List ProviderState)
      → LoginReach digest hash s t
      → All (IsUsedUp hash) s
      → All (IsUsedUp hash) t
  LoginReach-IsUsedUp s t here spent = spent
  LoginReach-IsUsedUp s t (next {t = m} run step) spent =
      LoginStep-IsUsedUp m t step (LoginReach-IsUsedUp s m run spent)

  consumable-IsUsedUp :
      (now provider browser : Text) (rows : List ProviderState)
      → All (IsUsedUp hash) rows
      → All (λ r. consumable now hash provider browser r ≡ false) rows
  unfolding IsUsedUp consumable
  consumable-IsUsedUp now provider browser rows = All-mono (IsUsedUp hash) _ rows (λ r spent.
      elim (Bool-cases (r.state_hash == hash)) [
        | inl e ↦ rw (e, spent e) (ground arith)
        | inr e ↦ rw e refl
      ])

  first_use-IsUsedUp :
      (now provider browser : Text) (rows : List ProviderState) {r : ProviderState}
      → UniqueBy (λ x. x.state_hash) rows
      → find (consumable now hash provider browser) rows ≡ some r
      → All
          (IsUsedUp hash)
          (update_where (consumable now hash provider browser) (state_consumed now) rows)
  unfolding IsUsedUp consumable
  first_use-IsUsedUp now provider browser rows keys e =
      (IsSpent-first (λ x. x.state_hash) (λ x. x.consumed_at) hash
        (consumable now hash provider browser) (state_consumed now) rows
        (λ x h. (text_beq_iff x.state_hash hash).0 (ground arith)) (λ _. refl) (λ _. refl) keys e).1

-- A login state is used once. If `consume_oauth_provider_state` yields a row of a table whose state
-- hashes are distinct, and no later call creates a state with the same hash, then after any further
-- calls that do not raise, consuming the state again, for whichever provider and browser session,
-- yields nothing and changes nothing, unless it raises.
pub consume_state_once :
    (digest : Text → Text → Text) (s t u v : List ProviderState)
    (now state provider browser hash : Text) (r : ProviderState)
    → UniqueBy (λ x. x.state_hash) s
    → hash_oauth_ephemeral_secret digest (codes "state") state ≡ ok hash
    → consume_oauth_provider_state digest now state provider browser s ≡ ok (some r, t)
    → LoginReach digest hash t u
    → (now' provider' browser' : Text) (found : Option ProviderState)
    → consume_oauth_provider_state digest now' state provider' browser' u ≡ ok (found, v)
    → (found ≡ none) × (v ≡ u)
unfolding consume_oauth_provider_state
consume_state_once digest s t u v now state provider browser hash r keys hashed h run now' provider'
      browser' found h' =
    bind_elim (hash_oauth_ephemeral_secret digest (codes "browser-session") browser) _
      (rw hashed at h)
      λ hb _ h₁.
        let (row, first, _) =
          map_option-some (state_consumed now) (find (consumable now hash provider hb) s)
            (ap (λ q. q.0) (ok-injective h₁)) in
        let used : All (IsUsedUp hash) t =
          subst (All (IsUsedUp hash)) (ap (λ q. q.1) (ok-injective h₁))
            (first_use-IsUsedUp digest hash now provider hb s keys first) in
        bind_elim (hash_oauth_ephemeral_secret digest (codes "browser-session") browser') _
          (rw hashed at h')
          λ hb' _ h₂.
            let idle =
              consumable-IsUsedUp digest hash now' provider' hb' u
                (LoginReach-IsUsedUp digest hash t u run used) in
            (
              sym (ap (λ q. q.0) (ok-injective h₂)) ∙ rw (find-none _ u idle) refl,
              sym (ap (λ q. q.1) (ok-injective h₂))
                  ∙ update_where-none _ (state_consumed now') u idle,
            )
