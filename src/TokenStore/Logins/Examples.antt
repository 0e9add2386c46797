-- ===== src/TokenStore/Logins/Examples.antt =====
-- A login whose state is consumed and then removed by the creation of another state.
use ai_memory_hub.Base.{
  Text, text_eq, text_beq, text_ltb, codes, ◌≡◌, refl, subst, false, Option, none, some, [], ◌∷◌,
  ok, ok-injective, find, update_where, count_where,
}
use ai_memory_hub.TokenStore.ProviderStates.{
  ProviderState, insert_state, create_oauth_provider_state, consume_oauth_provider_state,
  hash_oauth_ephemeral_secret,
}
use ai_memory_hub.TokenStore.Logins.{LoginStep, LoginReach, consume_state_once}

abbrev plain_digest : Text → Text → Text
plain_digest purpose token = token

abbrev hashed_s1 : Text
hashed_s1 = codes "sha256:s1"

abbrev login : Text → Option Text → ProviderState
login hash used = record {
  state_hash = hash;
  provider = codes "idp";
  browser_session_hash = codes "sha256:b";
  nonce = codes "n";
  code_verifier = codes "v";
  state_data = codes "{}";
  expires_at = codes "5";
  consumed_at = used;
}

consume_s1 :
    consume_oauth_provider_state plain_digest
      (codes "1")
      (codes "s1")
      (codes "idp")
      (codes "b")
      (login hashed_s1 none ∷ [])
    ≡ ok (some (login hashed_s1 (some (codes "1"))), login hashed_s1 (some (codes "1")) ∷ [])
unfolding consume_oauth_provider_state hash_oauth_ephemeral_secret find update_where text_beq
    text_ltb
consume_s1 = refl

create_s2 :
    create_oauth_provider_state plain_digest
      (codes "2")
      (codes "s2")
      (codes "idp")
      (codes "b")
      (codes "n")
      (codes "v")
      (codes "{}")
      (codes "5")
      2
      8
      (login hashed_s1 (some (codes "1")) ∷ [])
    ≡ ok (login (codes "sha256:s2") none ∷ [])
unfolding create_oauth_provider_state insert_state hash_oauth_ephemeral_secret count_where text_beq
    text_ltb
create_s2 = refl

other_hash :
    (h : Text)
    → hash_oauth_ephemeral_secret plain_digest (codes "state") (codes "s2") ≡ ok h
    → text_beq h hashed_s1 ≡ false
unfolding hash_oauth_ephemeral_secret text_beq
other_hash h e = subst (λ k. text_beq k hashed_s1 ≡ false) (ok-injective e) refl

hash_s1 : hash_oauth_ephemeral_secret plain_digest (codes "state") (codes "s1") ≡ ok hashed_s1
unfolding hash_oauth_ephemeral_secret
hash_s1 = refl

consume_again :
    consume_oauth_provider_state plain_digest
      (codes "3")
      (codes "s1")
      (codes "idp")
      (codes "b")
      (login (codes "sha256:s2") none ∷ [])
    ≡ ok (none, login (codes "sha256:s2") none ∷ [])
unfolding consume_oauth_provider_state hash_oauth_ephemeral_secret find update_where text_beq
    text_ltb
consume_again = refl

abbrev nobody : Option ProviderState
nobody = none

consume_state_once_example :
    (nobody ≡ none)
    × ((login (codes "sha256:s2") none ∷ []) ≡ (login (codes "sha256:s2") none ∷ []))
consume_state_once_example =
    consume_state_once plain_digest (login hashed_s1 none ∷ [])
      (login hashed_s1 (some (codes "1")) ∷ []) (login (codes "sha256:s2") none ∷ [])
      (login (codes "sha256:s2") none ∷ []) (codes "1") (codes "s1") (codes "idp") (codes "b")
      hashed_s1 (login hashed_s1 (some (codes "1"))) (refl, tt) hash_s1 consume_s1
      (LoginReach.next LoginReach.here (
        LoginStep.create (codes "2") (codes "s2") (codes "idp") (codes "b") (codes "n") (codes "v")
          (codes "{}") (codes "5") 2 8 other_hash create_s2))
      (codes "3") (codes "idp") (codes "b") nobody consume_again
