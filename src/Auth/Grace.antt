-- ===== src/Auth/Grace.antt =====
-- No used refresh token stays in its grace for more than a minute, whatever calls are made.
use fashion_ai_be.Prelude.{
  ℕ, ◌+◌, ◌*◌, ◌==◌, ◌≤◌, ◌≡◌, sym, ◌∙◌, inl, inr, leb, not, ◌||◌, Option, none, some, List, arith,
  any, find, if_first, Bool-cases,
}
use fashion_ai_be.Redis.KeyStore.{StoreKey, StoreText, same_key, KeyStore}
use fashion_ai_be.Auth.Tokens.{
  RefreshToken, Sessions, Consumed, admitted, unauthorized, refresh_reuse_grace_seconds,
  refresh_grace_key, refresh_grace_block_key, is_token, is_user, is_in_reuse_grace, consume_stored,
  consume_verified, revoke_all_user_refresh_tokens, consume_refresh_token, delete_refresh_token,
  generate_refresh_token, refresh, refresh_consumed,
}
use fashion_ai_be.Auth.Revoked.{IsGraceBounded, revoked_stays_out}

pub data SessionCall : Type 0 where
  refreshing : ℕ → ℕ → ℕ → SessionCall
  logging_in : ℕ → ℕ → ℕ → SessionCall
  logging_out : ℕ → SessionCall
  revoking : ℕ → SessionCall

module _ {S : Type 0} (store : KeyStore S) where
  -- The bound moves with the clock.
  bounded_later :
      (now now' : ℕ) (keys : S)
      → now ≤ now'
      → IsGraceBounded store now keys
      → IsGraceBounded store now' keys
  bounded_later now now' keys le bounded h t v from there =
      store.lives_longer t _ _ (omega arith) (bounded h t v (omega arith) there)

  bounded_get :
      (k : StoreKey) (now : ℕ) (keys : S)
      → IsGraceBounded store now keys
      → IsGraceBounded store now (store.get k now keys).1
  bounded_get k now keys bounded h t v le there =
      bounded h t v le (sym (store.get-get k (refresh_grace_key h) now t keys le) ∙ there)

  bounded_set :
      (k : StoreKey) (value : StoreText) (now : ℕ) (keys : S)
      → IsGraceBounded store now keys
      → IsGraceBounded store now (store.set k value refresh_reuse_grace_seconds now keys)
  bounded_set k value now keys bounded h t v le there =
      let whole =
        store.get-set k (refresh_grace_key h) value refresh_reuse_grace_seconds now t keys
          (omega arith) le in
      elim (Bool-cases (same_key k (refresh_grace_key h))) [
        | inl same ↦ elim (Bool-cases (store.lives t (now + refresh_reuse_grace_seconds * 1000))) [
          | inl alive ↦ alive
          | inr over ↦ absurd (ground (arith, rw (whole, same, over) at there))
        ]
        | inr other ↦ bounded h t v le (rw (whole, other) at there)
      ]

  grace_bounded :
      (token_hash user_id now : ℕ) (keys : S)
      → IsGraceBounded store now keys
      → IsGraceBounded store now (is_in_reuse_grace store token_hash user_id now keys).1
  unfolding is_in_reuse_grace
  grace_bounded token_hash user_id now keys bounded =
      let seen = bounded_get (refresh_grace_key token_hash) now keys bounded in
      elim (Bool-cases
        (not (is_user (store.get (refresh_grace_key token_hash) now keys).0 user_id))) [
          | inl other ↦ rw other seen
          | inr mine ↦ rw mine (bounded_get (refresh_grace_block_key user_id) now _ seen)
        ]

  consume_stored_bounded :
      (found : Option RefreshToken) (token_hash sub now : ℕ) (db : Sessions S)
      → IsGraceBounded store now db.keys
      → IsGraceBounded store now (consume_stored store found token_hash sub now db).0.keys
  unfolding consume_stored
  consume_stored_bounded none token_hash sub now db bounded =
      grace_bounded token_hash sub now db.keys bounded
  consume_stored_bounded (some stored) token_hash sub now db bounded =
      if_first (λ (d : Sessions S). IsGraceBounded store now d.keys)
        (not (stored.user_id == sub) || leb stored.expires_at now) _ _ bounded
        (bounded_set (refresh_grace_key token_hash) (StoreText.number sub) now db.keys bounded)

  consume_verified_bounded :
      (sub : Option ℕ) (token_hash now : ℕ) (db : Sessions S)
      → IsGraceBounded store now db.keys
      → IsGraceBounded store now (consume_verified store sub token_hash now db).0.keys
  unfolding consume_verified
  consume_verified_bounded none token_hash now db bounded = bounded
  consume_verified_bounded (some sub) token_hash now db bounded =
      consume_stored_bounded (find (is_token token_hash) db.refresh_tokens) token_hash sub now db
        bounded

  module _ (verify : ℕ → ℕ → Option ℕ) (hash : ℕ → ℕ) (users : List ℕ) where
    refresh_consumed_bounded :
        (token expires_at now : ℕ) (x : Sessions S × Consumed)
        → IsGraceBounded store now x.0.keys
        → IsGraceBounded store now
            (refresh_consumed store verify hash users token expires_at x).0.keys
    unfolding refresh_consumed generate_refresh_token
    refresh_consumed_bounded token expires_at now (db, unauthorized) bounded = bounded
    refresh_consumed_bounded token expires_at now (db, admitted sub) bounded =
        if_first (λ (d : Sessions S). IsGraceBounded store now d.keys) (any (λ u. u == sub) users) _
          _ bounded bounded

    -- The calls that touch refresh tokens, with their arguments.
    unfoldable pub run_call : SessionCall → ℕ → Sessions S → Sessions S
    run_call (refreshing token new_token expires_at) now db =
        (refresh store verify hash users token new_token expires_at now db).0
    run_call (logging_in user_id token expires_at) now db =
        generate_refresh_token store verify hash user_id token expires_at db
    run_call (logging_out token) now db = delete_refresh_token store verify hash token db
    run_call (revoking user_id) now db = (revoke_all_user_refresh_tokens store user_id now db).0

    run_call-bounded :
        (call : SessionCall) (now : ℕ) (db : Sessions S)
        → IsGraceBounded store now db.keys
        → IsGraceBounded store now (run_call call now db).keys
    unfolding run_call refresh consume_refresh_token delete_refresh_token generate_refresh_token
        revoke_all_user_refresh_tokens
    run_call-bounded (refreshing token new_token expires_at) now db bounded =
        refresh_consumed_bounded new_token expires_at now
          (consume_refresh_token store verify hash token now db)
          (consume_verified_bounded (verify token now) (hash token) now db bounded)
    run_call-bounded (logging_in user_id token expires_at) now db bounded = bounded
    run_call-bounded (logging_out token) now db bounded = bounded
    run_call-bounded (revoking user_id) now db bounded =
        bounded_set (refresh_grace_block_key user_id) (StoreText.number 1) now db.keys bounded

    -- The sessions at a moment, after calls at moments that come one after the other.
    pub data SessionsAt (db : Sessions S) : ℕ → Sessions S → Type 0 where
      since : (now : ℕ) → SessionsAt db now db
      after :
          {before : ℕ} {db' : Sessions S}
          → SessionsAt db before db'
          → (call : SessionCall) (now : ℕ) → before ≤ now
          → SessionsAt db now (run_call call now db')

    SessionsAt-bounded :
        {db db' : Sessions S} {now : ℕ}
        → ((t : ℕ) → IsGraceBounded store t db.keys)
        → SessionsAt db now db'
        → IsGraceBounded store now db'.keys
    SessionsAt-bounded fresh (since now) = fresh now
    SessionsAt-bounded fresh (after {before} {db'} path call now le) =
        run_call-bounded call now db'
          (bounded_later before now db'.keys le (SessionsAt-bounded fresh path))

    -- Whatever logins, refreshes and logouts were made before, from sessions with no used token in its
    -- grace: once all sessions of a user are ended, no refresh token that names the user is admitted at
    -- any later moment, be it unused, used or used a moment before.
    pub logout_all_is_final :
        {db db' : Sessions S} {now : ℕ} (user_id token later : ℕ)
        → ((t : ℕ) → IsGraceBounded store t db.keys)
        → SessionsAt db now db'
        → now ≤ later
        → verify token later ≡ some user_id
        → (consume_refresh_token store verify hash token later
            (revoke_all_user_refresh_tokens store user_id now db').0).1
          ≡ unauthorized
    logout_all_is_final {db} {db'} {now} user_id token later fresh path le named =
        revoked_stays_out store now user_id db' (SessionsAt-bounded fresh path) verify hash token
          later le named
