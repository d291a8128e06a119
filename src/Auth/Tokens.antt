-- ===== src/Auth/Tokens.antt =====
-- Refresh tokens: `generateRefreshToken`, `consumeRefreshToken`, `deleteRefreshToken` and
-- `revokeAllUserRefreshTokens` of src/modules/auth/token.service.ts, and `refresh` of
-- src/modules/auth/auth.service.ts; `logout` and `logoutAll` there only call the token service. A token
-- is a number; `verify` is the check of its signature at a moment, which answers the user that it
-- names, and `hash` is its digest.
use fashion_ai_be.Prelude.{
  ℕ, ◌==◌, leb, Bool, true, false, not, ◌||◌, Option, none, some, List, ◌∷◌, any, find, count,
  delete_many, if◌then◌else◌,
}
use fashion_ai_be.Redis.KeyStore.{StoreKey, StoreText, KeyStore}

pub record RefreshToken : Type 0 where
  pub user_id : ℕ
  pub token_hash : ℕ
  pub expires_at : ℕ

-- the rows of the tokens, and the store of keys
pub record Sessions (S : Type 0) : Type 0 where
  pub refresh_tokens : List RefreshToken
  pub keys : S

pub data Consumed : Type 0 where
  admitted : ℕ → Consumed
  unauthorized : Consumed

abbrev pub refresh_reuse_grace_seconds : ℕ
refresh_reuse_grace_seconds = 60

-- the keys `refresh:grace:<hash>` and `refresh:grace-block:<user>`
abbrev pub refresh_grace_key : ℕ → StoreKey
refresh_grace_key token_hash = record { namespace = 0; id = token_hash }

abbrev pub refresh_grace_block_key : ℕ → StoreKey
refresh_grace_block_key user_id = record { namespace = 1; id = user_id }

abbrev pub is_token : ℕ → RefreshToken → Bool
is_token token_hash t = t.token_hash == token_hash

abbrev pub is_user : Option StoreText → ℕ → Bool
is_user (some (StoreText.number v)) user_id = v == user_id
is_user _ user_id = false

abbrev pub is_null {ℓ} : {A : Type ℓ} → Option A → Bool
is_null none = true
is_null (some _) = false

module _ {S : Type 0} (store : KeyStore S) where
  -- `isInReuseGrace`
  unfoldable pub is_in_reuse_grace : ℕ → ℕ → ℕ → S → Bool × S
  is_in_reuse_grace token_hash user_id now keys =
      let (value, keys₁) = store.get (refresh_grace_key token_hash) now keys in
      let (blocked, keys₂) = store.get (refresh_grace_block_key user_id) now keys₁ in
      if not (is_user value user_id) then (false, keys₁) else (is_null blocked, keys₂)

  unfoldable pub consume_stored :
      Option RefreshToken → ℕ → ℕ → ℕ → Sessions S → Sessions S × Consumed
  consume_stored none token_hash sub now db =
      let (allowed, keys₁) = is_in_reuse_grace token_hash sub now db.keys in
      (record db { keys = keys₁ }, (if allowed then admitted sub else unauthorized))
  consume_stored (some stored) token_hash sub now db =
      if not (stored.user_id == sub) || leb stored.expires_at now then (db, unauthorized) else (
        record db {
          refresh_tokens = delete_many (is_token token_hash) db.refresh_tokens;
          keys =
              store.set (refresh_grace_key token_hash) (StoreText.number sub)
                refresh_reuse_grace_seconds now db.keys;
        },
        admitted sub,
      )

  unfoldable pub consume_verified : Option ℕ → ℕ → ℕ → Sessions S → Sessions S × Consumed
  consume_verified none token_hash now db = (db, unauthorized)
  consume_verified (some sub) token_hash now db =
      consume_stored (find (is_token token_hash) db.refresh_tokens) token_hash sub now db

  -- `revokeAllUserRefreshTokens`
  unfoldable pub revoke_all_user_refresh_tokens : ℕ → ℕ → Sessions S → Sessions S × ℕ
  revoke_all_user_refresh_tokens user_id now db = (
    record {
      refresh_tokens = delete_many (λ t. t.user_id == user_id) db.refresh_tokens;
      keys =
          store.set (refresh_grace_block_key user_id) (StoreText.number 1)
            refresh_reuse_grace_seconds now db.keys;
    },
    count (λ t. t.user_id == user_id) db.refresh_tokens,
  )

  module _ (verify : ℕ → ℕ → Option ℕ) (hash : ℕ → ℕ) where
    -- `consumeRefreshToken`
    unfoldable pub consume_refresh_token : ℕ → ℕ → Sessions S → Sessions S × Consumed
    consume_refresh_token token now db = consume_verified (verify token now) (hash token) now db

    -- `deleteRefreshToken`
    unfoldable pub delete_refresh_token : ℕ → Sessions S → Sessions S
    delete_refresh_token token db = record db {
      refresh_tokens = delete_many (is_token (hash token)) db.refresh_tokens;
    }

    -- `generateRefreshToken`, with the token that was signed and the end of its life
    unfoldable pub generate_refresh_token : ℕ → ℕ → ℕ → Sessions S → Sessions S
    generate_refresh_token user_id token expires_at db = record db {
      refresh_tokens =
          record { user_id = user_id; token_hash = hash token; expires_at = expires_at }
          ∷ db.refresh_tokens;
    }

    -- `refresh`, for the users of the list
    unfoldable pub refresh_consumed : List ℕ → ℕ → ℕ → Sessions S × Consumed → Sessions S × Consumed
    refresh_consumed users token expires_at (db, unauthorized) = (db, unauthorized)
    refresh_consumed users token expires_at (db, admitted sub) =
        if any (λ u. u == sub) users
        then (generate_refresh_token sub token expires_at db, admitted sub)
        else (db, unauthorized)

    unfoldable pub refresh : List ℕ → ℕ → ℕ → ℕ → ℕ → Sessions S → Sessions S × Consumed
    unfolding refresh_consumed
    refresh users token new_token expires_at now db =
        refresh_consumed users new_token expires_at (consume_refresh_token token now db)
