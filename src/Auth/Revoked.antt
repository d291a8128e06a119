-- ===== src/Auth/Revoked.antt =====
-- What a refresh token is good for after it was used, and after the sessions of its user were ended.
use fashion_ai_be.Prelude.{
  ℕ, ◌+◌, ◌*◌, ◌==◌, ◌≤◌, ◌<◌, ◌≡◌, refl, ◌∙◌, inl, inr, leb, Bool, true, false, not, ◌&&◌, ◌||◌,
  Option, none, some, List, [], ◌∷◌, arith, find, delete_many, if◌then◌else◌, Bool-cases,
  Option-cases,
}
use fashion_ai_be.Redis.KeyStore.{StoreText, same_key, KeyStore}
use fashion_ai_be.Auth.Tokens.{
  RefreshToken, Sessions, admitted, unauthorized, refresh_reuse_grace_seconds, refresh_grace_key,
  refresh_grace_block_key, is_token, is_user, is_null, is_in_reuse_grace, consume_stored,
  consume_verified, revoke_all_user_refresh_tokens, consume_refresh_token,
}

find-delete_many {ℓ} :
    {A : Type ℓ} (p q : A → Bool) (xs : List A) {r : A}
    → find p (delete_many q xs) ≡ some r
    → q r ≡ false
find-delete_many p q [] h = cc
find-delete_many p q (x ∷ xs) {r} h = ground (arith, find-delete_many p q xs {r = r})

find-delete_self {ℓ} : {A : Type ℓ} (p : A → Bool) (xs : List A) → find p (delete_many p xs) ≡ none
find-delete_self p [] = refl
find-delete_self p (x ∷ xs) = ground (arith, find-delete_self p xs)

-- the text of a block
abbrev one : StoreText
one = StoreText.number 1

module _ {S : Type 0} (store : KeyStore S) where
  abbrev pub grace_of : ℕ → ℕ → S → Option StoreText
  grace_of token_hash t keys = (store.get (refresh_grace_key token_hash) t keys).0

  -- From `now` on, no used token is in its grace for longer than a token that is used now would be.
  abbrev pub IsGraceBounded : ℕ → S → Type 0
  IsGraceBounded now keys =
      (token_hash t : ℕ) (v : StoreText)
      → now ≤ t
      → grace_of token_hash t keys ≡ some v
      → store.lives t (now + refresh_reuse_grace_seconds * 1000) ≡ true

  module _ (now : ℕ) (user_id : ℕ) (db : Sessions S) (bounded : IsGraceBounded now db.keys) where
    abbrev revoked : Sessions S
    revoked = (revoke_all_user_refresh_tokens store user_id now db).0

    grace_revoked :
        (token_hash later : ℕ)
        → now ≤ later
        → grace_of token_hash later (
            store.set (refresh_grace_block_key user_id) one refresh_reuse_grace_seconds now db.keys)
          ≡ grace_of token_hash later db.keys
    grace_revoked token_hash later le =
        store.get-set (refresh_grace_block_key user_id) (refresh_grace_key token_hash) one
          refresh_reuse_grace_seconds now later db.keys (omega arith) le

    not_in_grace :
        (token_hash later : ℕ)
        → now ≤ later
        → (is_in_reuse_grace store token_hash user_id later (
            store.set
              (refresh_grace_block_key user_id)
              one
              refresh_reuse_grace_seconds
              now
              db.keys)).0
          ≡ false
    unfolding is_in_reuse_grace
    not_in_grace token_hash later le = elim (Option-cases (grace_of token_hash later db.keys)) [
      | inl gone ↦ rw (grace_revoked token_hash later le ∙ gone) refl
      | inr (v, there) ↦
          let keys' =
            store.set (refresh_grace_block_key user_id) one refresh_reuse_grace_seconds now
              db.keys in
          let block = refresh_grace_block_key user_id in
          let self : same_key block block ≡ true = ground arith in
          let blocked : (store.get block later
                (store.get (refresh_grace_key token_hash) later keys').1).0
              ≡ some one =
            store.get-get (refresh_grace_key token_hash) block later later keys' (omega arith)
            ∙ store.get-set block block one refresh_reuse_grace_seconds now later db.keys
                (omega arith) le
            ∙ rw (self, bounded token_hash later v le there) refl in
          elim (Bool-cases (is_user (grace_of token_hash later keys') user_id)) [
            | inl mine ↦ rw (mine, blocked) refl
            | inr other ↦ rw other refl
          ]
    ]

    -- After the sessions of a user were ended, as on a change of the password, no refresh token that
    -- names the user is admitted at any later time, one in its grace included, where no token is in
    -- its grace for longer than one used at that moment.
    pub revoked_stays_out :
        (verify : ℕ → ℕ → Option ℕ) (hash : ℕ → ℕ) (token later : ℕ)
        → now ≤ later
        → verify token later ≡ some user_id
        → (consume_refresh_token store verify hash token later
            (revoke_all_user_refresh_tokens store user_id now db).0).1
          ≡ unauthorized
    unfolding consume_refresh_token consume_verified consume_stored revoke_all_user_refresh_tokens
    revoked_stays_out verify hash token later le named =
        let rest = delete_many (λ (t : RefreshToken). t.user_id == user_id) db.refresh_tokens in
        elim (Option-cases (find (is_token (hash token)) rest)) [
          | inl gone ↦ rw (named, gone) (rw (not_in_grace (hash token) later le) refl)
          | inr (stored, there) ↦
              let other : (stored.user_id == user_id) ≡ false =
                find-delete_many (is_token (hash token))
                  (λ (t : RefreshToken). t.user_id == user_id) db.refresh_tokens {r = stored}
                  there in
              rw (named, there) (rw other refl)
        ]

  module _ (verify : ℕ → ℕ → Option ℕ) (hash : ℕ → ℕ) (token now later sub : ℕ) (db : Sessions S)
      {stored : RefreshToken} (named : verify token now ≡ some sub)
      (there : find (is_token (hash token)) db.refresh_tokens ≡ some stored)
      (own : stored.user_id ≡ sub) (valid : now < stored.expires_at) (le : now ≤ later)
      (named_later : verify token later ≡ some sub) where
    abbrev used_keys : S
    used_keys =
        store.set (refresh_grace_key (hash token)) (StoreText.number sub)
          refresh_reuse_grace_seconds now db.keys

    abbrev used_db : Sessions S
    used_db = record {
      refresh_tokens = delete_many (is_token (hash token)) db.refresh_tokens;
      keys = used_keys;
    }

    consumed : consume_refresh_token store verify hash token now db ≡ (used_db, admitted sub)
    unfolding consume_refresh_token consume_verified consume_stored
    consumed =
        let fresh : (not (stored.user_id == sub) || leb stored.expires_at now) ≡ false =
          ground arith in
        rw (named, there) (rw fresh refl)

    grace_used : (is_in_reuse_grace store (hash token) sub later used_keys).0 ≡ (
        store.lives later (now + refresh_reuse_grace_seconds * 1000)
        && is_null (store.get (refresh_grace_block_key sub) later db.keys).0)
    unfolding is_in_reuse_grace
    grace_used =
        let grace = refresh_grace_key (hash token) in
        let block = refresh_grace_block_key sub in
        let self : same_key grace grace ≡ true = ground arith in
        let whole =
          store.get-set grace grace (StoreText.number sub) refresh_reuse_grace_seconds now later
            db.keys (omega arith) le in
        let unblocked : (store.get block later (store.get grace later used_keys).1).0
            ≡ (store.get block later db.keys).0 =
          store.get-get grace block later later used_keys (omega arith)
          ∙ store.get-set grace block (StoreText.number sub) refresh_reuse_grace_seconds now later
              db.keys (omega arith) le in
        elim (Bool-cases (store.lives later (now + refresh_reuse_grace_seconds * 1000))) [
          | inl alive ↦
              let own_value : (sub == sub) ≡ true = ground arith in
              let seen : grace_of (hash token) later used_keys ≡ some (StoreText.number sub) =
                whole ∙ rw (self, alive) refl in
              rw seen (rw (own_value, unblocked, alive) refl)
          | inr over ↦
              let seen : grace_of (hash token) later used_keys ≡ none =
                whole ∙ rw (self, over) refl in
              rw seen (rw over refl)
        ]

    -- A refresh token that is on record is admitted once; after that it is admitted again only while
    -- its grace of a minute lasts and no end of the user's sessions blocks it.
    pub used_token :
        let first = consume_refresh_token store verify hash token now db in
        let block = (store.get (refresh_grace_block_key sub) later db.keys).0 in
        (first.1 ≡ admitted sub)
        × ((consume_refresh_token store verify hash token later first.0).1 ≡ (
            if store.lives later (now + refresh_reuse_grace_seconds * 1000) && is_null block
            then admitted sub
            else unauthorized))
    unfolding consume_refresh_token consume_verified consume_stored
    used_token =
        let gone = find-delete_self (is_token (hash token)) db.refresh_tokens in
        rw consumed (refl, rw (named_later, gone) (rw grace_used refl))
