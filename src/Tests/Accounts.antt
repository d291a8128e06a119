-- ===== src/Tests/Accounts.antt =====
-- Refresh tokens and locks over the store in memory.
use fashion_ai_be.Prelude.{
  ℕ, ◌+◌, ◌*◌, ◌≤◌, ◌<◌, ◌↔◌, ◌≡◌, refl, ◌&&◌, true, false, Option, none, some, List, [], ◌∷◌,
  arith, if◌then◌else◌,
}
use fashion_ai_be.Redis.KeyStore.{StoreKey}
use fashion_ai_be.Redis.Memory.{Entry, get, del, acquire_lock, memory_store, acquire_lock_excludes}
use fashion_ai_be.Auth.Tokens.{
  RefreshToken, Sessions, admitted, unauthorized, refresh_reuse_grace_seconds,
  refresh_grace_block_key, is_null, consume_refresh_token, revoke_all_user_refresh_tokens,
}
use fashion_ai_be.Auth.Revoked.{used_token, IsGraceBounded}
use fashion_ai_be.Auth.Grace.{refreshing, since, after, run_call, logout_all_is_final}
use fashion_ai_be.Redis.Refinement.{
  StoreCall, locking, reading, counting, memory_answers, held_answers, memory_refines_held,
}
use fashion_ai_be.Auth.Otp.{
  Verification, send_email_verification, verify_email, verified, otp_ttl_seconds, otp_max_attempts,
}
use fashion_ai_be.Auth.Guesses.{none_yet, guessed, code_found_iff}

abbrev stored_token : RefreshToken
stored_token = record { user_id = 7; token_hash = 5; expires_at = 600000 }

abbrev sessions : Sessions (List Entry)
sessions = record { refresh_tokens = stored_token ∷ []; keys = [] }

abbrev verify : ℕ → ℕ → Option ℕ
verify token now = some 7

abbrev hash : ℕ → ℕ
hash token = token

used_example :
    let first = consume_refresh_token memory_store verify hash 5 1000 sessions in
    let block = (memory_store.get (refresh_grace_block_key 7) 2000 sessions.keys).0 in
    (first.1 ≡ admitted 7)
    × ((consume_refresh_token memory_store verify hash 5 2000 first.0).1 ≡ (
        if memory_store.lives 2000 (1000 + refresh_reuse_grace_seconds * 1000) && is_null block
        then admitted 7
        else unauthorized))
used_example =
    used_token memory_store verify hash 5 1000 2000 7 sessions {stored = stored_token} refl refl
      refl (omega arith) (omega arith) refl

no_keys : (t : ℕ) → IsGraceBounded memory_store t sessions.keys
unfolding memory_store get
no_keys t h at v le there = cc

final_example :
    (consume_refresh_token memory_store verify hash 5 3000
      (revoke_all_user_refresh_tokens memory_store 7 2000
        (run_call memory_store verify hash (7 ∷ []) (refreshing 5 6 700000) 2000 sessions)).0).1
    ≡ unauthorized
final_example =
    logout_all_is_final memory_store verify hash (7 ∷ []) {db = sessions} 7 5 3000 no_keys
      (after (since 0) (refreshing 5 6 700000) 2000 (omega arith)) (omega arith) refl

abbrev lock : StoreKey
lock = record { namespace = 9; id = 4 }

lock_example :
    let taken = (acquire_lock lock 30 1000 []).1 in
    ((acquire_lock lock 30 5000 taken).0 ≡ false)
    × ((acquire_lock lock 30 5000 (del lock taken)).0 ≡ true)
unfolding acquire_lock get
lock_example =
    acquire_lock_excludes lock 30 1000 5000 [] (omega arith) (omega arith) (omega arith) refl

abbrev lock_calls : List (ℕ × StoreCall)
lock_calls =
    (1000, locking lock 30)
    ∷ (29000, locking lock 30)
    ∷ (0, counting lock 1 none)
    ∷ (1, reading lock)
    ∷ []

refines_example : memory_answers lock_calls 0 [] ≡ held_answers lock_calls 0 (λ k t. none)
refines_example = memory_refines_held lock_calls 0

abbrev mailed_code : ℕ
mailed_code = 4711

abbrev after_code : Verification
after_code =
    (send_email_verification 3 mailed_code 1000 (record { is_verified = some false; keys = [] })).0

otp_example :
    ((verify_email 3 mailed_code 6000 (verify_email 3 1234 5000 after_code).0).1 ≡ verified) ↔ (
      (6000 ≤ 1000 + otp_ttl_seconds * 1000) × (1 < otp_max_attempts) × (mailed_code ≡ mailed_code))
unfolding get
otp_example =
    code_found_iff 3 mailed_code 1000 [] refl mailed_code 6000
      (guessed none_yet 1234 5000 (omega arith) refl) (omega arith)
