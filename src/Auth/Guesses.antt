-- ===== src/Auth/Guesses.antt =====
-- How often the one-time code of an address can be guessed.
use fashion_ai_be.Prelude.{
  ℕ, ◌+◌, ◌*◌, ◌==◌, ◌≤◌, ◌<◌, ◌≡◌, refl, sym, ap, ◌∙◌, ◌↔◌, inl, inr, leb, true, false, ◌&&◌,
  Option, none, some, List, arith, if◌then◌else◌, Bool-cases,
}
use fashion_ai_be.Redis.KeyStore.{StoreKey, StoreText, same_key}
use fashion_ai_be.Redis.Memory.{
  Entry, get, set, del, incr_by, parsed, plus, to_text, is_set, is_over, end_of, memory-get-get,
  memory-get-put, memory-get-del,
}
use fashion_ai_be.Auth.Otp.{
  Verification, verified, otp_key, otp_attempts_key, otp_cooldown_key, otp_ttl_seconds,
  otp_resend_cooldown_seconds, otp_max_attempts, is_code, is_too_many, send_pending, send_for,
  send_email_verification, verify_pending, verify_for, verify_email,
}

module _ (email code start : ℕ) where
  abbrev over_at : ℕ
  over_at = start + otp_ttl_seconds * 1000

  -- From `now` on, after `n` wrong guesses: the code is there until its time is over or too many
  -- guesses were made, and while its time lasts the guesses are counted.
  pub record IsCounted (n now : ℕ) (keys : List Entry) : Type 0 where
    stored :
        (t : ℕ)
        → now ≤ t
        → (get (otp_key email) t keys).0
          ≡ (if leb t over_at && leb n otp_max_attempts then some (StoreText.number code) else none)
    counted :
        (t : ℕ) → now ≤ t → t ≤ over_at → parsed (get (otp_attempts_key email) t keys).0 ≡ some n

  get-set :
      (k k' : StoreKey) (v : StoreText) (ttl now t : ℕ) (keys : List Entry)
      → (get k' t (set k v (some ttl) now keys)).0 ≡ (
          if same_key k k'
          then (if is_over t (end_of (some ttl) now) then none else some v)
          else (get k' t keys).0)
  unfolding set
  get-set k k' v ttl now t keys = memory-get-put k k' v (end_of (some ttl) now) t keys

  -- What the keys of the code and of the guesses hold after a code was sent.
  sent-IsCounted :
      (keys : List Entry)
      → is_set (get (otp_cooldown_key email) start keys).0 ≡ false
      → IsCounted 0 start (send_pending email code start keys).0.keys
  unfolding send_pending
  sent-IsCounted keys free =
      let keys₁ = (get (otp_cooldown_key email) start keys).1 in
      let keys₂ = set (otp_key email) (StoreText.number code) (some otp_ttl_seconds) start keys₁ in
      let keys₃ = del (otp_attempts_key email) keys₂ in
      rw free (record {
        stored = λ t le. ground (
          arith,
          get-set (otp_cooldown_key email) (otp_key email) (StoreText.number 1)
              otp_resend_cooldown_seconds start t keys₃,
          memory-get-del (otp_attempts_key email) (otp_key email) t keys₂,
          get-set (otp_key email) (otp_key email) (StoreText.number code) otp_ttl_seconds start t
              keys₁,
        );
        counted = λ t le in_time. ground (
          arith,
          get-set (otp_cooldown_key email) (otp_attempts_key email) (StoreText.number 1)
              otp_resend_cooldown_seconds start t keys₃,
          memory-get-del (otp_attempts_key email) (otp_attempts_key email) t keys₂,
        );
      })

  module _ (n now later guess : ℕ) (keys : List Entry) (since : start ≤ now) (le : now ≤ later)
      (c : IsCounted n now keys) where
    abbrev count_after : Option ℕ
    count_after = plus (parsed (get (otp_attempts_key email) later keys).0) 1

    -- While the time of the code lasts, the guess is counted on top of the wrong ones before.
    counts : later ≤ over_at → count_after ≡ some (n + 1)
    counts in_time = rw (c.counted later le in_time) refl

    -- the keys after the guess was counted
    abbrev counted_keys : List Entry
    counted_keys =
        set (otp_attempts_key email) (to_text count_after) (some otp_ttl_seconds) later
          (get (otp_attempts_key email) later keys).1

    code_kept :
        (t : ℕ)
        → later ≤ t
        → (get (otp_key email) t counted_keys).0
          ≡ (if leb t over_at && leb n otp_max_attempts then some (StoreText.number code) else none)
    code_kept t le' =
        let seen =
          get-set (otp_attempts_key email) (otp_key email) (to_text count_after) otp_ttl_seconds
            later t (get (otp_attempts_key email) later keys).1 in
        seen
        ∙ memory-get-get (otp_attempts_key email) (otp_key email) later t keys le'
        ∙ c.stored t (omega arith)

    one_more :
        (t : ℕ)
        → later ≤ t
        → t ≤ over_at
        → parsed (get (otp_attempts_key email) t counted_keys).0 ≡ some (n + 1)
    one_more t le' in_time =
        let seen =
          get-set (otp_attempts_key email) (otp_attempts_key email) (to_text count_after)
            otp_ttl_seconds later t (get (otp_attempts_key email) later keys).1 in
        ground (arith, seen, counts (omega arith))

    -- the keys after the guess was compared
    abbrev compared_keys : List Entry
    compared_keys = (get (otp_key email) later counted_keys).1

    too_many_IsCounted :
        is_too_many count_after ≡ true → IsCounted (n + 1) later (del (otp_key email) counted_keys)
    too_many_IsCounted many = record {
      stored = λ t le'.
          ground
            (arith, memory-get-del (otp_key email) (otp_key email) t counted_keys, counts, many);
      counted = λ t le' in_time.
          ap parsed (memory-get-del (otp_key email) (otp_attempts_key email) t counted_keys)
          ∙ one_more t le' in_time;
    }

    compared_IsCounted : is_too_many count_after ≡ false → IsCounted (n + 1) later compared_keys
    compared_IsCounted few = record {
      stored = λ t le'.
          memory-get-get (otp_key email) (otp_key email) later t counted_keys le'
          ∙ code_kept t le'
          ∙ ground (arith, counts, few);
      counted = λ t le' in_time.
          ap parsed
            (memory-get-get (otp_key email) (otp_attempts_key email) later t counted_keys le')
          ∙ one_more t le' in_time;
    }

    -- The code is found exactly when it is the guess, in time, and among the first five.
    is_found :
        is_too_many count_after ≡ false
        → is_code (get (otp_key email) later counted_keys).0 guess
          ≡ (leb later over_at && leb n otp_max_attempts && code == guess)
    is_found few = ground (arith, code_kept later (omega arith))

    wrong_IsCounted :
        (code == guess) ≡ false
        → IsCounted (n + 1) later (verify_pending email guess later keys).0.keys
    unfolding verify_pending incr_by
    wrong_IsCounted wrong = elim (Bool-cases (is_too_many count_after)) [
      | inl many ↦ rw many (too_many_IsCounted many)
      | inr few ↦
          let missed : is_code (get (otp_key email) later counted_keys).0 guess ≡ false =
            is_found few ∙ ground (arith, wrong) in
          rw (few, missed) (compared_IsCounted few)
    ]

    wrong_unverified :
        (code == guess) ≡ false → (verify_pending email guess later keys).0.is_verified ≡ some false
    unfolding verify_pending incr_by
    wrong_unverified wrong = elim (Bool-cases (is_too_many count_after)) [
      | inl many ↦ rw many refl
      | inr few ↦
          let missed : is_code (get (otp_key email) later counted_keys).0 guess ≡ false =
            is_found few ∙ ground (arith, wrong) in
          rw (few, missed) refl
    ]

    answer_iff :
        ((verify_pending email guess later keys).1 ≡ verified)
        ↔ ((later ≤ over_at) × (n < otp_max_attempts) × (code ≡ guess))
    unfolding verify_pending incr_by
    answer_iff = elim (Bool-cases (is_too_many count_after)) [
      | inl many ↦ rw many ((λ h. cc), (λ h. absurd (ground (arith, many, counts h.0, h.1))))
      | inr few ↦ elim (Bool-cases (is_code (get (otp_key email) later counted_keys).0 guess)) [
        | inl hit ↦
            let found = sym (is_found few) ∙ hit in
            rw (few, hit)
              (
                (λ h. (
                  ground (arith, found),
                  ground (arith, found, few, c.counted later le),
                  ground (arith, found),
                )),
                (λ h. refl),
              )
        | inr missed ↦
            let not_found = sym (is_found few) ∙ missed in
            rw (few, missed) ((λ h. cc), (λ h. absurd (ground (arith, not_found, h.0, h.1, h.2))))
      ]
    ]

-- Guesses that were all wrong, one after the other: how many, until when, and what they left.
pub data Guessed (email code start : ℕ) (v : Verification) : ℕ → ℕ → Verification → Type 0 where
  none_yet : Guessed email code start v 0 start v
  guessed :
      {n now : ℕ} {v' : Verification}
      → Guessed email code start v n now v'
      → (guess later : ℕ) → now ≤ later
      → (code == guess) ≡ false
      → Guessed email code start v (n + 1) later (verify_email email guess later v').0

module _ (email code start : ℕ) (keys : List Entry)
    (free : is_set (get (otp_cooldown_key email) start keys).0 ≡ false) where
  abbrev pub mailed : Verification
  mailed =
      (send_email_verification email code start
        (record { is_verified = some false; keys = keys })).0

  mailed_pending : (send_pending email code start keys).0.is_verified ≡ some false
  unfolding send_pending
  mailed_pending = rw free refl

  Guessed-IsCounted :
      {n now : ℕ} {v : Verification}
      → Guessed email code start mailed n now v
      → (v.is_verified ≡ some false) × (start ≤ now) × IsCounted email code start n now v.keys
  unfolding verify_email verify_for send_email_verification send_for
  Guessed-IsCounted none_yet =
      (mailed_pending, omega arith, sent-IsCounted email code start keys free)
  Guessed-IsCounted (guessed {n} {now} {v'} path guess later le wrong) =
      let (pending, since, counted) = Guessed-IsCounted path in
      rw pending (
        wrong_unverified email code start n now later guess v'.keys since le counted wrong,
        omega arith,
        wrong_IsCounted email code start n now later guess v'.keys since le counted wrong,
      )

  -- After a code was sent and any number of wrong guesses were made, one after the other: a guess
  -- verifies the address exactly when it is the code, its five minutes are not over, and fewer than
  -- five wrong guesses were made before.
  pub code_found_iff :
      {n now : ℕ} {v : Verification} (guess later : ℕ)
      → Guessed email code start mailed n now v
      → now ≤ later
      → ((verify_email email guess later v).1 ≡ verified)
        ↔ ((later ≤ start + otp_ttl_seconds * 1000) × (n < otp_max_attempts) × (code ≡ guess))
  unfolding verify_email verify_for
  code_found_iff {n} {now} {v} guess later path le =
      let (pending, since, counted) = Guessed-IsCounted path in
      rw pending (answer_iff email code start n now later guess v.keys since le counted)
