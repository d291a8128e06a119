-- ===== src/Auth/Otp.antt =====
-- The one-time code that verifies an e-mail address: `sendEmailVerification` and `verifyEmail` of
-- src/modules/auth/auth.service.ts, for the user of one address and with the keys in the store in
-- memory. An address, as it is after `toLowerCase().trim()`, and a code are numbers; `otp` is the code
-- that is drawn. The message that carries it is left out.
use fashion_ai_be.Prelude.{
  ℕ, ◌*◌, ◌==◌, ltb, Bool, true, false, Option, none, some, List, if◌then◌else◌,
}
use fashion_ai_be.Redis.KeyStore.{StoreKey, StoreText}
use fashion_ai_be.Redis.Memory.{Entry, get, set, del, incr_by, is_set}

abbrev pub otp_ttl_seconds : ℕ
otp_ttl_seconds = 5 * 60

abbrev pub otp_resend_cooldown_seconds : ℕ
otp_resend_cooldown_seconds = 60

abbrev pub otp_max_attempts : ℕ
otp_max_attempts = 5

-- the keys `otp:verify-email:<email>`, `otp:verify-email:attempts:<email>` and
-- `otp:verify-email:cooldown:<email>`
abbrev pub otp_key : ℕ → StoreKey
otp_key email = record { namespace = 2; id = email }

abbrev pub otp_attempts_key : ℕ → StoreKey
otp_attempts_key email = record { namespace = 3; id = email }

abbrev pub otp_cooldown_key : ℕ → StoreKey
otp_cooldown_key email = record { namespace = 4; id = email }

-- the `isVerified` of the user of the address, where there is one, and the keys
pub record Verification : Type 0 where
  pub is_verified : Option Bool
  pub keys : List Entry

pub data OtpAnswer : Type 0 where
  unknown_address sent already_verified cooling_down : OtpAnswer
  verified invalid_code too_many_attempts : OtpAnswer

unfoldable pub send_pending : ℕ → ℕ → ℕ → List Entry → Verification × OtpAnswer
send_pending email otp now keys =
    let (cooling, keys₁) = get (otp_cooldown_key email) now keys in
    if is_set cooling then (record { is_verified = some false; keys = keys₁ }, cooling_down) else (
      record {
        is_verified = some false;
        keys =
            set (otp_cooldown_key email) (StoreText.number 1) (some otp_resend_cooldown_seconds) now
              (del (otp_attempts_key email)
                (set (otp_key email) (StoreText.number otp) (some otp_ttl_seconds) now keys₁));
      },
      sent,
    )

unfoldable pub send_for : Option Bool → ℕ → ℕ → ℕ → List Entry → Verification × OtpAnswer
unfolding send_pending
send_for none email otp now keys = (record { is_verified = none; keys = keys }, unknown_address)
send_for (some true) email otp now keys =
    (record { is_verified = some true; keys = keys }, already_verified)
send_for (some false) email otp now keys = send_pending email otp now keys

-- `sendEmailVerification`
unfoldable pub send_email_verification : ℕ → ℕ → ℕ → Verification → Verification × OtpAnswer
unfolding send_for
send_email_verification email otp now v = send_for v.is_verified email otp now v.keys

-- `storedOtp && storedOtp === dto.otp`
abbrev pub is_code : Option StoreText → ℕ → Bool
is_code (some (StoreText.number otp)) guess = otp == guess
is_code _ guess = false

-- `attempts > OTP_MAX_ATTEMPTS`, where `none` is NaN
abbrev pub is_too_many : Option ℕ → Bool
is_too_many none = false
is_too_many (some attempts) = ltb otp_max_attempts attempts

unfoldable pub verify_pending : ℕ → ℕ → ℕ → List Entry → Verification × OtpAnswer
verify_pending email guess now keys =
    let (attempts, keys₁) = incr_by (otp_attempts_key email) 1 (some otp_ttl_seconds) now keys in
    let (stored, keys₂) = get (otp_key email) now keys₁ in
    if is_too_many attempts
    then (record { is_verified = some false; keys = del (otp_key email) keys₁ }, too_many_attempts)
    else if is_code stored guess
    then (
      record {
        is_verified = some true;
        keys = del (otp_attempts_key email) (del (otp_key email) keys₂);
      },
      verified,
    )
    else (record { is_verified = some false; keys = keys₂ }, invalid_code)

unfoldable pub verify_for : Option Bool → ℕ → ℕ → ℕ → List Entry → Verification × OtpAnswer
unfolding verify_pending
verify_for none email guess now keys = (record { is_verified = none; keys = keys }, invalid_code)
verify_for (some true) email guess now keys =
    (record { is_verified = some true; keys = keys }, already_verified)
verify_for (some false) email guess now keys = verify_pending email guess now keys

-- `verifyEmail`
unfoldable pub verify_email : ℕ → ℕ → ℕ → Verification → Verification × OtpAnswer
unfolding verify_for
verify_email email guess now v = verify_for v.is_verified email guess now v.keys
