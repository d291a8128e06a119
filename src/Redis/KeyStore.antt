-- ===== src/Redis/KeyStore.antt =====
-- What the services ask of src/common/services/redis.service.ts: keys with a time to live. Redis and
-- the store in memory that takes its place keep these laws; they differ in whether a key still lives
-- at the very moment of its end.
use fashion_ai_be.Prelude.{
  ℕ, ◌+◌, ◌*◌, ◌==◌, ◌≤◌, ◌<◌, ◌≡◌, Bool, true, ◌&&◌, Option, none, some, if◌then◌else◌,
}

-- A key `<namespace>:<id>`.
pub record StoreKey : Type 0 where
  pub namespace : ℕ
  pub id : ℕ

abbrev pub same_key : StoreKey → StoreKey → Bool
same_key a b = a.namespace == b.namespace && a.id == b.id

-- A value of the store, a text: the empty one, the digits of a number, or a word, that is a text of
-- which `parseInt` makes NaN. A text that begins with digits and goes on otherwise is left out.
pub data StoreText : Type 0 where
  blank : StoreText
  number : ℕ → StoreText
  word : ℕ → StoreText

abbrev pub locked_text : StoreText
locked_text = StoreText.word 0

abbrev pub nan_text : StoreText
nan_text = StoreText.word 1

-- `get`, `set` with a time to live in seconds, and `del`, at a moment in milliseconds.
pub record KeyStore (S : Type 0) : Type 0 where
  pub get : StoreKey → ℕ → S → Option StoreText × S
  pub set : StoreKey → StoreText → ℕ → ℕ → S → S
  pub del : StoreKey → S → S
  -- whether a key that ends at the second moment lives at the first
  pub lives : ℕ → ℕ → Bool
  pub lives_before : (t e : ℕ) → t < e → lives t e ≡ true
  pub lives_longer : (t e e' : ℕ) → e ≤ e' → lives t e ≡ true → lives t e' ≡ true
  pub lives_by : (t e : ℕ) → lives t e ≡ true → t ≤ e
  pub get-get :
      (k k' : StoreKey) (t t' : ℕ) (s : S) → t ≤ t' → (get k' t' (get k t s).1).0 ≡ (get k' t' s).0
  pub get-set :
      (k k' : StoreKey) (v : StoreText) (ttl t t' : ℕ) (s : S)
      → 0 < ttl
      → t ≤ t'
      → (get k' t' (set k v ttl t s)).0 ≡ (
          if same_key k k'
          then (if lives t' (t + ttl * 1000) then some v else none)
          else (get k' t' s).0)
  pub get-del :
      (k k' : StoreKey) (t' : ℕ) (s : S)
      → (get k' t' (del k s)).0 ≡ (if same_key k k' then none else (get k' t' s).0)
