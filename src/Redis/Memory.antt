-- ===== src/Redis/Memory.antt =====
-- The store in memory of src/common/services/redis.service.ts, which serves while Redis is away.
use fashion_ai_be.Prelude.{
  ℕ, ◌+◌, ◌*◌, ◌==◌, ◌≤◌, ◌<◌, ◌≡◌, refl, sym, ap, ◌∙◌, inl, inr, ltb, Bool, true, false, not,
  Option, none, some, List, [], ◌∷◌, find, delete_many, arith, if◌then◌else◌, Bool-cases,
  Option-cases,
}
use fashion_ai_be.Redis.KeyStore.{StoreKey, StoreText, same_key, locked_text, nan_text, KeyStore}

-- an entry of `inMemoryStore`
pub record Entry : Type 0 where
  pub key : StoreKey
  pub value : StoreText
  pub expires_at : Option ℕ

abbrev pub is_key : StoreKey → Entry → Bool
is_key k e = same_key e.key k

abbrev pub is_over : ℕ → Option ℕ → Bool
is_over now none = false
is_over now (some at) = ltb at now

-- `Map.set` and `Map.delete`
abbrev pub put : StoreKey → StoreText → Option ℕ → List Entry → List Entry
put k v at es = record { key = k; value = v; expires_at = at } ∷ delete_many (is_key k) es

abbrev pub drop : StoreKey → List Entry → List Entry
drop k es = delete_many (is_key k) es

unfoldable pub get_found : Option Entry → StoreKey → ℕ → List Entry → Option StoreText × List Entry
get_found none k now es = (none, es)
get_found (some e) k now es =
    if is_over now e.expires_at then (none, drop k es) else (some e.value, es)

-- `get`
unfoldable pub get : StoreKey → ℕ → List Entry → Option StoreText × List Entry
unfolding get_found
get k now es = get_found (find (is_key k) es) k now es

-- a time to live of 0 counts as none
abbrev pub end_of : Option ℕ → ℕ → Option ℕ
end_of none now = none
end_of (some ttl) now = if ttl == 0 then none else some (now + ttl * 1000)

-- `set`
unfoldable pub set : StoreKey → StoreText → Option ℕ → ℕ → List Entry → List Entry
set k v ttl_seconds now es = put k v (end_of ttl_seconds now) es

-- `currentStr ? parseInt(currentStr, 10) : 0`, where `none` is NaN
abbrev pub parsed : Option StoreText → Option ℕ
parsed none = some 0
parsed (some StoreText.blank) = some 0
parsed (some (StoreText.number n)) = some n
parsed (some (StoreText.word _)) = none

-- a sum with what may be NaN
abbrev pub plus : Option ℕ → ℕ → Option ℕ
plus none amount = none
plus (some n) amount = some (n + amount)

-- `toString` of what may be NaN
abbrev pub to_text : Option ℕ → StoreText
to_text none = nan_text
to_text (some n) = StoreText.number n

-- `incrBy`, and `incr` for an amount of 1
unfoldable pub incr_by : StoreKey → ℕ → Option ℕ → ℕ → List Entry → Option ℕ × List Entry
incr_by k amount ttl_seconds now es =
    let (current, es₁) = get k now es in
    let n = plus (parsed current) amount in (n, set k (to_text n) ttl_seconds now es₁)

-- a text as a condition
abbrev pub is_set : Option StoreText → Bool
is_set none = false
is_set (some StoreText.blank) = false
is_set (some (StoreText.number _)) = true
is_set (some (StoreText.word _)) = true

-- `acquireLock`
unfoldable pub acquire_lock : StoreKey → ℕ → ℕ → List Entry → Bool × List Entry
acquire_lock k ttl_seconds now es =
    let (held, es₁) = get k now es in
    if is_set held then (false, es₁) else (true, set k locked_text (some ttl_seconds) now es₁)

-- `del` and `releaseLock`
unfoldable pub del : StoreKey → List Entry → List Entry
del k es = drop k es

abbrev pub memory_lives : ℕ → ℕ → Bool
memory_lives t e = not (ltb e t)

find-drop :
    (k k' : StoreKey) (es : List Entry)
    → find (is_key k') (delete_many (is_key k) es)
      ≡ (if same_key k k' then none else find (is_key k') es)
find-drop k k' [] = ground arith
find-drop k k' (e ∷ es) = ground (arith, find-drop k k' es)

abbrev seen : Option Entry → ℕ → Option StoreText
seen none now = none
seen (some e) now = if is_over now e.expires_at then none else some e.value

get_seen :
    (k : StoreKey) (now : ℕ) (es : List Entry) → (get k now es).0 ≡ seen (find (is_key k) es) now
unfolding get
get_seen k now es = ground arith

get-drop :
    (k k' : StoreKey) (now : ℕ) (es : List Entry)
    → (get k' now (drop k es)).0 ≡ (if same_key k k' then none else (get k' now es).0)
get-drop k k' now es =
    ground (arith, get_seen k' now (drop k es), get_seen k' now es, find-drop k k' es)

-- What a key holds after a write of it or of another key.
pub memory-get-put :
    (k k' : StoreKey) (v : StoreText) (until : Option ℕ) (t : ℕ) (es : List Entry)
    → (get k' t (put k v until es)).0
      ≡ (if same_key k k' then (if is_over t until then none else some v) else (get k' t es).0)
memory-get-put k k' v until t es =
    ground (arith, get_seen k' t (put k v until es), get_seen k' t es, find-drop k k' es)

pub memory-get-set :
    (k k' : StoreKey) (v : StoreText) (ttl t t' : ℕ) (es : List Entry)
    → 0 < ttl
    → t ≤ t'
    → (get k' t' (set k v (some ttl) t es)).0 ≡ (
        if same_key k k'
        then (if memory_lives t' (t + ttl * 1000) then some v else none)
        else (get k' t' es).0)
unfolding set
memory-get-set k k' v ttl t t' es lt le =
    ground (arith, get_seen k' t' (set k v (some ttl) t es), get_seen k' t' es, find-drop k k' es)

-- whether a read leaves the entries as they are
abbrev over_found : Option Entry → ℕ → Bool
over_found none now = false
over_found (some e) now = is_over now e.expires_at

left_whole :
    (k : StoreKey) (t : ℕ) (es : List Entry)
    → over_found (find (is_key k) es) t ≡ false
    → (get k t es).1 ≡ es
unfolding get
left_whole k t es h = ground arith

dropped :
    (k : StoreKey) (t : ℕ) (es : List Entry) {e : Entry}
    → find (is_key k) es ≡ some e
    → is_over t e.expires_at ≡ true
    → (get k t es).1 ≡ drop k es
unfolding get
dropped k t es h over = ground arith

find-same :
    (k k' : StoreKey) (es : List Entry)
    → same_key k k' ≡ true
    → find (is_key k') es ≡ find (is_key k) es
find-same k k' [] h = refl
find-same k k' (e ∷ es) h = ground (arith, find-same k k' es)

still_over : (t t' : ℕ) (at : Option ℕ) → t ≤ t' → is_over t at ≡ true → is_over t' at ≡ true
still_over t t' none le h = h
still_over t t' (some e) le h = ground arith

pub memory-get-get :
    (k k' : StoreKey) (t t' : ℕ) (es : List Entry)
    → t ≤ t'
    → (get k' t' (get k t es).1).0 ≡ (get k' t' es).0
memory-get-get k k' t t' es le = elim (Option-cases (find (is_key k) es)) [
  | inl missing ↦ ap (λ r. (get k' t' r).0) (left_whole k t es (rw missing refl))
  | inr (e, found) ↦ elim (Bool-cases (is_over t e.expires_at)) [
    | inl over ↦
        ap (λ r. (get k' t' r).0) (dropped k t es found over)
        ∙ get-drop k k' t' es
        ∙ gone e found over
    | inr alive ↦ ap (λ r. (get k' t' r).0) (left_whole k t es (rw found alive))
  ]
]
  where
    gone :
        (e : Entry)
        → find (is_key k) es ≡ some e
        → is_over t e.expires_at ≡ true
        → (if same_key k k' then none else (get k' t' es).0) ≡ (get k' t' es).0
    gone e found over = elim (Bool-cases (same_key k k')) [
      | inl same ↦
          let there : find (is_key k') es ≡ some e = find-same k k' es same ∙ found in
          let over' : is_over t' e.expires_at ≡ true = still_over t t' e.expires_at le over in
          rw same (sym (get_seen k' t' es ∙ rw there (rw over' refl)))
      | inr other ↦ rw other refl
    ]

pub memory-get-del :
    (k k' : StoreKey) (t : ℕ) (es : List Entry)
    → (get k' t (del k es)).0 ≡ (if same_key k k' then none else (get k' t es).0)
unfolding del
memory-get-del k k' t es = get-drop k k' t es

pub memory_lives_before : (t e : ℕ) → t < e → memory_lives t e ≡ true
memory_lives_before t e lt = ground arith

pub memory_lives_longer : (t e e' : ℕ) → e ≤ e' → memory_lives t e ≡ true → memory_lives t e' ≡ true
memory_lives_longer t e e' le h = ground arith

pub memory_lives_by : (t e : ℕ) → memory_lives t e ≡ true → t ≤ e
memory_lives_by t e h = ground arith

-- The store in memory as the services use it.
unfoldable pub memory_store : KeyStore (List Entry)
memory_store = record {
  get = get;
  set = λ k v ttl now es. set k v (some ttl) now es;
  del = del;
  lives = memory_lives;
  lives_before = memory_lives_before;
  lives_longer = memory_lives_longer;
  lives_by = memory_lives_by;
  get-get = memory-get-get;
  get-set = memory-get-set;
  get-del = memory-get-del;
}

-- A lock that was taken is not taken again before its time is over, whoever asks, and it can be taken
-- once it was released.
pub acquire_lock_excludes :
    (k : StoreKey) (ttl now later : ℕ) (es : List Entry)
    → 0 < ttl
    → now ≤ later
    → later ≤ now + ttl * 1000
    → (acquire_lock k ttl now es).0 ≡ true
    → let taken = (acquire_lock k ttl now es).1 in
      ((acquire_lock k ttl later taken).0 ≡ false)
      × ((acquire_lock k ttl later (del k taken)).0 ≡ true)
unfolding acquire_lock
acquire_lock_excludes k ttl now later es some_time le in_time h =
    elim (Bool-cases (is_set (get k now es).0)) [
      | inl held ↦ absurd (ground (arith, rw held at h))
      | inr free ↦
          let es₁ = (get k now es).1 in
          let self : same_key k k ≡ true = ground arith in
          let alive : memory_lives later (now + ttl * 1000) ≡ true = ground arith in
          let locked : (get k later (set k locked_text (some ttl) now es₁)).0 ≡ some locked_text =
            memory-get-set k k locked_text ttl now later es₁ some_time le ∙ rw (self, alive) refl in
          let unlocked : (get k later (del k (set k locked_text (some ttl) now es₁))).0 ≡ none =
            memory-get-del k k later (set k locked_text (some ttl) now es₁) ∙ rw self refl in
          rw free (rw locked refl, rw unlocked refl)
    ]
