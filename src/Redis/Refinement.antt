-- ===== src/Redis/Refinement.antt =====
-- The store in memory behaves as keys that each hold a value up to a moment: entries that are over and
-- still lie in the map are never seen.
use fashion_ai_be.Prelude.{
  ℕ, ◌+◌, ◌-◌, ◌*◌, ltb, ◌&&◌, ◌≤◌, ◌≡◌, refl, ap, ◌∙◌, Bool, true, false, Option, none, some, List,
  [], ◌∷◌, arith, if◌then◌else◌,
}
use fashion_ai_be.Redis.KeyStore.{StoreKey, StoreText, same_key, locked_text, nan_text}
use fashion_ai_be.Redis.Memory.{
  Entry, is_over, end_of, get, set, incr_by, acquire_lock, del, parsed, plus, to_text, is_set,
  memory-get-get, memory-get-del, memory-get-put,
}

-- A call of the service, with its arguments.
pub data StoreCall : Type 0 where
  reading : StoreKey → StoreCall
  writing : StoreKey → StoreText → Option ℕ → StoreCall
  counting : StoreKey → ℕ → Option ℕ → StoreCall
  locking : StoreKey → ℕ → StoreCall
  deleting : StoreKey → StoreCall

pub data StoreAnswer : Type 0 where
  value : Option StoreText → StoreAnswer
  counted : Option ℕ → StoreAnswer
  locked : Bool → StoreAnswer
  done : StoreAnswer

-- The call on the store in memory.
unfoldable pub run_memory : StoreCall → ℕ → List Entry → StoreAnswer × List Entry
run_memory (reading k) now es = let (v, es') = get k now es in (value v, es')
run_memory (writing k v ttl) now es = (done, set k v ttl now es)
run_memory (counting k amount ttl) now es =
    let (n, es') = incr_by k amount ttl now es in (counted n, es')
run_memory (locking k ttl) now es = let (b, es') = acquire_lock k ttl now es in (locked b, es')
run_memory (deleting k) now es = (done, del k es)

-- The abstract store: what each key holds at each moment to come, in milliseconds.
abbrev pub Held : Type 0
Held = StoreKey → ℕ → Option StoreText

-- More than `ttl` seconds have passed between the two moments; no time to live, or one of 0, never
-- passes.
abbrev pub has_passed : Option ℕ → ℕ → ℕ → Bool
has_passed none since t = false
has_passed (some ttl) since t = ltb 0 ttl && ltb (ttl * 1000) (t - since)

-- From a moment on the key holds the text, until its time has passed.
abbrev pub hold : StoreKey → StoreText → Option ℕ → ℕ → Held → Held
hold k v ttl since held k' t =
    if same_key k k' then (if has_passed ttl since t then none else some v) else held k' t

abbrev pub release : StoreKey → Held → Held
release k held k' t = if same_key k k' then none else held k' t

-- The number that a key counts from: 0 where it holds nothing or the empty text, none for a word.
abbrev pub count_of : Option StoreText → Option ℕ
count_of none = some 0
count_of (some StoreText.blank) = some 0
count_of (some (StoreText.number n)) = some n
count_of (some (StoreText.word _)) = none

-- The answer of a count, and what the key holds after it: a key that held no number holds NaN.
abbrev pub count_on : StoreKey → Option ℕ → ℕ → Option ℕ → ℕ → Held → StoreAnswer × Held
count_on k none amount ttl now held = (counted none, hold k nan_text ttl now held)
count_on k (some n) amount ttl now held =
    (counted (some (n + amount)), hold k (StoreText.number (n + amount)) ttl now held)

-- A key is free to be locked where it holds nothing or the empty text.
abbrev pub lock_on : StoreKey → Option StoreText → ℕ → ℕ → Held → StoreAnswer × Held
lock_on k none ttl now held = (locked true, hold k locked_text (some ttl) now held)
lock_on k (some StoreText.blank) ttl now held =
    (locked true, hold k locked_text (some ttl) now held)
lock_on k (some (StoreText.number _)) ttl now held = (locked false, held)
lock_on k (some (StoreText.word _)) ttl now held = (locked false, held)

-- The call on the abstract store.
unfoldable pub run_held : StoreCall → ℕ → Held → StoreAnswer × Held
run_held (reading k) now held = (value (held k now), held)
run_held (writing k v ttl) now held = (done, hold k v ttl now held)
run_held (counting k amount ttl) now held = count_on k (count_of (held k now)) amount ttl now held
run_held (locking k ttl) now held = lock_on k (held k now) ttl now held
run_held (deleting k) now held = (done, release k held)

-- The entries show from `now` on what the keys hold.
abbrev pub Shows : ℕ → List Entry → Held → Type 0
Shows now es held = (k : StoreKey) (t : ℕ) → now ≤ t → (get k t es).0 ≡ held k t

Shows-later :
    (now now' : ℕ) (es : List Entry) (held : Held)
    → now ≤ now'
    → Shows now es held
    → Shows now' es held
Shows-later now now' es held le shows k t le' = shows k t (omega arith)

Shows-read :
    (k : StoreKey) (now : ℕ) (es : List Entry) (held : Held)
    → Shows now es held
    → Shows now (get k now es).1 held
Shows-read k now es held shows k' t le = memory-get-get k k' now t es le ∙ shows k' t le

-- The moment of the end that the entries keep is the one at which the time has passed.
over-passed :
    (ttl : Option ℕ) (since t : ℕ)
    → since ≤ t
    → is_over t (end_of ttl since) ≡ has_passed ttl since t
over-passed none since t le = refl
over-passed (some ttl) since t le = ground arith

Shows-set :
    (k : StoreKey) (v : StoreText) (ttl : Option ℕ) (now : ℕ) (es : List Entry) (held : Held)
    → Shows now es held
    → Shows now (set k v ttl now es) (hold k v ttl now held)
unfolding set
Shows-set k v ttl now es held shows k' t le =
    let passed = over-passed ttl now t le in
    memory-get-put k k' v (end_of ttl now) t es ∙ rw (passed, shows k' t le) refl

count-Shows :
    (k : StoreKey) (seen : Option StoreText) (amount : ℕ) (ttl : Option ℕ) (now : ℕ)
    (es : List Entry) (held : Held)
    → Shows now es held
    → let n = plus (parsed seen) amount in
      let r = count_on k (count_of seen) amount ttl now held in
      (counted n ≡ r.0) × Shows now (set k (to_text n) ttl now es) r.1
count-Shows k none amount ttl now es held shows =
    (refl, Shows-set k (StoreText.number (0 + amount)) ttl now es held shows)
count-Shows k (some StoreText.blank) amount ttl now es held shows =
    (refl, Shows-set k (StoreText.number (0 + amount)) ttl now es held shows)
count-Shows k (some (StoreText.number n)) amount ttl now es held shows =
    (refl, Shows-set k (StoreText.number (n + amount)) ttl now es held shows)
count-Shows k (some (StoreText.word _)) amount ttl now es held shows =
    (refl, Shows-set k nan_text ttl now es held shows)

lock-Shows :
    (k : StoreKey) (seen : Option StoreText) (ttl now : ℕ) (es : List Entry) (held : Held)
    → Shows now es held
    → let m : Bool × List Entry =
        if is_set seen then (false, es) else (true, set k locked_text (some ttl) now es) in
      let r = lock_on k seen ttl now held in (locked m.0 ≡ r.0) × Shows now m.1 r.1
lock-Shows k none ttl now es held shows =
    (refl, Shows-set k locked_text (some ttl) now es held shows)
lock-Shows k (some StoreText.blank) ttl now es held shows =
    (refl, Shows-set k locked_text (some ttl) now es held shows)
lock-Shows k (some (StoreText.number _)) ttl now es held shows = (refl, shows)
lock-Shows k (some (StoreText.word _)) ttl now es held shows = (refl, shows)

-- One call gives the same answer on both, and leaves what each shows the same.
run-Shows :
    (call : StoreCall) (now : ℕ) (es : List Entry) (held : Held)
    → Shows now es held
    → ((run_memory call now es).0 ≡ (run_held call now held).0)
      × Shows now (run_memory call now es).1 (run_held call now held).1
unfolding run_memory run_held incr_by acquire_lock
run-Shows (reading k) now es held shows =
    (ap value (shows k now (omega arith)), Shows-read k now es held shows)
run-Shows (writing k v ttl) now es held shows = (refl, Shows-set k v ttl now es held shows)
run-Shows (counting k amount ttl) now es held shows =
    let seen = shows k now (omega arith) in
    rw seen (
      count-Shows k (held k now) amount ttl now (get k now es).1 held
        (Shows-read k now es held shows))
run-Shows (locking k ttl) now es held shows =
    let seen = shows k now (omega arith) in
    rw seen
      (lock-Shows k (held k now) ttl now (get k now es).1 held (Shows-read k now es held shows))
run-Shows (deleting k) now es held shows = (
  refl,
  λ k' t le. memory-get-del k k' t es ∙ ap (λ x. if same_key k k' then none else x) (shows k' t le),
)

-- The answers to calls, each with the time that has passed since the one before.
unfoldable pub memory_answers : List (ℕ × StoreCall) → ℕ → List Entry → List StoreAnswer
memory_answers [] now es = []
memory_answers (c ∷ cs) now es =
    let r = run_memory c.1 (now + c.0) es in r.0 ∷ memory_answers cs (now + c.0) r.1

unfoldable pub held_answers : List (ℕ × StoreCall) → ℕ → Held → List StoreAnswer
held_answers [] now held = []
held_answers (c ∷ cs) now held =
    let r = run_held c.1 (now + c.0) held in r.0 ∷ held_answers cs (now + c.0) r.1

answers_shown :
    (calls : List (ℕ × StoreCall)) (now : ℕ) (es : List Entry) (held : Held)
    → Shows now es held
    → memory_answers calls now es ≡ held_answers calls now held
unfolding memory_answers held_answers
answers_shown [] now es held shows = refl
answers_shown (c ∷ cs) now es held shows =
    let one =
      run-Shows c.1 (now + c.0) es held (Shows-later now (now + c.0) es held (omega arith) shows) in
    let rest =
      answers_shown cs (now + c.0) (run_memory c.1 (now + c.0) es).1
        (run_held c.1 (now + c.0) held).1 one.1 in
    rw (one.0, rest) refl

empty_shows : (k : StoreKey) (t : ℕ) → (get k t []).0 ≡ none
unfolding get
empty_shows k t = refl

-- Whatever calls are made one after the other on an empty store in memory, their answers are those of
-- keys that each hold the last text that was written to it, until its time to live has passed. A time
-- to live is in seconds and none where it is 0; a key counts from 0 where it holds nothing or the empty text, and is NaN
-- once it is counted while it holds a word; a lock is such a word.
pub memory_refines_held :
    (calls : List (ℕ × StoreCall)) (now : ℕ)
    → memory_answers calls now [] ≡ held_answers calls now (λ k t. none)
memory_refines_held calls now = answers_shown calls now [] (λ k t. none) (λ k t le. empty_shows k t)
