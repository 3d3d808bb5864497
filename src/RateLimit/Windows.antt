-- ===== src/RateLimit/Windows.antt =====
-- How many attempts a window admits, and when a refused client is admitted again.
use geek_interview.Base.{
  ℕ, ◌+◌, ◌*◌, ◌≤◌, ◌<◌, ◌≡◌, refl, ◌∙◌, Bool, true, false, Option, none, some, List, [], ◌∷◌, All,
  arith, ltb, leb, ◌==◌, ==→eq, ==_refl, if◌then◌else◌, inl, inr, Bool-cases, Option-cases,
}
use geek_interview.Errors.{Result, ok, err, business, rate_limited, retry_after, too_many_requests}
use geek_interview.Tables.{select, find_by, update_where, find_by_key, IsUnique}
use geek_interview.RateLimit.{
  Bucket, key_of, prune, fresh_bucket, count_up, retry_seconds, admit_at, admit,
}

-- A bucket that is still open stays.
pub find_by-prune :
    (now key : ℕ) (bs : List Bucket) (b : Bucket)
    → find_by key_of key bs ≡ some b
    → now < b.reset_at
    → find_by key_of key (prune now bs) ≡ some b
unfolding find_by prune select
find_by-prune now key [] b e h = cc
find_by-prune now key (x ∷ bs) b e h = ground (arith, find_by-prune now key bs b)

-- An update of one key leaves the bucket of another alone.
pub find_by-other :
    (f : Bucket → Bucket) (key other : ℕ) (bs : List Bucket)
    → ((b : Bucket) → (b.key == other) ≡ true → (f b).key ≡ other)
    → (key == other) ≡ false
    → find_by key_of key (update_where (λ x. x.key == other) f bs) ≡ find_by key_of key bs
unfolding find_by update_where
find_by-other f key other [] same d = refl
find_by-other f key other (x ∷ bs) same d =
    ground (arith, same x, find_by-other f key other bs same d)

-- The bucket of a key after an update of its own.
pub find_by-own :
    (f : Bucket → Bucket) (key : ℕ) (bs : List Bucket) (b : Bucket)
    → (f b).key ≡ key
    → find_by key_of key bs ≡ some b
    → find_by key_of key (update_where (λ x. x.key == key) f bs) ≡ some (f b)
unfolding find_by update_where
find_by-own f key [] b same e = cc
find_by-own f key (x ∷ bs) b same e = elim (Bool-cases (x.key == key)) [
  | inl hit ↦ let here : x ≡ b = ground arith in rw (hit, here) (ground (arith, same))
  | inr miss ↦ rw (miss, miss) (find_by-own f key bs b same (ground arith))
]

-- Whether an attempt was admitted.
abbrev pub one_of : Result Bool → ℕ
one_of (ok b) = 1
one_of (err e) = 0

-- How many attempts under `key` a sequence of attempts under any keys admits.
abbrev pub admitted_count : ℕ → ℕ → ℕ → List (ℕ × ℕ) → List Bucket → ℕ
admitted_count max window_ms key [] bs = 0
admitted_count max window_ms key (e ∷ es) bs =
    let r = admit max window_ms e.0 e.1 bs in
    (if e.0 == key then one_of r.0 else 0) + admitted_count max window_ms key es r.1

-- What an answer at any bucket does to the bucket of another key.
pub admit_at-other :
    (max window_ms key other now : ℕ) (bs : List Bucket) (o : Option Bucket)
    → (key == other) ≡ false
    → find_by key_of key (admit_at max window_ms other now bs o).1 ≡ find_by key_of key bs
unfolding find_by
admit_at-other max window_ms key other now bs none d = ground arith
admit_at-other max window_ms key other now bs (some x) d =
    let reopened =
      find_by-other (λ _. fresh_bucket window_ms other now) key other bs (λ b h. refl) d in
    let counted = find_by-other count_up key other bs (λ b h. ==→eq _ _ h) d in
    elim (Bool-cases (leb x.reset_at now)) [
      | inl late ↦ rw late reopened
      | inr soon ↦ elim (Bool-cases (ltb x.count max)) [
        | inl room ↦ rw (soon, room) counted
        | inr full ↦ rw (soon, full) refl
      ]
    ]

module _ (max window_ms key : ℕ) where
  -- An attempt of another key leaves an open bucket as it is.
  other_attempt :
      (other now : ℕ) (bs : List Bucket) (b : Bucket)
      → find_by key_of key bs ≡ some b
      → now < b.reset_at
      → (key == other) ≡ false
      → find_by key_of key (admit max window_ms other now bs).1 ≡ some b
  unfolding admit
  other_attempt other now bs b e h d =
      admit_at-other max window_ms key other now (prune now bs) _ d ∙ find_by-prune now key bs b e h

  -- An attempt of the key itself, while its bucket is open: admitted and counted, or refused.
  own_attempt :
      (now : ℕ) (bs : List Bucket) (b : Bucket)
      → find_by key_of key bs ≡ some b
      → now < b.reset_at
      → b.count ≤ max
      → (c : Bucket) × (find_by key_of key (admit max window_ms key now bs).1 ≡ some c)
        × (c.reset_at ≡ b.reset_at)
        × (c.count ≡ b.count + one_of (admit max window_ms key now bs).0)
        × (c.count ≤ max)
  unfolding admit
  own_attempt now bs b e h few =
      let kept = find_by-prune now key bs b e h in
      let its_key : b.key ≡ key = find_by_key key_of key bs e in
      let soon : leb b.reset_at now ≡ false = ground arith in
      elim (Bool-cases (ltb b.count max)) [
        | inl room ↦
            rw (kept, soon, room)
              (
                count_up b,
                find_by-own count_up key (prune now bs) b its_key kept,
                refl,
                refl,
                ground arith,
              )
        | inr full ↦ rw (kept, soon, full) (b, kept, refl, omega arith, few)
      ]

  -- From an open bucket on.
  open_bound :
      (es : List (ℕ × ℕ)) (bs : List Bucket) (b : Bucket)
      → find_by key_of key bs ≡ some b
      → All (λ e. e.1 < b.reset_at) es
      → b.count ≤ max
      → b.count + admitted_count max window_ms key es bs ≤ max
  open_bound [] bs b e h few = omega (arith, few)
  open_bound (x ∷ es) bs b e h few = elim (Bool-cases (key == x.0)) [
    | inl same ↦
        let k : key ≡ x.0 = ==→eq _ _ same in
        let (c, found, reset, count, still) = own_attempt x.1 bs b e h.0 few in
        let rest = open_bound es (admit max window_ms key x.1 bs).1 c found (rw reset h.1) still in
        rw (← k, ==_refl key) (omega (arith, rest, count))
    | inr other ↦
        let rest =
          open_bound es (admit max window_ms x.0 x.1 bs).1 b
            (other_attempt x.0 x.1 bs b e h.0 other) h.1 few in
        let off : (x.0 == key) ≡ false = ground arith in rw off (omega (arith, rest))
  ]

  -- If at least one attempt is allowed and a key has no open bucket at its first attempt, the window
  -- that this one opens admits at most the allowed number of attempts under the key, whatever other
  -- clients do in between.
  pub window_bound :
      (start : ℕ) (es : List (ℕ × ℕ)) (bs : List Bucket)
      → 1 ≤ max
      → find_by key_of key (prune start bs) ≡ none
      → All (λ e. e.1 < start + window_ms) es
      → admitted_count max window_ms key ((key, start) ∷ es) bs ≤ max
  unfolding admit find_by
  window_bound start es bs some_room none_open within =
      let rest =
        open_bound es (fresh_bucket window_ms key start ∷ prune start bs)
          (fresh_bucket window_ms key start) (rw (==_refl key) refl) within some_room in
      rw (none_open, ==_refl key) rest

-- A key that has no bucket has none after a pruning.
pub find_by-prune-none :
    (now key : ℕ) (bs : List Bucket)
    → find_by key_of key bs ≡ none
    → find_by key_of key (prune now bs) ≡ none
unfolding find_by prune select
find_by-prune-none now key [] e = refl
find_by-prune-none now key (x ∷ bs) e = ground (arith, find_by-prune-none now key bs)

pub prune-IsUnique :
    (now : ℕ) (bs : List Bucket) → IsUnique key_of bs → IsUnique key_of (prune now bs)
unfolding prune select
prune-IsUnique now [] u = tt
prune-IsUnique now (x ∷ bs) u = elim (Bool-cases (leb x.reset_at now)) [
  | inl late ↦ rw late (prune-IsUnique now bs u.1)
  | inr soon ↦ rw soon (find_by-prune-none now x.key bs u.0, prune-IsUnique now bs u.1)
]

-- A bucket that is over goes.
pub prune-over :
    (now key : ℕ) (bs : List Bucket) (b : Bucket)
    → IsUnique key_of bs
    → find_by key_of key bs ≡ some b
    → b.reset_at ≤ now
    → find_by key_of key (prune now bs) ≡ none
unfolding find_by prune select
prune-over now key [] b u e h = cc
prune-over now key (x ∷ bs) b u e h = elim (Bool-cases (x.key == key)) [
  | inl hit ↦
      let here : x ≡ b = ground arith in
      let late : leb x.reset_at now ≡ true = ground (arith, here) in
      rw late (find_by-prune-none now key bs (rw (← ==→eq _ _ hit) u.0))
  | inr miss ↦ ground (arith, prune-over now key bs b u.1)
]

-- With one bucket for a key, a client that is refused with a number of seconds is admitted at any
-- time that is at least that much later, if no other attempt came in between.
pub retry_is_enough :
    (max window_ms key now later s : ℕ) (bs : List Bucket) {left : List Bucket}
    → IsUnique key_of bs
    → admit max window_ms key now bs
      ≡ (err (business rate_limited too_many_requests (retry_after s)), left)
    → now + 1000 * s ≤ later
    → (admit max window_ms key later left).0 ≡ ok true
unfolding admit
retry_is_enough max window_ms key now later s bs {left} u refused waited =
    elim (Option-cases (find_by key_of key (prune now bs))) [
      | inl free ↦ absurd (ground arith)
      | inr (b, e) ↦
          let same : left ≡ prune now bs = ground arith in
          let says : s ≡ retry_seconds b.reset_at now = ground arith in
          let over : b.reset_at ≤ later = ground arith in
          let gone : find_by key_of key (prune later left) ≡ none =
            rw same (prune-over later key (prune now bs) b (prune-IsUnique now bs u) e over) in
          rw gone refl
    ]
