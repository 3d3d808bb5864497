-- ===== src/RateLimit/Refining.antt =====
-- The limiter as a window of its own for every client: the specification, and that the map of
-- buckets, which is pruned at every attempt, implements it.
use geek_interview.Base.{
  ℕ, ◌+◌, ◌≤◌, ◌≡◌, refl, ap, ◌∙◌, Bool, true, false, Option, none, some, List, [], ◌∷◌, arith, ltb,
  leb, ◌==◌, ==→eq, ==_refl, if◌then◌else◌, inl, inr, Bool-cases, Option-cases,
}
use geek_interview.Errors.{Result, ok, err, business, rate_limited, retry_after, too_many_requests}
use geek_interview.Tables.{find_by, find_by_key, IsUnique, update_where-IsUnique}
use geek_interview.RateLimit.{Bucket, key_of, prune, count_up, retry_seconds, admit_at, admit}
use geek_interview.RateLimit.Windows.{
  find_by-own, find_by-prune, find_by-prune-none, admit_at-other, prune-over, prune-IsUnique,
}

-- What a client has left: how many attempts were counted, until when.
pub record Window : Type 0 where
  pub count : ℕ
  pub reset_at : ℕ

-- A window that is over counts no more.
abbrev pub open_at : ℕ → Option Window → Option Window
open_at now none = none
open_at now (some w) = if leb w.reset_at now then none else some w

-- One attempt at a client's window.
abbrev pub attempt : ℕ → ℕ → ℕ → Option Window → Result Bool × Option Window
attempt max window_ms now none = (ok true, some (record { count = 1; reset_at = now + window_ms }))
attempt max window_ms now (some w) =
    if ltb w.count max then (ok true, some (record w { count = w.count + 1 })) else (
      err (business rate_limited too_many_requests (retry_after (retry_seconds w.reset_at now))),
      some w,
    )

-- The clients are independent.
abbrev pub Clients : Type 0
Clients = ℕ → Option Window

abbrev pub set_client : Clients → ℕ → Option Window → Clients
set_client clients key w other = if other == key then w else clients other

-- The answers to a sequence of attempts, each with its key and its time.
abbrev pub client_answers : ℕ → ℕ → List (ℕ × ℕ) → Clients → List (Result Bool)
client_answers max window_ms [] clients = []
client_answers max window_ms (e ∷ es) clients =
    let r = attempt max window_ms e.1 (open_at e.1 (clients e.0)) in
    r.0 ∷ client_answers max window_ms es (set_client clients e.0 r.1)

abbrev pub guard_answers : ℕ → ℕ → List (ℕ × ℕ) → List Bucket → List (Result Bool)
guard_answers max window_ms [] buckets = []
guard_answers max window_ms (e ∷ es) buckets =
    let r = admit max window_ms e.0 e.1 buckets in r.0 ∷ guard_answers max window_ms es r.1

-- Attempts come in the order of their times.
abbrev pub IsOrdered : ℕ → List (ℕ × ℕ) → Type 0
IsOrdered now [] = Unit
IsOrdered now (e ∷ es) = (now ≤ e.1) × IsOrdered e.1 es

abbrev pub window_of : Option Bucket → Option Window
window_of none = none
window_of (some b) = some (record { count = b.count; reset_at = b.reset_at })

-- The buckets, at a time, show the open windows of the clients.
pub record Shows (now : ℕ) (buckets : List Bucket) (clients : Clients) : Type 0 where
  pub unique : IsUnique key_of buckets
  pub same :
      (key later : ℕ)
      → now ≤ later
      → open_at later (window_of (find_by key_of key buckets)) ≡ open_at later (clients key)

-- After a pruning, a bucket is in the map exactly if its window is open.
pruned_window :
    (now key : ℕ) (buckets : List Bucket)
    → IsUnique key_of buckets
    → window_of (find_by key_of key (prune now buckets))
      ≡ open_at now (window_of (find_by key_of key buckets))
pruned_window now key buckets u = elim (Option-cases (find_by key_of key buckets)) [
  | inl gone ↦ rw (gone, find_by-prune-none now key buckets gone) refl
  | inr (b, e) ↦ elim (Bool-cases (leb b.reset_at now)) [
    | inl late ↦ rw (e, prune-over now key buckets b u e (ground arith), late) refl
    | inr soon ↦ rw (e, find_by-prune now key buckets b e (ground arith), soon) refl
  ]
]

open_later :
    (now later : ℕ) (w : Option Window)
    → now ≤ later
    → open_at later (open_at now w) ≡ open_at later w
open_later now later none h = refl
open_later now later (some w) h = ground arith

-- What an attempt answers and leaves in the bucket of its key is what the client's window says.
admit_at-attempt :
    (max window_ms key now : ℕ) (buckets : List Bucket) (o : Option Bucket)
    → find_by key_of key buckets ≡ o
    → open_at now (window_of o) ≡ window_of o
    → ((admit_at max window_ms key now buckets o).0 ≡ (attempt max window_ms now (window_of o)).0)
      × (window_of (find_by key_of key (admit_at max window_ms key now buckets o).1)
          ≡ (attempt max window_ms now (window_of o)).1)
unfolding find_by
admit_at-attempt max window_ms key now buckets none e still = (refl, rw (==_refl key) refl)
admit_at-attempt max window_ms key now buckets (some b) e still =
    let soon : leb b.reset_at now ≡ false = ground arith in
    elim (Bool-cases (ltb b.count max)) [
      | inl room ↦
          rw (soon, room)
            (
              refl,
              ap window_of
                  (find_by-own count_up key buckets b (find_by_key key_of key buckets e) e),
            )
      | inr full ↦ rw (soon, full) (refl, ap window_of e)
    ]

admit_at-IsUnique :
    (max window_ms key now : ℕ) (buckets : List Bucket) (o : Option Bucket)
    → IsUnique key_of buckets
    → find_by key_of key buckets ≡ o
    → open_at now (window_of o) ≡ window_of o
    → IsUnique key_of (admit_at max window_ms key now buckets o).1
admit_at-IsUnique max window_ms key now buckets none u e still = (e, u)
admit_at-IsUnique max window_ms key now buckets (some b) u e still =
    let soon : leb b.reset_at now ≡ false = ground arith in
    elim (Bool-cases (ltb b.count max)) [
      | inl room ↦
          rw (soon, room)
            (update_where-IsUnique key_of (λ x. x.key == key) count_up (λ x. refl) buckets u)
      | inr full ↦ rw (soon, full) u
    ]

module _ (max window_ms now : ℕ) (buckets : List Bucket) (clients : Clients)
    (shown : Shows now buckets clients) (key t : ℕ) (later : now ≤ t) where
  abbrev own : Option Window
  own = open_at t (clients key)

  own_window : window_of (find_by key_of key (prune t buckets)) ≡ own
  own_window = pruned_window t key buckets shown.unique ∙ shown.same key t later

  still_open :
      open_at t (window_of (find_by key_of key (prune t buckets)))
      ≡ window_of (find_by key_of key (prune t buckets))
  still_open = rw own_window (open_later t t (clients key) (omega arith))

  agreed :
      ((admit max window_ms key t buckets).0 ≡ (attempt max window_ms t own).0)
      × (window_of (find_by key_of key (admit max window_ms key t buckets).1)
          ≡ (attempt max window_ms t own).1)
  unfolding admit
  agreed =
      let (answer, left) =
        admit_at-attempt max window_ms key t (prune t buckets)
          (find_by key_of key (prune t buckets)) refl still_open in
      (
        answer ∙ ap (λ w. (attempt max window_ms t w).0) own_window,
        left ∙ ap (λ w. (attempt max window_ms t w).1) own_window,
      )

  other_window :
      (k : ℕ)
      → (k == key) ≡ false
      → window_of (find_by key_of k (admit max window_ms key t buckets).1)
        ≡ open_at t (window_of (find_by key_of k buckets))
  unfolding admit
  other_window k d =
      ap window_of (
        admit_at-other max window_ms k key t (prune t buckets)
          (find_by key_of key (prune t buckets)) d)
      ∙ pruned_window t k buckets shown.unique

  -- One attempt keeps map and clients together.
  step_Shows :
      Shows t
        (admit max window_ms key t buckets).1
        (set_client clients key (attempt max window_ms t own).1)
  unfolding admit
  step_Shows = record {
    unique =
        admit_at-IsUnique max window_ms key t (prune t buckets)
          (find_by key_of key (prune t buckets)) (prune-IsUnique t buckets shown.unique) refl
          still_open;
    same = λ k after h. elim (Bool-cases (k == key)) [
      | inl here ↦ rw (here, ==→eq _ _ here) (ap (open_at after) agreed.1)
      | inr other ↦ rw other (
          ap (open_at after) (other_window k other)
          ∙ open_later t after (window_of (find_by key_of k buckets)) h
          ∙ shown.same k after (omega arith))
    ];
  }

-- The guard with its one map of buckets, whose entries are deleted when they are over, answers a
-- sequence of attempts, under any keys and in the order of their times, as if every client had a
-- window of its own that the attempts of others and the deletions do not touch, as long as buckets
-- and windows agree at the start and a key has one bucket.
pub guard_answers-client_answers :
    (max window_ms now : ℕ) (es : List (ℕ × ℕ)) (buckets : List Bucket) (clients : Clients)
    → Shows now buckets clients
    → IsOrdered now es
    → guard_answers max window_ms es buckets ≡ client_answers max window_ms es clients
guard_answers-client_answers max window_ms now [] buckets clients shown ordered = refl
guard_answers-client_answers max window_ms now (e ∷ es) buckets clients shown ordered =
    rw (agreed max window_ms now buckets clients shown e.0 e.1 ordered.0).0 (
      ap (◌∷◌ ((attempt max window_ms e.1 (open_at e.1 (clients e.0))).0)) (
        guard_answers-client_answers max window_ms e.1 es _ _
          (step_Shows max window_ms now buckets clients shown e.0 e.1 ordered.0) ordered.1))
