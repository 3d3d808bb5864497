-- ===== src/Tables.antt =====
-- A database table as the list of its rows: SELECT, UPDATE and their laws.
pub mod Rows
pub mod Sorting
pub mod Members
use mathlib.Core.Option
use mathlib.Core.Path.{subst}
use geek_interview.Base.{
  ℕ, ◌+◌, ◌≤◌, ◌≡◌, ◌≢◌, refl, sym, ◌∙◌, ap, Bool, true, false, ◌&&◌, Option, none, some, List, [],
  ◌∷◌, All, arith, ◌==◌, ==→eq, if◌then◌else◌, inl, inr, Bool-cases, Option-cases,
}

module _ {ℓ} {A : Type ℓ} where
  -- `SELECT … WHERE p`
  unfoldable pub select : (A → Bool) → List A → List A
  select p [] = []
  select p (x ∷ xs) = if p x then x ∷ select p xs else select p xs

  -- The first row of a SELECT: `rows[0] ?? null`.
  unfoldable pub find : (A → Bool) → List A → Option A
  find p [] = none
  find p (x ∷ xs) = if p x then some x else find p xs

  -- `UPDATE … SET f WHERE p`
  unfoldable pub update_where : (A → Bool) → (A → A) → List A → List A
  update_where p f [] = []
  update_where p f (x ∷ xs) = (if p x then f x else x) ∷ update_where p f xs

  -- How many rows an UPDATE touches.
  unfoldable pub count_where : (A → Bool) → List A → ℕ
  count_where p [] = 0
  count_where p (x ∷ xs) = (if p x then 1 else 0) + count_where p xs

  -- The row with a given primary key.
  unfoldable pub find_by : (A → ℕ) → ℕ → List A → Option A
  find_by key k [] = none
  find_by key k (x ∷ xs) = if key x == k then some x else find_by key k xs

  -- No two rows share a key.
  abbrev pub IsUnique : (A → ℕ) → List A → Type ℓ
  IsUnique key [] = Unit
  IsUnique key (x ∷ xs) = (find_by key (key x) xs ≡ none) × IsUnique key xs

  -- `ORDER BY`: insertion sort by a Boolean order.
  unfoldable pub insert_by : (A → A → Bool) → A → List A → List A
  insert_by le x [] = x ∷ []
  insert_by le x (y ∷ ys) = if le x y then x ∷ y ∷ ys else y ∷ insert_by le x ys

  unfoldable pub sort_by : (A → A → Bool) → List A → List A
  unfolding insert_by
  sort_by le [] = []
  sort_by le (x ∷ xs) = insert_by le x (sort_by le xs)

module _ {ℓ} {A : Type ℓ} where
  pub find_holds : (p : A → Bool) (xs : List A) {a : A} → find p xs ≡ some a → p a ≡ true
  unfolding find
  find_holds p [] e = cc
  find_holds p (x ∷ xs) {a} e = ground (arith, find_holds p xs {a = a})

  pub find_by_key :
      (key : A → ℕ) (k : ℕ) (xs : List A) {a : A} → find_by key k xs ≡ some a → key a ≡ k
  unfolding find_by
  find_by_key key k [] e = cc
  find_by_key key k (x ∷ xs) {a} e = ground (arith, find_by_key key k xs {a = a})

  pub find_by-update_where :
      (key : A → ℕ) (p : A → Bool) (f : A → A)
      → ((a : A) → key (f a) ≡ key a)
      → (k : ℕ) (xs : List A)
      → find_by key k (update_where p f xs)
        ≡ Option.map (λ a. if p a then f a else a) (find_by key k xs)
  unfolding find_by update_where
  find_by-update_where key p f same k [] = refl
  find_by-update_where key p f same k (x ∷ xs) =
      ground (arith, same x, find_by-update_where key p f same k xs)

  pub update_where-IsUnique :
      (key : A → ℕ) (p : A → Bool) (f : A → A)
      → ((a : A) → key (f a) ≡ key a)
      → (xs : List A) → IsUnique key xs
      → IsUnique key (update_where p f xs)
  unfolding update_where
  update_where-IsUnique key p f same [] u = u
  update_where-IsUnique key p f same (x ∷ xs) u = elim (Bool-cases (p x)) [
    | inl hit ↦
        rw (hit, same x, find_by-update_where key p f same (key x) xs, u.0)
          (refl, update_where-IsUnique key p f same xs u.1)
    | inr miss ↦
        rw (miss, find_by-update_where key p f same (key x) xs, u.0)
          (refl, update_where-IsUnique key p f same xs u.1)
  ]

  -- A row that a search finds is the row with its key.
  pub find_by-find :
      (key : A → ℕ) (p : A → Bool) (xs : List A) {a : A}
      → IsUnique key xs
      → find p xs ≡ some a
      → find_by key (key a) xs ≡ some a
  unfolding find find_by
  find_by-find key p [] u e = cc
  find_by-find key p (x ∷ xs) {a} u e = elim (Bool-cases (p x)) [
    | inl hit ↦ ground arith
    | inr miss ↦
        let later = find_by-find key p xs {a = a} u.1 (ground arith) in
        elim (Bool-cases (key x == key a)) [
          | inl same ↦ cc (u.0, later, ap (λ (k : ℕ). find_by key k xs) (==→eq _ _ same))
          | inr other ↦ rw other later
        ]
  ]

  -- Where a search fails, no row with a key satisfies the test.
  pub find-none :
      (p : A → Bool) (key : A → ℕ) (k : ℕ) (xs : List A) {a : A}
      → find p xs ≡ none
      → find_by key k xs ≡ some a
      → p a ≡ false
  unfolding find find_by
  find-none p key k [] e f = cc
  find-none p key k (x ∷ xs) {a} e f = ground (arith, find-none p key k xs {a = a})

  -- An UPDATE that finds no row changes nothing.
  pub update_where-none :
      (p : A → Bool) (f : A → A) (xs : List A) → find p xs ≡ none → update_where p f xs ≡ xs
  unfolding find update_where
  update_where-none p f [] e = refl
  update_where-none p f (x ∷ xs) e = elim (Bool-cases (p x)) [
    | inl hit ↦ ground arith
    | inr miss ↦ rw miss (ap (◌∷◌ x) (update_where-none p f xs (ground arith)))
  ]

  -- A row with a key that passes a test is found, if not first.
  pub find-ne-none :
      (p : A → Bool) (key : A → ℕ) (k : ℕ) (xs : List A) {a : A}
      → find_by key k xs ≡ some a
      → p a ≡ true
      → find p xs ≢ none
  find-ne-none p key k xs {a} e h n = cc (find-none p key k xs {a = a} n e)

  -- An UPDATE by key and a further test touches one row, if there is one that passes.
  pub count_where-none :
      (key : A → ℕ) (k : ℕ) (g : A → Bool) (xs : List A)
      → find_by key k xs ≡ none
      → count_where (λ a. (key a == k) && g a) xs ≡ 0
  unfolding find_by count_where
  count_where-none key k g [] e = refl
  count_where-none key k g (x ∷ xs) e = ground (arith, count_where-none key k g xs)

  pub count_where-some :
      (key : A → ℕ) (k : ℕ) (g : A → Bool) (xs : List A) {a : A}
      → IsUnique key xs
      → find_by key k xs ≡ some a
      → count_where (λ a. (key a == k) && g a) xs ≡ (if g a then 1 else 0)
  unfolding find_by count_where
  count_where-some key k g [] u e = cc
  count_where-some key k g (x ∷ xs) {a} u e = elim (Bool-cases (key x == k)) [
    | inl same ↦
        let here : find_by key k xs ≡ none = rw (← ==→eq _ _ same) u.0 in
        ground (arith, count_where-none key k g xs here)
    | inr other ↦ ground (arith, count_where-some key k g xs {a = a} u.1)
  ]

module _ {ℓ} {A : Type ℓ} (key : A → ℕ) (p : A → Bool) (f : A → A) where
  map-some :
      (o : Option A) {b : A}
      → Option.map (λ a. if p a then f a else a) o ≡ some b
      → (a : A) × (o ≡ some a) × (b ≡ (if p a then f a else a))
  map-some none e = cc
  map-some (some a) e = (a, refl, cc)

  -- A row that stands in the table after an UPDATE stood there before it.
  pub find_by-update_where-some :
      ((a : A) → key (f a) ≡ key a)
      → (k : ℕ) (xs : List A) {b : A} → find_by key k (update_where p f xs) ≡ some b
      → (a : A) × (find_by key k xs ≡ some a) × (b ≡ (if p a then f a else a))
  find_by-update_where-some same k xs e =
      map-some (find_by key k xs) (sym (find_by-update_where key p f same k xs) ∙ e)

  -- An UPDATE deletes no row.
  pub find_by-update_where_ne_none :
      ((a : A) → key (f a) ≡ key a)
      → (k : ℕ) (xs : List A) → find_by key k xs ≢ none
      → find_by key k (update_where p f xs) ≢ none
  find_by-update_where_ne_none same k xs h e = elim (Option-cases (find_by key k xs)) [
    | inl gone ↦ h gone
    | inr (a, there) ↦ cc (
      find_by-update_where key p f same k xs,
      e,
      ap (Option.map (λ a. if p a then f a else a)) there,
    )
  ]

module _ {ℓ κ} {A : Type ℓ} (P : A → Type κ) where
  pub All-select : (p : A → Bool) (xs : List A) → All P xs → All P (select p xs)
  unfolding select
  All-select p [] h = tt
  All-select p (x ∷ xs) h = elim (Bool-cases (p x)) [
    | inl hit ↦ rw hit (h.0, All-select p xs h.1)
    | inr miss ↦ rw miss (All-select p xs h.1)
  ]

  All-insert_by :
      (le : A → A → Bool) (x : A) (xs : List A) → P x → All P xs → All P (insert_by le x xs)
  unfolding insert_by
  All-insert_by le x [] p h = (p, tt)
  All-insert_by le x (y ∷ ys) p h = elim (Bool-cases (le x y)) [
    | inl before ↦ rw before (p, h)
    | inr after ↦ rw after (h.0, All-insert_by le x ys p h.1)
  ]

  pub All-sort_by : (le : A → A → Bool) (xs : List A) → All P xs → All P (sort_by le xs)
  unfolding sort_by
  All-sort_by le [] h = tt
  All-sort_by le (x ∷ xs) h = All-insert_by le x (sort_by le xs) h.0 (All-sort_by le xs h.1)

module _ {ℓ} {A : Type ℓ} where
  -- A count above zero means that a search succeeds.
  pub count_where-find : (p : A → Bool) (xs : List A) → find p xs ≡ none → count_where p xs ≡ 0
  unfolding find count_where
  count_where-find p [] e = refl
  count_where-find p (x ∷ xs) e = ground (arith, count_where-find p xs)

  -- A key without a row: an UPDATE by that key finds nothing.
  pub find_absent :
      (key : A → ℕ) (k : ℕ) (g : A → Bool) (xs : List A)
      → find_by key k xs ≡ none
      → find (λ a. (key a == k) && g a) xs ≡ none
  unfolding find_by find
  find_absent key k g [] e = refl
  find_absent key k g (x ∷ xs) e = ground (arith, find_absent key k g xs)

  -- An UPDATE after which no more rows pass a test leaves no higher count.
  pub count_where-update_where-le :
      (q p : A → Bool) (f : A → A)
      → ((a : A) → p a ≡ true → q (f a) ≡ true → q a ≡ true)
      → (xs : List A) → count_where q (update_where p f xs) ≤ count_where q xs
  unfolding count_where update_where
  count_where-update_where-le q p f down [] = omega arith
  count_where-update_where-le q p f down (x ∷ xs) =
      ground (arith, down x, count_where-update_where-le q p f down xs)

module _ {ℓ κ} {A : Type ℓ} (P : A → Type κ) where
  pub All-find : (p : A → Bool) (xs : List A) {a : A} → All P xs → find p xs ≡ some a → P a
  unfolding find
  All-find p [] h e = cc
  All-find p (x ∷ xs) {a} h e = elim (Bool-cases (p x)) [
    | inl hit ↦ let same : x ≡ a = ground arith in subst P same h.0
    | inr miss ↦ All-find p xs h.1 (ground arith)
  ]

  pub All-update_where :
      (p : A → Bool) (f : A → A)
      → ((a : A) → P a → P (f a))
      → (xs : List A) → All P xs
      → All P (update_where p f xs)
  unfolding update_where
  All-update_where p f keep [] h = tt
  All-update_where p f keep (x ∷ xs) h = elim (Bool-cases (p x)) [
    | inl hit ↦ rw hit (keep x h.0, All-update_where p f keep xs h.1)
    | inr miss ↦ rw miss (h.0, All-update_where p f keep xs h.1)
  ]
