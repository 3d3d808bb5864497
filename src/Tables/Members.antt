-- ===== src/Tables/Members.antt =====
-- Searches, and what is said of all members of a list or of some.
use mathlib.Core.Path.{subst}
use geek_interview.Base.{
  ℕ, ◌≡◌, refl, Bool, true, false, none, some, List, [], ◌∷◌, All, All-mono, Any, arith, inl, inr,
  map, ◌&&◌, ◌==◌, Bool-cases, if◌then◌else◌,
}
use geek_interview.Tables.{select, find, find_by, update_where}

module _ {ℓ} {A : Type ℓ} where
  pub find-none-All : (p : A → Bool) (xs : List A) → find p xs ≡ none → All (λ x. p x ≡ false) xs
  unfolding find
  find-none-All p [] e = tt
  find-none-All p (x ∷ xs) e = elim (Bool-cases (p x)) [
    | inl hit ↦ absurd (ground arith)
    | inr miss ↦ (miss, find-none-All p xs (ground arith))
  ]

  pub All-find-none : (p : A → Bool) (xs : List A) → All (λ x. p x ≡ false) xs → find p xs ≡ none
  unfolding find
  All-find-none p [] h = refl
  All-find-none p (x ∷ xs) h = rw (h.0, All-find-none p xs h.1) refl

  pub Any-mono : {P Q : A → Type 0} (f : (x : A) → P x → Q x) (xs : List A) → Any P xs → Any Q xs
  Any-mono f [] h = h
  Any-mono f (x ∷ xs) (inl h) = inl (f x h)
  Any-mono f (x ∷ xs) (inr h) = inr (Any-mono f xs h)

module _ {A : Type 0} where
  -- What a search finds is in the list, and passes the test.
  pub find-some-Any :
      (p : A → Bool) (xs : List A) {a : A}
      → find p xs ≡ some a
      → Any (λ x. (x ≡ a) × (p x ≡ true)) xs
  unfolding find
  find-some-Any p [] e = cc
  find-some-Any p (x ∷ xs) {a} e = elim (Bool-cases (p x)) [
    | inl hit ↦ inl (ground arith, hit)
    | inr miss ↦ inr (find-some-Any p xs (ground arith))
  ]

  pub find_by-Any :
      (key : A → ℕ) (k : ℕ) (xs : List A) {a : A}
      → find_by key k xs ≡ some a
      → Any (λ x. (x ≡ a) × (key x ≡ k)) xs
  unfolding find_by
  find_by-Any key k [] e = cc
  find_by-Any key k (x ∷ xs) {a} e = elim (Bool-cases (key x == k)) [
    | inl hit ↦ inl (ground arith, ground arith)
    | inr miss ↦ inr (find_by-Any key k xs (ground arith))
  ]

  pub find-some-passes : (p : A → Bool) (xs : List A) {a : A} → find p xs ≡ some a → p a ≡ true
  unfolding find
  find-some-passes p [] e = cc
  find-some-passes p (x ∷ xs) {a} e = elim (Bool-cases (p x)) [
    | inl hit ↦ let same : x ≡ a = ground arith in rw (← same) hit
    | inr miss ↦ find-some-passes p xs (ground arith)
  ]

-- An UPDATE whose further guard holds of the one row that passes a test.
module _ {ℓ} {A : Type ℓ} (q r : A → Bool) (f : A → A) where
  abbrev changed : A → A
  changed x = if q x then f x else x

  update_nowhere :
      (xs : List A) → select q xs ≡ [] → update_where (λ x. r x && q x) f xs ≡ map changed xs
  unfolding select update_where
  update_nowhere [] e = refl
  update_nowhere (x ∷ xs) e = elim (Bool-cases (q x)) [
    | inl hit ↦ absurd (ground arith)
    | inr miss ↦
        let later = update_nowhere xs (ground arith) in
        let off : (r x && q x) ≡ false = ground arith in rw (off, miss, later) refl
  ]

  pub update_only :
      (c : A) (xs : List A)
      → select q xs ≡ c ∷ []
      → r c ≡ true
      → update_where (λ x. r x && q x) f xs ≡ map changed xs
  unfolding select update_where
  update_only c [] e on = absurd (ground arith)
  update_only c (x ∷ xs) e on = elim (Bool-cases (q x)) [
    | inl hit ↦
        let same : x ≡ c = ground arith in
        let later = update_nowhere xs (ground arith) in
        let both : (r x && q x) ≡ true = rw (same, on, ← same, hit) refl in
        rw (both, hit, later) refl
    | inr miss ↦
        let later = update_only c xs (ground arith) on in
        let off : (r x && q x) ≡ false = ground arith in rw (off, miss, later) refl
  ]

module _ {A : Type 0} where
  pub All-found :
      (P : A → Type 0) (key : A → ℕ) (k : ℕ) (xs : List A) {a : A}
      → All P xs
      → find_by key k xs ≡ some a
      → P a
  unfolding find_by
  All-found P key k [] h e = cc
  All-found P key k (x ∷ xs) {a} h e = elim (Bool-cases (key x == k)) [
    | inl hit ↦ let same : x ≡ a = ground arith in subst P same h.0
    | inr miss ↦ All-found P key k xs h.1 (ground arith)
  ]

  -- Every member is in the list.
  pub All-self : (xs : List A) → All (λ x. Any (λ y. y ≡ x) xs) xs
  All-self [] = tt
  All-self (x ∷ xs) = (inl refl, All-mono (λ y there. inr there) xs (All-self xs))
