-- ===== src/Tables/Rows.antt =====
-- Searches among rows that are told apart, by their keys or by a test that only one of them passes.
use geek_interview.Base.{
  ℕ, ◌≡◌, refl, ap, Bool, true, ◌&&◌, none, some, List, [], ◌∷◌, All, arith, ◌==◌, ==→eq, ==_refl,
  if◌then◌else◌, inl, inr, Bool-cases,
}
use geek_interview.Tables.{select, find, find_by, update_where, IsUnique}

module _ {ℓ} {A : Type ℓ} where
  later_found :
      (key : A → ℕ) (x : A) (xs ys : List A)
      → find_by key (key x) xs ≡ none
      → All (λ y. find_by key (key y) xs ≡ some y) ys
      → All (λ y. find_by key (key y) (x ∷ xs) ≡ some y) ys
  unfolding find_by
  later_found key x xs [] gone h = tt
  later_found key x xs (y ∷ ys) gone h = (
    elim (Bool-cases (key x == key y)) [
      | inl same ↦
          let e : find_by key (key y) xs ≡ none = rw (← ==→eq _ _ same) gone in
          absurd (ground (arith, e, h.0))
      | inr other ↦ rw other h.0
    ],
    later_found key x xs ys gone h.1,
  )

  -- Where keys are unique, every row stands under its key.
  pub rows_found :
      (key : A → ℕ) (xs : List A) → IsUnique key xs → All (λ x. find_by key (key x) xs ≡ some x) xs
  unfolding find_by
  rows_found key [] u = tt
  rows_found key (x ∷ xs) u =
      (rw (==_refl (key x)) refl, later_found key x xs xs u.0 (rows_found key xs u.1))

  pub All-updated {κ μ} :
      (P : A → Type κ) (Q : A → Type μ) (p : A → Bool) (f : A → A)
      → ((x : A) → P x → Q (if p x then f x else x))
      → (xs : List A) → All P xs
      → All Q (update_where p f xs)
  unfolding update_where
  All-updated P Q p f keep [] h = tt
  All-updated P Q p f keep (x ∷ xs) h = (keep x h.0, All-updated P Q p f keep xs h.1)

  pub All-hit {κ} :
      (Q : A → Type κ) (p : A → Bool) (xs : List A)
      → All (λ x. p x ≡ true → Q x) xs
      → All Q (select p xs)
  unfolding select
  All-hit Q p [] h = tt
  All-hit Q p (x ∷ xs) h = elim (Bool-cases (p x)) [
    | inl hit ↦ rw hit (h.0 hit, All-hit Q p xs h.1)
    | inr miss ↦ rw miss (All-hit Q p xs h.1)
  ]

-- A search among rows of which just one passes a test.
module _ {ℓ} {A : Type ℓ} (q r : A → Bool) where
  find_nowhere :
      (xs : List A) → select q xs ≡ [] → (find q xs ≡ none) × (find (λ x. r x && q x) xs ≡ none)
  unfolding select find
  find_nowhere [] e = (refl, refl)
  find_nowhere (x ∷ xs) e = ground (arith, find_nowhere xs)

  pub find_only :
      (c : A) (xs : List A)
      → select q xs ≡ c ∷ []
      → (find q xs ≡ some c) × (find (λ x. r x && q x) xs ≡ (if r c then some c else none))
  unfolding select find
  find_only c [] e = absurd (ground arith)
  find_only c (x ∷ xs) e = elim (Bool-cases (q x)) [
    | inl hit ↦
        let here : x ≡ c = ground arith in
        let rest : select q xs ≡ [] = ground arith in ground (arith, here, find_nowhere xs rest)
    | inr miss ↦ ground (arith, find_only c xs)
  ]

  pub find_updated :
      (f : A → A) (c : A)
      → ((x : A) → q (f x) ≡ q x)
      → (xs : List A) → select q xs ≡ c ∷ []
      → r c ≡ true
      → find q (update_where (λ x. r x && q x) f xs) ≡ some (f c)
  unfolding select find update_where
  find_updated f c same [] e on = absurd (ground arith)
  find_updated f c same (x ∷ xs) e on = elim (Bool-cases (q x)) [
    | inl hit ↦
        let here : x ≡ c = ground arith in
        let now : r x ≡ true = rw here on in rw (now, hit, same x, hit) (ap (λ y. some (f y)) here)
    | inr miss ↦ ground (arith, same x, find_updated f c same xs)
  ]
