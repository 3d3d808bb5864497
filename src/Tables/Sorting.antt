-- ===== src/Tables/Sorting.antt =====
-- Lists in another order: what a permutation keeps, and sorting.
use mathlib.Core.List.{Permᴰ}
use mathlib.Core.List
use mathlib.Core.Path.{subst}
use geek_interview.Base.{
  ℕ, zero, suc, ◌≡◌, refl, sym, ap, ◌∙◌, Bool, true, false, ◌&&◌, none, List, [], ◌∷◌, map, All,
  arith, ◌==◌, length, take, if◌then◌else◌, inl, inr, Bool-cases, leb,
}
use geek_interview.Tables.{find_by, select, insert_by, sort_by, count_where, IsUnique, All-select}

-- A total order of numbers, by a Boolean test.
pub record IsTotalOrder (le : ℕ → ℕ → Bool) : Type 0 where
  pub total : (a b : ℕ) → le a b ≡ false → le b a ≡ true
  pub transitive : (a b c : ℕ) → le a b ≡ true → le b c ≡ true → le a c ≡ true
  pub antisymmetric : (a b : ℕ) → le a b ≡ true → le b a ≡ true → a ≡ b

pub All-Perm : {A : Type 0} (P : A → Type 0) {xs ys : List A} → Permᴰ xs ys → All P xs → All P ys
All-Perm P Permᴰ.nil h = tt
All-Perm P (Permᴰ.cons e p) h = (subst P e h.0, All-Perm P p h.1)
All-Perm P (Permᴰ.swap e f) h = (subst P f h.1.0, (subst P e h.0, h.1.1))
All-Perm P (Permᴰ.trans p q) h = All-Perm P q (All-Perm P p h)

module _ {A : Type 0} (key : A → ℕ) where
  -- No two members share a key.
  abbrev pub Distinct : List A → Type 0
  Distinct [] = Unit
  Distinct (x ∷ xs) = All (λ y. (key x == key y) ≡ false) xs × Distinct xs

  Distinct-swap : (a b : A) (l : List A) → Distinct (a ∷ b ∷ l) → Distinct (b ∷ a ∷ l)
  Distinct-swap a b l h = ((ground (arith, h.0.0), h.1.0), (h.0.1, h.1.1))

  pub Distinct-Perm : {xs ys : List A} → Permᴰ xs ys → Distinct xs → Distinct ys
  Distinct-Perm Permᴰ.nil h = tt
  Distinct-Perm (Permᴰ.cons {b = b} {l₁ = xs} e p) h = (
    All-Perm (λ y. (key b == key y) ≡ false) p
        (subst (λ x. All (λ y. (key x == key y) ≡ false) xs) e h.0),
    Distinct-Perm p h.1,
  )
  Distinct-Perm (Permᴰ.swap {a} {b} {b' = b'} {l = l} e f) h =
      subst (λ x. Distinct (x ∷ b' ∷ l)) f
        (subst (λ x. Distinct (b ∷ x ∷ l)) e (Distinct-swap a b l h))
  Distinct-Perm (Permᴰ.trans p q) h = Distinct-Perm q (Distinct-Perm p h)

  module _ (le : ℕ → ℕ → Bool) (order : IsTotalOrder le) where
    abbrev by_key : A → A → Bool
    by_key a b = le (key a) (key b)

    insert_before :
        (x y : A) (zs : List A)
        → by_key x y ≡ true
        → by_key y x ≡ false
        → insert_by by_key x (insert_by by_key y zs) ≡ insert_by by_key y (insert_by by_key x zs)
    unfolding insert_by
    insert_before x y [] h g = rw (h, g) refl
    insert_before x y (z ∷ zs) h g = elim (Bool-cases (by_key y z)) [
      | inl yz ↦
          let xz = order.transitive (key x) (key y) (key z) h yz in rw (yz, xz, h, g, yz) refl
      | inr yz ↦ elim (Bool-cases (by_key x z)) [
        | inl xz ↦ rw (yz, xz, g, yz) refl
        | inr xz ↦ rw (yz, xz, yz) (ap (◌∷◌ z) (insert_before x y zs h g))
      ]
    ]

    insert_swapped :
        (x y : A) (zs : List A)
        → (key x == key y) ≡ false
        → insert_by by_key x (insert_by by_key y zs) ≡ insert_by by_key y (insert_by by_key x zs)
    insert_swapped x y zs differ = elim (Bool-cases (by_key x y)) [
      | inl before ↦ elim (Bool-cases (by_key y x)) [
        | inl after ↦
            let same = order.antisymmetric (key x) (key y) before after in absurd (ground arith)
        | inr not_after ↦ insert_before x y zs before not_after
      ]
      | inr not_before ↦
          sym (insert_before y x zs (order.total (key x) (key y) not_before) not_before)
    ]

    -- Rows with different keys are sorted into one list, in whatever order they come.
    pub sort_by-Perm :
        {xs ys : List A} → Permᴰ xs ys → Distinct xs → sort_by by_key xs ≡ sort_by by_key ys
    unfolding sort_by
    sort_by-Perm Permᴰ.nil h = refl
    sort_by-Perm (Permᴰ.cons {b = b} {l₁ = xs} e p) h =
        ap (λ x. insert_by by_key x (sort_by by_key xs)) e
        ∙ ap (insert_by by_key b) (sort_by-Perm p h.1)
    sort_by-Perm (Permᴰ.swap {a} {b} {b' = b'} {l = l} e f) h =
        insert_swapped a b (sort_by by_key l) h.0.0
        ∙ ap (λ x. insert_by by_key b (insert_by by_key x (sort_by by_key l))) e
        ∙ ap (λ x. insert_by by_key x (insert_by by_key b' (sort_by by_key l))) f
    sort_by-Perm (Permᴰ.trans p q) h = sort_by-Perm p h ∙ sort_by-Perm q (Distinct-Perm p h)

pub map-Perm :
    {A B : Type 0} (f : A → B) {xs ys : List A} → Permᴰ xs ys → Permᴰ (map f xs) (map f ys)
map-Perm f Permᴰ.nil = Permᴰ.nil
map-Perm f (Permᴰ.cons e p) = Permᴰ.cons (ap f e) (map-Perm f p)
map-Perm f (Permᴰ.swap e g) = Permᴰ.swap (ap f e) (ap f g)
map-Perm f (Permᴰ.trans p q) = Permᴰ.trans (map-Perm f p) (map-Perm f q)

module _ {A : Type 0} (le : A → A → Bool) where
  insert_by_permutes : (x : A) (ys : List A) → Permᴰ (x ∷ ys) (insert_by le x ys)
  unfolding insert_by
  insert_by_permutes x [] = Permᴰ.cons refl Permᴰ.nil
  insert_by_permutes x (y ∷ ys) = elim (Bool-cases (le x y)) [
    | inl before ↦ rw before (List.Permᴰ.refl (x ∷ y ∷ ys))
    | inr after ↦
        rw after (Permᴰ.trans (Permᴰ.swap refl refl) (Permᴰ.cons refl (insert_by_permutes x ys)))
  ]

  -- Sorting only changes the order.
  pub sort_by_permutes : (xs : List A) → Permᴰ xs (sort_by le xs)
  unfolding sort_by
  sort_by_permutes [] = Permᴰ.nil
  sort_by_permutes (x ∷ xs) =
      Permᴰ.trans (Permᴰ.cons refl (sort_by_permutes xs)) (insert_by_permutes x (sort_by le xs))

module _ {A : Type 0} where
  pub count_where-Perm :
      (p : A → Bool) {xs ys : List A} → Permᴰ xs ys → count_where p xs ≡ count_where p ys
  unfolding count_where
  count_where-Perm p Permᴰ.nil = refl
  count_where-Perm p (Permᴰ.cons e q) =
      let same = ap p e in rw same (omega (arith, count_where-Perm p q))
  count_where-Perm p (Permᴰ.swap e f) =
      let first = ap p e in let second = ap p f in rw (first, second) (omega arith)
  count_where-Perm p (Permᴰ.trans q r) = count_where-Perm p q ∙ count_where-Perm p r

  pub length-select : (p : A → Bool) (xs : List A) → length (select p xs) ≡ count_where p xs
  unfolding select count_where
  length-select p [] = refl
  length-select p (x ∷ xs) = ground (arith, length-select p xs)

  pub count_where-select :
      (p q : A → Bool) (xs : List A)
      → count_where p (select q xs) ≡ count_where (λ x. q x && p x) xs
  unfolding select count_where
  count_where-select p q [] = refl
  count_where-select p q (x ∷ xs) = ground (arith, count_where-select p q xs)

  pub All-take : (P : A → Type 0) (n : ℕ) (xs : List A) → All P xs → All P (take n xs)
  All-take P zero xs h = tt
  All-take P (suc n) [] h = tt
  All-take P (suc n) (x ∷ xs) h = (h.0, All-take P n xs h.1)

  pub length-take :
      (n : ℕ) (xs : List A) → length (take n xs) ≡ (if leb n (length xs) then n else length xs)
  length-take zero xs = ground arith
  length-take (suc n) [] = ground arith
  length-take (suc n) (x ∷ xs) = ground (arith, length-take n xs)

  module _ (key : A → ℕ) where
    pub Distinct-take : (n : ℕ) (xs : List A) → Distinct key xs → Distinct key (take n xs)
    Distinct-take zero xs h = tt
    Distinct-take (suc n) [] h = tt
    Distinct-take (suc n) (x ∷ xs) h = (All-take _ n xs h.0, Distinct-take n xs h.1)

    pub Distinct-select :
        (p : A → Bool) (xs : List A) → Distinct key xs → Distinct key (select p xs)
    unfolding select
    Distinct-select p [] h = tt
    Distinct-select p (x ∷ xs) h = elim (Bool-cases (p x)) [
      | inl hit ↦ rw hit (All-select _ p xs h.0, Distinct-select p xs h.1)
      | inr miss ↦ rw miss (Distinct-select p xs h.1)
    ]

    apart_from :
        (k : ℕ) (xs : List A) → find_by key k xs ≡ none → All (λ y. (k == key y) ≡ false) xs
    unfolding find_by
    apart_from k [] e = tt
    apart_from k (x ∷ xs) e = (ground arith, apart_from k xs (ground arith))

    pub IsUnique-Distinct : (xs : List A) → IsUnique key xs → Distinct key xs
    IsUnique-Distinct [] u = tt
    IsUnique-Distinct (x ∷ xs) u = (apart_from (key x) xs u.0, IsUnique-Distinct xs u.1)
