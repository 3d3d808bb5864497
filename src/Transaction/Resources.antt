-- ===== src/Transaction/Resources.antt =====
-- The order and the uniqueness of resource identifiers in src/shared/database/transaction.ts.
use geek_interview.Base.{
  ℕ, ◌≤◌, ◌≡◌, refl, Bool, false, none, List, [], ◌∷◌, length, arith, ◌==◌, if◌then◌else◌, inl, inr,
  Bool-cases,
}
use geek_interview.Errors.{Result, ok, err, plain, duplicate_resources}
use geek_interview.Tables.{find_by, IsUnique, sort_by}
use geek_interview.Inventory.{includes}

-- `le` is `localeCompare(…, 'en') <= 0`.
unfoldable pub sort_resource_ids : (ℕ → ℕ → Bool) → List ℕ → List ℕ
sort_resource_ids le ids = sort_by le ids

-- The members of `new Set(ids)`
unfoldable pub distinct : List ℕ → List ℕ
distinct [] = []
distinct (x ∷ xs) = let rest = distinct xs in if includes xs x then rest else x ∷ rest

unfoldable pub assert_unique_resource_ids : List ℕ → Result (Unit {0})
assert_unique_resource_ids ids =
    if length (distinct ids) == length ids then ok tt else err (plain duplicate_resources)

distinct-le : (xs : List ℕ) → length (distinct xs) ≤ length xs
unfolding distinct
distinct-le [] = omega arith
distinct-le (x ∷ xs) = ground (arith, distinct-le xs)

abbrev same_id : ℕ → ℕ
same_id n = n

includes-none : (x : ℕ) (xs : List ℕ) → includes xs x ≡ false → find_by same_id x xs ≡ none
unfolding find_by
includes-none x [] h = refl
includes-none x (y ∷ xs) h = ground (arith, includes-none x xs)

all_distinct : (xs : List ℕ) → length (distinct xs) ≡ length xs → IsUnique (λ n. n) xs
unfolding distinct
all_distinct [] h = tt
all_distinct (x ∷ xs) h = elim (Bool-cases (includes xs x)) [
  | inl twice ↦ let few = distinct-le xs in absurd (ground arith)
  | inr once ↦ (includes-none x xs once, all_distinct xs (ground arith))
]

-- Identifiers that pass the assertion are pairwise different.
pub assert_unique_resource_ids-IsUnique :
    (ids : List ℕ) → assert_unique_resource_ids ids ≡ ok tt → IsUnique (λ n. n) ids
unfolding assert_unique_resource_ids
assert_unique_resource_ids-IsUnique ids h = all_distinct ids (ground arith)
