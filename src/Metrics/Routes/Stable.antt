-- ===== src/Metrics/Routes/Stable.antt =====
-- The normalised routes.
use mathlib.Core.Path.{subst}
use geek_interview.Base.{
  ℕ, ◌≡◌, refl, ◌∙◌, ap, sym, false, List, [], ◌∷◌, ◌++◌, map, ◌==◌, inl, inr, Bool-cases, All,
}
use geek_interview.Http.{matches}
use geek_interview.Metrics.Exposition.{join}
use geek_interview.Metrics.Routes.{
  slash, question_mark, before_query, cons_first, segments, id_pattern, is_booking_code,
  replace_segment, replace_segments, or_slash, normalize_route,
}

-- Text without a query, and a segment
abbrev IsPath : List ℕ → Type 0
IsPath = All (λ c. (c == question_mark) ≡ false)

abbrev IsSegment : List ℕ → Type 0
IsSegment = All (λ c. (c == slash) ≡ false)

before_query-IsPath : (t : List ℕ) → IsPath (before_query t)
unfolding before_query
before_query-IsPath [] = tt
before_query-IsPath (c ∷ cs) = elim (Bool-cases (c == question_mark)) [
  | inl hit ↦ rw hit tt
  | inr miss ↦ rw miss (miss, before_query-IsPath cs)
]

before_query-fixed : (t : List ℕ) → IsPath t → before_query t ≡ t
unfolding before_query
before_query-fixed [] h = refl
before_query-fixed (c ∷ cs) h = rw (h.0, before_query-fixed cs h.1) refl

abbrev Fine : List ℕ → Type 0
Fine s = IsSegment s × IsPath s

cons_first-Fine :
    (c : ℕ) (ss : List (List ℕ))
    → (c == slash) ≡ false
    → (c == question_mark) ≡ false
    → All Fine ss
    → All Fine (cons_first c ss)
cons_first-Fine c [] a b h = (((a, tt), (b, tt)), tt)
cons_first-Fine c (s ∷ ss) a b h = (((a, h.0.0), (b, h.0.1)), h.1)

segments-Fine : (t : List ℕ) → IsPath t → All Fine (segments t)
unfolding segments
segments-Fine [] h = ((tt, tt), tt)
segments-Fine (c ∷ cs) h = elim (Bool-cases (c == slash)) [
  | inl hit ↦ rw hit ((tt, tt), segments-Fine cs h.1)
  | inr miss ↦ rw miss (cons_first-Fine c (segments cs) miss h.0 (segments-Fine cs h.1))
]

replace_segment-again : (s : List ℕ) → replace_segment (replace_segment s) ≡ replace_segment s
unfolding replace_segment matches
replace_segment-again s = elim (Bool-cases (matches id_pattern s)) [
  | inl hit ↦ rw hit refl
  | inr miss ↦ elim (Bool-cases (is_booking_code s)) [
    | inl code ↦ rw (miss, code) refl
    | inr other ↦ rw (miss, other, miss, other) refl
  ]
]

replace_segment-Fine : (s : List ℕ) → Fine s → Fine (replace_segment s)
unfolding replace_segment
replace_segment-Fine s h = elim (Bool-cases (matches id_pattern s)) [
  | inl hit ↦ rw hit ((refl, (refl, (refl, tt))), (refl, (refl, (refl, tt))))
  | inr miss ↦ elim (Bool-cases (is_booking_code s)) [
    | inl code ↦ rw (miss, code) ((refl, (refl, (refl, tt))), (refl, (refl, (refl, tt))))
    | inr other ↦ rw (miss, other) h
  ]
]

map-Fine : (ss : List (List ℕ)) → All Fine ss → All Fine (map replace_segment ss)
map-Fine [] h = tt
map-Fine (s ∷ ss) h = (replace_segment-Fine s h.0, map-Fine ss h.1)

replace_segments-Fine : (ss : List (List ℕ)) → All Fine ss → All Fine (replace_segments ss)
replace_segments-Fine [] h = tt
replace_segments-Fine (s ∷ ss) h = (h.0, map-Fine ss h.1)

map-again :
    (ss : List (List ℕ)) → map replace_segment (map replace_segment ss) ≡ map replace_segment ss
map-again [] = refl
map-again (s ∷ ss) = rw (replace_segment-again s, map-again ss) refl

replace_segments-again :
    (ss : List (List ℕ)) → replace_segments (replace_segments ss) ≡ replace_segments ss
replace_segments-again [] = refl
replace_segments-again (s ∷ ss) = ap (λ r. s ∷ r) (map-again ss)

IsPath-append : (s t : List ℕ) → IsPath s → IsPath t → IsPath (s ++ t)
IsPath-append [] t hs ht = ht
IsPath-append (c ∷ cs) t hs ht = (hs.0, IsPath-append cs t hs.1 ht)

join-IsPath : (ss : List (List ℕ)) → All Fine ss → IsPath (join slash ss)
unfolding join
join-IsPath [] h = tt
join-IsPath (s ∷ []) h = h.0.1
join-IsPath (s ∷ t ∷ ts) h = IsPath-append s _ h.0.1 (refl, join-IsPath (t ∷ ts) h.1)

segments-one : (s : List ℕ) → IsSegment s → segments s ≡ s ∷ []
unfolding segments
segments-one [] h = refl
segments-one (c ∷ cs) h = rw (h.0, segments-one cs h.1) refl

segments-append : (s t : List ℕ) → IsSegment s → segments (s ++ slash ∷ t) ≡ s ∷ segments t
unfolding segments
segments-append [] t h = refl
segments-append (c ∷ cs) t h = rw (h.0, segments-append cs t h.1) refl

-- Segments that are joined are found again.
segments-join :
    (s : List ℕ) (ss : List (List ℕ)) → All Fine (s ∷ ss) → segments (join slash (s ∷ ss)) ≡ s ∷ ss
unfolding join
segments-join s [] h = segments-one s h.0.0
segments-join s (t ∷ ts) h =
    segments-append s (join slash (t ∷ ts)) h.0.0 ∙ ap (λ r. s ∷ r) (segments-join t ts h.1)

segments-cons : (t : List ℕ) → (s : List ℕ) × (ss : List (List ℕ)) × (segments t ≡ s ∷ ss)
unfolding segments
segments-cons [] = ([], [], refl)
segments-cons (c ∷ cs) = elim (Bool-cases (c == slash)) [
  | inl hit ↦ rw hit ([], segments cs, refl)
  | inr miss ↦ let (s, ss, e) = segments-cons cs in rw (miss, e) (c ∷ s, ss, refl)
]

-- A segment that neither pattern matches
abbrev pub IsNoId : List ℕ → Type 0
IsNoId s = (matches id_pattern s ≡ false) × (is_booking_code s ≡ false)

replace_segment-IsNoId : (s : List ℕ) → IsNoId (replace_segment s)
unfolding replace_segment matches
replace_segment-IsNoId s = elim (Bool-cases (matches id_pattern s)) [
  | inl hit ↦ rw hit (refl, refl)
  | inr miss ↦ elim (Bool-cases (is_booking_code s)) [
    | inl code ↦ rw (miss, code) (refl, refl)
    | inr other ↦ rw (miss, other) (miss, other)
  ]
]

map-IsNoId : (ss : List (List ℕ)) → All IsNoId (map replace_segment ss)
map-IsNoId [] = tt
map-IsNoId (s ∷ ss) = (replace_segment-IsNoId s, map-IsNoId ss)

-- The segments that follow a slash
abbrev pub after_slashes : List (List ℕ) → List (List ℕ)
after_slashes [] = []
after_slashes (_ ∷ ss) = ss

abbrev pub IsNormal : List ℕ → Type 0
IsNormal t =
    All (λ c. (c == question_mark) ≡ false) t
    × All IsNoId (after_slashes (segments t))
    × (normalize_route t ≡ t)

-- A path of segments none of which is an id is normal, or a slash is if it is empty.
settled :
    (s : List ℕ) (ss : List (List ℕ))
    → All Fine (s ∷ ss)
    → All IsNoId ss
    → replace_segments (s ∷ ss) ≡ s ∷ ss
    → (t : List ℕ) → join slash (s ∷ ss) ≡ t
    → IsNormal (or_slash t)
unfolding normalize_route before_query segments replace_segment join matches
settled s ss fine apart fixed [] e = ((refl, tt), ((refl, refl), tt), refl)
settled s ss fine apart fixed (c ∷ cs) e = (
  subst IsPath e (join-IsPath (s ∷ ss) fine),
  subst (λ t. All IsNoId (after_slashes (segments t))) e (rw (segments-join s ss fine) apart),
  ap normalize_route (sym e)
      ∙ rw
          (
            before_query-fixed (join slash (s ∷ ss)) (join-IsPath (s ∷ ss) fine),
            segments-join s ss fine,
            fixed,
            e,
          )
          refl,
)

-- A normalised route has no question mark, no segment after a slash that is a UUID or a booking code
-- for the patterns, and is normalised to itself.
pub normalize_route-IsNormal : (route : List ℕ) → IsNormal (normalize_route route)
unfolding normalize_route
normalize_route-IsNormal route =
    let t = before_query route in
    let (s, ss, e) = segments-cons t in
    let fine : All Fine (s ∷ map replace_segment ss) =
      replace_segments-Fine (s ∷ ss)
        (subst (All Fine) e (segments-Fine t (before_query-IsPath route))) in
    subst (λ r. IsNormal (or_slash (join slash (replace_segments r)))) (sym e)
      (settled s (map replace_segment ss) fine (map-IsNoId ss) (replace_segments-again (s ∷ ss))
        (join slash (s ∷ map replace_segment ss)) refl)
