-- ===== src/Utils/Cors/Headers.antt =====
-- What `get_cors_allow_headers` (utils/src/http/cors.rs) answers.
use jsonrpsee.Base.{
  List, [], ◌∷◌, true, false, ◌≡◌, ◌≢◌, refl, arith, ◌⊎◌, inl, inr, Bool-cases, In, here, there,
  In-cons, not-In-nil,
}
use jsonrpsee.Base.Text.{Text, text_beq_iff, to_lowercase, eq_ignore_ascii_case}
use jsonrpsee.Utils.Cors.{
  AccessControlAllowHeaders, only, AllowCors, not_required, invalid, ok, always_allowed, any_equal,
  header_allowed, all_allowed, filter_requested, map_requested, headers_result,
  get_cors_allow_headers,
}

-- The list has the name, in capital or small letters.
abbrev pub HasName : List Text → Text → Type 0
HasName names name = (k : Text) × In k names × (to_lowercase k ≡ to_lowercase name)

-- The name is permitted: every name is, or it is a listed one or one that is always allowed.
abbrev pub Permits : AccessControlAllowHeaders → Text → Type 0
Permits AccessControlAllowHeaders.any name = Unit
Permits (only names) name = HasName names name ⊎ HasName always_allowed name

-- The names of a list that are permitted, in their order.
pub data Kept (policy : AccessControlAllowHeaders) : List Text → List Text → Type 0 where
  nil : Kept policy [] []
  keep :
      {h : Text} {hs ks : List Text}
      → Permits policy h
      → Kept policy hs ks
      → Kept policy (h ∷ hs) (h ∷ ks)
  drop :
      {h : Text} {hs ks : List Text}
      → (¬ Permits policy h)
      → Kept policy hs ks
      → Kept policy (h ∷ hs) ks

any_equal-HasName : (names : List Text) (n : Text) → any_equal names n ≡ true → HasName names n
unfolding any_equal eq_ignore_ascii_case
any_equal-HasName [] n h = cc
any_equal-HasName (k ∷ names) n h = elim (Bool-cases (eq_ignore_ascii_case k n)) [
  | inl e ↦ (k, here refl, (text_beq_iff (to_lowercase k) (to_lowercase n)).0 e)
  | inr e ↦ let (j, i, q) = any_equal-HasName names n (rw (e, any_equal) at h) in (j, there i, q)
]

HasName-any_equal :
    (names : List Text) (n k : Text)
    → In k names
    → to_lowercase k ≡ to_lowercase n
    → any_equal names n ≡ true
unfolding any_equal eq_ignore_ascii_case
HasName-any_equal [] n k i q = absurd (not-In-nil k i)
HasName-any_equal (j ∷ names) n k (here e) q =
    ground (arith, text_beq_iff (to_lowercase j) (to_lowercase n))
HasName-any_equal (j ∷ names) n k (there i) q = ground (arith, HasName-any_equal names n k i q)

header_allowed-Permits :
    (names : List Text) (n : Text) → header_allowed names n ≡ true → Permits (only names) n
unfolding header_allowed
header_allowed-Permits names n h = elim (Bool-cases (any_equal names n)) [
  | inl e ↦ inl (any_equal-HasName names n e)
  | inr e ↦ inr (any_equal-HasName always_allowed n (rw (e, header_allowed) at h))
]

not-Permits :
    (names : List Text) (n : Text) → header_allowed names n ≡ false → ¬ Permits (only names) n
unfolding header_allowed
not-Permits names n h (inl (k, i, q)) = let g = HasName-any_equal names n k i q in ground (arith, g)
not-Permits names n h (inr (k, i, q)) =
    let g = HasName-any_equal always_allowed n k i q in ground (arith, g)

all_allowed-foreign :
    (names headers : List Text)
    → all_allowed names headers ≡ false
    → (h : Text) × In h headers × (¬ Permits (only names) h)
unfolding all_allowed
all_allowed-foreign names [] e = cc
all_allowed-foreign names (h ∷ headers) e = elim (Bool-cases (header_allowed names h)) [
  | inl q ↦
      let (k, i, n) = all_allowed-foreign names headers (rw (q, all_allowed) at e) in
      (k, there i, n)
  | inr q ↦ (h, here refl, not-Permits names h q)
]

all_allowed-all :
    (names headers : List Text)
    → all_allowed names headers ≡ true
    → (h : Text) → In h headers
    → Permits (only names) h
unfolding all_allowed
all_allowed-all names [] e h i = absurd (not-In-nil h i)
all_allowed-all names (x ∷ headers) e h i = elim (In-cons h x headers i) [
  | inl q ↦ rw q (header_allowed-Permits names x (ground arith))
  | inr j ↦ all_allowed-all names headers (ground arith) h j
]

module _ {Out : Type 0} (to_result : Text → Out) where
  -- What is answered to a request with some headers that asks for others.
  pub data Answered (policy : AccessControlAllowHeaders) (headers requested : List Text)
      : AllowCors (List Out) → Type 0 where
    -- a header of the request is not permitted
    foreign :
        (h : Text) → In h headers → (¬ Permits policy h) → Answered policy headers requested invalid
    -- nothing is asked for
    nothing :
        ((h : Text) → In h headers → Permits policy h)
        → requested ≡ []
        → Answered policy headers requested not_required
    -- nothing that is asked for is permitted
    dropped :
        ((h : Text) → In h headers → Permits policy h)
        → requested ≢ []
        → Kept policy requested []
        → Answered policy headers requested invalid
    -- some of it is, and that is named
    kept :
        (k : Text) (ks : List Text)
        → ((h : Text) → In h headers → Permits policy h)
        → Kept policy requested (k ∷ ks)
        → Answered policy headers requested (ok (map_requested to_result (k ∷ ks)))

  filter-Kept :
      (names requested : List Text)
      → (ks : List Text) × Kept (only names) requested ks
        × ((filter_requested to_result names requested).1 ≡ map_requested to_result ks)
  unfolding filter_requested map_requested
  filter-Kept names [] = ([], nil, refl)
  filter-Kept names (h ∷ requested) =
      let (ks, k, e) = filter-Kept names requested in
      elim (Bool-cases (header_allowed names h)) [
        | inl q ↦ (h ∷ ks, keep (header_allowed-Permits names h q) k, rw q (ground (arith, e)))
        | inr q ↦ (ks, drop (not-Permits names h q) k, rw q (ground (arith, e)))
      ]

  all-Kept : (requested : List Text) → Kept AccessControlAllowHeaders.any requested requested
  all-Kept [] = nil
  all-Kept (h ∷ requested) = keep tt (all-Kept requested)

  filtered-cons :
      (names requested : List Text) (h : Text)
      → (filter_requested to_result names (h ∷ requested)).0 ≡ true
  unfolding filter_requested
  filtered-cons names requested h = refl

  any-Answered :
      (headers requested : List Text)
      → Answered AccessControlAllowHeaders.any headers requested
          (headers_result false (map_requested to_result requested))
  unfolding headers_result map_requested
  any-Answered headers [] = nothing (λ h i. tt) refl
  any-Answered headers (h ∷ requested) = kept h requested (λ j i. tt) (all-Kept (h ∷ requested))

  result-Answered :
      (policy : AccessControlAllowHeaders) (headers requested ks : List Text) (rs : List Out)
      → ((h : Text) → In h headers → Permits policy h)
      → requested ≢ []
      → Kept policy requested ks
      → rs ≡ map_requested to_result ks
      → Answered policy headers requested (headers_result true rs)
  unfolding headers_result map_requested
  result-Answered policy headers requested [] rs p h k e = rw e (dropped p h k)
  result-Answered policy headers requested (n ∷ ks) rs p h k e = rw e (kept n ks p k)

  only-Answered :
      (names headers requested : List Text)
      → all_allowed names headers ≡ true
      → Answered (only names) headers requested (
          headers_result
            (filter_requested to_result names requested).0
            (filter_requested to_result names requested).1)
  unfolding headers_result filter_requested
  only-Answered names headers [] e = nothing (all_allowed-all names headers e) refl
  only-Answered names headers (h ∷ requested) e =
      let (ks, k, q) = filter-Kept names (h ∷ requested) in
      result-Answered (only names) headers (h ∷ requested) ks
        (filter_requested to_result names (h ∷ requested)).1 (all_allowed-all names headers e)
        (λ z. cc) k q

  -- With a list of allowed headers: a request that has a header beyond the list and those that are
  -- always allowed is refused, and one that asks for headers none of which is permitted; one that asks
  -- for none needs no answer; else the answer names those asked for that are permitted, in their order.
  -- With no list all headers are permitted. Capital and small letters are not told apart.
  pub get_cors_allow_headers-Answered :
      (headers requested : List Text) (policy : AccessControlAllowHeaders)
      → Answered policy headers requested
          (get_cors_allow_headers headers requested policy to_result)
  unfolding get_cors_allow_headers
  get_cors_allow_headers-Answered headers requested AccessControlAllowHeaders.any =
      any-Answered headers requested
  get_cors_allow_headers-Answered headers requested (only names) =
      elim (Bool-cases (all_allowed names headers)) [
        | inl e ↦ rw e (only-Answered names headers requested e)
        | inr e ↦ let (h, i, n) = all_allowed-foreign names headers e in rw e (foreign h i n)
      ]
