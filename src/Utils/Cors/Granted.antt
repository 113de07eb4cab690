-- ===== src/Utils/Cors/Granted.antt =====
-- Who is granted access by `get_cors_allow_origin` (utils/src/http/cors.rs).
use jsonrpsee.Base.{
  List, [], ◌∷◌, ◌++◌, Option, none, some, true, false, if◌then◌else◌, ◌≡◌, ◌≢◌, refl, ap, subst,
  arith, inl, inr, Bool-cases, In, here, there, In-cons, not-In-nil,
}
use jsonrpsee.Base.Text.{Text, text_beq, text_beq_iff, codes, ends_with}
use jsonrpsee.Utils.Hosts.{Globs, matches}
use jsonrpsee.Utils.Cors.{
  AccessControlAllowOrigin, null, value, AllowCors, not_required, invalid, ok, ok_or_invalid,
  origin_parse, find_null, admits, find_admitting, same_server, granted, judge_origin,
  get_cors_allow_origin,
}

pub ends_with-append : (s t : Text) → ends_with s t ≡ true → (a : Text) × (s ≡ a ++ t)
unfolding ends_with
ends_with-append [] t h = ([], (text_beq_iff [] t).0 h)
ends_with-append (c ∷ s) t h = elim (Bool-cases (text_beq (c ∷ s) t)) [
  | inl e ↦ ([], (text_beq_iff (c ∷ s) t).0 e)
  | inr e ↦ let (a, k) = ends_with-append s t (rw (e, ends_with) at h) in (c ∷ a, ap (λ u. c ∷ u) k)
]

module _ {Glob : Type 0} (globs : Globs Glob) where
  -- The host of the request is the end of the origin, and what its parsed host is printed as.
  abbrev pub FromServer : Text → Option Text → Type 0
  FromServer origin host =
      (h : Text) × (host ≡ some h)
      × ((a : Text) × (origin ≡ a ++ h))
      × ((origin_parse globs origin).host.as_string ≡ h)

  -- The entry of the list is for the origin: `Null` for the origin `null` alone, `Any` for every
  -- other, a value for those other ones that its pattern matches.
  abbrev pub Grants : AccessControlAllowOrigin Glob → Text → Type 0
  Grants null origin = origin ≡ codes "null"
  Grants AccessControlAllowOrigin.any origin = origin ≢ codes "null"
  Grants (value o) origin = (origin ≢ codes "null") × (matches globs o.matcher origin ≡ true)

  -- the origin that the answer names
  abbrev pub echo : Text → AccessControlAllowOrigin Glob
  echo origin = if text_beq origin (codes "null") then null else value (origin_parse globs origin)

  pub data Judged (origin : Text) (host : Option Text)
      (allowed : Option (List (AccessControlAllowOrigin Glob)))
      : AllowCors (AccessControlAllowOrigin Glob) → Type 0 where
    same : FromServer origin host → Judged origin host allowed not_required
    unlisted :
        (¬ FromServer origin host) → allowed ≡ none → Judged origin host allowed (ok (echo origin))
    listed :
        (entries : List (AccessControlAllowOrigin Glob)) (a : AccessControlAllowOrigin Glob)
        → (¬ FromServer origin host)
        → allowed ≡ some entries
        → In a entries
        → Grants a origin
        → Judged origin host allowed (ok (echo origin))
    refused :
        (entries : List (AccessControlAllowOrigin Glob))
        → (¬ FromServer origin host)
        → allowed ≡ some entries
        → ((a : AccessControlAllowOrigin Glob) → In a entries → ¬ Grants a origin)
        → Judged origin host allowed invalid

  ends_with_suffix : (a h : Text) → ends_with (a ++ h) h ≡ true
  unfolding ends_with
  ends_with_suffix [] [] = refl
  ends_with_suffix [] (c ∷ h) = ground (arith, text_beq_iff h h)
  ends_with_suffix (c ∷ a) h = ground (arith, ends_with_suffix a h)

  same_server-FromServer :
      (origin : Text) (host : Option Text)
      → same_server globs origin host ≡ true
      → FromServer origin host
  unfolding same_server
  same_server-FromServer origin none e = cc
  same_server-FromServer origin (some h) e = (
    h,
    refl,
    ends_with-append origin h (ground arith),
    (text_beq_iff (origin_parse globs origin).host.as_string h).0 (ground arith),
  )

  not-FromServer :
      (origin : Text) (host : Option Text)
      → same_server globs origin host ≡ false
      → ¬ FromServer origin host
  unfolding same_server
  not-FromServer origin none e (h, k, m, n) = cc
  not-FromServer origin (some h) e (h', k, (a, m), n) =
      ground
        (arith, ends_with_suffix a h', text_beq_iff (origin_parse globs origin).host.as_string h)

  -- How a search through the entries ends.
  data Found (origin : Text) (entries : List (AccessControlAllowOrigin Glob))
      : Option (AccessControlAllowOrigin Glob) → Type 0 where
    found :
        (a : AccessControlAllowOrigin Glob)
        → In a entries
        → Grants a origin
        → Found origin entries (some a)
    missing :
        ((a : AccessControlAllowOrigin Glob) → In a entries → ¬ Grants a origin)
        → Found origin entries none

  Found-cons :
      (origin : Text) (x : AccessControlAllowOrigin Glob)
      (entries : List (AccessControlAllowOrigin Glob)) (o : Option (AccessControlAllowOrigin Glob))
      → (¬ Grants x origin)
      → Found origin entries o
      → Found origin (x ∷ entries) o
  Found-cons origin x entries o h (found a i g) = found a (there i) g
  Found-cons origin x entries o h (missing k) = missing (λ a i g. elim (In-cons a x entries i) [
    | inl e ↦ h (subst (λ b. Grants b origin) e g)
    | inr j ↦ k a j g
  ])

  find_null-Found :
      (origin : Text) (entries : List (AccessControlAllowOrigin Glob))
      → origin ≡ codes "null"
      → Found origin entries (find_null globs entries)
  unfolding find_null
  find_null-Found origin [] e = missing (λ a i g. not-In-nil a i)
  find_null-Found origin (null ∷ entries) e = found null (here refl) e
  find_null-Found origin (AccessControlAllowOrigin.any ∷ entries) e =
      Found-cons origin AccessControlAllowOrigin.any entries (find_null globs entries) (λ h. h e)
        (find_null-Found origin entries e)
  find_null-Found origin (value o ∷ entries) e =
      Found-cons origin (value o) entries (find_null globs entries) (λ (h, k). h e)
        (find_null-Found origin entries e)

  admits-Grants :
      (origin : Text) (a : AccessControlAllowOrigin Glob)
      → origin ≢ codes "null"
      → admits globs a origin ≡ true
      → Grants a origin
  unfolding admits
  admits-Grants origin null h e = cc
  admits-Grants origin AccessControlAllowOrigin.any h e = h
  admits-Grants origin (value o) h e = (h, e)

  Grants-admits :
      (origin : Text) (a : AccessControlAllowOrigin Glob)
      → origin ≢ codes "null"
      → Grants a origin
      → admits globs a origin ≡ true
  unfolding admits
  Grants-admits origin null h g = elim (h g) [ ]
  Grants-admits origin AccessControlAllowOrigin.any h g = refl
  Grants-admits origin (value o) h g = g.1

  find_admitting-Found :
      (origin : Text) (entries : List (AccessControlAllowOrigin Glob))
      → origin ≢ codes "null"
      → Found origin entries (find_admitting globs entries origin)
  unfolding find_admitting
  find_admitting-Found origin [] h = missing (λ a i g. not-In-nil a i)
  find_admitting-Found origin (x ∷ entries) h = elim (Bool-cases (admits globs x origin)) [
    | inl e ↦ rw e (found x (here refl) (admits-Grants origin x h e))
    | inr e ↦ rw e (
        Found-cons origin x entries (find_admitting globs entries origin)
          (λ g. let k = Grants-admits origin x h g in cc) (find_admitting-Found origin entries h))
  ]

  granted-null :
      (origin : Text) (a : AccessControlAllowOrigin Glob)
      → origin ≡ codes "null"
      → Grants a origin
      → echo origin ≡ a
  granted-null origin null e g = rw ((text_beq_iff origin (codes "null")).1 e) refl
  granted-null origin AccessControlAllowOrigin.any e g = elim (g e) [ ]
  granted-null origin (value o) e (g, h) = elim (g e) [ ]

  not_null : (origin : Text) → origin ≢ codes "null" → text_beq origin (codes "null") ≡ false
  not_null origin h = ground (arith, text_beq_iff origin (codes "null"))

  echo-value :
      (origin : Text) → origin ≢ codes "null" → echo origin ≡ value (origin_parse globs origin)
  echo-value origin h = ground (arith, text_beq_iff origin (codes "null"))

  module _ (origin : Text) (host : Option Text) (other : ¬ FromServer origin host) where
    Found-null :
        (entries : List (AccessControlAllowOrigin Glob))
        (o : Option (AccessControlAllowOrigin Glob))
        → origin ≡ codes "null"
        → Found origin entries o
        → Judged origin host (some entries) (ok_or_invalid o)
    unfolding ok_or_invalid
    Found-null entries o e (found a i g) =
        rw (← granted-null origin a e g) (listed entries a other refl i g)
    Found-null entries o e (missing k) = refused entries other refl k

    Found-admitting :
        (entries : List (AccessControlAllowOrigin Glob))
        (o : Option (AccessControlAllowOrigin Glob))
        → origin ≢ codes "null"
        → Found origin entries o
        → Judged origin host (some entries) (granted globs origin o)
    unfolding granted
    Found-admitting entries o h (found a i g) =
        rw (← echo-value origin h) (listed entries a other refl i g)
    Found-admitting entries o h (missing k) = refused entries other refl k

    judge-null :
        (allowed : Option (List (AccessControlAllowOrigin Glob)))
        → origin ≡ codes "null"
        → Judged origin host allowed (judge_origin globs origin allowed)
    unfolding judge_origin
    judge-null none e =
        let q = (text_beq_iff origin (codes "null")).1 e in
        rw q (rw (← granted-null origin null e e) (unlisted other refl))
    judge-null (some entries) e =
        rw ((text_beq_iff origin (codes "null")).1 e)
          (Found-null entries (find_null globs entries) e (find_null-Found origin entries e))

    judge-other :
        (allowed : Option (List (AccessControlAllowOrigin Glob)))
        → origin ≢ codes "null"
        → Judged origin host allowed (judge_origin globs origin allowed)
    unfolding judge_origin
    judge-other none h = rw (not_null origin h) (rw (← echo-value origin h) (unlisted other refl))
    judge-other (some entries) h = rw (not_null origin h) (
        Found-admitting entries (find_admitting globs entries origin) h
          (find_admitting-Found origin entries h))

    judge_origin-Judged :
        (allowed : Option (List (AccessControlAllowOrigin Glob)))
        → Judged origin host allowed (judge_origin globs origin allowed)
    judge_origin-Judged allowed = elim (Bool-cases (text_beq origin (codes "null"))) [
      | inl e ↦ judge-null allowed ((text_beq_iff origin (codes "null")).0 e)
      | inr e ↦ judge-other allowed (λ k. let g = (text_beq_iff origin (codes "null")).1 k in cc)
    ]

  -- On a request with an origin: when the origin ends in the host of the request and is parsed to it,
  -- no header is required; else access is granted to the origin itself if and only if there is no list
  -- of allowed origins or an entry of the list is for it, where `null` needs an entry `Null`.
  pub get_cors_allow_origin-Judged :
      (origin : Text) (host : Option Text) (allowed : Option (List (AccessControlAllowOrigin Glob)))
      → Judged origin host allowed (get_cors_allow_origin globs (some origin) host allowed)
  unfolding get_cors_allow_origin
  get_cors_allow_origin-Judged origin host allowed =
      elim (Bool-cases (same_server globs origin host)) [
        | inl e ↦ rw e (same (same_server-FromServer origin host e))
        | inr e ↦ rw e (judge_origin-Judged origin host (not-FromServer origin host e) allowed)
      ]
