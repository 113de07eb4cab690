-- ===== src/Utils/AccessControl/Denials.antt =====
-- Which requests the checks of `AccessControl` (utils/src/http/access_control.rs) deny.
use jsonrpsee.Base.{
  List, [], ◌∷◌, Option, none, some, Bool, true, false, not, ◌&&◌, is_none, ◌≡◌, refl, inl, inr,
  Bool-cases, In, ◌↔◌, subst,
}
use jsonrpsee.Base.Text.{Text, codes}
use jsonrpsee.Utils.Hosts.{Globs, any, is_host_valid}
use jsonrpsee.Utils.Cors.{
  AccessControlAllowOrigin, AccessControlAllowHeaders, AllowCors, not_required, invalid, ok,
  allow_map, get_cors_allow_origin, get_cors_allow_headers, headers_result, map_requested,
}
use jsonrpsee.Utils.Cors.Granted.{
  Judged, same, unlisted, listed, refused, FromServer, Grants, get_cors_allow_origin-Judged,
}
use jsonrpsee.Utils.Headers.{HeaderMap, read_header_value}
use jsonrpsee.Utils.AccessControl.{
  AccessControl, access_control_default, HeaderValues, is_invalid, deny_host, deny_cors_origin,
  deny_cors_header, origin_value, name_value, requested_headers,
}

is_invalid-allow_map :
    {A B : Type 0} (f : A → B) (r : AllowCors A) → is_invalid (allow_map f r) ≡ is_invalid r
unfolding is_invalid allow_map
is_invalid-allow_map f not_required = refl
is_invalid-allow_map f invalid = refl
is_invalid-allow_map f (ok a) = refl

some_inj : (a b : Text) → some b ≡ some a → a ≡ b
some_inj a b e = cc

and-not_iff :
    {P : Type 0} (b c : Bool) → ((b ≡ true) ↔ P) → ((b && not c) ≡ true) ↔ ((c ≡ false) × P)
and-not_iff true true (f, g) = (λ h. cc, λ (h, x). cc)
and-not_iff true false (f, g) = (λ h. (refl, f refl), λ h. refl)
and-not_iff false true (f, g) = (λ h. cc, λ (h, x). cc)
and-not_iff false false (f, g) = (λ h. cc, λ (h, x). g x)

host_default :
    {Glob : Type 0} (globs : Globs Glob) (o : Option Text)
    → not (is_host_valid globs o any) ≡ is_none o
unfolding is_host_valid
host_default globs none = refl
host_default globs (some h) = refl

header_default :
    {Out : Type 0} (headers requested : List Text) (f : Text → Out)
    → (is_invalid (get_cors_allow_headers headers requested AccessControlAllowHeaders.any f)
        && true)
      ≡ false
unfolding get_cors_allow_headers headers_result map_requested is_invalid
header_default headers [] f = refl
header_default headers (h ∷ requested) f = refl

module _ {Glob : Type 0} (globs : Globs Glob) where
  -- The origin is of another server, and no entry of the list of allowed origins is for it.
  pub record Refused (origin : Text) (host : Option Text)
      (allowed : Option (List (AccessControlAllowOrigin Glob))) : Type 0 where
    pub entries : List (AccessControlAllowOrigin Glob)
    pub other : ¬ FromServer globs origin host
    pub with_list : allowed ≡ some entries
    pub none_grants : (a : AccessControlAllowOrigin Glob) → In a entries → ¬ Grants globs a origin

  same_list :
      {allowed : Option (List (AccessControlAllowOrigin Glob))}
      (xs ys : List (AccessControlAllowOrigin Glob))
      → allowed ≡ some xs
      → allowed ≡ some ys
      → ys ≡ xs
  same_list xs ys e f = cc

  Judged-Refused :
      (origin : Text) (host : Option Text) (allowed : Option (List (AccessControlAllowOrigin Glob)))
      (r : AllowCors (AccessControlAllowOrigin Glob))
      → Judged globs origin host allowed r
      → (is_invalid r ≡ true) ↔ Refused origin host allowed
  unfolding is_invalid
  Judged-Refused origin host allowed r (same f) = (λ h. cc, λ x. absurd (x.other f))
  Judged-Refused origin host allowed r (unlisted n e) = (λ h. cc, λ x. cc (x.with_list))
  Judged-Refused origin host allowed r (listed entries a n e i g) = (
    λ h. cc,
    λ x. absurd (x.none_grants a (subst (In a) (same_list x.entries entries x.with_list e) i) g),
  )
  Judged-Refused origin host allowed r (refused entries n e k) =
      (λ h. record { entries = entries; other = n; with_list = e; none_grants = k }, λ x. refl)

  invalid_iff :
      (o host : Option Text) (allowed : Option (List (AccessControlAllowOrigin Glob)))
      → (is_invalid (get_cors_allow_origin globs o host allowed) ≡ true)
        ↔ ((origin : Text) × (o ≡ some origin) × Refused origin host allowed)
  unfolding get_cors_allow_origin is_invalid
  invalid_iff none host allowed = (λ h. cc, λ (origin, e, x). cc)
  invalid_iff (some origin) host allowed =
      let (f, g) =
        Judged-Refused origin host allowed (get_cors_allow_origin globs (some origin) host allowed)
          (get_cors_allow_origin-Judged globs origin host allowed) in
      (
        λ h. (origin, refl, f h),
        λ (o, e, x). g (subst (λ t. Refused t host allowed) (some_inj o origin e) x),
      )

  origin_default :
      (o host : Option Text) → is_invalid (get_cors_allow_origin globs o host none) ≡ false
  origin_default o host = elim (Bool-cases (is_invalid (get_cors_allow_origin globs o host none))) [
    | inl h ↦ let (origin, e, x) = (invalid_iff o host none).0 h in cc (x.with_list)
    | inr h ↦ h
  ]

  module _ {Value : Type 0} (values : HeaderValues Value) where
    -- A request is denied for its origin if and only if invalid requests are not let through, and it has
    -- a single origin, as a text, that is not its own server and is refused by the list of allowed
    -- origins.
    pub deny_cors_origin_iff :
        (ac : AccessControl Glob) (headers : HeaderMap)
        → (deny_cors_origin values globs ac headers ≡ true) ↔ (
            (ac.continue_on_invalid_cors ≡ false)
            × ((origin : Text) × (read_header_value headers (codes "origin") ≡ some origin)
                × Refused origin (read_header_value headers (codes "host")) ac.cors_allow_origin))
    unfolding deny_cors_origin
    deny_cors_origin_iff ac headers =
        rw
          (is_invalid-allow_map (origin_value values) (
            get_cors_allow_origin globs (read_header_value headers (codes "origin"))
              (read_header_value headers (codes "host")) ac.cors_allow_origin))
          (and-not_iff _ ac.continue_on_invalid_cors (
            invalid_iff (read_header_value headers (codes "origin"))
              (read_header_value headers (codes "host")) ac.cors_allow_origin))

    -- The default settings deny a request if and only if it does not have one host, as a text, and never
    -- for its origin or its headers.
    pub access_control_default-denies :
        (headers : HeaderMap)
        → (deny_host globs access_control_default headers
            ≡ is_none (read_header_value headers (codes "host")))
          × (deny_cors_origin values globs access_control_default headers ≡ false)
          × (deny_cors_header values {Glob = Glob} access_control_default headers ≡ false)
    unfolding access_control_default deny_host deny_cors_origin deny_cors_header
    access_control_default-denies headers = (
      host_default globs (read_header_value headers (codes "host")),
      rw
          (is_invalid-allow_map (origin_value values) (
            get_cors_allow_origin globs (read_header_value headers (codes "origin"))
              (read_header_value headers (codes "host")) none))
          (rw
            (origin_default (read_header_value headers (codes "origin"))
              (read_header_value headers (codes "host")))
            refl),
      header_default headers.keys (requested_headers headers) (name_value values),
    )
