-- ===== src/Utils/Cors.antt =====
-- utils/src/http/cors.rs: the decisions on the origin and on the headers of a request.
pub mod Origins
pub mod Granted
pub mod Headers
use jsonrpsee.Base.{
  List, [], ◌∷◌, ◌++◌, Option, none, some, Bool, true, false, not, ◌&&◌, ◌||◌, if◌then◌else◌,
}
use jsonrpsee.Base.Text.{
  Text, text_beq, codes, to_lowercase, eq_ignore_ascii_case, first_piece, second_piece, ends_with,
}
use jsonrpsee.Utils.Hosts.{Globs, Matcher, Host, host_parse, matcher_new, matches}

pub data OriginProtocol : Type 0 where
  http https : OriginProtocol
  custom : Text → OriginProtocol

-- `Origin`
pub record Origin (Glob : Type 0) : Type 0 where
  pub protocol : OriginProtocol
  pub host : Host Glob
  pub as_string : Text
  pub matcher : Matcher Glob

pub data AccessControlAllowOrigin (Glob : Type 0) : Type 0 where
  value : Origin Glob → AccessControlAllowOrigin Glob
  null : AccessControlAllowOrigin Glob
  any : AccessControlAllowOrigin Glob

pub data AccessControlAllowHeaders : Type 0 where
  only : List Text → AccessControlAllowHeaders
  any : AccessControlAllowHeaders

pub data AllowCors {ℓ} (A : Type ℓ) : Type ℓ where
  not_required : AllowCors A
  invalid : AllowCors A
  ok : A → AllowCors A

-- `AllowCors::map`
unfoldable pub allow_map {ℓ κ} : {A : Type ℓ} {B : Type κ} → (A → B) → AllowCors A → AllowCors B
allow_map f not_required = not_required
allow_map f invalid = invalid
allow_map f (ok a) = ok (f a)

-- `Into<Option<T>> for AllowCors<T>`
unfoldable pub allow_option {ℓ} : {A : Type ℓ} → AllowCors A → Option A
allow_option not_required = none
allow_option invalid = none
allow_option (ok a) = some a

-- `.map(AllowCors::Ok).unwrap_or(AllowCors::Invalid)`
unfoldable pub ok_or_invalid {ℓ} : {A : Type ℓ} → Option A → AllowCors A
ok_or_invalid none = invalid
ok_or_invalid (some a) = ok a

unfoldable pub protocol_text : OriginProtocol → Text
protocol_text http = codes "http"
protocol_text https = codes "https"
protocol_text (custom p) = p

-- the match on the protocol in `Origin::parse`, of a protocol in small letters
unfoldable pub protocol_of : Option Text → OriginProtocol
protocol_of none = http
protocol_of (some p) =
    if text_beq p (codes "http")
    then http
    else if text_beq p (codes "https")
    then https
    else custom p

-- the first match in `Origin::parse`: the protocol, if there is one, and the text of the host
unfoldable pub origin_parts : Text → Option Text × Text
origin_parts text = elim (second_piece (codes "://") text) [
  | none ↦ (none, first_piece (codes "://") text)
  | some hostname ↦ (some (first_piece (codes "://") text), hostname)
]

-- `proto.map(str::to_lowercase)`
unfoldable pub small_protocol : Option Text → Option Text
small_protocol none = none
small_protocol (some p) = some (to_lowercase p)

module _ {Glob : Type 0} (globs : Globs Glob) where
  -- `Origin::with_host`, with `Origin::to_string`
  unfoldable pub with_host : OriginProtocol → Host Glob → Origin Glob
  with_host protocol host =
      let text = protocol_text protocol ++ (codes "://" ++ host.as_string) in
      record {
        protocol = protocol;
        host = host;
        as_string = text;
        matcher = matcher_new globs text;
      }

  -- `Origin::parse`
  unfoldable pub origin_parse : Text → Origin Glob
  origin_parse text =
      let (protocol, hostname) = origin_parts text in
      with_host (protocol_of (small_protocol protocol)) (host_parse globs hostname)

  -- `From<T> for AccessControlAllowOrigin`
  unfoldable pub allow_origin_from : Text → AccessControlAllowOrigin Glob
  allow_origin_from s =
      if text_beq s (codes "all") || text_beq s (codes "*") || text_beq s (codes "any")
      then AccessControlAllowOrigin.any
      else if text_beq s (codes "null")
      then null
      else value (origin_parse s)

  -- `.iter().find(|cors| **cors == AccessControlAllowOrigin::Null).cloned()`
  unfoldable pub find_null :
      List (AccessControlAllowOrigin Glob) → Option (AccessControlAllowOrigin Glob)
  find_null [] = none
  find_null (null ∷ allowed) = some null
  find_null (AccessControlAllowOrigin.any ∷ allowed) = find_null allowed
  find_null (value o ∷ allowed) = find_null allowed

  -- the test of the second `find`
  unfoldable pub admits : AccessControlAllowOrigin Glob → Text → Bool
  admits AccessControlAllowOrigin.any origin = true
  admits (value o) origin = matches globs o.matcher origin
  admits null origin = false

  -- the second `find`
  unfoldable pub find_admitting :
      List (AccessControlAllowOrigin Glob) → Text → Option (AccessControlAllowOrigin Glob)
  find_admitting [] origin = none
  find_admitting (a ∷ allowed) origin =
      if admits a origin then some a else find_admitting allowed origin

  -- the check that the request comes from the same server
  unfoldable pub same_server : Text → Option Text → Bool
  same_server origin none = false
  same_server origin (some host) =
      ends_with origin host && text_beq (origin_parse origin).host.as_string host

  -- the value of an origin that is found
  unfoldable pub granted :
      Text → Option (AccessControlAllowOrigin Glob) → AllowCors (AccessControlAllowOrigin Glob)
  granted origin none = invalid
  granted origin (some a) = ok (value (origin_parse origin))

  -- the match on the allowed origins in `get_cors_allow_origin`
  unfoldable pub judge_origin :
      Text
      → Option (List (AccessControlAllowOrigin Glob))
      → AllowCors (AccessControlAllowOrigin Glob)
  judge_origin origin none =
      if text_beq origin (codes "null") then ok null else ok (value (origin_parse origin))
  judge_origin origin (some allowed) =
      if text_beq origin (codes "null")
      then ok_or_invalid (find_null allowed)
      else granted origin (find_admitting allowed origin)

  -- `get_cors_allow_origin`
  unfoldable pub get_cors_allow_origin :
      Option Text
      → Option Text
      → Option (List (AccessControlAllowOrigin Glob))
      → AllowCors (AccessControlAllowOrigin Glob)
  get_cors_allow_origin none host allowed = not_required
  get_cors_allow_origin (some origin) host allowed =
      if same_server origin host then not_required else judge_origin origin allowed

-- `ALWAYS_ALLOWED_HEADERS`
abbrev pub always_allowed : List Text
always_allowed =
    codes "Accept"
    ∷ codes "Accept-Language"
    ∷ codes "Access-Control-Allow-Origin"
    ∷ codes "Access-Control-Request-Headers"
    ∷ codes "Content-Language"
    ∷ codes "Content-Type"
    ∷ codes "Host"
    ∷ codes "Origin"
    ∷ codes "Content-Length"
    ∷ codes "Connection"
    ∷ codes "User-Agent"
    ∷ []

-- `.iter().any(|h| Ascii::new(h) == name)`, and `contains` of a set of such names
unfoldable pub any_equal : List Text → Text → Bool
any_equal [] name = false
any_equal (h ∷ hs) name = eq_ignore_ascii_case h name || any_equal hs name

-- the test of one name in `get_cors_allow_headers`
unfoldable pub header_allowed : List Text → Text → Bool
header_allowed names name = any_equal names name || any_equal always_allowed name

-- `headers.all(..)`
unfoldable pub all_allowed : List Text → List Text → Bool
all_allowed names [] = true
all_allowed names (h ∷ headers) = header_allowed names h && all_allowed names headers

-- `requested_headers.filter(..).map(to_result)`, and whether the filter has seen a header
unfoldable pub filter_requested {ℓ} :
    {Out : Type ℓ} → (Text → Out) → List Text → List Text → Bool × List Out
filter_requested to_result names [] = (false, [])
filter_requested to_result names (h ∷ requested) =
    let (filtered, rest) = filter_requested to_result names requested in
    (true, if header_allowed names h then to_result h ∷ rest else rest)

unfoldable pub map_requested {ℓ} : {Out : Type ℓ} → (Text → Out) → List Text → List Out
map_requested to_result [] = []
map_requested to_result (h ∷ requested) = to_result h ∷ map_requested to_result requested

-- the last test of `get_cors_allow_headers`
unfoldable pub headers_result {ℓ} : {Out : Type ℓ} → Bool → List Out → AllowCors (List Out)
headers_result filtered [] = if filtered then invalid else not_required
headers_result filtered (h ∷ headers) = ok (h ∷ headers)

-- `get_cors_allow_headers`
unfoldable pub get_cors_allow_headers {ℓ} :
    {Out : Type ℓ}
    → List Text
    → List Text
    → AccessControlAllowHeaders
    → (Text → Out)
    → AllowCors (List Out)
get_cors_allow_headers headers requested AccessControlAllowHeaders.any to_result =
    headers_result false (map_requested to_result requested)
get_cors_allow_headers headers requested (only names) to_result =
    if not (all_allowed names headers)
    then invalid
    else let (filtered, rest) = filter_requested to_result names requested in
      headers_result filtered rest
