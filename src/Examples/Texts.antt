-- ===== src/Examples/Texts.antt =====
-- Concrete headers for utils/src/http and http-server/src/transport/background.rs. The patterns are
-- literal texts, compared without regard to case.
use jsonrpsee.Base.{ℕ, List, [], ◌∷◌, none, some, true, false, ok, ◌≡◌, ◌↔◌, if◌then◌else◌}
use jsonrpsee.Base.Text.{Text, text_beq, codes, eq_ignore_ascii_case}
use jsonrpsee.Utils.Headers.{HeaderMap, read_header_value}
use jsonrpsee.Utils.Hosts.{Globs, host_parse}
use jsonrpsee.Utils.Hosts.Normal.{host_parse_twice}
use jsonrpsee.Utils.Cors.{
  AccessControlAllowOrigin, AccessControlAllowHeaders, get_cors_allow_origin,
  get_cors_allow_headers, origin_parse,
}
use jsonrpsee.Utils.Cors.Origins.{origin_parse_twice}
use jsonrpsee.Utils.Cors.Granted.{Judged, get_cors_allow_origin-Judged}
use jsonrpsee.Utils.Cors.Headers.{Answered, get_cors_allow_headers-Answered}
use jsonrpsee.Utils.AccessControl.{
  AccessControl, HeaderValues, access_control_default, deny_cors_origin,
}
use jsonrpsee.Utils.AccessControl.Builder.{build, new}
use jsonrpsee.Utils.AccessControl.Chains.{
  BuilderCall, chain, hosts_of, origins_of, headers_of, age_of, continues_of, hosts_policy,
  origins_policy, headers_policy, build-chain,
}
use jsonrpsee.Utils.AccessControl.Denials.{Refused, deny_cors_origin_iff}
use jsonrpsee.Http.Background.{HttpRequest, Reply, process_request}
use jsonrpsee.Http.Background.Gates.{Handled, process_request-Handled}
use jsonrpsee.Examples.Calls.{three_calls}

abbrev literal : Globs Text
literal = record { build = λ t. some t; is_match = eq_ignore_ascii_case }

host_parse_twice_example :
    host_parse literal (host_parse literal (codes "HTTP://Parity.io:08080/x")).as_string
    ≡ host_parse literal (codes "HTTP://Parity.io:08080/x")
host_parse_twice_example = host_parse_twice literal (codes "HTTP://Parity.io:08080/x")

origin_parse_twice_example :
    origin_parse literal (origin_parse literal (codes "Chrome-Extension://ABC/x")).as_string
    ≡ origin_parse literal (codes "Chrome-Extension://ABC/x")
origin_parse_twice_example = origin_parse_twice literal (codes "Chrome-Extension://ABC/x")

abbrev parity : AccessControlAllowOrigin Text
parity = AccessControlAllowOrigin.value (origin_parse literal (codes "http://parity.io"))

get_cors_allow_origin-Judged_example :
    Judged literal (codes "http://parity.io") (some (codes "localhost")) (some (parity ∷ [])) (
      get_cors_allow_origin literal
        (some (codes "http://parity.io"))
        (some (codes "localhost"))
        (some (parity ∷ [])))
get_cors_allow_origin-Judged_example =
    get_cors_allow_origin-Judged literal (codes "http://parity.io") (some (codes "localhost"))
      (some (parity ∷ []))

abbrev policy : AccessControlAllowHeaders
policy = AccessControlAllowHeaders.only (codes "x-allowed" ∷ [])

get_cors_allow_headers-Answered_example :
    Answered
      (λ (t : Text). t)
      policy
      (codes "host" ∷ [])
      (codes "X-Allowed" ∷ codes "x-other" ∷ [])
      (get_cors_allow_headers
        (codes "host" ∷ [])
        (codes "X-Allowed" ∷ codes "x-other" ∷ [])
        policy
        (λ (t : Text). t))
get_cors_allow_headers-Answered_example =
    get_cors_allow_headers-Answered (λ (t : Text). t) (codes "host" ∷ [])
      (codes "X-Allowed" ∷ codes "x-other" ∷ []) policy

abbrev calls : List (BuilderCall Text)
calls =
    BuilderCall.host (host_parse literal (codes "parity.io"))
    ∷ BuilderCall.max_age 60
    ∷ BuilderCall.header (codes "x-allowed")
    ∷ BuilderCall.max_age 90
    ∷ []

build-chain_example : build (chain calls new) ≡ record {
  allow_hosts = hosts_policy (hosts_of calls);
  cors_allow_origin = origins_policy (origins_of calls);
  cors_max_age = age_of none calls;
  cors_allow_headers = headers_policy (headers_of calls);
  continue_on_invalid_cors = continues_of false calls;
}
build-chain_example = build-chain calls

abbrev headers : HeaderMap
headers = record {
  keys = codes "host" ∷ codes "origin" ∷ [];
  get_all = λ name.
      if text_beq name (codes "host")
      then some (codes "localhost") ∷ []
      else if text_beq name (codes "origin")
      then some (codes "http://evil.io") ∷ []
      else [];
}

abbrev values : HeaderValues Text
values = record { from_str = λ t. some t; from_static = λ t. t }

abbrev strict : AccessControl Text
strict = record access_control_default { cors_allow_origin = some (parity ∷ []) }

deny_cors_origin_iff_example : (deny_cors_origin values literal strict headers ≡ true) ↔ (
    (strict.continue_on_invalid_cors ≡ false)
    × ((origin : Text) × (read_header_value headers (codes "origin") ≡ some origin)
        × Refused literal origin
            (read_header_value headers (codes "host"))
            strict.cors_allow_origin))
deny_cors_origin_iff_example = deny_cors_origin_iff literal values strict headers

abbrev post : HttpRequest ℕ ℕ
post = record { is_post = true; headers = headers; body = ok (1 ∷ []) ∷ ok (2 ∷ []) ∷ [] }

process_request-Handled_example :
    Handled
      (λ (bytes : List ℕ). some three_calls)
      (λ (e : ℕ). codes "broken")
      literal
      values
      strict
      100
      post
      Reply.shut
      (process_request
        (λ (bytes : List ℕ). some three_calls)
        (λ (e : ℕ). codes "broken")
        literal
        values
        strict
        100
        post
        Reply.shut)
process_request-Handled_example =
    process_request-Handled (λ (bytes : List ℕ). some three_calls) (λ (e : ℕ). codes "broken")
      literal values strict 100 post Reply.shut
