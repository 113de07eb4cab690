-- ===== src/Utils/AccessControl.antt =====
-- utils/src/http/access_control.rs: the checks of a request and the builder of their settings. `Value`
-- is hyper's type of header values.
pub mod Builder
pub mod Chains
pub mod Denials
use jsonrpsee.Base.{ℕ, List, [], ◌∷◌, ◌++◌, Option, none, some, Bool, true, false, not, ◌&&◌}
use jsonrpsee.Base.Text.{Text, codes, split}
use jsonrpsee.Utils.Hosts
use jsonrpsee.Utils.Hosts.{Globs, Host, AllowHosts, is_host_valid}
use jsonrpsee.Utils.Cors
use jsonrpsee.Utils.Cors.{
  AccessControlAllowOrigin, null, value, AccessControlAllowHeaders, AllowCors, not_required,
  invalid, ok, allow_map, get_cors_allow_origin, get_cors_allow_headers,
}
use jsonrpsee.Utils.Headers.{HeaderMap, read_header_value, read_header_values}

-- `HeaderValue::from_str` and `HeaderValue::from_static`
pub record HeaderValues (Value : Type 0) : Type 0 where
  pub from_str : Text → Option Value
  pub from_static : Text → Value

pub record AccessControl (Glob : Type 0) : Type 0 where
  pub allow_hosts : AllowHosts Glob
  pub cors_allow_origin : Option (List (AccessControlAllowOrigin Glob))
  pub cors_max_age : Option ℕ
  pub cors_allow_headers : AccessControlAllowHeaders
  pub continue_on_invalid_cors : Bool

-- `Default for AccessControl`
unfoldable pub access_control_default : {Glob : Type 0} → AccessControl Glob
access_control_default = record {
  allow_hosts = AllowHosts.any;
  cors_allow_origin = none;
  cors_max_age = none;
  cors_allow_headers = AccessControlAllowHeaders.any;
  continue_on_invalid_cors = false;
}

-- `== AllowCors::Invalid`
unfoldable pub is_invalid {ℓ} : {A : Type ℓ} → AllowCors A → Bool
is_invalid not_required = false
is_invalid invalid = true
is_invalid (ok a) = false

-- `.filter_map(|val| val.to_str().ok())`
unfoldable pub texts_of : List (Option Text) → List Text
texts_of [] = []
texts_of (none ∷ vs) = texts_of vs
texts_of (some t ∷ vs) = t ∷ texts_of vs

-- `.flat_map(|val| val.split(separator))`
unfoldable pub split_all : Text → List Text → List Text
split_all separator [] = []
split_all separator (t ∷ ts) = split separator t ++ split_all separator ts

-- the names in the headers `access-control-request-headers`
unfoldable pub requested_headers : HeaderMap → List Text
requested_headers headers = split_all (codes ",") (
    split_all (codes ", ")
      (texts_of (read_header_values headers (codes "access-control-request-headers"))))

-- `AccessControl::deny_host`
unfoldable pub deny_host : {Glob : Type 0} → Globs Glob → AccessControl Glob → HeaderMap → Bool
deny_host globs ac headers =
    not (is_host_valid globs (read_header_value headers (codes "host")) ac.allow_hosts)

module _ {Value : Type 0} (values : HeaderValues Value) where
  or_static : Option Value → Text → Value
  or_static none text = values.from_static text
  or_static (some v) text = v

  -- the header value of an origin that is granted access
  unfoldable pub origin_value : {Glob : Type 0} → AccessControlAllowOrigin Glob → Value
  unfolding or_static
  origin_value (value o) = or_static (values.from_str o.as_string) (codes "null")
  origin_value null = values.from_static (codes "null")
  origin_value AccessControlAllowOrigin.any = values.from_static (codes "*")

  -- the header value of a name that is asked for
  unfoldable pub name_value : Text → Value
  unfolding or_static
  name_value name = or_static (values.from_str name) (codes "unknown")

  module _ {Glob : Type 0} (globs : Globs Glob) where
    -- `AccessControl::deny_cors_origin`
    unfoldable pub deny_cors_origin : AccessControl Glob → HeaderMap → Bool
    deny_cors_origin ac headers =
        is_invalid (
          allow_map origin_value (
            get_cors_allow_origin globs (read_header_value headers (codes "origin"))
              (read_header_value headers (codes "host")) ac.cors_allow_origin))
        && not ac.continue_on_invalid_cors

  -- `AccessControl::deny_cors_header`
  unfoldable pub deny_cors_header : {Glob : Type 0} → AccessControl Glob → HeaderMap → Bool
  deny_cors_header ac headers =
      is_invalid (
        get_cors_allow_headers headers.keys (requested_headers headers) ac.cors_allow_headers
          name_value)
      && not ac.continue_on_invalid_cors
