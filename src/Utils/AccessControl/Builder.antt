-- ===== src/Utils/AccessControl/Builder.antt =====
-- `AccessControlBuilder` of utils/src/http/access_control.rs.
use jsonrpsee.Base.{ℕ, List, [], ◌∷◌, ◌++◌, Option, none, some, Bool, false}
use jsonrpsee.Base.Text.{Text}
use jsonrpsee.Utils.Hosts.{Host, AllowHosts, only, any}
use jsonrpsee.Utils.Cors.{AccessControlAllowOrigin, AccessControlAllowHeaders}
use jsonrpsee.Utils.AccessControl.{AccessControl}

pub record AccessControlBuilder (Glob : Type 0) : Type 0 where
  pub allow_hosts : AllowHosts Glob
  pub cors_allow_origin : Option (List (AccessControlAllowOrigin Glob))
  pub cors_max_age : Option ℕ
  pub cors_allow_headers : AccessControlAllowHeaders
  pub continue_on_invalid_cors : Bool

push_header : AccessControlAllowHeaders → Text → List Text
push_header AccessControlAllowHeaders.any header = header ∷ []
push_header (AccessControlAllowHeaders.only headers) header = headers ++ (header ∷ [])

module _ {Glob : Type 0} where
  -- `AccessControlBuilder::new`
  unfoldable pub new : AccessControlBuilder Glob
  new = record {
    allow_hosts = any;
    cors_allow_origin = none;
    cors_max_age = none;
    cors_allow_headers = AccessControlAllowHeaders.any;
    continue_on_invalid_cors = false;
  }

  push_host : AllowHosts Glob → Host Glob → List (Host Glob)
  push_host any host = host ∷ []
  push_host (only hosts) host = hosts ++ (host ∷ [])

  -- `AccessControlBuilder::allow_host`
  unfoldable pub allow_host : Host Glob → AccessControlBuilder Glob → AccessControlBuilder Glob
  unfolding push_host
  allow_host host b = record b { allow_hosts = only (push_host b.allow_hosts host) }

  push_origin :
      Option (List (AccessControlAllowOrigin Glob))
      → AccessControlAllowOrigin Glob
      → List (AccessControlAllowOrigin Glob)
  push_origin none origin = origin ∷ []
  push_origin (some origins) origin = origins ++ (origin ∷ [])

  -- `AccessControlBuilder::cors_allow_origin`
  unfoldable pub cors_allow_origin :
      AccessControlAllowOrigin Glob → AccessControlBuilder Glob → AccessControlBuilder Glob
  unfolding push_origin
  cors_allow_origin origin b = record b {
    cors_allow_origin = some (push_origin b.cors_allow_origin origin);
  }

  -- `AccessControlBuilder::cors_max_age`
  unfoldable pub cors_max_age : ℕ → AccessControlBuilder Glob → AccessControlBuilder Glob
  cors_max_age age b = record b { cors_max_age = some age }

  -- `AccessControlBuilder::cors_allow_header`
  unfoldable pub cors_allow_header : Text → AccessControlBuilder Glob → AccessControlBuilder Glob
  unfolding push_header
  cors_allow_header header b = record b {
    cors_allow_headers = AccessControlAllowHeaders.only (push_header b.cors_allow_headers header);
  }

  -- `AccessControlBuilder::continue_on_invalid_cors`
  unfoldable pub continue_on_invalid_cors :
      Bool → AccessControlBuilder Glob → AccessControlBuilder Glob
  continue_on_invalid_cors c b = record b { continue_on_invalid_cors = c }

  -- `AccessControlBuilder::build`
  unfoldable pub build : AccessControlBuilder Glob → AccessControl Glob
  build b = record {
    allow_hosts = b.allow_hosts;
    cors_allow_origin = b.cors_allow_origin;
    cors_max_age = b.cors_max_age;
    cors_allow_headers = b.cors_allow_headers;
    continue_on_invalid_cors = b.continue_on_invalid_cors;
  }
