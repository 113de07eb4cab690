-- ===== src/Utils/AccessControl/Chains.antt =====
-- What a chain of calls of `AccessControlBuilder` (utils/src/http/access_control.rs) builds.
use jsonrpsee.Base.{ℕ, List, [], ◌∷◌, ◌++◌, Option, none, some, Bool, false, ◌≡◌, refl, ap, ◌∙◌}
use mathlib.Core.List.{append-nil, append_assoc}
use jsonrpsee.Base.Text.{Text}
use jsonrpsee.Utils.Hosts.{Host, AllowHosts, only, any}
use jsonrpsee.Utils.Cors.{AccessControlAllowOrigin, AccessControlAllowHeaders}
use jsonrpsee.Utils.AccessControl.Builder.{
  AccessControlBuilder, new, allow_host, cors_allow_origin, cors_max_age, cors_allow_header,
  continue_on_invalid_cors, build,
}

-- A call of a method of the builder.
pub data BuilderCall (Glob : Type 0) : Type 0 where
  host : Host Glob → BuilderCall Glob
  origin : AccessControlAllowOrigin Glob → BuilderCall Glob
  max_age : ℕ → BuilderCall Glob
  header : Text → BuilderCall Glob
  continues : Bool → BuilderCall Glob

-- the headers that a list allows
abbrev pub headers_policy : List Text → AccessControlAllowHeaders
headers_policy [] = AccessControlAllowHeaders.any
headers_policy (h ∷ hs) = AccessControlAllowHeaders.only (h ∷ hs)

module _ {Glob : Type 0} where
  abbrev pub hosts_policy : List (Host Glob) → AllowHosts Glob
  hosts_policy [] = any
  hosts_policy (h ∷ hs) = only (h ∷ hs)

  abbrev pub origins_policy :
      List (AccessControlAllowOrigin Glob) → Option (List (AccessControlAllowOrigin Glob))
  origins_policy [] = none
  origins_policy (o ∷ os) = some (o ∷ os)

  -- one call
  abbrev pub call : BuilderCall Glob → AccessControlBuilder Glob → AccessControlBuilder Glob
  call (host h) b = allow_host h b
  call (origin o) b = cors_allow_origin o b
  call (max_age n) b = cors_max_age n b
  call (header n) b = cors_allow_header n b
  call (continues c) b = continue_on_invalid_cors c b

  -- The calls of a chain, one after another.
  unfoldable pub chain :
      List (BuilderCall Glob) → AccessControlBuilder Glob → AccessControlBuilder Glob
  chain [] b = b
  chain (c ∷ calls) b = chain calls (call c b)

  -- the hosts, origins and headers that the calls name, in their order
  abbrev pub hosts_of : List (BuilderCall Glob) → List (Host Glob)
  hosts_of [] = []
  hosts_of (host h ∷ calls) = h ∷ hosts_of calls
  hosts_of (c ∷ calls) = hosts_of calls

  abbrev pub origins_of : List (BuilderCall Glob) → List (AccessControlAllowOrigin Glob)
  origins_of [] = []
  origins_of (origin o ∷ calls) = o ∷ origins_of calls
  origins_of (c ∷ calls) = origins_of calls

  abbrev pub headers_of : List (BuilderCall Glob) → List Text
  headers_of [] = []
  headers_of (header n ∷ calls) = n ∷ headers_of calls
  headers_of (c ∷ calls) = headers_of calls

  -- the last setting of the calls, or the one before
  abbrev pub age_of : Option ℕ → List (BuilderCall Glob) → Option ℕ
  age_of age [] = age
  age_of age (max_age n ∷ calls) = age_of (some n) calls
  age_of age (c ∷ calls) = age_of age calls

  abbrev pub continues_of : Bool → List (BuilderCall Glob) → Bool
  continues_of c [] = c
  continues_of c (continues d ∷ calls) = continues_of d calls
  continues_of c (d ∷ calls) = continues_of c calls

  -- the builder that so many calls have filled
  abbrev filled :
      List (Host Glob)
      → List (AccessControlAllowOrigin Glob)
      → List Text
      → Option ℕ
      → Bool
      → AccessControlBuilder Glob
  filled hs os ns age c = record {
    allow_hosts = hosts_policy hs;
    cors_allow_origin = origins_policy os;
    cors_max_age = age;
    cors_allow_headers = headers_policy ns;
    continue_on_invalid_cors = c;
  }

  host-filled :
      (h : Host Glob) (hs : List (Host Glob)) (os : List (AccessControlAllowOrigin Glob))
      (ns : List Text) (age : Option ℕ) (c : Bool)
      → allow_host h (filled hs os ns age c) ≡ filled (hs ++ (h ∷ [])) os ns age c
  unfolding allow_host
  host-filled h [] os ns age c = refl
  host-filled h (k ∷ hs) os ns age c = refl

  origin-filled :
      (o : AccessControlAllowOrigin Glob) (hs : List (Host Glob))
      (os : List (AccessControlAllowOrigin Glob)) (ns : List Text) (age : Option ℕ) (c : Bool)
      → cors_allow_origin o (filled hs os ns age c) ≡ filled hs (os ++ (o ∷ [])) ns age c
  unfolding cors_allow_origin
  origin-filled o hs [] ns age c = refl
  origin-filled o hs (k ∷ os) ns age c = refl

  header-filled :
      (n : Text) (hs : List (Host Glob)) (os : List (AccessControlAllowOrigin Glob))
      (ns : List Text) (age : Option ℕ) (c : Bool)
      → cors_allow_header n (filled hs os ns age c) ≡ filled hs os (ns ++ (n ∷ [])) age c
  unfolding cors_allow_header
  header-filled n hs os [] age c = refl
  header-filled n hs os (k ∷ ns) age c = refl

  chain-filled :
      (calls : List (BuilderCall Glob)) (hs : List (Host Glob))
      (os : List (AccessControlAllowOrigin Glob)) (ns : List Text) (age : Option ℕ) (c : Bool)
      → chain calls (filled hs os ns age c)
        ≡ filled
            (hs ++ hosts_of calls)
            (os ++ origins_of calls)
            (ns ++ headers_of calls)
            (age_of age calls)
            (continues_of c calls)
  unfolding chain cors_max_age continue_on_invalid_cors
  chain-filled [] hs os ns age c = simp append-nil
  chain-filled (host h ∷ calls) hs os ns age c =
      ap (chain calls) (host-filled h hs os ns age c)
      ∙ chain-filled calls (hs ++ (h ∷ [])) os ns age c
      ∙ simp append_assoc
  chain-filled (origin o ∷ calls) hs os ns age c =
      ap (chain calls) (origin-filled o hs os ns age c)
      ∙ chain-filled calls hs (os ++ (o ∷ [])) ns age c
      ∙ simp append_assoc
  chain-filled (max_age n ∷ calls) hs os ns age c = chain-filled calls hs os ns (some n) c
  chain-filled (header n ∷ calls) hs os ns age c =
      ap (chain calls) (header-filled n hs os ns age c)
      ∙ chain-filled calls hs os (ns ++ (n ∷ [])) age c
      ∙ simp append_assoc
  chain-filled (continues d ∷ calls) hs os ns age c = chain-filled calls hs os ns age d

  -- A chain of calls on a new builder builds the settings that allow the hosts, origins and headers of
  -- the calls, in their order, all where no call names any, with the last maximal age and the last choice
  -- for invalid requests.
  pub build-chain :
      (calls : List (BuilderCall Glob))
      → build (chain calls new) ≡ record {
        allow_hosts = hosts_policy (hosts_of calls);
        cors_allow_origin = origins_policy (origins_of calls);
        cors_max_age = age_of none calls;
        cors_allow_headers = headers_policy (headers_of calls);
        continue_on_invalid_cors = continues_of false calls;
      }
  unfolding build new
  build-chain calls = ap build (chain-filled calls [] [] [] none false)
