-- ===== src/Utils/Hosts.antt =====
-- utils/src/http/matcher.rs and utils/src/http/hosts.rs. The type `Glob` of the compiled patterns of
-- the crate globset, their construction without regard to case, which may fail, and their test are
-- parameters. A u16 is a number below 65536.
pub mod Normal
use jsonrpsee.Base.{ℕ, List, [], ◌∷◌, ◌++◌, Option, some, Bool, true, false, ◌||◌}
use jsonrpsee.Base.Text.{
  Text, codes, to_lowercase, eq_ignore_ascii_case, first_piece, second_piece, parse_unsigned,
  decimal,
}

-- `GlobBuilder::build` with `case_insensitive(true)`, and `GlobMatcher::is_match`
pub record Globs (Glob : Type 0) : Type 0 where
  pub build : Text → Option Glob
  pub is_match : Glob → Text → Bool

-- `Matcher`
pub record Matcher (Glob : Type 0) : Type 0 where
  pub glob : Option Glob
  pub text : Text

pub data Port : Type 0 where
  none : Port
  pattern : Text → Port
  fixed : ℕ → Port

-- `Host`
pub record Host (Glob : Type 0) : Type 0 where
  pub hostname : Text
  pub port : Port
  pub as_string : Text
  pub matcher : Matcher Glob

-- `AllowHosts`
pub data AllowHosts (Glob : Type 0) : Type 0 where
  any : AllowHosts Glob
  only : List (Host Glob) → AllowHosts Glob

-- the text behind a possible protocol
unfoldable pub after_scheme : Text → Text
after_scheme host = elim (second_piece (codes "://") host) [
  | Option.some rest ↦ rest
  | Option.none ↦ first_piece (codes "://") host
]

-- `Host::pre_process`
unfoldable pub pre_process : Text → Text
pre_process host = to_lowercase (first_piece (codes "/") (after_scheme host))

-- `Host::to_string`
unfoldable pub host_to_string : Text → Port → Text
host_to_string hostname (fixed port) = hostname ++ (codes ":" ++ decimal port)
host_to_string hostname (pattern port) = hostname ++ (codes ":" ++ port)
host_to_string hostname Port.none = hostname ++ []

-- the port in `Host::parse`
unfoldable pub parse_port : Option Text → Port
parse_port Option.none = Port.none
parse_port (some port) = elim (parse_unsigned 65536 port) [
  | Option.some n ↦ fixed n
  | Option.none ↦ pattern port
]

module _ {Glob : Type 0} (globs : Globs Glob) where
  -- `Matcher::new`
  unfoldable pub matcher_new : Text → Matcher Glob
  matcher_new text = record { glob = globs.build text; text = text }

  matches_glob : Option Glob → Text → Text → Bool
  unfolding eq_ignore_ascii_case
  matches_glob (some glob) text other = globs.is_match glob other
  matches_glob Option.none text other = eq_ignore_ascii_case text other

  -- `Matcher::matches`, and through it `Host::matches` and `Origin::matches`
  unfoldable pub matches : Matcher Glob → Text → Bool
  unfolding matches_glob
  matches m other = matches_glob m.glob m.text other

  -- the value that `Host::new` returns for a pre-processed name
  unfoldable pub host_of : Text → Port → Host Glob
  unfolding matcher_new
  host_of hostname port = record {
    hostname = hostname;
    port = port;
    as_string = host_to_string hostname port;
    matcher = matcher_new (host_to_string hostname port);
  }

  -- `Host::new`
  unfoldable pub host_new : Text → Port → Host Glob
  host_new hostname port = host_of (pre_process hostname) port

  -- `Host::parse`, of a pre-processed text
  unfoldable pub parse_name : Text → Host Glob
  parse_name hostname =
      host_new (first_piece (codes ":") hostname) (parse_port (second_piece (codes ":") hostname))

  -- `Host::parse`
  unfoldable pub host_parse : Text → Host Glob
  host_parse text = parse_name (pre_process text)

  -- `allow_hosts.iter().any(|h| h.matches(host))`
  unfoldable pub any_matches : List (Host Glob) → Text → Bool
  unfolding matches
  any_matches [] host = false
  any_matches (h ∷ hosts) host = matches h.matcher host || any_matches hosts host

  -- `is_host_valid`
  unfoldable pub is_host_valid : Option Text → AllowHosts Glob → Bool
  unfolding any_matches
  is_host_valid Option.none allow_hosts = false
  is_host_valid (some host) any = true
  is_host_valid (some host) (only hosts) = any_matches hosts host
