-- ===== src/Options.antt =====
-- options.go: the configuration, its defaults and the DSN. A rate is a float64, kept as the exact
-- fraction that it stands for; a duration is in nanoseconds. What url.Parse makes of a text is a
-- parameter of parse_dsn.
pub mod Defaults
pub mod Parsing
use bugfree_go_sdk.Base.{
  Bool, List, Option, Text, [], codes, if◌then◌else◌, is_empty, leb, leb_ℤ, ltb_ℤ, none, not, pos,
  some, text_eq, ℕ, ℤ, ◌&&◌, ◌++◌, ◌==◌, ◌||◌, ◌∷◌,
}
use bugfree_go_sdk.Event.{Event}

-- A finite float64: num / den, with den not zero.
pub record Rate : Type 0 where
  pub num : ℤ
  pub den : ℕ

abbrev pub one : Rate
one = record { num = pos 1; den = 1 }

-- rate <= 0, rate >= 1 and rate > 1
unfoldable pub at_most_zero : Rate → Bool
at_most_zero r = leb_ℤ r.num (pos 0)

unfoldable pub at_least_one : Rate → Bool
at_least_one r = leb_ℤ (pos r.den) r.num

unfoldable pub above_one : Rate → Bool
above_one r = ltb_ℤ (pos r.den) r.num

-- type Options struct, the fields that decide something; `before_send` is none for nil.
pub record Options : Type 0 where
  pub dsn : Text
  pub environment : Text
  pub release : Text
  pub server_name : Text
  pub sample_rate : Rate
  pub dedupe_window : ℤ
  pub source_context_lines : ℤ
  pub in_app_prefixes : List Text
  pub profiling_interval : ℤ
  pub profile_duration : ℤ
  pub traces_sample_rate : Rate
  pub trust_incoming_sampling : Bool
  pub track_sessions : Bool
  pub max_breadcrumbs : ℤ
  pub flush_timeout : ℤ
  pub shutdown_timeout : ℤ
  pub debug : Bool
  pub before_send : Option (Event → Option Event)

abbrev pub or_default : ℤ → ℤ → ℤ
or_default value fallback = if leb_ℤ value (pos 0) then fallback else value

-- normalize
unfoldable pub normalize : Options → Options
unfolding at_most_zero above_one
normalize o = record o {
  sample_rate =
      if at_most_zero o.sample_rate || above_one o.sample_rate then one else o.sample_rate;
  max_breadcrumbs = or_default o.max_breadcrumbs (pos 30);
  flush_timeout = or_default o.flush_timeout (pos 2000000000);
  shutdown_timeout = or_default o.shutdown_timeout (pos 5000000000);
  environment = if is_empty o.environment then codes "development" else o.environment;
}

-- What url.Parse gives: `user` is none without user information.
pub record Url : Type 0 where
  pub scheme : Text
  pub user : Option Text
  pub host : Text
  pub path : Text

-- type dsn struct
pub record Dsn : Type 0 where
  pub public_key : Text
  pub store_url : Text
  pub base : Text

pub data DsnError : Type 0 where
  empty_dsn unparsable bad_scheme no_key no_host : DsnError

pub data Parsed : Type 0 where
  parsed : Dsn → Parsed
  refused : DsnError → Parsed

-- unicode.IsSpace on ASCII
unfoldable pub is_space : ℕ → Bool
is_space c = c == 32 || (leb 9 c && leb c 13)

unfoldable pub trim_left : (ℕ → Bool) → Text → Text
trim_left cut [] = []
trim_left cut (c ∷ s) = if cut c then trim_left cut s else c ∷ s

unfoldable pub trim_right : (ℕ → Bool) → Text → Text
trim_right cut [] = []
trim_right cut (c ∷ s) = elim (trim_right cut s) [
  | [] ↦ if cut c then [] else c ∷ []
  | d ∷ t ↦ c ∷ d ∷ t
]

-- strings.TrimSpace of an ASCII text, and strings.Trim(s, "/")
unfoldable pub trim : (ℕ → Bool) → Text → Text
unfolding trim_left trim_right
trim cut s = trim_right cut (trim_left cut s)

abbrev pub path_or_ingest : Text → Text
path_or_ingest [] = codes "ingest"
path_or_ingest (c ∷ s) = c ∷ s

unfoldable pub dsn_of : Url → Text → Dsn
unfolding trim
dsn_of u key =
    let root = u.scheme ++ (codes "://" ++ u.host) in
    let path = path_or_ingest (trim (λ c. c == b'/') u.path) in
    let base = root ++ (codes "/" ++ (path ++ (codes "/v1/" ++ key))) in
    record { public_key = key; store_url = base ++ codes "/store"; base = base }

abbrev pub with_key : Url → Option Text → Parsed
with_key u none = refused no_key
with_key u (some key) =
    if is_empty key
    then refused no_key
    else if is_empty u.host
    then refused no_host
    else parsed (dsn_of u key)

abbrev pub from_url : Option Url → Parsed
from_url none = refused unparsable
from_url (some u) =
    if not (text_eq u.scheme (codes "http")) && not (text_eq u.scheme (codes "https"))
    then refused bad_scheme
    else with_key u u.user

-- parseDSN
unfoldable pub parse_dsn : (Text → Option Url) → Text → Parsed
unfolding trim is_space dsn_of
parse_dsn parse raw =
    let raw' = trim is_space raw in
    if is_empty raw' then refused empty_dsn else from_url (parse raw')
