-- ===== src/Recover/Address.antt =====
-- recover.go: RequestURL, with what it uses of net/url: the URL's fields and URL.String. How
-- net/url escapes a host and a path is an argument.
use bugfree_go_sdk.Base.{
  Bool, Option, Text, [], arith, codes, false, if◌then◌else◌, is_empty, is_some, none, not, refl,
  some, true, ℕ, ◌&&◌, ◌++◌, ◌==◌, ◌||◌, ◌∷◌, ◌≡◌,
}

-- url.URL; `user` and `fragment` as they are printed, the empty text for none but for the user.
pub record Address : Type 0 where
  pub scheme : Text
  pub opaque : Text
  pub user : Option Text
  pub host : Text
  pub path : Text
  pub raw_path : Text
  pub omit_host : Bool
  pub force_query : Bool
  pub raw_query : Text
  pub fragment : Text
  pub raw_fragment : Text

-- escape(host, encodeHost), EscapedPath and EscapedFragment
pub record Escapes : Type 0 where
  pub escaped_host : Text → Text
  pub escaped_path : Text → Text → Text
  pub escaped_fragment : Text → Text → Text

abbrev pub slash : ℕ
slash = 47

abbrev pub colon : ℕ
colon = 58

-- strings.Contains(segment, ":") for the path's first segment
abbrev pub colon_in_segment : Text → Bool
colon_in_segment [] = false
colon_in_segment (c ∷ cs) = not (c == slash) && (c == colon || colon_in_segment cs)

abbrev pub is_rooted : Text → Bool
is_rooted [] = false
is_rooted (c ∷ cs) = c == slash

abbrev pub printed_user : Option Text → Text
printed_user none = []
printed_user (some info) = info ++ codes "@"

-- URL.String: the part with the user info and the host
unfoldable pub authority : Escapes → Address → Text
authority p a =
    if is_empty a.scheme && is_empty a.host && not (is_some a.user)
    then []
    else if a.omit_host && is_empty a.host && not (is_some a.user)
    then []
    else (if is_empty a.host && is_empty a.path && not (is_some a.user) then [] else codes "//")
      ++ printed_user a.user
      ++ (if is_empty a.host then [] else p.escaped_host a.host)

-- URL.String: the path, behind what stands before it
unfoldable pub with_path : Text → Address → Text → Text
with_path before a path =
    let rooted =
      if not (is_empty path) && not (is_rooted path) && not (is_empty a.host)
      then before ++ codes "/"
      else before in
    (if is_empty rooted && colon_in_segment path then codes "./" else rooted) ++ path

-- URL.String: the query string and the fragment
unfoldable pub tail_of : Escapes → Address → Text
tail_of p a =
    (if a.force_query || not (is_empty a.raw_query) then codes "?" ++ a.raw_query else [])
    ++ (if is_empty a.fragment
        then []
        else codes "#" ++ p.escaped_fragment a.fragment a.raw_fragment)

-- URL.String
unfoldable pub url_string : Escapes → Address → Text
unfolding authority with_path tail_of
url_string p a =
    let before = if is_empty a.scheme then [] else a.scheme ++ codes ":" in
    (if is_empty a.opaque
      then with_path (before ++ authority p a) a (p.escaped_path a.path a.raw_path)
      else before ++ a.opaque)
    ++ tail_of p a

-- The copy that RequestURL prints.
abbrev pub trimmed : Address → Address
trimmed a = record a {
  raw_query = [];
  force_query = false;
  fragment = [];
  raw_fragment = [];
  user = none;
}

-- RequestURL; none is a nil address.
unfoldable pub request_url : Escapes → Option Address → Text
unfolding url_string
request_url p none = []
request_url p (some a) = url_string p (trimmed a)

-- No character of the text is the mark of a query string or of a fragment.
unfoldable pub is_unmarked : Text → Bool
is_unmarked [] = true
is_unmarked (c ∷ cs) = not (c == 63 || c == 35) && is_unmarked cs

append-unmarked :
    (x y : Text) → is_unmarked x ≡ true → is_unmarked y ≡ true → is_unmarked (x ++ y) ≡ true
unfolding is_unmarked
append-unmarked [] y hx hy = hy
append-unmarked (c ∷ cs) y hx hy = ground (arith, append-unmarked cs y)

either-unmarked :
    (b : Bool) (x y : Text)
    → is_unmarked x ≡ true
    → is_unmarked y ≡ true
    → is_unmarked (if b then x else y) ≡ true
either-unmarked true x y hx hy = hx
either-unmarked false x y hx hy = hy

ruleset unmarked = (append-unmarked, either-unmarked)

-- Without user info, the host is all that the authority takes from the address.
authority-unmarked :
    (p : Escapes) (a : Address)
    → is_unmarked (p.escaped_host a.host) ≡ true
    → is_unmarked (authority p (trimmed a)) ≡ true
unfolding authority is_unmarked
authority-unmarked p a h = search unmarked depth 9

with_path-unmarked :
    (before : Text) (a : Address) (path : Text)
    → is_unmarked before ≡ true
    → is_unmarked path ≡ true
    → is_unmarked (with_path before a path) ≡ true
unfolding with_path is_unmarked
with_path-unmarked before a path hb hp = search unmarked depth 9

-- An address whose scheme and opaque part have no mark of a query string or of a fragment, and
-- whose host and path are escaped so: what RequestURL gives has none either, so it has no query
-- string and no fragment, whatever the address has, and it is the same for whatever user info,
-- query string and fragment stand in the address: nothing of them is sent.
pub request_url-unmarked :
    (p : Escapes) (a : Address) (user : Option Text) (force : Bool)
    (query fragment raw_fragment : Text)
    → is_unmarked a.scheme ≡ true
    → is_unmarked a.opaque ≡ true
    → is_unmarked (p.escaped_host a.host) ≡ true
    → is_unmarked (p.escaped_path a.path a.raw_path) ≡ true
    → (is_unmarked (request_url p (some a)) ≡ true)
      × (request_url p (
            some (record a {
              user = user;
              force_query = force;
              raw_query = query;
              fragment = fragment;
              raw_fragment = raw_fragment;
            }))
          ≡ request_url p (some a))
unfolding request_url url_string tail_of is_empty is_unmarked
request_url-unmarked p a user force query fragment raw_fragment hs ho hh hp =
    (search (unmarked, authority-unmarked p a hh, with_path-unmarked) depth 9, refl)
