-- ===== src/Options/Parsing.antt =====
-- options.go, parseDSN.
use bugfree_go_sdk.Base.{
  Bool-cases, Option, Text, [], arith, codes, false, inl, inr, is_empty, none, refl, some, text_eq,
  true, ◌++◌, ◌||◌, ◌≡◌,
}
use bugfree_go_sdk.Options.{
  Dsn, Url, dsn_of, empty_dsn, from_url, is_space, parse_dsn, parsed, refused, trim, unparsable,
  with_key,
}

-- When the DSN is accepted: what the text was, and what the addresses are.
abbrev pub Accepts : (Text → Option Url) → Text → Dsn → Type 0
Accepts parse raw d =
    (u : Url) × (key : Text) × (is_empty (trim is_space raw) ≡ false)
    × (parse (trim is_space raw) ≡ some u)
    × ((text_eq u.scheme (codes "http") || text_eq u.scheme (codes "https")) ≡ true)
    × (u.user ≡ some key)
    × (is_empty key ≡ false)
    × (is_empty u.host ≡ false)
    × (d ≡ dsn_of u key)

parsed-injective : (a b : Dsn) → parsed a ≡ parsed b → a ≡ b
parsed-injective a b h = cc h

with_key-parsed :
    (u : Url) (user : Option Text) (d : Dsn)
    → with_key u user ≡ parsed d
    → (key : Text) × (user ≡ some key)
      × (is_empty key ≡ false)
      × (is_empty u.host ≡ false)
      × (d ≡ dsn_of u key)
with_key-parsed u none d h = cc
with_key-parsed u (some key) d h = (key, refl, ground arith, ground arith, ground arith)

scheme_ok :
    (u : Url) (d : Dsn)
    → from_url (some u) ≡ parsed d
    → (text_eq u.scheme (codes "http") || text_eq u.scheme (codes "https")) ≡ true
scheme_ok u d h = ground arith

scheme_then : (u : Url) (d : Dsn) → from_url (some u) ≡ parsed d → with_key u u.user ≡ parsed d
scheme_then u d h = ground arith

-- A DSN is accepted only with a readable URL of scheme http or https, a key and a host, and its
-- store address is then that of `dsn_of`; no other text is.
pub parse_dsn-Accepts :
    (parse : Text → Option Url) (raw : Text) (d : Dsn)
    → parse_dsn parse raw ≡ parsed d
    → Accepts parse raw d
unfolding parse_dsn
parse_dsn-Accepts parse raw d h = elim (Bool-cases (is_empty (trim is_space raw))) [
  | inl nothing ↦ absurd (never (rw nothing at h))
  | inr present ↦ go (parse (trim is_space raw)) refl present (rw present at h)
]
  where
    never : refused empty_dsn ≡ parsed d → ⊥
    never e = cc

    go :
        (url : Option Url)
        → parse (trim is_space raw) ≡ url
        → is_empty (trim is_space raw) ≡ false
        → from_url (parse (trim is_space raw)) ≡ parsed d
        → Accepts parse raw d
    go none e present k = absurd (unread (rw e at k))
      where
        unread : refused unparsable ≡ parsed d → ⊥
        unread q = cc
    go (some u) e present k =
        let (key, at, named, hosted, is) =
          with_key-parsed u u.user d (scheme_then u d (rw e at k)) in
        (u, key, present, e, scheme_ok u d (rw e at k), at, named, hosted, is)

-- The "/ingest" of a DSN is optional: without a path, with "/ingest" and with "/ingest/" the
-- addresses are the same, those under /ingest/v1/<key>.
pub dsn_of-ingest :
    (u : Url) (key : Text)
    → (dsn_of (record u { path = [] }) key ≡ dsn_of (record u { path = codes "/ingest" }) key)
      × (dsn_of (record u { path = codes "/ingest/" }) key
          ≡ dsn_of (record u { path = codes "/ingest" }) key)
      × ((dsn_of (record u { path = [] }) key).base
          ≡ (u.scheme ++ (codes "://" ++ u.host)) ++ (codes "/ingest/v1/" ++ key))
unfolding dsn_of
dsn_of-ingest u key = (refl, refl, refl)
