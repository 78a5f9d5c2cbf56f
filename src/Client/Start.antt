-- ===== src/Client/Start.antt =====
-- client.go, NewClient: what a client is made of, and when it reports.
use bugfree_go_sdk.Base.{
  Bool, List, Option, Text, [], ap, false, if◌then◌else◌, is_empty, length, none, refl, some, sym,
  true, ◌++◌, ◌∙◌, ◌∷◌, ◌≡◌,
}
use bugfree_go_sdk.Build.{BuildInfo, release}
use bugfree_go_sdk.Dedupe.{new_dedupe}
use bugfree_go_sdk.Options.{
  Dsn, DsnError, Options, Parsed, Url, is_space, normalize, parse_dsn, parsed, refused, trim,
}
use bugfree_go_sdk.Options.Defaults.{IsNormal, normalize-IsNormal}
use bugfree_go_sdk.Options.Parsing.{Accepts, parse_dsn-Accepts}
use bugfree_go_sdk.Scope.{Scopes, new_global_scope}
use bugfree_go_sdk.Source.{new_source_reader}
use bugfree_go_sdk.Client.{Client}

-- What NewClient returns: an error, or a client with the store that holds its scope and its DSN.
pub data Created : Type 0 where
  not_created : DsnError → Created
  created : Client → Scopes → Option Dsn → Created

abbrev pub host_or : Text → Option Text → Text
host_or name none = name
host_or name (some host) = if is_empty name then host else name

-- The options after normalize, with the build's release and the host's name where they have none.
unfoldable pub settled_options : BuildInfo → Option Text → Options → Options
unfolding normalize
settled_options build host o = record (normalize o) {
  release = if is_empty (normalize o).release then release build else (normalize o).release;
  server_name = host_or (normalize o).server_name host;
}

-- The client without a transport.
unfoldable pub base_client :
    BuildInfo → Option Text → List (Text × Text) → Scopes → Options → Client
unfolding settled_options new_dedupe
base_client build host roots scopes o = record {
  options = settled_options build host o;
  enabled = false;
  scope = length scopes;
  dedupe = new_dedupe o.dedupe_window;
  source = new_source_reader roots;
  stats = record { sampled = 0; duplicates = 0; before_send = 0; transactions = 0 };
  sent = [];
}

-- The tail of NewClient, on whether the DSN is blank and on what parseDSN makes of it.
unfoldable pub with_dsn : Client → Scopes → Bool → Parsed → Created
with_dsn c scopes true p = created c scopes none
with_dsn c scopes false (refused e) = not_created e
with_dsn c scopes false (parsed d) = created (record c { enabled = true }) scopes (some d)

-- NewClient; the host's name is none when it cannot be told. Lifecycle/Starting has the
-- parts that the client starts.
unfoldable pub new_client :
    (Text → Option Url) → BuildInfo → Option Text → List (Text × Text) → Scopes → Options → Created
unfolding base_client with_dsn trim is_space parse_dsn new_global_scope
new_client parse build host roots scopes o =
    with_dsn (base_client build host roots scopes o)
      (scopes ++ new_global_scope (normalize o).max_breadcrumbs ∷ [])
      (is_empty (trim is_space o.dsn)) (parse_dsn parse o.dsn)

pub settled_options-IsNormal :
    (build : BuildInfo) (host : Option Text) (o : Options) → IsNormal (settled_options build host o)
unfolding settled_options
settled_options-IsNormal build host o =
    let n = (normalize-IsNormal o).0 in
    record {
      rate_positive = n.rate_positive;
      rate_at_most_one = n.rate_at_most_one;
      steps = n.steps;
      flush = n.flush;
      shutdown = n.shutdown;
      named = n.named;
    }

created-injective :
    (c c' : Client) (s s' : Scopes) (d d' : Option Dsn)
    → created c s d ≡ created c' s' d'
    → (c ≡ c') × (d ≡ d')
created-injective c c' s s' d d' h = (cc h, cc h)

-- A client that NewClient made with a DSN reports, and the DSN is one that parseDSN accepts: http
-- or https with a key and a host, and the address of the store that goes with them. Its options
-- are normal, whatever they were.
pub new_client-Accepts :
    (parse : Text → Option Url) (build : BuildInfo) (host : Option Text)
    (roots : List (Text × Text)) (scopes scopes' : Scopes) (o : Options) (c : Client) (d : Dsn)
    → new_client parse build host roots scopes o ≡ created c scopes' (some d)
    → Accepts parse o.dsn d × IsNormal c.options × (c.enabled ≡ true)
unfolding new_client with_dsn
new_client-Accepts parse build host roots scopes scopes' o c d h =
    go (is_empty (trim is_space o.dsn)) (parse_dsn parse o.dsn) refl h
  where
    base : Client
    base = base_client build host roots scopes o

    store : Scopes
    store = scopes ++ new_global_scope (normalize o).max_breadcrumbs ∷ []

    go :
        (blank : Bool) (p : Parsed)
        → parse_dsn parse o.dsn ≡ p
        → with_dsn base store blank p ≡ created c scopes' (some d)
        → Accepts parse o.dsn d × IsNormal c.options × (c.enabled ≡ true)
    go true p q k = absurd (never (created-injective base c store scopes' none (some d) k).1)
      where
        never : none ≡ some d → ⊥
        never e = cc
    go false (refused e) q k = absurd (never k)
      where
        never : not_created e ≡ created c scopes' (some d) → ⊥
        never r = cc
    go false (parsed d') q k =
        let (same, dsn) =
          created-injective (record base { enabled = true }) c store scopes' (some d') (some d) k in
        let d_same : d' ≡ d = cc dsn in
        (
          parse_dsn-Accepts parse o.dsn d (q ∙ ap parsed d_same),
          rw (sym same) (unfold base_client in settled_options-IsNormal build host o),
          rw (sym same) refl,
        )
