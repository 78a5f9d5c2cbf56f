-- ===== src/LogHandler.antt =====
-- log-handler.go: slog records as events and breadcrumbs. A record's attributes are resolved; the
-- handler wrapped, and what it writes, is not part of the model.
mod Tests
pub mod Fields
pub mod Accounting
pub mod Records
use mathlib.Core.List.{foldl}
use bugfree_go_sdk.Base.{
  Bool, List, Map, Option, Text, [], codes, false, if◌then◌else◌, insert, is_empty, leb_ℤ, length,
  ltb, ltb_ℤ, map, none, pos, some, take, true, ℕ, ℤ, ◌++◌, ◌==◌, ◌||◌, ◌∷◌,
}
use bugfree_go_sdk.Errors.{Err}
use bugfree_go_sdk.Event.{Level, Value, level_error, level_fatal, level_info, level_warning}

-- What value.Any() is of an attribute that is no group.
pub data Field : Type 0 where
  failure : Err → Field
  other_value : Value → Field

-- slog.Attr and []slog.Attr
mutual
  pub data LogValue : Type 0 where
    single : Field → LogValue
    group : Attrs → LogValue

  pub data Attrs : Type 0 where
    no_attrs : Attrs
    attr : Text → LogValue → Attrs → Attrs

-- slog's levels
abbrev pub level_of_info : ℤ
level_of_info = pos 0

abbrev pub level_of_warn : ℤ
level_of_warn = pos 4

abbrev pub level_of_error : ℤ
level_of_error = pos 8

-- LogHandlerOptions with their defaults, and type LogHandler struct; `wrapped` is whether there is
-- a handler next and what its Enabled says of a level.
pub record LogHandler : Type 0 where
  pub event_level : ℤ
  pub breadcrumb_level : ℤ
  pub wrapped : ℤ → Bool
  pub attrs : Attrs
  pub prefix : Text

abbrev pub or_level : Option ℤ → ℤ → ℤ
or_level none fallback = fallback
or_level (some level) fallback = level

-- NewLogHandler
unfoldable pub new_log_handler : (ℤ → Bool) → Option ℤ → Option ℤ → LogHandler
new_log_handler wrapped event_level breadcrumb_level = record {
  event_level = or_level event_level level_of_error;
  breadcrumb_level = or_level breadcrumb_level level_of_info;
  wrapped = wrapped;
  attrs = no_attrs;
  prefix = [];
}

-- Enabled
unfoldable pub log_enabled : LogHandler → ℤ → Bool
log_enabled h level =
    leb_ℤ h.breadcrumb_level level || (leb_ℤ h.event_level level || h.wrapped level)

-- joinKey
unfoldable pub join_key : Text → Text → Text
unfolding is_empty
join_key prefix key =
    if is_empty prefix then key else if is_empty key then prefix else prefix ++ (b'.' ∷ key)

abbrev pub attrs_append : Attrs → Attrs → Attrs
attrs_append no_attrs bs = bs
attrs_append (attr key value list) bs = attr key value (attrs_append list bs)

abbrev pub prefix_each : Text → Attrs → Attrs
prefix_each name no_attrs = no_attrs
prefix_each name (attr key value list) = attr (join_key name key) value (prefix_each name list)

-- prefixAttrs
unfoldable pub prefix_attrs : Text → Attrs → Attrs
unfolding join_key is_empty
prefix_attrs name list = if is_empty name then list else prefix_each name list

-- WithAttrs
unfoldable pub with_attrs : LogHandler → Attrs → LogHandler
unfolding prefix_attrs
with_attrs h list = record h { attrs = attrs_append h.attrs (prefix_attrs h.prefix list) }

-- WithGroup
unfoldable pub with_group : LogHandler → Text → LogHandler
unfolding join_key is_empty
with_group h name = if is_empty name then h else record h { prefix = join_key h.prefix name }

-- flattenAttr, on one attribute and on several
unfoldable mutual
  pub flatten_attr : Map Field → Text → Text → LogValue → Map Field
  flatten_attr fields prefix key (group inner) = flatten_attrs fields (join_key prefix key) inner
  flatten_attr fields prefix key (single value) =
      if is_empty key then fields else insert (join_key prefix key) value fields

  pub flatten_attrs : Map Field → Text → Attrs → Map Field
  flatten_attrs fields prefix no_attrs = fields
  flatten_attrs fields prefix (attr key value list) =
      flatten_attrs (flatten_attr fields prefix key value) prefix list

-- fields
unfoldable pub fields : LogHandler → Attrs → Map Field
unfolding flatten_attrs
fields h list = flatten_attrs (flatten_attrs [] [] h.attrs) h.prefix list

-- eventLevel
unfoldable pub event_level_of : ℤ → Level
event_level_of level =
    if ltb_ℤ level_of_error level
    then level_fatal
    else if leb_ℤ level_of_error level
    then level_error
    else if leb_ℤ level_of_warn level
    then level_warning
    else level_info

-- breadcrumbLevel
unfoldable pub breadcrumb_level_of : ℤ → Text
breadcrumb_level_of level =
    if leb_ℤ level_of_error level
    then codes "error"
    else if leb_ℤ level_of_warn level
    then codes "warning"
    else if leb_ℤ level_of_info level
    then codes "info"
    else codes "debug"

-- maxBreadcrumbData
abbrev pub max_breadcrumb_data : ℕ
max_breadcrumb_data = 500

-- a <= b on strings, byte by byte
unfoldable pub text_leb : Text → Text → Bool
text_leb [] b = true
text_leb (x ∷ a) [] = false
text_leb (x ∷ a) (y ∷ b) = if x == y then text_leb a b else ltb x y

-- slices.Sort, whose result does not depend on how it sorts
unfoldable pub insert_text : Text → List Text → List Text
unfolding text_leb
insert_text s [] = s ∷ []
insert_text s (t ∷ ts) = if text_leb s t then s ∷ t ∷ ts else t ∷ insert_text s ts

unfoldable pub sort_texts : List Text → List Text
unfolding insert_text
sort_texts [] = []
sort_texts (s ∷ ts) = insert_text s (sort_texts ts)

-- strings.Join(parts, " ")
unfoldable pub join_texts : List Text → Text
join_texts [] = []
join_texts (s ∷ []) = s
join_texts (s ∷ t ∷ ts) = s ++ (b' ' ∷ join_texts (t ∷ ts))

-- describeAttrs; `shown` is what "%v" prints of a value. The three bytes are those of "…".
unfoldable pub describe_attrs : (Field → Text) → Map Field → Text
unfolding sort_texts join_texts
describe_attrs shown fields =
    let data_text = join_texts (sort_texts (map (λ f. f.0 ++ (b'=' ∷ shown f.1)) fields)) in
    if ltb max_breadcrumb_data (length data_text)
    then take max_breadcrumb_data data_text ++ (226 ∷ 128 ∷ 166 ∷ [])
    else data_text
