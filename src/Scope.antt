-- ===== src/Scope.antt =====
-- scope.go: scopes live in a store, so that a child reads its parent as it is now. A *Scope is
-- `none` (nil) or a place in the store; a parent stands before its children.
mod Tests
pub mod Read
pub mod Buffer
pub mod Order
pub mod Inherit
pub mod Isolation
use bugfree_go_sdk.Base.{
  Bool, List, Map, Option, Text, [], drop, false, get_elem?, if◌then◌else◌, insert, is_empty, leb_ℤ,
  length, ltb, modify, none, or_else, pos, pos_part, some, true, ℕ, ℤ, ◌++◌, ◌-◌, ◌∷◌,
}
use bugfree_go_sdk.Event.{Breadcrumb, User, Value, blank, instant, unreadable}

-- type Scope struct
pub record Scope : Type 0 where
  pub parent : Option ℕ
  pub global : Bool
  pub crumbs : List Breadcrumb
  pub limit : ℕ
  pub tag_map : Map Value
  pub person : Option User

abbrev pub Scopes : Type 0
Scopes = List Scope

-- defaultMaxBreadcrumbs
abbrev pub default_max_breadcrumbs : ℕ
default_max_breadcrumbs = 30

-- newScope
unfoldable pub new_scope : ℤ → Scope
new_scope limit = record {
  parent = none;
  global = false;
  crumbs = [];
  limit = if leb_ℤ limit (pos 0) then default_max_breadcrumbs else pos_part limit;
  tag_map = [];
  person = none;
}

-- newGlobalScope
unfoldable pub new_global_scope : ℤ → Scope
unfolding new_scope
new_global_scope limit = record (new_scope limit) { global = true }

abbrev pub limit_of : Option Scope → ℕ
limit_of none = default_max_breadcrumbs
limit_of (some s) = s.limit

abbrev pub scope_at : Scopes → Option ℕ → Option Scope
scope_at scopes none = none
scope_at scopes (some i) = get_elem? scopes i

-- child: the store with the new scope at its end, and the new scope's place.
unfoldable pub child : Scopes → Option ℕ → Scopes × ℕ
unfolding new_scope
child scopes s =
    let fresh = record (new_scope (pos (limit_of (scope_at scopes s)))) { parent = s } in
    (scopes ++ fresh ∷ [], length scopes)

-- What a context carries under the SDK's two keys: a scope and a span.
pub record Context : Type 0 where
  pub scope : Option ℕ
  pub span : Option ℕ

-- ScopeFromContext; a nil context carries none.
unfoldable pub scope_from_context : Option Context → Option ℕ
scope_from_context none = none
scope_from_context (some ctx) = ctx.scope

abbrev pub background : Context
background = record { scope = none; span = none }

abbrev pub context_or_background : Option Context → Context
context_or_background none = background
context_or_background (some ctx) = ctx

-- (*Client).ContextWithScope, where `global` is the client's own scope, none for a nil client.
unfoldable pub context_with_scope : Scopes → Option ℕ → Option Context → Scopes × Context
unfolding child scope_from_context
context_with_scope scopes global ctx =
    let (scopes', place) = child scopes (or_else (scope_from_context ctx) global) in
    (scopes', record (context_or_background ctx) { scope = some place })

-- A method's effect on the scope it is called on; on nil, none.
abbrev pub change : (Scope → Scope) → Scopes → Option ℕ → Scopes
change f scopes none = scopes
change f scopes (some i) = modify f scopes i

abbrev pub stamped : ℕ → Breadcrumb → Breadcrumb
stamped now crumb = elim crumb.at [
  | blank ↦ record crumb { at = instant now }
  | instant t ↦ crumb
  | unreadable s ↦ crumb
]

-- s.crumbs = append(s.crumbs, crumb), then the oldest go past the limit.
unfoldable pub push_crumb : Breadcrumb → Scope → Scope
push_crumb crumb s =
    let crumbs = s.crumbs ++ crumb ∷ [] in
    if ltb s.limit (length crumbs)
    then record s { crumbs = drop (length crumbs - s.limit) crumbs }
    else record s { crumbs = crumbs }

-- AddBreadcrumb
unfoldable pub add_breadcrumb : Scopes → Option ℕ → ℕ → Breadcrumb → Scopes
unfolding push_crumb
add_breadcrumb scopes s now crumb = change (push_crumb (stamped now crumb)) scopes s

-- SetTag
unfoldable pub set_tag : Scopes → Option ℕ → Text → Value → Scopes
set_tag scopes s key value =
    if is_empty key
    then scopes
    else change (λ scope. record scope { tag_map = insert key value scope.tag_map }) scopes s

-- SetUser
unfoldable pub set_user : Scopes → Option ℕ → User → Scopes
set_user scopes s user = change (λ scope. record scope { person = some user }) scopes s

-- Clear
unfoldable pub clear : Scopes → Option ℕ → Scopes
clear scopes s =
    change (λ scope. record scope { crumbs = []; tag_map = []; person = none }) scopes s
