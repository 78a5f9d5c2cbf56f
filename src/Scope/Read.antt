-- ===== src/Scope/Read.antt =====
-- scope.go: what a scope reads from itself and its parents. The calls go up the chain of parents,
-- which `lineage` lists from the scope outwards.
use bugfree_go_sdk.Base.{
  List, Map, Option, [], if◌then◌else◌, length, ltb, merge, none, or_else, reverse, some, suc, take,
  zero, ℕ, ◌++◌, ◌∷◌,
}
use bugfree_go_sdk.Event.{Breadcrumb, User, Value, blank, instant, unreadable}
use bugfree_go_sdk.Scope.{Scope, Scopes, scope_at}

-- The scope and its parents. A parent stands before its child in the store, so that as many steps
-- as the store has scopes are enough (Scope.Inherit).
abbrev pub onward : (Option ℕ → List Scope) → Option Scope → List Scope
onward parents none = []
onward parents (some scope) = scope ∷ parents scope.parent

unfoldable pub chain_of : ℕ → Scopes → Option ℕ → List Scope
chain_of zero scopes s = []
chain_of (suc fuel) scopes s = onward (chain_of fuel scopes) (scope_at scopes s)

unfoldable pub lineage : Scopes → Option ℕ → List Scope
unfolding chain_of
lineage scopes s = chain_of (length scopes) scopes s

-- breadcrumbTime; an unreadable one is the zero time.
unfoldable pub breadcrumb_time : Breadcrumb → ℕ
breadcrumb_time crumb = elim crumb.at [ blank ↦ 0 | instant t ↦ t | unreadable s ↦ 0 ]

-- sort.SliceStable, later times first: an element goes before those of its own time that followed.
unfoldable pub insert_crumb : Breadcrumb → List Breadcrumb → List Breadcrumb
insert_crumb c [] = c ∷ []
insert_crumb c (d ∷ rest) =
    if ltb (breadcrumb_time c) (breadcrumb_time d) then d ∷ insert_crumb c rest else c ∷ d ∷ rest

unfoldable pub sort_crumbs : List Breadcrumb → List Breadcrumb
unfolding insert_crumb
sort_crumbs [] = []
sort_crumbs (c ∷ rest) = insert_crumb c (sort_crumbs rest)

-- s.parent != nil && !s.parent.global
abbrev pub inherited : List Scope → List Breadcrumb → List Breadcrumb
inherited [] crumbs = []
inherited (parent ∷ rest) crumbs = if parent.global then [] else crumbs

-- The tail of breadcrumbs, on the scope's own steps and the inherited ones.
unfoldable pub interleave : ℕ → List Breadcrumb → List Breadcrumb → List Breadcrumb
unfolding sort_crumbs
interleave limit own [] = own
interleave limit own (c ∷ rest) = take limit (sort_crumbs (own ++ (c ∷ rest)))

-- breadcrumbs
unfoldable pub breadcrumbs : List Scope → List Breadcrumb
unfolding interleave
breadcrumbs [] = []
breadcrumbs (s ∷ parents) =
    interleave s.limit (reverse s.crumbs) (inherited parents (breadcrumbs parents))

-- tags
unfoldable pub tags : List Scope → Map Value → Map Value
tags [] extra = extra
tags (s ∷ parents) extra = merge (tags parents extra) s.tag_map

-- user
unfoldable pub user : List Scope → Option User
user [] = none
user (s ∷ parents) = or_else s.person (user parents)
