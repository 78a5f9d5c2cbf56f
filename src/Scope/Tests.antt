-- ===== src/Scope/Tests.antt =====
-- Runs on a global scope with two requests' scopes below it.
use bugfree_go_sdk.Base.{
  List, [], arith, codes, false, none, refl, reverse, some, suc, sym, take, true, zero, ℕ, ◌++◌,
  ◌∷◌, ◌≡◌, ◌≢◌, ◌⊎◌,
}
use bugfree_go_sdk.Samples.{crumb_of, scope_of, three_scopes}
use bugfree_go_sdk.Scope.{Scope}
use bugfree_go_sdk.Scope.Read.{breadcrumbs, inherited, lineage}
use bugfree_go_sdk.Scope.Order.{StableSort, breadcrumbs_exact}
use bugfree_go_sdk.Scope.Inherit.{Before, IsRooted}
use bugfree_go_sdk.Scope.Isolation.{adds, clears, places, write_all, write_all-Apart}
use bugfree_go_sdk.Event.{Breadcrumb}

abbrev global : Scope
global = scope_of none true []

abbrev request : Scope
request = scope_of (some 0) false (crumb_of (codes "GET /a") ∷ [])

abbrev steps : List (ℕ × Breadcrumb)
steps = (5, crumb_of (codes "SELECT 1")) ∷ (6, crumb_of (codes "SELECT 2")) ∷ []

breadcrumbs_exact_example :
    ((inherited (global ∷ []) (breadcrumbs (global ∷ [])) ≡ [])
      × (breadcrumbs (request ∷ global ∷ []) ≡ reverse request.crumbs))
    ⊎ ((inherited (global ∷ []) (breadcrumbs (global ∷ [])) ≢ [])
        × ((sorted : List Breadcrumb) × StableSort
              (reverse request.crumbs ++ inherited (global ∷ []) (breadcrumbs (global ∷ [])))
              sorted
            × (breadcrumbs (request ∷ global ∷ []) ≡ take 2 sorted)))
breadcrumbs_exact_example = breadcrumbs_exact request (global ∷ [])

write_all-Apart_example :
    lineage
      (write_all three_scopes (some 1) (adds 5 (crumb_of (codes "GET /b")) ∷ clears ∷ []))
      (some 2)
    ≡ lineage three_scopes (some 2)
unfolding places
write_all-Apart_example =
    write_all-Apart three_scopes 1 (adds 5 (crumb_of (codes "GET /b")) ∷ clears ∷ []) (some 2)
      (refl, (refl, tt))

parent-Before : (i : ℕ) (s t : Scope) → Before s.parent i → some s ≡ some t → Before t.parent i
parent-Before i s t h e = let same : s ≡ t = cc e in rw (sym same) h

three-IsRooted : IsRooted three_scopes
three-IsRooted zero s h = parent-Before 0 global s tt h
three-IsRooted (suc zero) s h = parent-Before 1 request s (omega arith) h
three-IsRooted (suc (suc zero)) s h = parent-Before 2 (scope_of (some 0) false []) s (omega arith) h
three-IsRooted (suc (suc (suc i))) s h = cc
