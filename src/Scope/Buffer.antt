-- ===== src/Scope/Buffer.antt =====
-- scope.go, AddBreadcrumb: the bounded list of steps against the history of the calls.
use bugfree_go_sdk.Base.{List, Option, [], ℕ, ◌∷◌}
use bugfree_go_sdk.Event.{Breadcrumb}
use bugfree_go_sdk.Scope.{Scope, Scopes, add_breadcrumb, stamped}

-- AddBreadcrumb called again and again on one scope, each call with its time.
unfoldable pub add_all : Scopes → Option ℕ → List (ℕ × Breadcrumb) → Scopes
add_all scopes s [] = scopes
add_all scopes s ((now, crumb) ∷ calls) = add_all (add_breadcrumb scopes s now crumb) s calls

abbrev pub recorded_steps : List (ℕ × Breadcrumb) → List Breadcrumb
recorded_steps [] = []
recorded_steps ((now, crumb) ∷ calls) = stamped now crumb ∷ recorded_steps calls
