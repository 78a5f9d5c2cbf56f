-- ===== src/Scope/Isolation.antt =====
-- scope.go: what is set on one scope reaches the scopes below it and no others, and a request
-- inherits the client's tags and user but not its steps.
use bugfree_go_sdk.Base.{
  All, Bool-cases, List, Map, Option, Text, [], ap, arith, false, get_elem?, get_elem?-modify_ne,
  get_elem?-modify-none, get_elem?-modify_self, inl, inr, insert, is_empty, length, length-modify,
  lookup, modify, none, or_else, refl, reverse, some, subst, suc, true, zero, ℕ, ◌==◌, ◌∙◌, ◌∷◌,
  ◌≡◌, ◌⊎◌,
}
use bugfree_go_sdk.Event.{Breadcrumb, User, Value}
use bugfree_go_sdk.Scope.{
  Context, Scope, Scopes, add_breadcrumb, clear, context_with_scope, push_crumb, scope_at, set_tag,
  set_user, stamped,
}
use bugfree_go_sdk.Scope.Read.{breadcrumbs, chain_of, interleave, lineage, onward, tags, user}
use bugfree_go_sdk.Scope.Inherit.{IsRooted, lineage-none, lineage-some, lookup-tags}

-- The calls that write to a scope.
pub data Write : Type 0 where
  adds : ℕ → Breadcrumb → Write
  tags_with : Text → Value → Write
  users : User → Write
  clears : Write

unfoldable pub write : Scopes → Option ℕ → Write → Scopes
write scopes s (adds now crumb) = add_breadcrumb scopes s now crumb
write scopes s (tags_with key value) = set_tag scopes s key value
write scopes s (users u) = set_user scopes s u
write scopes s clears = clear scopes s

unfoldable pub write_all : Scopes → Option ℕ → List Write → Scopes
write_all scopes s [] = scopes
write_all scopes s (w ∷ ws) = write_all (write scopes s w) s ws

push_crumb-parent : (c : Breadcrumb) (s : Scope) → (push_crumb c s).parent ≡ s.parent
unfolding push_crumb
push_crumb-parent c s = ground arith

-- The places that a line of parents goes through.
abbrev pub step_places : (Option ℕ → List ℕ) → Option ℕ → Option Scope → List ℕ
step_places up none found = []
step_places up (some i) none = i ∷ []
step_places up (some i) (some scope) = i ∷ up scope.parent

unfoldable pub places : ℕ → Scopes → Option ℕ → List ℕ
places zero scopes s = []
places (suc fuel) scopes s = step_places (places fuel scopes) s (scope_at scopes s)

-- The scope at i is neither s nor above it.
abbrev pub Apart : ℕ → Scopes → Option ℕ → Type 0
Apart i scopes s = All (λ j. (j == i) ≡ false) (places (length scopes) scopes s)

module _ (f : Scope → Scope) (scopes : Scopes) (i : ℕ) where
  chain_of-modify :
      (fuel : ℕ) (s : Option ℕ)
      → All (λ j. (j == i) ≡ false) (places fuel scopes s)
      → chain_of fuel (modify f scopes i) s ≡ chain_of fuel scopes s
  unfolding chain_of places
  chain_of-modify zero s h = refl
  chain_of-modify (suc fuel) none h = refl
  chain_of-modify (suc fuel) (some j) h =
      go (get_elem? scopes j) refl h (λ s. chain_of-modify fuel s)
    where
      go :
          (found : Option Scope)
          → get_elem? scopes j ≡ found
          → All
              (λ k. (k == i) ≡ false)
              (step_places (places fuel scopes) (some j) (get_elem? scopes j))
          → ((s : Option ℕ)
              → All (λ k. (k == i) ≡ false) (places fuel scopes s)
              → chain_of fuel (modify f scopes i) s ≡ chain_of fuel scopes s)
          → onward (chain_of fuel (modify f scopes i)) (get_elem? (modify f scopes i) j)
            ≡ onward (chain_of fuel scopes) (get_elem? scopes j)
      go none e h' ih =
          let clear_of = (rw e at h').0 in rw (get_elem?-modify_ne f scopes i j clear_of, e)
      go (some s) e h' ih =
          let clear_of = rw e at h' in
          rw (get_elem?-modify_ne f scopes i j clear_of.0, e)
            (ap (λ (l : List Scope). s ∷ l) (ih s.parent clear_of.1))

  modify_keeps :
      ((s : Scope) → (f s).parent ≡ s.parent)
      → (j : ℕ) (s : Scope) → get_elem? scopes j ≡ some s
      → (t : Scope) × (get_elem? (modify f scopes i) j ≡ some t) × (t.parent ≡ s.parent)
  modify_keeps keeps j s e = elim (Bool-cases (j == i)) [
    | inl same ↦
        let at : get_elem? scopes i ≡ some s =
          subst (λ (k : ℕ). get_elem? scopes k ≡ some s) (ground arith) e in
        let now : get_elem? (modify f scopes i) j ≡ some (f s) =
          subst (λ (k : ℕ). get_elem? (modify f scopes i) k ≡ some (f s)) (ground arith)
            (get_elem?-modify_self f scopes i s at) in
        (f s, now, keeps s)
    | inr other ↦ (s, get_elem?-modify_ne f scopes i j other ∙ e, refl)
  ]

  places-modify :
      ((s : Scope) → (f s).parent ≡ s.parent)
      → (fuel : ℕ) (s : Option ℕ) → places fuel (modify f scopes i) s ≡ places fuel scopes s
  unfolding places
  places-modify keeps zero s = refl
  places-modify keeps (suc fuel) none = refl
  places-modify keeps (suc fuel) (some j) =
      go (get_elem? scopes j) refl (λ s. places-modify keeps fuel s)
    where
      go :
          (found : Option Scope)
          → get_elem? scopes j ≡ found
          → ((s : Option ℕ) → places fuel (modify f scopes i) s ≡ places fuel scopes s)
          → step_places (places fuel (modify f scopes i)) (some j) (get_elem? (modify f scopes i) j)
            ≡ step_places (places fuel scopes) (some j) (get_elem? scopes j)
      go none e ih = rw (get_elem?-modify-none f scopes i j e, e)
      go (some s) e ih =
          let (t, now, parent) = modify_keeps keeps j s e in
          rw (now, e, parent) (ap (λ (l : List ℕ). j ∷ l) (ih s.parent))

-- A write is a change of one scope that keeps its parent and its place in the client.
write-modify :
    (scopes : Scopes) (i : ℕ) (w : Write)
    → (write scopes (some i) w ≡ scopes)
      ⊎ ((f : Scope → Scope) × ((s : Scope) → (f s).parent ≡ s.parent)
          × (write scopes (some i) w ≡ modify f scopes i))
unfolding write add_breadcrumb set_tag set_user clear
write-modify scopes i (adds now crumb) =
    inr (push_crumb (stamped now crumb), λ s. push_crumb-parent (stamped now crumb) s, refl)
write-modify scopes i (tags_with key value) = elim (Bool-cases (is_empty key)) [
  | inl none_set ↦ inl (rw none_set)
  | inr named ↦
      inr (λ scope. record scope { tag_map = insert key value scope.tag_map }, λ s. refl, rw named)
]
write-modify scopes i (users u) = inr (λ scope. record scope { person = some u }, λ s. refl, refl)
write-modify scopes i clears =
    inr (λ scope. record scope { crumbs = []; tag_map = []; person = none }, λ s. refl, refl)

write-Apart :
    (scopes : Scopes) (i : ℕ) (w : Write) (s : Option ℕ)
    → Apart i scopes s
    → (lineage (write scopes (some i) w) s ≡ lineage scopes s) × Apart i (write scopes (some i) w) s
unfolding lineage
write-Apart scopes i w s h = elim (write-modify scopes i w) [
  | inl same ↦ rw same (refl, h)
  | inr (f, keeps, changed) ↦
      rw (changed, length-modify f scopes i)
        (
          chain_of-modify f scopes i (length scopes) s h,
          rw (places-modify f scopes i keeps (length scopes) s) h,
        )
]

-- Whatever is written to a scope, in any number of calls, the line of a scope that it does not
-- stand in stays the same: the steps, tags and user of another request's events are not touched.
pub write_all-Apart :
    (scopes : Scopes) (i : ℕ) (ws : List Write) (s : Option ℕ)
    → Apart i scopes s
    → lineage (write_all scopes (some i) ws) s ≡ lineage scopes s
unfolding write_all
write_all-Apart scopes i [] s h = refl
write_all-Apart scopes i (w ∷ ws) s h =
    let (same, apart) = write-Apart scopes i w s h in
    write_all-Apart (write scopes (some i) w) i ws s apart ∙ same

-- A request's scope, made where the context carries none, over a client's global scope.
abbrev pub request_scope : Scopes → ℕ → Scopes × Context
request_scope scopes g = context_with_scope scopes (some g) none

-- A global scope and one below it.
two_reads :
    (request global : Scope) (extra : Map Value) (key : Text)
    → global.global ≡ true
    → (breadcrumbs (request ∷ global ∷ []) ≡ reverse request.crumbs)
      × (user (request ∷ global ∷ []) ≡ or_else request.person global.person)
      × (lookup key (tags (request ∷ global ∷ []) extra)
          ≡ or_else
              (lookup key request.tag_map)
              (or_else (lookup key global.tag_map) (lookup key extra)))
unfolding breadcrumbs interleave user
two_reads request global extra key is_global = (
  rw is_global refl,
  ap (or_else request.person) (or_else_none global.person),
  lookup-tags key (request ∷ global ∷ []) extra
      ∙ shift (lookup key request.tag_map) (lookup key global.tag_map) (lookup key extra),
)
  where
    or_else_none : (o : Option User) → or_else o none ≡ o
    or_else_none none = refl
    or_else_none (some u) = refl

    shift :
        (a b c : Option Value) → or_else (or_else a (or_else b none)) c ≡ or_else a (or_else b c)
    shift none none c = refl
    shift none (some v) c = refl
    shift (some v) b c = refl

-- A scope below a client's global scope hands out its own steps alone, newest first, and its own
-- user and tags before the global scope's, as the global scope is now.
pub request_reads :
    (scopes : Scopes) (r g : ℕ) (request global : Scope) (extra : Map Value) (key : Text)
    → IsRooted scopes
    → get_elem? scopes r ≡ some request
    → get_elem? scopes g ≡ some global
    → request.parent ≡ some g
    → global.parent ≡ none
    → global.global ≡ true
    → (breadcrumbs (lineage scopes (some r)) ≡ reverse request.crumbs)
      × (user (lineage scopes (some r)) ≡ or_else request.person global.person)
      × (lookup key (tags (lineage scopes (some r)) extra)
          ≡ or_else
              (lookup key request.tag_map)
              (or_else (lookup key global.tag_map) (lookup key extra)))
request_reads scopes r g request global extra key rooted at_r at_g above top is_global =
    let line : lineage scopes (some r) ≡ request ∷ global ∷ [] =
      lineage-some scopes rooted r request at_r
      ∙ ap (λ (l : List Scope). request ∷ l)
          (ap (lineage scopes) above
            ∙ lineage-some scopes rooted g global at_g
            ∙ ap (λ (l : List Scope). global ∷ l)
                (ap (lineage scopes) top ∙ lineage-none scopes rooted)) in
    rw line (two_reads request global extra key is_global)
