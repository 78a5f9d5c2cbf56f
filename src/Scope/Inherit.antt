-- ===== src/Scope/Inherit.antt =====
-- scope.go: a child reads its parents live, and the nearest scope wins.
use bugfree_go_sdk.Base.{
  Bool-cases, List, Map, Option, Text, [], ap, arith, get_elem?, get_elem?-lt, get_elem?-modify_ne,
  get_elem?-modify-none, get_elem?-modify_self, inl, inr, length, lookup, lookup-merge, modify,
  none, or_else, refl, some, suc, sym, zero, ℕ, ◌++◌, ◌<◌, ◌==◌, ◌∙◌, ◌∷◌, ◌≡◌, ◌≤◌, ◌⊎◌,
}
use bugfree_go_sdk.Scope.{Scope, Scopes, child, new_scope}
use bugfree_go_sdk.Scope.Read.{chain_of, lineage, onward, tags}
use bugfree_go_sdk.Event.{Value}

abbrev pub Before : Option ℕ → ℕ → Type 0
Before none i = Unit
Before (some p) i = p < i

-- Every parent stands before its child.
abbrev pub IsRooted : Scopes → Type 0
IsRooted scopes = (i : ℕ) (s : Scope) → get_elem? scopes i ≡ some s → Before s.parent i

module _ (scopes : Scopes) (rooted : IsRooted scopes) where
  chain_of-none : (f : ℕ) → chain_of f scopes none ≡ []
  unfolding chain_of
  chain_of-none zero = refl
  chain_of-none (suc f) = refl

  Before-mono : (p : Option ℕ) (i f : ℕ) → Before p i → i ≤ f → Before p f
  Before-mono none i f h k = tt
  Before-mono (some p) i f h k = omega arith

  -- Fuel beyond a scope's place in the store changes nothing.
  chain_of-enough :
      (f g : ℕ) (s : Option ℕ) → Before s f → Before s g → chain_of f scopes s ≡ chain_of g scopes s
  unfolding chain_of
  chain_of-enough f g none h k = chain_of-none f ∙ sym (chain_of-none g)
  chain_of-enough zero g (some i) h k = absurd (omega arith)
  chain_of-enough (suc f) zero (some i) h k = absurd (omega arith)
  chain_of-enough (suc f) (suc g) (some i) h k =
      go (get_elem? scopes i) refl (λ p. chain_of-enough f g p)
    where
      go :
          (found : Option Scope)
          → get_elem? scopes i ≡ found
          → ((p : Option ℕ) → Before p f → Before p g → chain_of f scopes p ≡ chain_of g scopes p)
          → onward (chain_of f scopes) found ≡ onward (chain_of g scopes) found
      go none e ih = refl
      go (some s) e ih =
          let before = rooted i s e in
          ap (λ (l : List Scope). s ∷ l)
            (ih s.parent (Before-mono s.parent i f before (omega arith))
              (Before-mono s.parent i g before (omega arith)))

  pub lineage-none : lineage scopes none ≡ []
  unfolding lineage
  lineage-none = chain_of-none (length scopes)

  -- The recursion that the methods make, with the fuel gone: a scope, and then its parent's line.
  pub lineage-some :
      (i : ℕ) (s : Scope)
      → get_elem? scopes i ≡ some s
      → lineage scopes (some i) ≡ s ∷ lineage scopes s.parent
  unfolding lineage chain_of
  lineage-some i s h =
      chain_of-enough (length scopes) (suc (length scopes)) (some i) (get_elem?-lt scopes i s h)
        (omega (arith, get_elem?-lt scopes i s h))
      ∙ ap (onward (chain_of (length scopes) scopes)) h

-- The nearest scope of a line that has a tag.
abbrev pub nearest_tag : Text → List Scope → Option Value
nearest_tag key [] = none
nearest_tag key (s ∷ parents) = or_else (lookup key s.tag_map) (nearest_tag key parents)

or_else-elim :
    (own : Option Value) (rest : Option Value)
    → (elim own [ none ↦ rest | some v ↦ some v ]) ≡ or_else own rest
or_else-elim none rest = refl
or_else-elim (some v) rest = refl

or_else_assoc : (a b c : Option Value) → or_else (or_else a b) c ≡ or_else a (or_else b c)
or_else_assoc none b c = refl
or_else_assoc (some v) b c = refl

-- An event's tag is that of the nearest scope that has it: a child wins over its parent, and any
-- scope over the extra tags given.
pub lookup-tags :
    (key : Text) (line : List Scope) (extra : Map Value)
    → lookup key (tags line extra) ≡ or_else (nearest_tag key line) (lookup key extra)
unfolding tags
lookup-tags key [] extra = refl
lookup-tags key (s ∷ parents) extra =
    lookup-merge (tags parents extra) s.tag_map key
    ∙ or_else-elim (lookup key s.tag_map) (lookup key (tags parents extra))
    ∙ ap (or_else (lookup key s.tag_map)) (lookup-tags key parents extra)
    ∙ sym (or_else_assoc (lookup key s.tag_map) (nearest_tag key parents) (lookup key extra))

get_elem?-past :
    (scopes : Scopes) (fresh s : Scope) (i : ℕ)
    → get_elem? (scopes ++ fresh ∷ []) i ≡ some s
    → (get_elem? scopes i ≡ some s) ⊎ ((i ≡ length scopes) × (s ≡ fresh))
get_elem?-past [] fresh s zero h = inr (refl, cc h)
get_elem?-past [] fresh s (suc i) h = cc
get_elem?-past (x ∷ scopes) fresh s zero h = inl h
get_elem?-past (x ∷ scopes) fresh s (suc i) h = elim (get_elem?-past scopes fresh s i h) [
  | inl old ↦ inl old
  | inr (e, f) ↦ inr (ap suc e, f)
]

-- A new child keeps the store rooted, if its parent is in it.
pub child-IsRooted :
    (scopes : Scopes) (s : Option ℕ)
    → IsRooted scopes
    → Before s (length scopes)
    → IsRooted (child scopes s).0
unfolding child new_scope
child-IsRooted scopes s rooted inside i found h = elim (get_elem?-past scopes _ found i h) [
  | inl old ↦ rooted i found old
  | inr (e, f) ↦ rw (e, f) inside
]

parent_of : Option Scope → Option ℕ
parent_of none = none
parent_of (some t) = t.parent

-- Changing a scope in place, its parent kept, keeps the store rooted.
pub modify-IsRooted :
    (f : Scope → Scope) (scopes : Scopes) (j : ℕ)
    → ((s : Scope) → (f s).parent ≡ s.parent)
    → IsRooted scopes
    → IsRooted (modify f scopes j)
unfolding parent_of
modify-IsRooted f scopes j keeps rooted i s h = elim (Bool-cases (i == j)) [
  | inl same ↦ here (get_elem? scopes i) refl (ground arith)
  | inr other ↦ rooted i s (sym (get_elem?-modify_ne f scopes j i other) ∙ h)
]
  where
    here : (old : Option Scope) → get_elem? scopes i ≡ old → i ≡ j → Before s.parent i
    here none e same = let gone = get_elem?-modify-none f scopes j i e in cc
    here (some t) e same =
        let now : get_elem? (modify f scopes i) i ≡ some (f t) =
          get_elem?-modify_self f scopes i t e in
        let is : some s ≡ some (f t) = sym h ∙ rw (← same) now in
        let q : s.parent ≡ t.parent = ap parent_of is ∙ keeps t in rw q (rooted i t e)
