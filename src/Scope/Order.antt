-- ===== src/Scope/Order.antt =====
-- scope.go, breadcrumbs: the order in which a scope's steps are handed out.
use mathlib.Core.List.{Perm}
use mathlib.Core.List.Perm
use bugfree_go_sdk.Base.{
  All, Bool, Bool-cases, List, [], arith, inl, inr, keep, length, length-reverse, length-take, ltb,
  refl, reverse, take, ℕ, ◌++◌, ◌==◌, ◌∙◌, ◌∷◌, ◌≡◌, ◌≢◌, ◌≤◌, ◌⊎◌,
}
use bugfree_go_sdk.Event.{Breadcrumb}
use bugfree_go_sdk.Scope.{Scope}
use bugfree_go_sdk.Scope.Read.{
  breadcrumb_time, breadcrumbs, inherited, insert_crumb, interleave, sort_crumbs,
}

-- Newest first.
abbrev pub NewestFirst : List Breadcrumb → Type 0
NewestFirst [] = Unit
NewestFirst (c ∷ rest) = All (λ d. breadcrumb_time d ≤ breadcrumb_time c) rest × NewestFirst rest

abbrev pub of_time : ℕ → Breadcrumb → Bool
of_time t c = breadcrumb_time c == t

All-insert :
    (t : ℕ) (c : Breadcrumb) (l : List Breadcrumb)
    → breadcrumb_time c ≤ t
    → All (λ d. breadcrumb_time d ≤ t) l
    → All (λ d. breadcrumb_time d ≤ t) (insert_crumb c l)
unfolding insert_crumb
All-insert t c [] h hs = (h, tt)
All-insert t c (d ∷ l) h (k, hs) = ground (arith, All-insert t c l h hs)

All-weaken :
    (t u : ℕ) (l : List Breadcrumb)
    → t ≤ u
    → All (λ d. breadcrumb_time d ≤ t) l
    → All (λ d. breadcrumb_time d ≤ u) l
All-weaken t u [] h hs = tt
All-weaken t u (d ∷ l) h (k, hs) = (omega arith, All-weaken t u l h hs)

insert_crumb-NewestFirst :
    (c : Breadcrumb) (l : List Breadcrumb) → NewestFirst l → NewestFirst (insert_crumb c l)
unfolding insert_crumb
insert_crumb-NewestFirst c [] h = (tt, tt)
insert_crumb-NewestFirst c (d ∷ l) (all, h) =
    elim (Bool-cases (ltb (breadcrumb_time c) (breadcrumb_time d))) [
      | inl later ↦
          rw later
            (All-insert (breadcrumb_time d) c l (ground arith) all, insert_crumb-NewestFirst c l h)
      | inr earlier ↦
          let first : breadcrumb_time d ≤ breadcrumb_time c = ground arith in
          rw earlier
            ((first, All-weaken (breadcrumb_time d) (breadcrumb_time c) l first all), (all, h))
    ]

insert_crumb-perm : (c : Breadcrumb) (l : List Breadcrumb) → Perm (insert_crumb c l) (c ∷ l)
unfolding insert_crumb
insert_crumb-perm c [] = Perm.refl (c ∷ [])
insert_crumb-perm c (d ∷ l) = elim (Bool-cases (ltb (breadcrumb_time c) (breadcrumb_time d))) [
  | inl later ↦ rw later (Perm.trans (Perm.cons d (insert_crumb-perm c l)) (Perm.swap c d l))
  | inr earlier ↦ rw earlier (Perm.refl (c ∷ d ∷ l))
]

-- Equal times keep their order.
insert_crumb-of_time :
    (t : ℕ) (c : Breadcrumb) (l : List Breadcrumb)
    → keep (of_time t) (insert_crumb c l) ≡ keep (of_time t) (c ∷ l)
unfolding insert_crumb keep
insert_crumb-of_time t c [] = refl
insert_crumb-of_time t c (d ∷ l) = ground (arith, insert_crumb-of_time t c l)

keep-cons :
    (t : ℕ) (c : Breadcrumb) (l l' : List Breadcrumb)
    → keep (of_time t) l ≡ keep (of_time t) l'
    → keep (of_time t) (c ∷ l) ≡ keep (of_time t) (c ∷ l')
unfolding keep
keep-cons t c l l' h = rw h

-- What it is to be the stable sort of a list, newest first.
pub record StableSort (l sorted : List Breadcrumb) : Type 0 where
  pub newest_first : NewestFirst sorted
  pub same : Perm sorted l
  pub stable : (t : ℕ) → keep (of_time t) sorted ≡ keep (of_time t) l

pub sort_crumbs-StableSort : (l : List Breadcrumb) → StableSort l (sort_crumbs l)
unfolding sort_crumbs
sort_crumbs-StableSort [] = record { newest_first = tt; same = Perm.refl []; stable = λ t. refl }
sort_crumbs-StableSort (c ∷ l) =
    let rest = sort_crumbs-StableSort l in
    record {
      newest_first = insert_crumb-NewestFirst c (sort_crumbs l) rest.newest_first;
      same = Perm.trans (insert_crumb-perm c (sort_crumbs l)) (Perm.cons c rest.same);
      stable = λ t.
          insert_crumb-of_time t c (sort_crumbs l)
          ∙ keep-cons t c (sort_crumbs l) l (rest.stable t);
    }

-- The steps of a scope inside another flow's scope: with something inherited they are the newest
-- `limit` of the scope's own, newest first, and the parent's, stably sorted by time; with nothing
-- inherited they are its own, newest first.
pub breadcrumbs_exact :
    (s : Scope) (parents : List Scope)
    → ((inherited parents (breadcrumbs parents) ≡ [])
        × (breadcrumbs (s ∷ parents) ≡ reverse s.crumbs))
      ⊎ ((inherited parents (breadcrumbs parents) ≢ [])
          × ((sorted : List Breadcrumb) × StableSort
                (reverse s.crumbs ++ inherited parents (breadcrumbs parents))
                sorted
              × (breadcrumbs (s ∷ parents) ≡ take s.limit sorted)))
unfolding breadcrumbs
breadcrumbs_exact s parents = go (inherited parents (breadcrumbs parents))
  where
    own : List Breadcrumb
    own = reverse s.crumbs

    go :
        (more : List Breadcrumb)
        → ((more ≡ []) × (interleave s.limit own more ≡ own))
          ⊎ ((more ≢ [])
              × ((sorted : List Breadcrumb) × StableSort (own ++ more) sorted
                  × (interleave s.limit own more ≡ take s.limit sorted)))
    go [] = inl (refl, unfold interleave in refl)
    go (c ∷ more) = inr (
      λ e. cc,
      (
        sort_crumbs (own ++ c ∷ more),
        sort_crumbs-StableSort (own ++ c ∷ more),
        unfold interleave in refl,
      ),
    )

-- Every scope of a line of parents holds at most its limit.
abbrev pub Within : List Scope → Type 0
Within = All (λ s. length s.crumbs ≤ s.limit)

-- An event carries at most `limit` steps of a scope whose own steps are within it, whatever its
-- parents hold.
pub length-breadcrumbs :
    (s : Scope) (parents : List Scope)
    → length s.crumbs ≤ s.limit
    → length (breadcrumbs (s ∷ parents)) ≤ s.limit
unfolding breadcrumbs
length-breadcrumbs s parents h = go (inherited parents (breadcrumbs parents))
  where
    go : (more : List Breadcrumb) → length (interleave s.limit (reverse s.crumbs) more) ≤ s.limit
    go [] = unfold interleave in omega (arith, length-reverse s.crumbs)
    go (c ∷ more) =
        unfold interleave in
        omega (arith, length-take s.limit (sort_crumbs (reverse s.crumbs ++ c ∷ more)))
