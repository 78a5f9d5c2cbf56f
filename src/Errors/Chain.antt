-- ===== src/Errors/Chain.antt =====
-- scope.go, errorChain: the bounded walk against the list of everything an error wraps.
use mathlib.Core.List.{append-nil, append_assoc, map-append}
use bugfree_go_sdk.Base.{
  Bool, Bool-cases, List, [], ap, arith, drop, false, if◌then◌else◌, inl, inr, keep, keep-append,
  leb, length, length-append, length-take, map, refl, suc, sym, take, take-append_full,
  take-take-append, take_all, true, ℕ, ◌++◌, ◌<◌, ◌∙◌, ◌∷◌, ◌≡◌, ◌≤◌,
}
use bugfree_go_sdk.Errors.{
  Err, Errs, Link, append_link, error_chain, join, leaf, link_of, max_chain_length, member,
  nil_member, none_left, recorded, walk, walk_errors, walk_inner, walk_members, wrap,
}

-- Every error but a stack recorder is a link.
abbrev pub is_link : Err → Bool
is_link (leaf name text stack) = true
is_link (wrap name text stack e) = true
is_link (join name text stack es) = true
is_link (recorded stack e) = false

abbrev pub links : List Err → List Link
links es = map link_of (keep is_link es)

links-append : (xs ys : List Err) → links (xs ++ ys) ≡ links xs ++ links ys
links-append xs ys =
    rw (keep-append is_link xs ys) (map-append link_of (keep is_link xs) (keep is_link ys))

module _ (c : List Link) (full : leb max_chain_length (length c) ≡ true)
    (fits : length c ≤ max_chain_length) where
  stays : (ys : List Link) → c ≡ take max_chain_length (c ++ ys)
  stays ys = sym (take-append_full max_chain_length c ys (ground arith))

take_nil : (c : List Link) → length c ≤ max_chain_length → c ≡ take max_chain_length (c ++ [])
take_nil c h = rw (append-nil c) (sym (take_all max_chain_length c h))

step :
    (c : List Link) (l : Link) (ys : List Link) (next : List Link)
    → length c ≤ max_chain_length
    → (length (c ++ l ∷ []) ≤ max_chain_length → next ≡ take max_chain_length ((c ++ l ∷ []) ++ ys))
    → (if leb max_chain_length (length c) then c else next) ≡ take max_chain_length (c ++ l ∷ ys)
step c l ys next fits go = elim (Bool-cases (leb max_chain_length (length c))) [
  | inl full ↦ rw full (stays c full fits (l ∷ ys))
  | inr room ↦ rw room (
      go (omega (arith, length-append c (l ∷ []), leb_false room))
      ∙ ap (take max_chain_length) (append_assoc c (l ∷ []) ys))
]
  where
    leb_false : leb max_chain_length (length c) ≡ false → length c < max_chain_length
    leb_false h = ground arith

mutual
  unfolding walk walk_errors append_link keep

  walk_lem :
      (e : Err) (depth : ℕ) (c : List Link)
      → length c ≤ max_chain_length
      → walk e (suc depth) c ≡ take max_chain_length (c ++ links (walk_errors e))
  walk_lem (leaf name text stack) depth c fits =
      let l = link_of (leaf name text stack) in
      step c l [] (c ++ l ∷ []) fits (λ h. take_nil (c ++ l ∷ []) h)
  walk_lem (wrap name text stack e) depth c fits =
      step c (link_of (wrap name text stack e)) (links (walk_errors e)) _ fits
        (walk_lem e (suc depth) _)
  walk_lem (join name text stack es) depth c fits =
      step c (link_of (join name text stack es)) (links (walk_members es)) _ fits
        (walk_inner_lem es (suc depth) _)
  walk_lem (recorded stack e) depth c fits = elim (Bool-cases (leb max_chain_length (length c))) [
    | inl full ↦ rw full (stays c full fits (links (walk_errors e)))
    | inr room ↦ rw room (walk_lem e depth c fits)
  ]

  walk_inner_lem :
      (es : Errs) (depth : ℕ) (c : List Link)
      → length c ≤ max_chain_length
      → walk_inner es (suc depth) c ≡ take max_chain_length (c ++ links (walk_members es))
  walk_inner_lem none_left depth c fits = take_nil c fits
  walk_inner_lem (member e es) depth c fits =
      let first = walk_lem e depth c fits in
      let xs = links (walk_errors e) in
      let ys = links (walk_members es) in
      rw (first, links-append (walk_errors e) (walk_members es))
        (walk_inner_lem es depth (take max_chain_length (c ++ xs))
            (omega (arith, length-take max_chain_length (c ++ xs)))
          ∙ take-take-append max_chain_length (c ++ xs) ys
          ∙ ap (take max_chain_length) (append_assoc c xs ys))
  walk_inner_lem (nil_member es) depth c fits = walk_inner_lem es depth c fits

-- The links below the reported error: all but the first.
below : (e : Err) → walk e 0 [] ≡ take max_chain_length (drop 1 (links (walk_errors e)))
unfolding walk walk_errors append_link keep
below (leaf name text stack) = refl
below (wrap name text stack e) = walk_lem e 0 [] (omega arith)
below (join name text stack es) = walk_inner_lem es 0 [] (omega arith)
below (recorded stack e) = below e

-- The chain of an error lists what it wraps in the order of the visit, through single wrappers and
-- joins alike: the error itself and the stack recorders left out, cut after ten links.
pub error_chain-take :
    (e : Err) → error_chain e ≡ take max_chain_length (drop 1 (links (walk_errors e)))
unfolding error_chain
error_chain-take e = below e
