-- ===== src/Errors/Stacks.antt =====
-- stack-error.go: which recorded stack an error is reported with.
use mathlib.Core.List.{foldl}
use bugfree_go_sdk.Base.{List, [], ap, refl, sym, ℕ, ◌∙◌, ◌∷◌, ◌≡◌}
use bugfree_go_sdk.Errors.{
  Err, callers, deeper, error_callers, error_type, message, recorded, visit, walk_errors,
  with_stack,
}

visit-deeper : (found : List ℕ) (e : Err) → visit found e ≡ deeper found (callers e)
unfolding visit
visit-deeper found e = refl

deeper_assoc : (a b c : List ℕ) → deeper (deeper a b) c ≡ deeper a (deeper b c)
deeper_assoc a b [] = refl
deeper_assoc a b (pc ∷ pcs) = refl

deeper_nil : (a : List ℕ) → deeper [] a ≡ a
deeper_nil [] = refl
deeper_nil (pc ∷ pcs) = refl

foldl-visit :
    (found : List ℕ) (es : List Err) → foldl visit found es ≡ deeper found (foldl visit [] es)
foldl-visit found [] = refl
foldl-visit found (e ∷ es) =
    foldl-visit (visit found e) es
    ∙ rw (visit-deeper found e) (
        deeper_assoc found (callers e) (foldl visit [] es)
        ∙ ap (deeper found)
            (sym (foldl-visit (visit [] e) es ∙ rw (visit-deeper [] e, deeper_nil (callers e)))))

error_callers-cons :
    (e : Err) (es : List Err) → foldl visit [] (e ∷ es) ≡ deeper (callers e) (foldl visit [] es)
error_callers-cons e es =
    foldl-visit (visit [] e) es ∙ rw (visit-deeper [] e, deeper_nil (callers e))

-- The stack of a recorder is used only when nothing inside it recorded one.
pub error_callers-recorded :
    (stack : List ℕ) (e : Err) → error_callers (recorded stack e) ≡ deeper stack (error_callers e)
unfolding error_callers callers
error_callers-recorded stack e = error_callers-cons (recorded stack e) (walk_errors e)

-- What WithStack gives, on an error and once more on its own result.
abbrev pub StackOnce : List ℕ → Err → Err → Type 0
StackOnce here e r =
    (error_callers r ≡ deeper here (error_callers e))
    × ((again : List ℕ) → with_stack again r ≡ r)
    × (message r ≡ message e)
    × (error_type r ≡ error_type e)
