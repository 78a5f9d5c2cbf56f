-- ===== src/Sessions/Status.antt =====
-- sessions.go, statusWriter: which status a handler's answer is counted under.
use bugfree_go_sdk.Base.{List, [], ap, arith, false, refl, ℕ, ◌<◌, ◌==◌, ◌∷◌, ◌≡◌, ◌≤◌}
use bugfree_go_sdk.Sessions.{StatusWriter, session_for_status, session_ok, write_body, write_header}

-- What a handler does with its writer.
pub data Output : Type 0 where
  header : ℕ → Output
  body : Output

unfoldable pub answer : StatusWriter → List Output → StatusWriter
unfolding write_header write_body
answer w [] = w
answer w (header status ∷ rest) = answer (write_header status w) rest
answer w (body ∷ rest) = answer (write_body w) rest

answer_kept :
    (w : StatusWriter) (outputs : List Output) → (w.status == 0) ≡ false → answer w outputs ≡ w
unfolding answer
answer_kept w [] h = refl
answer_kept w (header status ∷ rest) h = rw h (answer_kept w rest h)
answer_kept w (body ∷ rest) h = rw h (answer_kept w rest h)

abbrev pub first_status : List Output → ℕ
first_status [] = 0
first_status (header status ∷ rest) = status
first_status (body ∷ rest) = 200

-- The first header or body decides: whatever is written later, the status remembered is that of
-- the first output, 200 for a body without a header and 0 when nothing is written.
pub answer_first :
    (outputs : List Output)
    → (first_status outputs == 0) ≡ false
    → (answer (record { status = 0 }) outputs).status ≡ first_status outputs
unfolding answer
answer_first [] h = cc
answer_first (header status ∷ rest) h =
    ap (λ (w : StatusWriter). w.status) (answer_kept (record { status = status }) rest h)
answer_first (body ∷ rest) h =
    ap (λ (w : StatusWriter). w.status) (answer_kept (record { status = 200 }) rest refl)

-- An informational header (103 Early Hints, say) before the answer hides the answer: a request that
-- then ends with a server error is counted as one that ended normally.
pub early_hints_hide_errors :
    (hint status : ℕ) (rest : List Output)
    → 100 ≤ hint
    → hint < 200
    → 500 ≤ status
    → session_for_status
        (answer (record { status = 0 }) (header hint ∷ header status ∷ rest)).status
      ≡ session_ok
unfolding session_for_status
early_hints_hide_errors hint status rest h k e =
    let shown : (hint == 0) ≡ false = ground arith in
    rw (answer_first (header hint ∷ header status ∷ rest) shown) (ground arith)
