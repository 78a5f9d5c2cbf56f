-- ===== src/Recover/Panics.antt =====
-- recover.go: Recover, RecoverAndContinue and Go. What recover() returned is an argument: none
-- while there is no panic.
use bugfree_go_sdk.Base.{
  Bool, List, Option, Text, [], arith, codes, if◌then◌else◌, inl, inr, is_some, none, refl, some, ℕ,
  ℤ, ◌+◌, ◌∷◌, ◌≡◌,
}
use bugfree_go_sdk.Errors.{Recovered}
use bugfree_go_sdk.Event.{EventModifier, text_value, with_tag}
use bugfree_go_sdk.Scope.{Context, Scopes, context_with_scope}
use bugfree_go_sdk.Client.Accounting.{answered_for, capture-counted}
use bugfree_go_sdk.Client.Capture.{capture, capture_context, panicked, scope_for, with_trace}
use bugfree_go_sdk.Client.{Client, Moment}
use bugfree_go_sdk.Lifecycle.{flush_client}

-- What the deferred function does with the panic: goes on after none, swallows it, or panics again.
pub data PanicEnd : Type 0 where
  no_panic swallowed panics_again : PanicEnd

-- The capture of a panic by the current client, if there is one.
abbrev pub capture_recovered : Moment → Option Client → Option Recovered → Option Client
capture_recovered m none r = none
capture_recovered m (some c) r = some (capture m c (some c.scope) (panicked r 2) []).0

-- Recover, with what the Flush before the second panic reads, and its answer
unfoldable pub recover_again :
    Moment → List ℤ → Option Client → Option Recovered → Option Client × Option Bool × PanicEnd
unfolding flush_client
recover_again m readings current none = (current, none, no_panic)
recover_again m readings current (some r) =
    let current' = capture_recovered m current (some r) in
    (current', some (flush_client current' readings), panics_again)

-- RecoverAndContinue, with the value that it returns
unfoldable pub recover_and_continue :
    Moment → Option Client → Option Recovered → Option Client × Option Recovered × PanicEnd
recover_and_continue m current none = (current, none, no_panic)
recover_and_continue m current (some r) = (capture_recovered m current (some r), some r, swallowed)

-- The deferred function of (*Client).Go, on the context that the goroutine has; `span` is that of
-- the context.
unfoldable pub end_goroutine :
    Moment
    → Option Context
    → Option (Text × Text)
    → Option Client
    → Option Recovered
    → Option Client × PanicEnd
unfolding with_tag
end_goroutine m scoped span current none = (current, no_panic)
end_goroutine m scoped span none (some r) = (none, swallowed)
end_goroutine m scoped span (some c) (some r) = (
  some
      (capture_context m c scoped span (panicked (some r) 1)
        (some (with_tag (codes "goroutine") (text_value (codes "bugfree.Go"))) ∷ [])).0,
  swallowed,
)

-- (*Client).Go up to the start of the goroutine: the context of fn.
unfoldable pub start_goroutine : Scopes → Option Client → Option Context → Scopes × Context
unfolding context_with_scope
start_goroutine scopes none ctx = context_with_scope scopes none ctx
start_goroutine scopes (some c) ctx = context_with_scope scopes (some c.scope) ctx

abbrev pub answered_of : Option Client → ℕ
answered_of none = 0
answered_of (some c) = answered_for c

-- How many captures a panic is: one of a client that is enabled.
abbrev pub panics_of : Option Client → Option Recovered → ℕ
panics_of current none = 0
panics_of none (some r) = 0
panics_of (some c) (some r) = if c.enabled then 1 else 0

panic_counted :
    (m : Moment) (c : Client) (scope : Option ℕ) (r : Recovered) (skip : ℕ)
    (modifiers : List (Option EventModifier))
    → answered_for (capture m c scope (panicked (some r) skip) modifiers).0
      ≡ panics_of (some c) (some r) + answered_for c
panic_counted m c scope r skip modifiers =
    elim (capture-counted m c scope (panicked (some r) skip) modifiers) [
      | inl (off, same) ↦ ground arith
      | inr (on, counted) ↦ ground arith
    ]

-- Whatever the current client is: a panic that one of Recover, RecoverAndContinue and Go meets is
-- answered for by an enabled client exactly once, by an event handed over or a count of Stats, and
-- no panic not at all; Recover panics again, and the other two swallow the panic.
pub recovered_once :
    (m : Moment) (readings : List ℤ) (scoped : Option Context) (span : Option (Text × Text))
    (current : Option Client) (r : Option Recovered)
    → ((answered_of (recover_again m readings current r).0
          ≡ panics_of current r + answered_of current)
        × ((recover_again m readings current r).2 ≡ (if is_some r then panics_again else no_panic)))
      × ((answered_of (recover_and_continue m current r).0
            ≡ panics_of current r + answered_of current)
          × ((recover_and_continue m current r).2 ≡ (if is_some r then swallowed else no_panic)))
      × ((answered_of (end_goroutine m scoped span current r).0
            ≡ panics_of current r + answered_of current)
          × ((end_goroutine m scoped span current r).1
              ≡ (if is_some r then swallowed else no_panic)))
unfolding recover_again recover_and_continue end_goroutine capture_context
recovered_once m readings scoped span none none = ((refl, refl), (refl, refl), (refl, refl))
recovered_once m readings scoped span none (some r) = ((refl, refl), (refl, refl), (refl, refl))
recovered_once m readings scoped span (some c) none =
    ((omega arith, refl), (omega arith, refl), (omega arith, refl))
recovered_once m readings scoped span (some c) (some r) = (
  (panic_counted m c (some c.scope) r 2 [], refl),
  (panic_counted m c (some c.scope) r 2 [], refl),
  (
    panic_counted m c (scope_for c scoped) r 1 (
        with_trace span
          (some (with_tag (codes "goroutine") (text_value (codes "bugfree.Go"))) ∷ [])),
    refl,
  ),
)
