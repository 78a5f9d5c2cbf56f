-- ===== src/Posting.antt =====
-- The requests that feedback.go, sessions.go and profiling.go make, which all do the same: encode,
-- make the request, send it, and look at the status. The state is the bodies requested so far; what
-- each step comes to is an argument.
use bugfree_go_sdk.Base.{
  Bool, Bool-cases, List, Text, [], false, if◌then◌else◌, inl, inr, leb, not, refl, take, true, ℕ,
  ◌&&◌, ◌++◌, ◌∷◌, ◌≡◌, ◌⊎◌,
}

-- Why a report was not stored: its message is empty, it could not be encoded, no request could be
-- made, no answer came, or the server answered with a status from 300 on.
pub data Fault : Type 0 where
  empty_message not_encoded not_made unanswered : Fault
  refused : ℕ → Text → Fault

pub data Result (A : Type 0) : Type 0 where
  ok : A → Result A
  err : Fault → Result A

-- What client.Do returns: an error, or a status and the body of the answer.
pub data Answer : Type 0 where
  lost : Answer
  arrived : ℕ → Text → Answer

pub record Exchange : Type 0 where
  pub encodable : Bool
  pub addressable : Bool
  pub answer : Answer

-- A call that makes requests with bodies of a type, and may fail; what was requested stays
-- requested.
abbrev pub Action : Type 0 → Type 0 → Type 0
Action B A = List B → Result A × List B

infixl 5 ◌>>=◌ ◌>>◌
abbrev pub ◌>>=◌ : {A B C : Type 0} → Action B A → (A → Action B C) → Action B C
◌>>=◌ m f bodies =
    let (r, bodies') = m bodies in elim r [ ok a ↦ f a bodies' | err e ↦ (err e, bodies') ]

abbrev pub ◌>>◌ : {A B C : Type 0} → Action B A → Action B C → Action B C
m >> k = m >>= λ _. k

-- What an answer makes of a post.
abbrev pub told : Answer → Result (Unit {0})
told lost = err unanswered
told (arrived status text) = if leb 300 status then err (refused status (take 8192 text)) else ok tt

module _ {B : Type 0} where
  abbrev pub pure : {A : Type 0} → A → Action B A
  pure a bodies = (ok a, bodies)

  -- if err != nil { return err }
  abbrev pub raise_if : Bool → Fault → Action B (Unit {0})
  raise_if c e bodies = (if c then err e else ok tt, bodies)

  -- client.Do
  abbrev pub request : B → Answer → Action B (ℕ × Text)
  request body lost bodies = (err unanswered, bodies ++ body ∷ [])
  request body (arrived status text) bodies = (ok (status, text), bodies ++ body ∷ [])

  -- From client.Do on.
  abbrev pub exchange : Answer → B → Action B (Unit {0})
  exchange answer body = do
    reply ← request body answer
    raise_if (leb 300 reply.0) (refused reply.0 (take 8192 reply.1))

  -- From json.Marshal on.
  unfoldable pub post : Exchange → B → Action B (Unit {0})
  post x body = do
    raise_if (not x.encodable) not_encoded
    raise_if (not x.addressable) not_made
    exchange x.answer body

  -- What a post has done to the bodies requested, by its result: it failed before the request, or
  -- one request was made and its answer tells.
  abbrev pub Posts : Exchange → B → List B → Result (Unit {0}) × List B → Type 0
  Posts x body bodies (r, bodies') =
      ((x.encodable && x.addressable ≡ false)
        × (bodies' ≡ bodies)
        × (r ≡ (if x.encodable then err not_made else err not_encoded)))
      ⊎ ((x.encodable && x.addressable ≡ true)
          × (bodies' ≡ bodies ++ body ∷ [])
          × (r ≡ told x.answer))

  exchange-told :
      (answer : Answer) (body : B) (bodies : List B)
      → exchange answer body bodies ≡ (told answer, bodies ++ body ∷ [])
  exchange-told lost body bodies = refl
  exchange-told (arrived status text) body bodies = refl

  pub post-Posts :
      (x : Exchange) (body : B) (bodies : List B) → Posts x body bodies (post x body bodies)
  unfolding post
  post-Posts x body bodies = elim (Bool-cases x.encodable) [
    | inl e ↦ elim (Bool-cases x.addressable) [
      | inl a ↦ inr (
        rw (e, a) refl,
        rw (e, a, exchange-told x.answer body bodies) refl,
        rw (e, a, exchange-told x.answer body bodies) refl,
      )
      | inr a ↦ inl (rw (e, a) refl, rw (e, a) refl, rw (e, a) refl)
    ]
    | inr e ↦ inl (rw e refl, rw e refl, rw e refl)
  ]
