-- ===== src/Errors.antt =====
-- stack-error.go, and the error functions of scope.go (errorType, describe, errorChain): a Go error
-- value is a tree of what it wraps. `callers` is what a Callers method of the value returns, and
-- is empty for a type without one.
mod Tests
pub mod Stacks
pub mod Chain
use mathlib.Core.List.{foldl}
use bugfree_go_sdk.Base.{List, Text, [], if◌then◌else◌, leb, length, suc, zero, ℕ, ◌++◌, ◌∷◌}

mutual
  pub data Err : Type 0 where
    -- no Unwrap method, or one that returns nil
    leaf : Text → Text → List ℕ → Err
    -- Unwrap() error
    wrap : Text → Text → List ℕ → Err → Err
    -- Unwrap() []error
    join : Text → Text → List ℕ → Errs → Err
    -- *stackError
    recorded : List ℕ → Err → Err

  pub data Errs : Type 0 where
    none_left : Errs
    member : Err → Errs → Errs
    -- a nil member
    nil_member : Errs → Errs

-- (*stackError).Callers and the Callers method of any other stackCarrier
unfoldable pub callers : Err → List ℕ
callers (leaf name text stack) = stack
callers (wrap name text stack e) = stack
callers (join name text stack es) = stack
callers (recorded stack e) = stack

-- Error(); a recorder repeats what it wraps.
unfoldable pub message : Err → Text
message (leaf name text stack) = text
message (wrap name text stack e) = text
message (join name text stack es) = text
message (recorded stack e) = message e

-- errorType: the type of the first error that is no recorder.
unfoldable pub error_type : Err → Text
error_type (leaf name text stack) = name
error_type (wrap name text stack e) = name
error_type (join name text stack es) = name
error_type (recorded stack e) = error_type e

-- walkErrors: the errors in the order of their visit.
unfoldable mutual
  pub walk_errors : Err → List Err
  walk_errors (leaf name text stack) = leaf name text stack ∷ []
  walk_errors (wrap name text stack e) = wrap name text stack e ∷ walk_errors e
  walk_errors (join name text stack es) = join name text stack es ∷ walk_members es
  walk_errors (recorded stack e) = recorded stack e ∷ walk_errors e

  pub walk_members : Errs → List Err
  walk_members none_left = []
  walk_members (member e es) = walk_errors e ++ walk_members es
  walk_members (nil_member es) = walk_members es

-- if len(stack) > 0 { found = stack }
abbrev pub deeper : List ℕ → List ℕ → List ℕ
deeper found [] = found
deeper found (pc ∷ pcs) = pc ∷ pcs

-- The closure of errorCallers: a stack found replaces the one before it.
unfoldable pub visit : List ℕ → Err → List ℕ
unfolding callers
visit found e = deeper found (callers e)

-- errorCallers and StackOf; the empty list is nil.
unfoldable pub error_callers : Err → List ℕ
unfolding walk_errors visit
error_callers e = foldl visit [] (walk_errors e)

-- The tail of WithStack, on the stack that the error carries.
abbrev pub attach : List ℕ → Err → List ℕ → Err
attach here e [] = recorded here e
attach here e (pc ∷ pcs) = e

-- WithStack on an error that is not nil; `here` is the stack of the call.
unfoldable pub with_stack : List ℕ → Err → Err
unfolding error_callers
with_stack here e = attach here e (error_callers e)

-- Errorf, around the error that fmt.Errorf makes
abbrev pub errorf : List ℕ → Err → Err
errorf here e = recorded here e

-- A value that recover() returned.
pub data Recovered : Type 0 where
  plain : Text → Recovered
  error : Err → Recovered
  -- any other value, as "%v" prints it
  other : Text → Recovered

-- describe
unfoldable pub describe : Recovered → Text
unfolding message
describe (plain s) = s
describe (error e) = message e
describe (other shown) = shown

-- One entry of an error chain.
pub record Link : Type 0 where
  pub type : Text
  pub message : Text

-- maxChainLength
abbrev pub max_chain_length : ℕ
max_chain_length = 10

abbrev pub link_of : Err → Link
link_of e = record { type = error_type e; message = message e }

-- if depth > 0 { chain = append(chain, …) }
unfoldable pub append_link : Err → ℕ → List Link → List Link
append_link e zero chain = chain
append_link e (suc depth) chain = chain ++ link_of e ∷ []

-- The closure walk of errorChain, on an error that is not nil. The chain's bound is tested first.
unfoldable mutual
  pub walk : Err → ℕ → List Link → List Link
  walk (leaf name text stack) depth chain =
      let next = append_link (leaf name text stack) depth chain in
      if leb max_chain_length (length chain) then chain else next
  walk (wrap name text stack e) depth chain =
      let next = walk e (suc depth) (append_link (wrap name text stack e) depth chain) in
      if leb max_chain_length (length chain) then chain else next
  walk (join name text stack es) depth chain =
      let next = walk_inner es (suc depth) (append_link (join name text stack es) depth chain) in
      if leb max_chain_length (length chain) then chain else next
  walk (recorded stack e) depth chain =
      let next = walk e depth chain in if leb max_chain_length (length chain) then chain else next

  -- for _, inner := range wrapper.Unwrap() { walk(inner, depth) }
  pub walk_inner : Errs → ℕ → List Link → List Link
  walk_inner none_left depth chain = chain
  walk_inner (member e es) depth chain = walk_inner es depth (walk e depth chain)
  walk_inner (nil_member es) depth chain = walk_inner es depth chain

-- errorChain
unfoldable pub error_chain : Err → List Link
unfolding walk append_link
error_chain e = walk e 0 []
