-- ===== src/Build/Paths.antt =====
-- build-info.go and packageOf of stack-trace.go: names and paths.
use mathlib.Core.List.{append_assoc}
use native.Mathlib.Nat.{zero-add}
use bugfree_go_sdk.Base.{
  All, All-append, Text, [], ap, arith, codes, drop, false, index, is_empty, last_index, length,
  length-append, none, refl, some, suc, sym, take, ℕ, ◌++◌, ◌+◌, ◌==◌, ◌∷◌, ◌≡◌,
}
use bugfree_go_sdk.Build.{BuildInfo, cut_prefix, package_of, repository_path}

pub cut_prefix-append : (p s : Text) → cut_prefix (p ++ s) p ≡ some s
unfolding cut_prefix
cut_prefix-append [] [] = refl
cut_prefix-append [] (c ∷ s) = refl
cut_prefix-append (x ∷ p) s = ground (arith, cut_prefix-append p s)

-- CutPrefix answers exactly when the text is the prefix with something behind it.
pub cut_prefix_sound : (s p r : Text) → cut_prefix s p ≡ some r → s ≡ p ++ r
unfolding cut_prefix
cut_prefix_sound s [] r h = cc
cut_prefix_sound [] (p ∷ ps) r h = cc
cut_prefix_sound (c ∷ s) (p ∷ ps) r h = ground (arith, cut_prefix_sound s ps r)

-- A byte does not occur in a text.
abbrev pub Lacks : ℕ → Text → Type 0
Lacks b = All (λ c. (c == b) ≡ false)

index-Lacks : (c : ℕ) (s t : Text) → Lacks c s → index (s ++ c ∷ t) c ≡ some (length s)
unfolding index
index-Lacks c [] t h = ground arith
index-Lacks c (x ∷ s) t h = rw (h.0, index-Lacks c s t h.1)

last_index-Lacks : (c : ℕ) (t : Text) → Lacks c t → last_index t c ≡ none
unfolding last_index
last_index-Lacks c [] h = refl
last_index-Lacks c (x ∷ t) h = rw (last_index-Lacks c t h.1, h.0)

last_index-append : (c : ℕ) (s t : Text) → Lacks c t → last_index (s ++ c ∷ t) c ≡ some (length s)
unfolding last_index
last_index-append c [] t h = rw (last_index-Lacks c t h) (ground arith)
last_index-append c (x ∷ s) t h = rw (last_index-append c s t h)

drop-length : (s t : Text) → drop (length s) (s ++ t) ≡ t
drop-length [] t = refl
drop-length (x ∷ s) t = drop-length s t

take-length : (s t : Text) → take (length s) (s ++ t) ≡ s
take-length [] t = refl
take-length (x ∷ s) t = ap (λ l. x ∷ l) (take-length s t)

take-length-append : (s t u : Text) → take (length s + length t) (s ++ (t ++ u)) ≡ s ++ t
take-length-append [] t u = rw zero-add (take-length t u)
take-length-append (x ∷ s) t u =
    let e : suc (length s) + length t ≡ suc (length s + length t) = omega arith in
    rw e (ap (λ (l : Text). x ∷ l) (take-length-append s t u))

Lacks-rest :
    (element name : Text)
    → Lacks b'/' element
    → Lacks b'/' name
    → Lacks b'/' (element ++ b'.' ∷ name)
Lacks-rest element name h k = All-append (λ c. (c == b'/') ≡ false) element _ h (refl, k)

is_empty-append : (s t : Text) → is_empty s ≡ false → is_empty (s ++ t) ≡ false
unfolding is_empty
is_empty-append [] t h = cc
is_empty-append (x ∷ s) t h = refl

-- For a function of a package below a directory, such as "github.com/acme/pay/handler.(*P).Charge",
-- packageOf is the package path: the directory and the last element, up to the first dot behind
-- the last slash.
pub package_of-qualified :
    (dir element name : Text)
    → Lacks b'/' element
    → Lacks b'/' name
    → Lacks b'.' element
    → package_of ((dir ++ b'/' ∷ []) ++ (element ++ b'.' ∷ name)) ≡ (dir ++ b'/' ∷ []) ++ element
unfolding package_of
package_of-qualified dir element name s₁ s₂ d =
    let rest = element ++ b'.' ∷ name in
    let whole = (dir ++ b'/' ∷ []) ++ rest in
    let split : whole ≡ dir ++ b'/' ∷ rest = append_assoc dir (b'/' ∷ []) rest in
    let slash : last_index whole b'/' ≡ some (length dir) =
      rw split (last_index-append b'/' dir rest (Lacks-rest element name s₁ s₂)) in
    let start : suc (length dir) ≡ length (dir ++ b'/' ∷ []) =
      omega (arith, length-append dir (b'/' ∷ [])) in
    rw (slash, start, drop-length (dir ++ b'/' ∷ []) rest, index-Lacks b'.' element name d)
      (take-length-append (dir ++ b'/' ∷ []) element (b'.' ∷ name))

-- So it is for a function of the main module's root or of a program with no directory.
pub package_of-plain :
    (element name : Text)
    → Lacks b'/' element
    → Lacks b'/' name
    → Lacks b'.' element
    → package_of (element ++ b'.' ∷ name) ≡ element
unfolding package_of
package_of-plain element name s₁ s₂ d =
    rw
      (
        last_index-Lacks b'/' (element ++ b'.' ∷ name) (Lacks-rest element name s₁ s₂),
        index-Lacks b'.' element name d,
      )
      (rw zero-add (take-length element (b'.' ∷ name)))

-- A -trimpath build names its files by the module path first: the repository path is what follows
-- it, whatever the function's name.
pub repository_path-trimpath :
    (b : BuildInfo) (function relative : Text)
    → is_empty b.module_path ≡ false
    → repository_path b function (b.module_path ++ (codes "/" ++ relative)) ≡ relative
unfolding repository_path
repository_path-trimpath b function relative h =
    let m = b.module_path in
    let file = m ++ (codes "/" ++ relative) in
    let split : file ≡ (m ++ codes "/") ++ relative = sym (append_assoc m (codes "/") relative) in
    rw (
      h,
      is_empty-append m (codes "/" ++ relative) h,
      split,
      cut_prefix-append (m ++ codes "/") relative,
    )
