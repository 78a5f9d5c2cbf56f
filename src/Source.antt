-- ===== src/Source.antt =====
-- source-context.go: the source lines around a frame. A file system is a parameter: what it gives
-- for a path is nothing, or the lines of the file with whether the scan ended in an error. The
-- roots are listed in the order in which a loop over the Go map meets them; nothing proved here
-- depends on which order that is.
mod Tests
pub mod Window
pub mod Cache
use bugfree_go_sdk.Base.{
  Bool, List, Map, Option, Text, [], codes, drop, get_elem?, has_prefix, if◌then◌else◌, insert,
  is_empty, length, lookup, ltb, max, min, negsuc, none, not, or_else, pos, some, suc, take,
  text_eq, zero, ℕ, ℤ, ◌&&◌, ◌++◌, ◌+◌, ◌-◌, ◌==◌, ◌||◌, ◌∷◌,
}
use bugfree_go_sdk.Frames.{ContextLine, Frame}

abbrev pub FileSystem : Type 0
FileSystem = Text → Option (List Text × Bool)

-- type sourceReader struct; a cached `none` is a file that could not be read.
pub record SourceReader : Type 0 where
  pub roots : List (Text × Text)
  pub cache : Map (Option (List Text))

-- newSourceReader
abbrev pub new_source_reader : List (Text × Text) → SourceReader
new_source_reader roots = record { roots = roots; cache = [] }

-- maxSourceLines
abbrev pub max_source_lines : ℕ
max_source_lines = 20000

-- scanLines
unfoldable pub scan_lines : List Text → Bool → Option (List Text)
scan_lines lines failed =
    let kept = take max_source_lines lines in
    if failed && (length kept == 0) then none else some kept

abbrev pub scanned : Option (List Text × Bool) → Option (List Text)
scanned none = none
scanned (some (lines, failed)) = scan_lines lines failed

abbrev pub without_slash : Text → Text
without_slash [] = []
without_slash (c ∷ s) = if c == b'/' then s else c ∷ s

-- readFrom, with readFS and os.Open; `fsys` is none for a nil SourceFS.
unfoldable pub read_from : Option FileSystem → FileSystem → Text → Option (List Text)
unfolding scan_lines
read_from none os path = scanned (os path)
read_from (some fsys) os path = or_else (scanned (fsys (without_slash path))) (scanned (os path))

-- strings.TrimSuffix(root, "/")
unfoldable pub without_last_slash : Text → Text
without_last_slash [] = []
without_last_slash (c ∷ []) = if c == b'/' then [] else c ∷ []
without_last_slash (c ∷ d ∷ s) = c ∷ without_last_slash (d ∷ s)

-- The first loop of candidates: the explicit mapping.
unfoldable pub mapped : Text → List (Text × Text) → List Text
mapped file [] = []
mapped file ((prefix, root) ∷ rest) =
    if not (is_empty prefix) && has_prefix file prefix
    then (without_last_slash root ++ (codes "/" ++ drop (length prefix) file)) ∷ mapped file rest
    else mapped file rest

-- The other loops: a path under each root.
unfoldable pub under_roots : Text → List (Text × Text) → List Text
under_roots path [] = []
under_roots path ((prefix, root) ∷ rest) =
    (without_last_slash root ++ (codes "/" ++ path)) ∷ under_roots path rest

-- candidates
unfoldable pub candidates : SourceReader → Text → Text → List Text
unfolding mapped under_roots without_last_slash
candidates r file repo_path =
    mapped file r.roots
    ++ (file
        ∷ (under_roots (without_slash file) r.roots
            ++ (if not (is_empty repo_path) && not (text_eq repo_path file)
                then repo_path ∷ under_roots repo_path r.roots
                else [])))

-- The loop of read.
unfoldable pub first_readable : (Text → Option (List Text)) → List Text → Option (List Text)
first_readable read [] = none
first_readable read (path ∷ rest) = or_else (read path) (first_readable read rest)

module _ (fsys : Option FileSystem) (os : FileSystem) where
  -- read
  unfoldable pub read : SourceReader → Text → Text → Option (List Text)
  unfolding first_readable candidates read_from
  read r file repo_path = first_readable (read_from fsys os) (candidates r file repo_path)

  -- lines, on what the cache holds for the file.
  unfoldable pub from_cache :
      SourceReader → Text → Text → Option (Option (List Text)) → SourceReader × Option (List Text)
  unfolding read
  from_cache r file repo_path (some cached) = (r, cached)
  from_cache r file repo_path none =
      let found = read r file repo_path in (record r { cache = insert file found r.cache }, found)

  -- lines
  unfoldable pub lines : SourceReader → Text → Text → SourceReader × Option (List Text)
  unfolding from_cache
  lines r file repo_path =
      if is_empty file then (r, none) else from_cache r file repo_path (lookup file r.cache)

-- strings.TrimRight(line, "\r")
unfoldable pub trim_cr : Text → Text
trim_cr [] = []
trim_cr (c ∷ s) = elim (trim_cr s) [ [] ↦ if c == 13 then [] else c ∷ [] | d ∷ t ↦ c ∷ d ∷ t ]

abbrev pub numbered : ℕ → Option Text → List ContextLine → List ContextLine
numbered number none rest = []
numbered number (some line) rest = record { line = number; source = trim_cr line } ∷ rest

-- The loop of sliceContext: `left` lines from a number on.
unfoldable pub number_lines : List Text → ℕ → ℕ → List ContextLine
unfolding trim_cr
number_lines source number zero = []
number_lines source number (suc left) =
    numbered number (get_elem? source (number - 1)) (number_lines source (suc number) left)

-- sliceContext
unfoldable pub slice_context : List Text → ℕ → ℕ → List ContextLine
unfolding number_lines
slice_context source line around =
    if (line == 0) || ltb (length source) line
    then []
    else let start = max (line - around) 1 in
      let end = min (line + around) (length source) in number_lines source start (end + 1 - start)

abbrev pub put_context : Frame → Option (List Text) → ℕ → Frame
put_context frame none around = frame
put_context frame (some source) around = record frame {
  context = slice_context source frame.line around;
}

-- The loop of addContext.
unfoldable pub add_lines :
    Option FileSystem → FileSystem → SourceReader → List Frame → ℕ → SourceReader × List Frame
unfolding lines slice_context
add_lines fsys os r [] around = (r, [])
add_lines fsys os r (frame ∷ rest) around =
    let (r', source) = lines fsys os r frame.file frame.path in
    let (r'', frames) = add_lines fsys os r' rest around in
    (r'', put_context frame source around ∷ frames)

-- addContext
unfoldable pub add_context :
    Option FileSystem → FileSystem → SourceReader → List Frame → ℤ → SourceReader × List Frame
unfolding add_lines
add_context fsys os r frames (negsuc n) = (r, frames)
add_context fsys os r frames (pos zero) = (r, frames)
add_context fsys os r frames (pos (suc n)) = add_lines fsys os r frames (suc n)
