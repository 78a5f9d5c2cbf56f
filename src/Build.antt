-- ===== src/Build.antt =====
-- build-info.go: what the Go toolchain recorded about the build, and what follows from it.
pub mod Paths
use bugfree_go_sdk.Base.{
  Bool, List, Option, Text, [], codes, drop, false, has_prefix, if◌then◌else◌, index, is_empty,
  last_index, length, ltb, none, some, suc, take, text_eq, ℕ, ◌++◌, ◌+◌, ◌==◌, ◌||◌, ◌∷◌,
}

-- type buildInfo struct
pub record BuildInfo : Type 0 where
  pub module_path : Text
  pub revision : Text
  pub time : Text
  pub modified : Bool
  pub go_version : Text

abbrev pub no_info : BuildInfo
no_info = record { module_path = []; revision = []; time = []; modified = false; go_version = [] }

-- for _, setting := range info.Settings { switch setting.Key … }
unfoldable pub apply_setting : BuildInfo → Text × Text → BuildInfo
apply_setting b (key, setting) =
    if text_eq key (codes "vcs.revision")
    then record b { revision = setting }
    else if text_eq key (codes "vcs.time")
    then record b { time = setting }
    else if text_eq key (codes "vcs.modified")
    then record b { modified = text_eq setting (codes "true") }
    else b

unfoldable pub apply_settings : BuildInfo → List (Text × Text) → BuildInfo
unfolding apply_setting
apply_settings b [] = b
apply_settings b (setting ∷ rest) = apply_settings (apply_setting b setting) rest

-- readBuildInfo, on what debug.ReadBuildInfo answered: the main module's path, the Go version and
-- the settings, or nothing.
unfoldable pub read_build_info : Option (Text × Text × List (Text × Text)) → BuildInfo
unfolding apply_settings
read_build_info none = no_info
read_build_info (some (main, version, settings)) =
    let path = if text_eq main (codes "command-line-arguments") then [] else main in
    apply_settings (record no_info { module_path = path; go_version = version }) settings

-- shortRevision
unfoldable pub short_revision : BuildInfo → Text
short_revision b = if ltb 12 (length b.revision) then take 12 b.revision else b.revision

-- release
unfoldable pub release : BuildInfo → Text
unfolding short_revision
release b =
    if is_empty b.revision
    then []
    else let name =
        if is_empty b.module_path
        then short_revision b
        else b.module_path ++ (codes "@" ++ short_revision b) in
      if b.modified then name ++ codes "-dirty" else name

-- ownsFunction
unfoldable pub owns_function : BuildInfo → Text → Bool
owns_function b function =
    if is_empty b.module_path
    then false
    else has_prefix function (b.module_path ++ codes ".")
      || (has_prefix function (b.module_path ++ codes "/") || has_prefix function (codes "main."))

-- strings.CutPrefix(s, prefix); `none` is false.
unfoldable pub cut_prefix : Text → Text → Option Text
cut_prefix s [] = some s
cut_prefix [] (p ∷ ps) = none
cut_prefix (c ∷ s) (p ∷ ps) = if c == p then cut_prefix s ps else none

abbrev pub behind : Option ℕ → ℕ
behind none = 0
behind (some slash) = suc slash

abbrev pub cut_at : Text → ℕ → Option ℕ → Text
cut_at function start none = function
cut_at function start (some dot) = take (start + dot) function

-- packageOf (stack-trace.go): the path ends at the first "." after the last "/". Of "" it is "".
unfoldable pub package_of : Text → Text
package_of function =
    let start = behind (last_index function b'/') in
    cut_at function start (index (drop start function) b'.')

-- The last element of a path, after its trailing slashes are gone.
unfoldable pub trim_slashes : Text → Text
trim_slashes [] = []
trim_slashes (c ∷ s) = elim (trim_slashes s) [
  | [] ↦ if c == b'/' then [] else c ∷ []
  | d ∷ t ↦ c ∷ d ∷ t
]

-- path.Base
unfoldable pub path_base : Text → Text
unfolding trim_slashes
path_base [] = codes "."
path_base (c ∷ s) = elim (trim_slashes (c ∷ s)) [
  | [] ↦ codes "/"
  | d ∷ t ↦ elim (last_index (d ∷ t) b'/') [ none ↦ d ∷ t | some slash ↦ drop (suc slash) (d ∷ t) ]
]

-- strings.LastIndex(s, sub), as what stands behind the last occurrence.
unfoldable pub after_last : Text → Text → Option Text
unfolding cut_prefix
after_last [] sub = cut_prefix [] sub
after_last (c ∷ s) sub = elim (after_last s sub) [
  | none ↦ cut_prefix (c ∷ s) sub
  | some rest ↦ some rest
]

-- repositoryPath, on a frame's function and file.
unfoldable pub repository_path : BuildInfo → Text → Text → Text
unfolding cut_prefix package_of path_base after_last
repository_path b function file =
    if is_empty b.module_path || is_empty file
    then []
    else elim (cut_prefix file (b.module_path ++ codes "/")) [
      | some relative ↦ relative
      | none ↦
          let name = path_base file in
          let pkg = package_of function in
          if text_eq pkg b.module_path || text_eq pkg (codes "main")
          then elim (after_last file (codes "/" ++ (path_base b.module_path ++ codes "/"))) [
            | some rest ↦ rest
            | none ↦ name
          ]
          else elim (cut_prefix pkg (b.module_path ++ codes "/")) [
            | some dir ↦ dir ++ (codes "/" ++ name)
            | none ↦ []
          ]
    ]
