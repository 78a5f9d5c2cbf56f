-- ===== src/Source/Tests.antt =====
-- Runs on a file of three lines.
use bugfree_go_sdk.Base.{List, Text, [], codes, is_empty, lookup, none, refl, some, true, ◌∷◌, ◌≡◌}
use bugfree_go_sdk.Source.{FileSystem, lines, new_source_reader, slice_context, trim_cr}

abbrev three_lines : List Text
three_lines = codes "package main" ∷ [] ∷ codes "func main() {}" ∷ []

abbrev disk : FileSystem
disk path = some (three_lines, true)

second_lines : slice_context three_lines 2 0 ≡ record { line = 2; source = [] } ∷ []
unfolding slice_context trim_cr
second_lines = refl

read_from_disk : (lines none disk (new_source_reader []) (codes "main.go") []).1 ≡ some three_lines
unfolding lines is_empty lookup
read_from_disk = refl
