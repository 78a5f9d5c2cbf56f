-- ===== src/Source/Cache.antt =====
-- source-context.go, lines: the cache of the files read.
use bugfree_go_sdk.Base.{
  Bool-cases, List, Option, Text, ap, inl, inr, is_empty, lookup, lookup-insert_self, none, refl,
  some, ◌≡◌,
}
use bugfree_go_sdk.Source.{FileSystem, SourceReader, from_cache, lines}

-- source-context.go: the cache of the source reader.

module _ (fsys fsys' : Option FileSystem) (os os' : FileSystem) where
  cached_again :
      (r : SourceReader) (file path path' : Text) (held : Option (Option (List Text)))
      → lookup file r.cache ≡ held
      → (lookup file (from_cache fsys os r file path held).0.cache
          ≡ some (from_cache fsys os r file path held).1)
  unfolding from_cache
  cached_again r file path path' none e = lookup-insert_self file _ r.cache
  cached_again r file path path' (some found) e = e

  -- A file is read at most once: when its lines are asked for again, through whatever path and
  -- whatever has become of the files, the answer is the first one, a failure included, and the
  -- cache stays as it is.
  pub lines_once :
      (r : SourceReader) (file path path' : Text)
      → lines fsys' os' (lines fsys os r file path).0 file path' ≡ lines fsys os r file path
  unfolding lines
  lines_once r file path path' = elim (Bool-cases (is_empty file)) [
    | inl nothing ↦ rw nothing refl
    | inr named ↦
        let first = from_cache fsys os r file path (lookup file r.cache) in
        let again = cached_again r file path path' (lookup file r.cache) refl in
        rw named (ap (from_cache fsys' os' first.0 file path') again)
  ]
