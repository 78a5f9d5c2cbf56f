-- ===== src/Errors/Tests.antt =====
-- Runs on a wrapped error and on a joined one.
use bugfree_go_sdk.Base.{[], codes, drop, take, ◌≡◌}
use bugfree_go_sdk.Errors.{
  Err, error_chain, join, leaf, max_chain_length, member, nil_member, none_left, walk_errors, wrap,
}
use bugfree_go_sdk.Errors.Chain.{error_chain-take, links}

abbrev root_cause : Err
root_cause = leaf (codes "*fs.PathError") (codes "not found") []

abbrev joined : Err
joined = join (codes "*errors.joinError") (codes "both") [] (
    member (wrap (codes "*fmt.wrapError") (codes "open: not found") [] root_cause)
      (nil_member (member root_cause none_left)))

error_chain-take_example :
    error_chain joined ≡ take max_chain_length (drop 1 (links (walk_errors joined)))
error_chain-take_example = error_chain-take joined
