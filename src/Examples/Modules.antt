-- ===== src/Examples/Modules.antt =====
-- A query of the package pages, the pool of responses and a ring of samples.
use miniweb.Prelude.{ℕ, ◌≡◌, ◌<◌, ◌++◌, true, false, some, List, [], ◌∷◌, arith, codes}
use miniweb.Modules.Packages.{get_query_value}
use miniweb.Modules.Packages.Query.{
  Entries, written, first_value, then_decode, get_query_value-first,
}
use miniweb.Http.ResponsePool.{
  Handle, shard_size, response_pool_shard_index, http_response_pool_acquire,
  http_response_pool_release,
}
use miniweb.Http.ResponsePool.Leases.{Op, acquires, run, leases_exclusive}

abbrev query : Entries
query = (codes "a", codes "1") ∷ (codes "q", codes "vi+m") ∷ []

get_query_value-first_example :
    get_query_value (some (codes "/s" ++ b'?' ∷ written query)) (codes "q") 256
    ≡ then_decode 256 (first_value (codes "q") query)
get_query_value-first_example =
    get_query_value-first (codes "/s") query (codes "q") 256 (ground arith, (ground arith, tt))
      (
        ((ground arith, tt), (ground arith, tt), (ground arith, tt)),
        (
          (
            (ground arith, tt),
            (ground arith, tt),
            (ground arith, (ground arith, (ground arith, (ground arith, tt)))),
          ),
          tt,
        ),
      )
      (omega arith)

abbrev uses : List Op
uses = acquires 5 ∷ acquires 21 ∷ []

leases_exclusive_example :
    let t = run uses in
    ((hash i : ℕ)
      → (http_response_pool_acquire (response_pool_shard_index hash) t.pools).0 ≡ some i
      → (t.out (response_pool_shard_index hash) i ≡ false) × (i < shard_size))
    × ((h : Handle)
        → t.out h.shard h.item ≡ true
        → (http_response_pool_release (some h) t.pools).0 ≡ true)
leases_exclusive_example = leases_exclusive uses
