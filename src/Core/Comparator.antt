-- ===== src/Core/Comparator.antt =====
-- pkg/core/comparator.go: equality under which a zero value equals nothing.
pub mod Laws
use opni_monitoring.Prelude.{
  Str, str_eq, str_eq_iff, str_eq_comm, Bool, true, false, ◌&&◌, ◌||◌, not, Option, none, some, ◌≡◌,
  ◌≢◌, [], if◌then◌else◌, is_empty, arith, ◌↔◌,
}
use opni_monitoring.Core.Types.{Reference, TokenCapability, ClusterCapability}

-- equalNonzeroOperator at strings
unfoldable pub equal_nonzero_operator : Str → Str → Bool
equal_nonzero_operator a b = if str_eq a [] || str_eq b [] then false else str_eq a b

-- (*Reference).Equal; a nil receiver equals only nil.
unfoldable pub reference_equal : Option Reference → Option Reference → Bool
unfolding equal_nonzero_operator
reference_equal none none = true
reference_equal none (some b) = false
reference_equal (some a) none = false
reference_equal (some a) (some b) = equal_nonzero_operator a.id b.id

-- equalNonzeroFunc at *Reference, whose zero is nil
unfoldable pub equal_nonzero_func : Option Reference → Option Reference → Bool
unfolding reference_equal
equal_nonzero_func a b =
    if reference_equal a none || reference_equal b none then false else reference_equal a b

unfoldable pub token_capability_equal : TokenCapability → TokenCapability → Bool
unfolding equal_nonzero_func
token_capability_equal c d =
    equal_nonzero_operator c.kind d.kind && equal_nonzero_func c.reference d.reference

unfoldable pub cluster_capability_equal : ClusterCapability → ClusterCapability → Bool
unfolding equal_nonzero_operator
cluster_capability_equal c d = equal_nonzero_operator c.name d.name
