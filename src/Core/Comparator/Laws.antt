-- ===== src/Core/Comparator/Laws.antt =====
-- The capabilities' Equal is a partial equivalence: symmetric and transitive, and reflexive on the
-- capabilities that are not zero.
use opni_monitoring.Prelude.{
  Str, str_eq, str_eq_iff, Bool, true, not, ◌&&◌, Option, none, some, [], is_empty, ◌≡◌, refl,
  arith, ◌∷◌,
}
use opni_monitoring.Core.Types.{Reference, TokenCapability, ClusterCapability}
use opni_monitoring.Core.Comparator.{
  equal_nonzero_operator, reference_equal, equal_nonzero_func, token_capability_equal,
  cluster_capability_equal,
}

pub record IsPartialEquivalence {ℓ} {A : Type ℓ} (equal : A → A → Bool) : Type ℓ where
  pub symmetric : (a b : A) → equal a b ≡ true → equal b a ≡ true
  pub transitive : (a b c : A) → equal a b ≡ true → equal b c ≡ true → equal a c ≡ true

operator_symmetric :
    (a b : Str) → equal_nonzero_operator a b ≡ true → equal_nonzero_operator b a ≡ true
unfolding equal_nonzero_operator
operator_symmetric a b h = ground (arith, str_eq_iff a b, str_eq_iff b a)

operator_transitive :
    (a b c : Str)
    → equal_nonzero_operator a b ≡ true
    → equal_nonzero_operator b c ≡ true
    → equal_nonzero_operator a c ≡ true
unfolding equal_nonzero_operator
operator_transitive a b c h k = ground (arith, str_eq_iff a b, str_eq_iff b c, str_eq_iff a c)

reference_symmetric :
    (a b : Option Reference) → equal_nonzero_func a b ≡ true → equal_nonzero_func b a ≡ true
unfolding equal_nonzero_func reference_equal
reference_symmetric none b h = cc
reference_symmetric (some a) none h = cc
reference_symmetric (some a) (some b) h = operator_symmetric a.id b.id h

reference_transitive :
    (a b c : Option Reference)
    → equal_nonzero_func a b ≡ true
    → equal_nonzero_func b c ≡ true
    → equal_nonzero_func a c ≡ true
unfolding equal_nonzero_func reference_equal
reference_transitive none b c h k = cc
reference_transitive (some a) none c h k = cc
reference_transitive (some a) (some b) none h k = cc
reference_transitive (some a) (some b) (some c) h k = operator_transitive a.id b.id c.id h k

pub cluster_capability_equal-IsPartialEquivalence : IsPartialEquivalence cluster_capability_equal
unfolding cluster_capability_equal
cluster_capability_equal-IsPartialEquivalence = record {
  symmetric = λ a b h. operator_symmetric a.name b.name h;
  transitive = λ a b c h k. operator_transitive a.name b.name c.name h k;
}

token_symmetric :
    (a b : TokenCapability) → token_capability_equal a b ≡ true → token_capability_equal b a ≡ true
unfolding token_capability_equal
token_symmetric a b h =
    ground (arith, operator_symmetric a.kind b.kind, reference_symmetric a.reference b.reference)

token_transitive :
    (a b c : TokenCapability)
    → token_capability_equal a b ≡ true
    → token_capability_equal b c ≡ true
    → token_capability_equal a c ≡ true
unfolding token_capability_equal
token_transitive a b c h k = ground (
  arith,
  operator_transitive a.kind b.kind c.kind,
  reference_transitive a.reference b.reference c.reference,
)

pub token_capability_equal-IsPartialEquivalence : IsPartialEquivalence token_capability_equal
token_capability_equal-IsPartialEquivalence = record {
  symmetric = token_symmetric;
  transitive = token_transitive;
}

-- Two cluster capabilities are equal exactly when they have the same name and it is not empty.
pub cluster_capability_equal_lem :
    (a b : ClusterCapability)
    → cluster_capability_equal a b ≡ (not (is_empty a.name) && str_eq a.name b.name)
unfolding cluster_capability_equal equal_nonzero_operator
cluster_capability_equal_lem a b = at a.name b.name
  where
    at : (a b : Str) → equal_nonzero_operator a b ≡ (not (is_empty a) && str_eq a b)
    at [] b = unfold str_eq in refl
    at (x ∷ a) [] = unfold str_eq in refl
    at (x ∷ a) (y ∷ b) = unfold str_eq in refl
