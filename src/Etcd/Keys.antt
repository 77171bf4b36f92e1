-- ===== src/Etcd/Keys.antt =====
-- The keys that the stores write under: one for each accepted id, below the key of its kind.
use opni_monitoring.Prelude.{
  Str, str_eq, true, false, ok, [], ◌∷◌, ◌++◌, ◌≡◌, ◌≢◌, refl, sym, ◌∙◌, arith, str_eq_iff,
}
use opni_monitoring.GoLib.Path.{is_plain, join_plain}
use opni_monitoring.GoLib.Text.{has_prefix}
use opni_monitoring.Validation.{validate_id}
use opni_monitoring.Validation.Laws.{validate_id-is_plain}
use opni_monitoring.Etcd.Client.{object_key, kind_key}

append_cancel : (b : Str) {s t : Str} → b ++ s ≡ b ++ t → s ≡ t
append_cancel [] h = h
append_cancel (x ∷ b) h = append_cancel b (cc)

has_prefix-append : (s t : Str) → has_prefix (s ++ t) s ≡ true
unfolding has_prefix
has_prefix-append [] [] = refl
has_prefix-append [] (x ∷ t) = refl
has_prefix-append (x ∷ s) t = ground (arith, has_prefix-append s t)

-- The key of an accepted id is the key of its kind, a slash and the id, whatever the prefix.
pub object_key_lem :
    (prefix kind id : Str)
    → is_plain kind ≡ true
    → validate_id id ≡ ok tt
    → object_key prefix kind id ≡ kind_key prefix kind ++ (b'/' ∷ id)
unfolding object_key kind_key
object_key_lem prefix kind id hk hi = join_plain prefix kind id hk (validate_id-is_plain id hi)

-- Within a kind, two accepted ids have the same key only if they are the same id, and each key
-- lies under the prefix by which the objects of the kind are listed.
pub object_key_injective :
    (prefix kind a b : Str)
    → is_plain kind ≡ true
    → validate_id a ≡ ok tt
    → validate_id b ≡ ok tt
    → object_key prefix kind a ≡ object_key prefix kind b
    → (a ≡ b) × (has_prefix (object_key prefix kind a) (kind_key prefix kind) ≡ true)
object_key_injective prefix kind a b hk ha hb e = (
  tail_eq (
      append_cancel (kind_key prefix kind)
        (sym (object_key_lem prefix kind a hk ha) ∙ e ∙ object_key_lem prefix kind b hk hb)),
  rw (object_key_lem prefix kind a hk ha) (has_prefix-append (kind_key prefix kind) (b'/' ∷ a)),
)
  where
    tail_eq : {s t : Str} → b'/' ∷ s ≡ b'/' ∷ t → s ≡ t
    tail_eq h = cc

pub object_key_ne :
    (prefix kind a b : Str)
    → is_plain kind ≡ true
    → validate_id a ≡ ok tt
    → validate_id b ≡ ok tt
    → a ≢ b
    → str_eq (object_key prefix kind a) (object_key prefix kind b) ≡ false
object_key_ne prefix kind a b hk ha hb ne = ground (
  arith,
  str_eq_iff (object_key prefix kind a) (object_key prefix kind b),
  (λ (e : object_key prefix kind a ≡ object_key prefix kind b).
      (object_key_injective prefix kind a b hk ha hb e).0),
)
