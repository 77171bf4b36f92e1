-- ===== src/Management/Watch/Keys.antt =====
-- The keys of the known clusters under the two loops of a tick.
use opni_monitoring.Prelude.{
  Str, str_eq, str_eq_refl, str_eq_iff, str_eq_sound, Assoc, has_key, lookup, insert, remove,
  lookup-insert, lookup-remove, Bool, true, false, not, ◌&&◌, ◌||◌, List, [], ◌∷◌, all, Result, ok,
  err, Error, ◌≡◌, refl, arith, Bool-cases, inl, inr,
}
use mathlib.Core.Path.{subst}
use opni_monitoring.Core.Types.{Reference, Cluster}
use opni_monitoring.Management.Watch.{is_listed}

-- Every cluster is known by its id.
abbrev pub is_keyed : Assoc Reference → Bool
is_keyed m = all (λ (k, ref). str_eq k ref.id) m

pub keyed-insert :
    (ref : Reference) (m : Assoc Reference)
    → is_keyed m ≡ true
    → is_keyed (insert ref.id ref m) ≡ true
unfolding insert
keyed-insert ref [] h = ground (arith, str_eq_refl ref.id)
keyed-insert ref ((k, r) ∷ m) h = ground (arith, str_eq_refl ref.id, keyed-insert ref m)

pub keyed-remove :
    (id : Str) (m : Assoc Reference) → is_keyed m ≡ true → is_keyed (remove id m) ≡ true
unfolding remove
keyed-remove id [] h = refl
keyed-remove id ((k, r) ∷ m) h = ground (arith, keyed-remove id m)

pub has_key-insert :
    (k j : Str) (v : Reference) (m : Assoc Reference)
    → has_key j (insert k v m) ≡ (str_eq k j || has_key j m)
has_key-insert k j v m = ground (arith, lookup-insert k j v m)

pub has_key-remove :
    (k j : Str) (m : Assoc Reference) → has_key j (remove k m) ≡ (not (str_eq k j) && has_key j m)
has_key-remove k j m = ground (arith, lookup-remove k j m)

pub has_key_already :
    (k j : Str) (m : Assoc Reference)
    → has_key k m ≡ true
    → has_key j m ≡ (str_eq k j || has_key j m)
has_key_already k j m h = ground (arith, str_eq_iff k j)

pub err_apart : {e : Error} → ◌≡◌ {A = Result (Unit {0})} (err e) (ok tt) → ⊥
err_apart e = cc

pub none_dropped : (k l : Bool) → k ≡ (k && (l || true))
none_dropped k l = ground arith

pub or_swap : (l a b : Bool) {x : Bool} → x ≡ (a || b) → (l || x) ≡ ((a || l) || b)
or_swap l a b e = ground arith

pub kept_key :
    (id j : Str) (cs : List Cluster) (m : Assoc Reference)
    → is_listed id cs ≡ true
    → has_key j m ≡ (has_key j m && (is_listed j cs || not (str_eq id j)))
kept_key id j cs m h = elim (Bool-cases (str_eq id j)) [
  | inl same ↦ ground (arith, subst (λ k. is_listed k cs ≡ true) (str_eq_sound id j same) h)
  | inr differ ↦ ground arith
]

pub gone_key :
    (id j : Str) (cs : List Cluster) (m : Assoc Reference)
    → is_listed id cs ≡ false
    → (not (str_eq id j) && has_key j m) ≡ (has_key j m && (is_listed j cs || not (str_eq id j)))
gone_key id j cs m h = elim (Bool-cases (str_eq id j)) [
  | inl same ↦ ground (arith, subst (λ k. is_listed k cs ≡ false) (str_eq_sound id j same) h)
  | inr differ ↦ ground arith
]

pub drop_both :
    (id j : Str) (ref : Reference) (cs : List Cluster) (es : Assoc Reference) (k : Bool) {x : Bool}
    → x ≡ (k && (is_listed j cs || not (str_eq id j)))
    → (x && (is_listed j cs || not (has_key j es)))
      ≡ (k && (is_listed j cs || not (has_key j ((id, ref) ∷ es))))
unfolding lookup
drop_both id j ref cs es k h = elim (Bool-cases (str_eq id j)) [
  | inl same ↦ ground (arith, h)
  | inr differ ↦ ground (arith, h)
]

pub settled : (x l k : Bool) → x ≡ (l || k) → (x && (l || not x)) ≡ l
settled x l k e = ground arith
