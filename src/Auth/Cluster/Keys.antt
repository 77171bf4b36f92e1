-- ===== src/Auth/Cluster/Keys.antt =====
-- The loop over the shared keys of a keyring, and the key by which a digest verifies.
use mathlib.Core.List.{Memᴰ}
use opni_monitoring.Prelude.{
  Str, Option, none, some, Bool, true, false, List, [], ◌∷◌, any, is_empty, is_ok, Result, ok, err,
  ◌≡◌, ◌⊎◌, inl, inr, refl, ◌∙◌, ap, arith, Bool-cases,
}
use opni_monitoring.Keyring.{Keyring, SharedKeys, use_shared, try, call_each}
use opni_monitoring.B2mac.{Blake2b, Fields, verify}
use opni_monitoring.Auth.Cluster.{pass, try_key, judge}

module _ (b : Blake2b) (f : Fields) (payload : Str) where
  -- The request's digest is the one that the client's key gives.
  abbrev pub verifies : SharedKeys → Bool
  verifies keys = is_ok (verify b f.mac f.id f.nonce payload keys.client_key)

  -- A key of the list under which the digest verifies.
  pub record Verifying (ks : List SharedKeys) (keys : SharedKeys) : Type 0 where
    pub shared : Memᴰ keys ks
    pub digest : verifies keys ≡ true

  later : {k keys : SharedKeys} {ks : List SharedKeys} → Verifying ks keys → Verifying (k ∷ ks) keys
  later v = record { shared = Memᴰ.tail v.shared; digest = v.digest }

  first_or_old :
      (k keys : SharedKeys) (ks : List SharedKeys) (last : Option SharedKeys)
      → try_key b f payload k last ≡ some keys
      → (last ≡ some keys) ⊎ Verifying (k ∷ ks) keys
  unfolding try_key
  first_or_old k keys ks last h = elim (Bool-cases (verifies k)) [
    | inl hit ↦ inr (taken hit (ground (arith, h)))
    | inr miss ↦ inl (ground arith)
  ]
    where
      taken : verifies k ≡ true → keys ≡ k → Verifying (k ∷ ks) keys
      taken hit e = record { shared = Memᴰ.head e; digest = ap verifies e ∙ hit }

  pub call_each-Verifying :
      (ks : List SharedKeys) (last : Option SharedKeys) (keys : SharedKeys)
      → call_each (try_key b f payload) ks last ≡ some keys
      → (last ≡ some keys) ⊎ Verifying ks keys
  unfolding call_each
  call_each-Verifying [] last keys h = inl h
  call_each-Verifying (k ∷ ks) last keys h =
      elim (call_each-Verifying ks (try_key b f payload k last) keys h) [
        | inl now ↦ first_or_old k keys ks last now
        | inr v ↦ inr (later v)
      ]

  call_each_keeps :
      (ks : List SharedKeys) (old : SharedKeys)
      → (keys : SharedKeys) × (call_each (try_key b f payload) ks (some old) ≡ some keys)
  unfolding call_each try_key
  call_each_keeps [] old = (old, refl)
  call_each_keeps (k ∷ ks) old = elim (Bool-cases (verifies k)) [
    | inl hit ↦ (let (keys, e) = call_each_keeps ks k in (keys, rw hit e))
    | inr miss ↦ (let (keys, e) = call_each_keeps ks old in (keys, rw miss e))
  ]

  call_each_finds :
      (ks : List SharedKeys)
      → any verifies ks ≡ true
      → (keys : SharedKeys) × (call_each (try_key b f payload) ks none ≡ some keys)
  unfolding call_each try_key
  call_each_finds [] h = cc
  call_each_finds (k ∷ ks) h = elim (Bool-cases (verifies k)) [
    | inl hit ↦ (let (keys, e) = call_each_keeps ks k in (keys, rw hit e))
    | inr miss ↦ (let (keys, e) = call_each_finds ks (ground arith) in (keys, rw miss e))
  ]

pub judge_pass :
    (i id : Str) (r : Result (Bool × Option SharedKeys)) (keys : SharedKeys)
    → judge i r ≡ pass id keys
    → (r ≡ ok (true, some keys)) × (i ≡ id)
unfolding judge
judge_pass i id (err e) keys h = cc
judge_pass i id (ok (false, last)) keys h = cc
judge_pass i id (ok (true, none)) keys h = cc
judge_pass i id (ok (true, some k)) keys h = (cc, cc)

pub last_key :
    (b : Blake2b) (f : Fields) (payload : Str) (kr : Keyring) (found : Bool)
    (last : Option SharedKeys)
    → try (use_shared (try_key b f payload) ∷ []) kr none ≡ ok (found, last)
    → call_each (try_key b f payload) kr.shared_keys none ≡ last
unfolding try
last_key b f payload kr found last h = cc

some_verifies : {A : Type 0} (p : A → Bool) (xs : List A) → any p xs ≡ true → is_empty xs ≡ false
some_verifies p [] h = cc
some_verifies p (x ∷ xs) h = refl

pub run_try :
    (b : Blake2b) (f : Fields) (payload : Str) (kr : Keyring)
    → any (verifies b f payload) kr.shared_keys ≡ true
    → (keys : SharedKeys) × (try (use_shared (try_key b f payload) ∷ []) kr none
        ≡ ok (true, some keys))
unfolding try
run_try b f payload kr found =
    let (keys, e) = call_each_finds b f payload kr.shared_keys found in
    (keys, rw (some_verifies (verifies b f payload) kr.shared_keys found, e) refl)

pub none_apart : (keys : SharedKeys) → ◌≡◌ {A = Option SharedKeys} none (some keys) → ⊥
none_apart keys h = cc
