-- ===== src/Auth/Cluster/Laws.antt =====
-- A request passes the cluster middleware exactly with a digest by a shared key of its cluster.
use opni_monitoring.Prelude.{
  Str, none, some, Bool, true, false, [], ◌∷◌, any, is_empty, if◌then◌else◌, Result, ok, err, ◌≡◌,
  inl, inr, refl, ap,
}
use opni_monitoring.Keyring.{Keyring, SharedKeys, use_shared, try}
use opni_monitoring.B2mac.{Uuid, Blake2b, Fields, decode_auth_header}
use opni_monitoring.Auth.Cluster.{
  Keyrings, Verdict, reply, pass, try_key, judge, with_keyring, with_store, with_header, handle,
}
use opni_monitoring.Auth.Cluster.Keys.{
  none_apart, last_key, judge_pass, run_try, verifies, Verifying, call_each-Verifying,
}

module _ {S : Type 0} (u : Uuid) (b : Blake2b) (keyrings : Keyrings S) where
  open keyrings use {open_keyring, get_keyring}

  keyring_passes :
      (f : Fields) (payload id : Str) (keys : SharedKeys) (p : Result Keyring × S) (s' : S)
      → with_keyring u b keyrings f payload p ≡ (pass id keys, s')
      → (kr : Keyring) × (p.0 ≡ ok kr) × (f.id ≡ id) × Verifying b f payload kr.shared_keys keys
  unfolding with_keyring
  keyring_passes f payload id keys (err e, s) s' h =
      absurd (refused (ap (λ (q : Verdict × S). q.0) h))
    where
      refused : reply 401 ≡ pass id keys → ⊥
      refused e = cc
  keyring_passes f payload id keys (ok kr, s) s' h =
      let (tried, same) = judge_pass f.id id _ keys (ap (λ (q : Verdict × S). q.0) h) in
      (
        kr,
        refl,
        same,
        elim (call_each-Verifying b f payload kr.shared_keys none keys
            (last_key b f payload kr true (some keys) tried)) [
              | inl e ↦ absurd (none_apart keys e)
              | inr v ↦ v
            ],
      )

  store_passes :
      (f : Fields) (payload id : Str) (keys : SharedKeys) (p : Result (Unit {0}) × S) (s' : S)
      → with_store u b keyrings f payload p ≡ (pass id keys, s')
      → (kr : Keyring) × ((get_keyring (record { id = f.id }) p.1).0 ≡ ok kr)
        × (f.id ≡ id)
        × Verifying b f payload kr.shared_keys keys
  unfolding with_store
  store_passes f payload id keys (err e, s) s' h =
      absurd (refused (ap (λ (q : Verdict × S). q.0) h))
    where
      refused : reply 401 ≡ pass id keys → ⊥
      refused e = cc
  store_passes f payload id keys (ok o, s) s' h =
      keyring_passes f payload id keys (get_keyring (record { id = f.id }) s) s' h

  header_passes :
      (payload id : Str) (keys : SharedKeys) (r : Result Fields) (s s' : S)
      → with_header u b keyrings payload r s ≡ (pass id keys, s')
      → (f : Fields) × (r ≡ ok f)
        × (f.id ≡ id)
        × (kr : Keyring) × ((get_keyring
              (record { id = f.id })
              (open_keyring (record { id = f.id }) s).1).0
            ≡ ok kr)
        × Verifying b f payload kr.shared_keys keys
  unfolding with_header
  header_passes payload id keys (err e) s s' h = absurd (refused (ap (λ (q : Verdict × S). q.0) h))
    where
      refused : reply 400 ≡ pass id keys → ⊥
      refused e = cc
  header_passes payload id keys (ok f) s s' h =
      let (kr, got, same, v) =
        store_passes f payload id keys (open_keyring (record { id = f.id }) s) s' h in
      (f, refl, same, kr, got, v)

  past_empty :
      (x : Bool) (m : Verdict × S) (id : Str) (keys : SharedKeys) (s s' : S)
      → (if x then (reply 400, s) else m) ≡ (pass id keys, s')
      → m ≡ (pass id keys, s')
  past_empty true m id keys s s' h = absurd (refused (ap (λ (q : Verdict × S). q.0) h))
    where
      refused : reply 400 ≡ pass id keys → ⊥
      refused e = cc
  past_empty false m id keys s s' h = h

  -- If the middleware passes a request on under an id and with keys, then the Authorization header
  -- decodes to that id, a keyring of that cluster was read, the keys are shared keys of it, and
  -- the digest in the header is the one that their client key gives of the id, the nonce and the
  -- request's body.
  pub handle-Verifying :
      (authorization payload id : Str) (keys : SharedKeys) (s s' : S)
      → handle u b keyrings authorization payload s ≡ (pass id keys, s')
      → (f : Fields) × (decode_auth_header u authorization ≡ ok f)
        × (f.id ≡ id)
        × (kr : Keyring) × ((get_keyring
              (record { id = f.id })
              (open_keyring (record { id = f.id }) s).1).0
            ≡ ok kr)
        × Verifying b f payload kr.shared_keys keys
  unfolding handle
  handle-Verifying authorization payload id keys s s' h =
      header_passes payload id keys (decode_auth_header u authorization) s s'
        (past_empty (is_empty authorization) _ id keys s s' h)

  keyring_goes :
      (f : Fields) (payload : Str) (kr : Keyring) (p : Result Keyring × S)
      → p.0 ≡ ok kr
      → (with_keyring u b keyrings f payload p).0
        ≡ judge f.id (try (use_shared (try_key b f payload) ∷ []) kr none)
  unfolding with_keyring
  keyring_goes f payload kr (err e, s) h = cc
  keyring_goes f payload kr (ok kr', s) h =
      ap (λ (k : Keyring). judge f.id (try (use_shared (try_key b f payload) ∷ []) k none)) (same h)
    where
      same : ◌≡◌ {A = Result Keyring} (ok kr') (ok kr) → kr' ≡ kr
      same e = cc

  store_goes :
      (f : Fields) (payload : Str) (p : Result (Unit {0}) × S)
      → p.0 ≡ ok tt
      → with_store u b keyrings f payload p
        ≡ with_keyring u b keyrings f payload (get_keyring (record { id = f.id }) p.1)
  unfolding with_store
  store_goes f payload (err e, s) h = absurd (never h)
    where
      never : ◌≡◌ {A = Result (Unit {0})} (err e) (ok tt) → ⊥
      never e = cc
  store_goes f payload (ok o, s) h = refl

  -- A request whose header decodes to an id, whose cluster's keyring can be read and holds a
  -- shared key by which the digest verifies, is passed on under that id.
  pub handle_passes :
      (authorization payload : Str) (s : S) (f : Fields) (kr : Keyring)
      → is_empty authorization ≡ false
      → decode_auth_header u authorization ≡ ok f
      → (open_keyring (record { id = f.id }) s).0 ≡ ok tt
      → (get_keyring (record { id = f.id }) (open_keyring (record { id = f.id }) s).1).0 ≡ ok kr
      → any (verifies b f payload) kr.shared_keys ≡ true
      → (keys : SharedKeys) × ((handle u b keyrings authorization payload s).0 ≡ pass f.id keys)
  unfolding handle with_header judge
  handle_passes authorization payload s f kr ne decoded opened got found =
      let (keys, tried) = run_try b f payload kr found in
      (
        keys,
        rw
            (
              ne,
              decoded,
              store_goes f payload (open_keyring (record { id = f.id }) s) opened,
              keyring_goes f payload kr
                  (get_keyring (record { id = f.id }) (open_keyring (record { id = f.id }) s).1)
                  got,
              tried,
            )
            refl,
      )
