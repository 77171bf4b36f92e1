-- ===== src/Crds/Tokens.antt =====
-- pkg/storage/crds/token_store.go. Unix times, like the ttl, are int64s as 64-bit patterns; `now`
-- is what time.Now() gives. The names of the tokens whose collection was started, as goroutines
-- that run garbage_collect_token, are kept beside the state of the server.
pub mod Laws
use opni_monitoring.Prelude.{
  ℕ, ◌+◌, ◌-◌, ◌%◌, ◌^◌, Str, Option, none, some, Bool, true, false, not, List, [], ◌∷◌, leb, ltb,
  ◌==◌, ◌||◌, if◌then◌else◌, Result, ok, err, panicked, object_not_found, ◌++◌, Error,
}
use opni_monitoring.Exec.{Exec, pure, lift, fail, attempt, ◌>>=◌, ◌>>◌}
use opni_monitoring.Core.Types.{Reference, BootstrapToken, BootstrapTokenMetadata}
use opni_monitoring.Tokens.{new_token, to_bootstrap_token}
use opni_monitoring.Storage.Mutators.{Mutator}
use opni_monitoring.Etcd.Client.{Retry}
use opni_monitoring.Etcd.Tokens.{TokenCreateOptions}
use opni_monitoring.Crds.Objects.{
  Object, Resource, new_object, get_object, update_object, translate, is_object_not_found,
}

-- a - b on int64s
unfoldable pub subtract : ℕ → ℕ → ℕ
subtract a b = (a + (2 ^ 64 - b)) % 2 ^ 64

-- a < 0 on an int64
abbrev pub is_negative : ℕ → Bool
is_negative a = leb (2 ^ 63) a

-- The new ttl of patchTTL.
unfoldable pub remaining : ℕ → ℕ → ℕ → ℕ
unfolding subtract
remaining now created ttl =
    let left = subtract ttl (subtract now created) in if is_negative left then 0 else left

-- patchTTL; the metadata may be nil.
unfoldable pub patch_metadata :
    ℕ → ℕ → Option BootstrapTokenMetadata → Result BootstrapTokenMetadata
unfolding remaining
patch_metadata now created none = err panicked
patch_metadata now created (some m) = ok (record m { ttl = remaining now created m.ttl })

-- What is left of a token: its ttl first, the token with it beside.
unfoldable pub patch_ttl : ℕ → Object BootstrapToken → Result (ℕ × BootstrapToken)
unfolding patch_metadata
patch_ttl now token = elim (patch_metadata now token.created token.spec.metadata) [
  | err e ↦ err e
  | ok m ↦ ok (m.ttl, record (token.spec) { metadata = some m })
]

-- Ttl <= 0 on an int64
abbrev pub is_expired : ℕ → Bool
is_expired ttl = ttl == 0 || is_negative ttl

unfoldable pub fresh_token : Str → ℕ → TokenCreateOptions → BootstrapToken
fresh_token sum ttl options = record (to_bootstrap_token (new_token sum)) {
  metadata = some (record {
    lease_id = 2 ^ 64 - 1;
    ttl = ttl;
    usage_count = 0;
    labels = options.labels;
    capabilities = options.capabilities;
  });
}

module _ {State : Type 0} (tokens : Resource State BootstrapToken) where
  open tokens use {create, list, delete}

  -- `ttl` is int64(ttl.Seconds()); `sum` is the digest that NewToken computes.
  unfoldable pub create_token : ℕ → Str → TokenCreateOptions → Exec State BootstrapToken
  unfolding fresh_token
  create_token ttl sum options = do
    let token = fresh_token sum ttl options
    create (new_object token.token_id options.labels token)
    pure token

  unfoldable pub delete_token : Reference → Exec State (Unit {0})
  unfolding translate
  delete_token ref = do done ← attempt (delete ref.id); lift (translate done)

  unfoldable pub update_token :
      Retry State BootstrapToken → Reference → Mutator BootstrapToken → Exec State BootstrapToken
  unfolding update_object
  update_token retry ref mutator = update_object tokens retry ref.id mutator

  unfoldable pub garbage_collect_token : Retry State (Unit {0}) → Str → Exec State (Unit {0})
  garbage_collect_token retry name = retry (λ e. not (is_object_not_found e)) (delete name)

  -- The part of GetToken behind the request: an expired token is collected and not returned.
  unfoldable pub live_token :
      Str → Result (ℕ × BootstrapToken) → Exec (State × List Str) BootstrapToken
  live_token name (err e) s = (err e, s)
  live_token name (ok (ttl, token)) (s, collecting) =
      if is_expired ttl
      then (err object_not_found, (s, name ∷ collecting))
      else (ok token, (s, collecting))

  unfoldable pub found_token :
      ℕ → Result (Object BootstrapToken) → Exec (State × List Str) BootstrapToken
  unfolding live_token patch_ttl
  found_token now (err e) s = (err e, s)
  found_token now (ok object) s = live_token object.name (patch_ttl now object) s

  unfoldable pub get_token : ℕ → Reference → Exec (State × List Str) BootstrapToken
  unfolding found_token get_object
  get_token now ref (s, collecting) =
      let (r, s') = get_object tokens ref.id s in found_token now r (s', collecting)

  -- tokens[i] = item.Spec, unless the loop went on before it
  unfoldable pub fill_slot :
      Bool
      → BootstrapToken
      → Result (List (Option BootstrapToken)) × List Str
      → Result (List (Option BootstrapToken)) × List Str
  fill_slot expired token (err e, collecting) = (err e, collecting)
  fill_slot expired token (ok slots, collecting) =
      (ok ((if expired then none else some token) ∷ slots), collecting)

  -- One round of the loop, before the rounds that follow it.
  unfoldable pub next_slot :
      Str
      → Result (ℕ × BootstrapToken)
      → (List Str → Result (List (Option BootstrapToken)) × List Str)
      → List Str
      → Result (List (Option BootstrapToken)) × List Str
  unfolding fill_slot
  next_slot name (err e) rest collecting = (err e, collecting)
  next_slot name (ok (ttl, token)) rest collecting =
      fill_slot (is_expired ttl) token
        (rest (if is_expired ttl then name ∷ collecting else collecting))

  -- The loop of ListTokens: the slot of an expired token stays nil.
  unfoldable pub live_tokens :
      ℕ → List (Object BootstrapToken) → List Str → Result (List (Option BootstrapToken)) × List Str
  unfolding patch_ttl next_slot
  live_tokens now [] collecting = (ok [], collecting)
  live_tokens now (item ∷ items) collecting =
      next_slot item.name (patch_ttl now item) (λ c. live_tokens now items c) collecting

  unfoldable pub listed_tokens :
      ℕ
      → List Str
      → Result (List (Object BootstrapToken)) × State
      → Result (List (Option BootstrapToken)) × (State × List Str)
  unfolding live_tokens
  listed_tokens now collecting (err e, s) = (err e, (s, collecting))
  listed_tokens now collecting (ok items, s) =
      let (r, collecting') = live_tokens now items collecting in (r, (s, collecting'))

  unfoldable pub list_tokens : ℕ → Exec (State × List Str) (List (Option BootstrapToken))
  unfolding listed_tokens
  list_tokens now (s, collecting) = listed_tokens now collecting (list s)
