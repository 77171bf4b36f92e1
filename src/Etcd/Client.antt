-- ===== src/Etcd/Client.antt =====
-- What pkg/storage/etcd uses of go.etcd.io/etcd/client/v3, of protojson and of
-- k8s.io/client-go/util/retry.
use opni_monitoring.Prelude.{
  ℕ, Str, str_eq, Option, none, some, Bool, true, false, List, [], ◌∷◌, Result, ok, err, Error,
  retry_err, ◌≡◌, ◌≢◌, if◌then◌else◌, codes,
}
use opni_monitoring.Exec.{Exec}
use opni_monitoring.GoLib.Path.{join}

pub record KeyValue : Type 0 where
  pub key : Str
  pub value : Str
  pub version : ℕ
  pub lease : ℕ

-- The requests, each of which may fail and may find that other clients wrote in between.
pub record Client : Type 1 where
  pub State : Type 0
  pub get : Str → Exec State (Option KeyValue)
  pub get_prefix : Str → Exec State (List KeyValue)
  pub put : Str → Str → ℕ → Exec State (Unit {0})
  -- the number of keys deleted
  pub delete : Str → Exec State ℕ
  -- If(Version(key) = version) Then(Put(key, value)): whether it succeeded; the flag is IgnoreLease
  pub commit : Str → ℕ → Str → Bool → Exec State Bool
  pub grant : ℕ → Exec State ℕ
  pub revoke : ℕ → Exec State (Unit {0})
  pub time_to_live : ℕ → Exec State ℕ

-- The documented behaviour, seen through what is stored under a key at a time.
pub record IsEtcd (c : Client) : Type 0 where
  pub cell : c.State → Str → Option KeyValue
  pub get_reads :
      (k : Str) (s : c.State) (r : Option KeyValue) → (c.get k s).0 ≡ ok r → r ≡ cell s k
  pub version_positive :
      (k : Str) (s : c.State) (kv : KeyValue) → cell s k ≡ some kv → kv.version ≢ 0
  pub put_writes :
      (k v : Str) (l : ℕ) (s : c.State)
      → (c.put k v l s).0 ≡ ok tt
      → (kv : KeyValue) × (cell (c.put k v l s).1 k ≡ some kv) × (kv.value ≡ v) × (kv.lease ≡ l)
  pub put_frame :
      (k v : Str) (l : ℕ) (s : c.State) (j : Str)
      → str_eq k j ≡ false
      → cell (c.put k v l s).1 j ≡ cell s j
  pub delete_counts :
      (k : Str) (s : c.State) (n : ℕ)
      → (c.delete k s).0 ≡ ok n
      → (n ≡ 0 → cell s k ≡ none) × (cell s k ≡ none → n ≡ 0) × (cell (c.delete k s).1 k ≡ none)
  pub delete_frame :
      (k : Str) (s : c.State) (j : Str) → str_eq k j ≡ false → cell (c.delete k s).1 j ≡ cell s j
  pub commit_compares :
      (k : Str) (n : ℕ) (v : Str) (keep : Bool) (s : c.State)
      → n ≢ 0
      → (c.commit k n v keep s).0 ≡ ok true
      → (old new : KeyValue) × (cell s k ≡ some old)
        × (old.version ≡ n)
        × (cell (c.commit k n v keep s).1 k ≡ some new)
        × (new.value ≡ v)
        × (new.lease ≡ (if keep then old.lease else 0))

-- protojson for one message type.
pub record Codec (T : Type 0) : Type 0 where
  pub marshal : T → Result Str
  pub unmarshal : Str → Result T

pub record IsCodec {T : Type 0} (j : Codec T) : Type 0 where
  pub reads_back : (x : T) (s : Str) → j.marshal x ≡ ok s → j.unmarshal s ≡ ok x

-- retry.OnError(backoff, retriable, fn) with the backoff fixed. fn's result is kept in a variable
-- of the caller, which is its value here.
abbrev pub Retry : Type 0 → Type 0 → Type 0
Retry S A = (Error → Bool) → Exec S A → Exec S A

-- It calls fn one or more times and returns what the last call returned; a call that does not fail
-- with a retriable error is the last.
pub record IsRetry {S A : Type 0} (retry : Retry S A) : Type 1 where
  pub last_call :
      (retriable : Error → Bool) (fn : Exec S A) (P : S → Type 0)
      → ((s : S) → P s → P (fn s).1)
      → (s : S) → P s
      → (t : S) × P t × (retry retriable fn s ≡ fn t)
  pub first_ok :
      (retriable : Error → Bool) (fn : Exec S A) (s : S) (a : A)
      → (fn s).0 ≡ ok a
      → retry retriable fn s ≡ fn s
  pub first_final :
      (retriable : Error → Bool) (fn : Exec S A) (s : S) (e : Error)
      → (fn s).0 ≡ err e
      → retriable e ≡ false
      → retry retriable fn s ≡ fn s

abbrev pub is_retry_err : Error → Bool
is_retry_err retry_err = true
is_retry_err _ = false

-- path.Join(e.Prefix, kind, id)
unfoldable pub object_key : Str → Str → Str → Str
object_key prefix kind id = join (prefix ∷ kind ∷ id ∷ [])

-- path.Join(e.Prefix, kind)
unfoldable pub kind_key : Str → Str → Str
kind_key prefix kind = join (prefix ∷ kind ∷ [])

abbrev pub tokens_kind : Str
tokens_kind = codes "tokens"

abbrev pub clusters_kind : Str
clusters_kind = codes "clusters"

abbrev pub keyrings_kind : Str
keyrings_kind = codes "keyrings"

abbrev pub roles_kind : Str
roles_kind = codes "roles"

abbrev pub role_bindings_kind : Str
role_bindings_kind = codes "rolebindings"
