-- ===== src/Crds/Objects.antt =====
-- What pkg/storage/crds uses of sigs.k8s.io/controller-runtime/pkg/client for one kind of resource
-- in the store's namespace, and the parts that its stores repeat for each kind.
pub mod Laws
use opni_monitoring.Prelude.{
  ℕ, Str, Assoc, Bool, true, false, Option, none, some, List, [], ◌∷◌, Result, ok, err, Error,
  not_found, object_not_found, object_conflict, ◌≡◌, if◌then◌else◌,
}
use opni_monitoring.Exec.{Exec, pure, fail, lift, attempt, ◌>>=◌, ◌>>◌}
use opni_monitoring.Storage.Mutators.{Mutator}
use opni_monitoring.Etcd.Client.{Retry}

-- The parts of ObjectMeta that the stores read or write, and the payload. `created` is the Unix
-- time, as an int64; the server sets it and the version.
pub record Object (T : Type 0) : Type 0 where
  pub name : Str
  pub labels : Assoc Str
  pub created : ℕ
  pub version : ℕ
  pub spec : T

-- The object that a store makes.
abbrev pub new_object : {T : Type 0} → Str → Assoc Str → T → Object T
new_object name labels spec = record {
  name = name;
  labels = labels;
  created = 0;
  version = 0;
  spec = spec;
}

-- The requests, each of which may fail and may find that other clients wrote in between.
pub record Resource (State T : Type 0) : Type 0 where
  pub create : Object T → Exec State (Unit {0})
  pub get : Str → Exec State (Object T)
  pub list : Exec State (List (Object T))
  pub update : Object T → Exec State (Unit {0})
  pub delete : Str → Exec State (Unit {0})

-- The documented behaviour, seen through the object of a name at a time: a name is created once,
-- and an update replaces only the version that it carries.
pub record IsResource {State T : Type 0} (c : Resource State T) : Type 0 where
  pub cell : State → Str → Option (Object T)
  pub get_reads : (k : Str) (s : State) (o : Object T) → (c.get k s).0 ≡ ok o → cell s k ≡ some o
  pub create_writes :
      (o : Object T) (s : State)
      → (c.create o s).0 ≡ ok tt
      → (new : Object T) × (cell s o.name ≡ none)
        × (cell (c.create o s).1 o.name ≡ some new)
        × (new.spec ≡ o.spec)
  pub update_compares :
      (o : Object T) (s : State)
      → (c.update o s).0 ≡ ok tt
      → (old new : Object T) × (cell s o.name ≡ some old)
        × (old.version ≡ o.version)
        × (cell (c.update o s).1 o.name ≡ some new)
        × (new.spec ≡ o.spec)
  pub delete_removes :
      (k : Str) (s : State) → (c.delete k s).0 ≡ ok tt → cell (c.delete k s).1 k ≡ none
  pub delete_misses :
      (k : Str) (s : State)
      → (c.delete k s).0 ≡ err object_not_found
      → cell (c.delete k s).1 k ≡ none
  pub named : (k : Str) (s : State) (o : Object T) → cell s k ≡ some o → o.name ≡ k

-- k8serrors.IsNotFound
abbrev pub is_object_not_found : Error → Bool
is_object_not_found object_not_found = true
is_object_not_found _ = false

-- k8serrors.IsConflict
abbrev pub is_conflict : Error → Bool
is_conflict object_conflict = true
is_conflict _ = false

-- if k8serrors.IsNotFound(err) { return storage.ErrNotFound }; return err
unfoldable pub translate {ℓ} : {A : Type ℓ} → Result A → Result A
translate (ok a) = ok a
translate (err e) = err (if is_object_not_found e then not_found else e)

module _ {State T : Type 0} (c : Resource State T) where
  open c use {create, get, list, update, delete}

  -- Get, and its error translated.
  unfoldable pub get_object : Str → Exec State (Object T)
  unfolding translate
  get_object k = do found ← attempt (get k); lift (translate found)

  -- One call of the function that an Update retries: the payload of a copy is mutated, and the
  -- copy is written.
  unfoldable pub update_once : Str → Mutator T → Exec State T
  update_once k mutator = do
    existing ← get k
    spec ← lift (mutator existing.spec)
    update (record existing { spec = spec })
    pure spec

  unfoldable pub update_object : Retry State T → Str → Mutator T → Exec State T
  unfolding update_once translate
  update_object retry k mutator = do
    done ← attempt (retry is_conflict (update_once k mutator))
    lift (translate done)

-- The payloads of a list.
unfoldable pub specs : {T : Type 0} → List (Object T) → List T
specs [] = []
specs (o ∷ os) = o.spec ∷ specs os
