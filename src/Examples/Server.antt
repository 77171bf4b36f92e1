-- ===== src/Examples/Server.antt =====
-- An API server that keeps the objects of one kind by name, alone with its client.
use opni_monitoring.Prelude.{
  suc, Str, str_eq_refl, Assoc, lookup, insert, remove, lookup-insert_same, lookup-remove, Option,
  none, some, Bool, true, false, ◌==◌, List, [], ◌∷◌, Result, ok, err, other, object_not_found,
  object_conflict, ok_injective, some_injective, ◌≡◌, refl, sym, ap, arith, ==_iff,
}
use opni_monitoring.Exec.{Exec}
use opni_monitoring.Crds.Objects.{Object, Resource, IsResource}

module _ {T : Type 0} where
  abbrev pub named_as : Str → Object T → Object T
  named_as k o = record o { name = k }

  abbrev pub cell_of : Str → Option (Object T) → Option (Object T)
  cell_of k none = none
  cell_of k (some o) = some (named_as k o)

  abbrev get_at : Str → Option (Object T) → Result (Object T)
  get_at k none = err object_not_found
  get_at k (some o) = ok (named_as k o)

  abbrev create_at : Object T → Option (Object T) → Exec (Assoc (Object T)) (Unit {0})
  create_at o none s = (ok tt, insert o.name (record o { version = 1 }) s)
  create_at o (some old) s = (err other, s)

  abbrev update_if : Bool → Object T → Exec (Assoc (Object T)) (Unit {0})
  update_if true o s = (ok tt, insert o.name (record o { version = suc o.version }) s)
  update_if false o s = (err object_conflict, s)

  abbrev update_at : Object T → Option (Object T) → Exec (Assoc (Object T)) (Unit {0})
  update_at o none s = (err object_not_found, s)
  update_at o (some old) s = update_if (old.version == o.version) o s

  abbrev listed : Assoc (Object T) → List (Object T)
  listed [] = []
  listed ((k, o) ∷ s) = named_as k o ∷ listed s

  abbrev pub server : Resource (Assoc (Object T)) T
  server = record {
    create = λ o s. create_at o (lookup o.name s) s;
    get = λ k s. (get_at k (lookup k s), s);
    list = λ s. (ok (listed s), s);
    update = λ o s. update_at o (lookup o.name s) s;
    delete = λ k s. (ok tt, remove k s);
  }

  get_cell :
      (k : Str) (c : Option (Object T)) (o : Object T) → get_at k c ≡ ok o → cell_of k c ≡ some o
  get_cell k none o h = cc
  get_cell k (some x) o h = ap (λ (y : Object T). some y) (ok_injective h)

  cell_name : (k : Str) (c : Option (Object T)) (o : Object T) → cell_of k c ≡ some o → o.name ≡ k
  cell_name k none o h = cc
  cell_name k (some x) o h = ap (λ (y : Object T). y.name) (sym (some_injective h))

  created :
      (o : Object T) (c : Option (Object T)) (s : Assoc (Object T))
      → (create_at o c s).0 ≡ ok tt
      → (new : Object T) × (cell_of o.name c ≡ none)
        × (cell_of o.name (lookup o.name (create_at o c s).1) ≡ some new)
        × (new.spec ≡ o.spec)
  created o none s h = (
    record o { version = 1 },
    refl,
    ap (λ (x : Option (Object T)). cell_of o.name x)
        (lookup-insert_same o.name (record o { version = 1 }) s),
    refl,
  )
  created o (some old) s h = cc

  updated_if :
      (b : Bool) (o old : Object T) (s : Assoc (Object T))
      → (old.version == o.version) ≡ b
      → (update_if b o s).0 ≡ ok tt
      → (old' new : Object T) × (cell_of o.name (some old) ≡ some old')
        × (old'.version ≡ o.version)
        × (cell_of o.name (lookup o.name (update_if b o s).1) ≡ some new)
        × (new.spec ≡ o.spec)
  updated_if true o old s e h = (
    named_as o.name old,
    record o { version = suc o.version },
    refl,
    ground (arith, ==_iff old.version o.version, e),
    ap (λ (x : Option (Object T)). cell_of o.name x)
        (lookup-insert_same o.name (record o { version = suc o.version }) s),
    refl,
  )
  updated_if false o old s e h = cc

  updated :
      (o : Object T) (c : Option (Object T)) (s : Assoc (Object T))
      → (update_at o c s).0 ≡ ok tt
      → (old new : Object T) × (cell_of o.name c ≡ some old)
        × (old.version ≡ o.version)
        × (cell_of o.name (lookup o.name (update_at o c s).1) ≡ some new)
        × (new.spec ≡ o.spec)
  updated o none s h = cc
  updated o (some old) s h = updated_if (old.version == o.version) o old s refl h

  removed : (k : Str) (s : Assoc (Object T)) → cell_of k (lookup k (remove k s)) ≡ none
  removed k s = rw (lookup-remove k k s, str_eq_refl k) refl

  pub server-IsResource : IsResource server
  server-IsResource = record {
    cell = λ s k. cell_of k (lookup k s);
    get_reads = λ k s o h. get_cell k (lookup k s) o h;
    create_writes = λ o s h. created o (lookup o.name s) s h;
    update_compares = λ o s h. updated o (lookup o.name s) s h;
    delete_removes = λ k s h. removed k s;
    delete_misses = λ k s h. removed k s;
    named = λ k s o h. cell_name k (lookup k s) o h;
  }
