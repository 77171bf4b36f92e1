-- ===== src/Crds/Objects/Laws.antt =====
-- An update writes only over the version that it read, and what was created is read.
use opni_monitoring.Prelude.{ok_injective, Str, some, Result, ok, err, ◌≡◌, refl, sym, ap, ◌∙◌}
use opni_monitoring.Exec.{bind_ok}
use opni_monitoring.Storage.Mutators.{Mutator}
use opni_monitoring.Etcd.Client.{Retry, IsRetry}
use opni_monitoring.Crds.Objects.{
  Object, Resource, IsResource, translate, get_object, update_once, update_object, is_conflict,
}

translate_ok : {A : Type 0} (r : Result A) (a : A) → translate r ≡ ok a → r ≡ ok a
unfolding translate
translate_ok (ok b) a h = h
translate_ok (err e) a h = cc

module _ {State T : Type 0} (c : Resource State T) (laws : IsResource c) where
  open c use {get, update}

  -- What one attempt did that ended with this payload and in this state: it read an object at the
  -- state where it started, changed its payload, and wrote it when, in the state that the read
  -- left, the object still had the version that was read.
  pub record Swapped (k : Str) (m : Mutator T) (start finish : State) (spec : T) : Type 0 where
    pub before : Object T
    pub at_update : State
    pub old : Object T
    pub new : Object T
    pub attempt : update_once c k m start ≡ (ok spec, finish)
    pub after_read : at_update ≡ (get k start).1
    pub read : laws.cell start k ≡ some before
    pub changed : m before.spec ≡ ok spec
    pub present : laws.cell at_update k ≡ some old
    pub unchanged : old.version ≡ before.version
    pub written : laws.cell finish k ≡ some new
    pub reads_as : new.spec ≡ spec

  pub update_once_swaps :
      (k : Str) (m : Mutator T) (s : State) (spec : T)
      → (update_once c k m s).0 ≡ ok spec
      → Swapped k m s (update_once c k m s).1 spec
  unfolding update_once
  update_once_swaps k m s spec h =
      let (o, got, run1, rest1) = bind_ok (get k) _ s h in
      let s1 : State = (get k s).1 in
      let (x, changed, run2, rest2) = bind_ok (λ (t : State). (m o.spec, t)) _ s1 rest1 in
      let (u, sent, run3, rest3) =
        bind_ok (update (record o { spec = x })) (λ _ t. (ok x, t)) s1 rest2 in
      let same = ok_injective rest3 in
      let (old, new, was, kept, now, v) =
        laws.update_compares (record o { spec = x }) s1 (sent_unit u sent) in
      let name = laws.named k s o (laws.get_reads k s o got) in
      record {
        before = o;
        at_update = s1;
        old = old;
        new = new;
        attempt = ap (λ (y : Result T). (y, (update_once c k m s).1)) h;
        after_read = refl;
        read = laws.get_reads k s o got;
        changed = changed ∙ ap (λ (y : T). ok y) same;
        present = ap (λ (j : Str). laws.cell s1 j) (sym name) ∙ was;
        unchanged = kept;
        written =
            ap (λ (p : Result T × State). laws.cell p.1 k) (run1 ∙ run2 ∙ run3)
            ∙ ap (λ (j : Str). laws.cell (update (record o { spec = x }) s1).1 j) (sym name)
            ∙ now;
        reads_as = v ∙ same;
      }
    where
      sent_unit : (u : Unit {0}) → {r : Result (Unit {0})} → r ≡ ok u → r ≡ ok tt
      sent_unit tt e = e

  -- If an update of a stored object succeeds, there is a state from which one attempt ends with the
  -- payload that is returned and in the state of the whole call. That attempt read an object at
  -- that state, the mutator changed the object's payload into the one returned, and in the state
  -- that the read left, when the write was made, the object still had the version that was read;
  -- afterwards the name holds the payload.
  pub update_object_swaps :
      (retry : Retry State T) (r : IsRetry retry) (k : Str) (m : Mutator T) (s : State) (spec : T)
      → (update_object c retry k m s).0 ≡ ok spec
      → (start : State) × Swapped k m start (update_object c retry k m s).1 spec
  unfolding update_object
  update_object_swaps retry r k m s spec h =
      let (t, _, e) =
        r.last_call is_conflict (update_once c k m) (λ _. Unit {0}) (λ _ _. tt) s tt in
      (
        t,
        rw e (
            update_once_swaps k m t spec (
              ap (λ (p : Result T × State). p.0) (sym e)
              ∙ translate_ok (retry is_conflict (update_once c k m) s).0 spec h)),
      )

  pub get_object_reads :
      (k : Str) (s : State) (o : Object T) → (get_object c k s).0 ≡ ok o → laws.cell s k ≡ some o
  unfolding get_object
  get_object_reads k s o h = laws.get_reads k s o (translate_ok (get k s).0 o h)
