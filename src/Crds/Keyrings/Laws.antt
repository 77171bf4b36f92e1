-- ===== src/Crds/Keyrings/Laws.antt =====
-- What Put stores is what Get reads, whatever prefix the two stores were opened with.
use opni_monitoring.Prelude.{
  ok_injective, some_injective, Str, Bool, true, false, some, [], Result, ok, err, Error, ◌≡◌, sym,
  ap, ◌∙◌, if◌then◌else◌,
}
use opni_monitoring.Exec.{bind_ok, attempt, fail}
use opni_monitoring.Etcd.Client.{Codec, IsCodec, Retry, IsRetry}
use opni_monitoring.Crds.Objects.{
  Object, Resource, IsResource, new_object, get_object, is_object_not_found, is_conflict,
}
use opni_monitoring.Crds.Objects.Laws.{get_object_reads}
use opni_monitoring.Crds.Keyrings.{put_once, put_data, put_keyring, get_keyring}

module _ {State K : Type 0} (keyrings : Resource State Str) (laws : IsResource keyrings)
    (json : Codec K) (codec : IsCodec json) (id : Str) where
  -- The object of the id has the text.
  abbrev Holds : State → Str → Type 0
  Holds s text = (o : Object Str) × (laws.cell s id ≡ some o) × (o.spec ≡ text)

  put_once-Holds :
      (prefix text : Str) (s : State)
      → (put_once keyrings json prefix id text s).0 ≡ ok tt
      → Holds (put_once keyrings json prefix id text s).1 text
  unfolding put_once
  put_once-Holds prefix text s h =
      let (o, got, run, rest) =
        bind_ok (keyrings.get id) (λ kr. keyrings.update (record kr { spec = text })) s h in
      let (old, new, was, kept, now, v) =
        laws.update_compares (record o { spec = text }) (keyrings.get id s).1 rest in
      let name = laws.named id s o (laws.get_reads id s o got) in
      (
        new,
        ap (λ (p : Result (Unit {0}) × State). laws.cell p.1 id) run
            ∙ ap
                (λ (j : Str).
                  laws.cell (keyrings.update (record o { spec = text }) (keyrings.get id s).1).1 j)
                (sym name)
            ∙ now,
        v,
      )

  create-Holds :
      (text : Str) (e : Error) (b : Bool) (s : State)
      → ((if b then keyrings.create (new_object id [] text) else fail e) s).0 ≡ ok tt
      → Holds ((if b then keyrings.create (new_object id [] text) else fail e) s).1 text
  create-Holds text e true s h =
      let (new, fresh, now, v) = laws.create_writes (new_object id [] text) s h in (new, now, v)
  create-Holds text e false s h = cc

  put_data-Holds :
      (prefix : Str) (retry : Retry State (Unit {0})) (r : IsRetry retry) (text : Str)
      (found : Result (Object Str)) (s : State)
      → (put_data keyrings json prefix id retry text found s).0 ≡ ok tt
      → Holds (put_data keyrings json prefix id retry text found s).1 text
  unfolding put_data
  put_data-Holds prefix retry r text (ok kr) s h =
      let (t, _, e) =
        r.last_call is_conflict (put_once keyrings json prefix id text) (λ _. Unit {0}) (λ _ _. tt)
          s tt in
      rw e (put_once-Holds prefix text t (ap (λ (p : Result (Unit {0}) × State). p.0) (sym e) ∙ h))
  put_data-Holds prefix retry r text (err e) s h = create-Holds text e (is_object_not_found e) s h

  -- If Put of a keyring succeeds and Get then does, through a store of the same cluster that may
  -- have been opened with another prefix, Get gives the keyring that was put.
  pub get_keyring-put :
      (prefix prefix' : Str) (retry : Retry State (Unit {0})) (r : IsRetry retry) (k k' : K)
      (s : State)
      → (put_keyring keyrings json prefix id retry k s).0 ≡ ok tt
      → (get_keyring keyrings json prefix' id (put_keyring keyrings json prefix id retry k s).1).0
        ≡ ok k'
      → k' ≡ k
  unfolding put_keyring get_keyring
  get_keyring-put prefix prefix' retry r k k' s h g =
      let (text, coded, run1, rest1) = bind_ok (λ (t : State). (json.marshal k, t)) _ s h in
      let (found, got, run2, rest2) =
        bind_ok (attempt (keyrings.get id)) (λ kr. put_data keyrings json prefix id retry text kr) s
          rest1 in
      let s1 : State = (keyrings.get id s).1 in
      let (o, at, v) = put_data-Holds prefix retry r text found s1 rest2 in
      let end' : State = (put_keyring keyrings json prefix id retry k s).1 in
      let (o', read, run3, rest3) =
        bind_ok (get_object keyrings id) (λ kr t. (json.unmarshal kr.spec, t)) end' g in
      let same = some_injective (
        sym (get_object_reads keyrings laws id end' o' read)
        ∙ ap (λ (p : Result (Unit {0}) × State). laws.cell p.1 id) (run1 ∙ run2)
        ∙ at) in
      ok_injective (
        sym rest3
        ∙ ap (λ (kr : Object Str). json.unmarshal kr.spec) same
        ∙ ap (λ (t : Str). json.unmarshal t) v
        ∙ codec.reads_back k text coded)
