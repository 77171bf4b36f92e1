-- ===== src/Management/Watch/View.antt =====
-- A client that follows the events knows what the server knows, which is what was last listed.
use opni_monitoring.Prelude.{
  ok_injective, unit_ok, Str, str_eq, str_eq_sound, Assoc, has_key, lookup, insert, remove, Option,
  none, some, Bool, true, not, ◌&&◌, ◌||◌, List, [], ◌∷◌, Result, ok, err, panicked, ◌≡◌, refl, sym,
  ap, ◌∙◌, Bool-cases, &&-eq-true, inl, inr,
}
use mathlib.Core.Path.{subst}
use opni_monitoring.Exec.{bind_ok}
use opni_monitoring.Core.Types.{Reference, Cluster, cluster_reference}
use opni_monitoring.Storage.Stores.{ClusterStore}
use opni_monitoring.Management.Requests.{WatchClustersRequest, validate_watch_clusters}
use opni_monitoring.Management.Watch.{
  WatchEvent, added, deleted, Watching, is_listed, send, note_cluster, note_clusters, drop_known,
  drop_missing, tick, ticks, load_known, load_items, start_watch,
}
use opni_monitoring.Management.Watch.Keys.{
  is_keyed, keyed-insert, keyed-remove, has_key-insert, has_key-remove, has_key_already, err_apart,
  none_dropped, or_swap, kept_key, gone_key, drop_both, settled,
}

-- What a client knows that started with `base` and applies each event.
abbrev pub view : Assoc Reference → List WatchEvent → Assoc Reference
view base [] = base
view base (added ref ∷ events) = insert ref.id ref (view base events)
view base (deleted ref ∷ events) = remove ref.id (view base events)

-- The server and a client that follows it agree.
pub record IsFollowed (base : Assoc Reference) (w : Watching) : Type 0 where
  pub keyed : is_keyed w.0 ≡ true
  pub agree : view base w.1 ≡ w.0

-- A range visits the entries of the map, each under the id of its reference, and no other id.
pub record IsOrder (order : List WatchEvent → Assoc Reference → Assoc Reference) : Type 0 where
  pub keyed :
      (sent : List WatchEvent) (m : Assoc Reference)
      → is_keyed m ≡ true
      → is_keyed (order sent m) ≡ true
  pub visits :
      (sent : List WatchEvent) (m : Assoc Reference) (j : Str)
      → has_key j (order sent m) ≡ has_key j m

module _ (refuses : List WatchEvent → Bool) (base : Assoc Reference) where
  note_cluster_lem :
      (c : Cluster) (known : Assoc Reference) (sent : List WatchEvent)
      → IsFollowed base (known, sent)
      → (note_cluster refuses c (known, sent)).0 ≡ ok tt
      → IsFollowed base (note_cluster refuses c (known, sent)).1
        × ((j : Str)
            → has_key j (note_cluster refuses c (known, sent)).1.0
              ≡ (str_eq c.id j || has_key j known))
  unfolding note_cluster send
  note_cluster_lem c known sent f h = elim (Bool-cases (has_key c.id known)) [
    | inl here ↦ rw here (f, λ j. has_key_already c.id j known here)
    | inr new ↦ rw new (elim (Bool-cases (refuses sent)) [
      | inl refused ↦ absurd (err_apart (rw (new, refused) at h))
      | inr accepted ↦ rw accepted (
        record {
          keyed = keyed-insert (cluster_reference c) known f.keyed;
          agree = ap (λ (m : Assoc Reference). insert c.id (cluster_reference c) m) f.agree;
        },
        λ j. has_key-insert c.id j (cluster_reference c) known,
      )
    ])
  ]

  note_clusters_lem :
      (cs : List Cluster) (known : Assoc Reference) (sent : List WatchEvent)
      → IsFollowed base (known, sent)
      → (note_clusters refuses cs (known, sent)).0 ≡ ok tt
      → IsFollowed base (note_clusters refuses cs (known, sent)).1
        × ((j : Str)
            → has_key j (note_clusters refuses cs (known, sent)).1.0
              ≡ (is_listed j cs || has_key j known))
  unfolding note_clusters
  note_clusters_lem [] known sent f h = (f, λ j. refl)
  note_clusters_lem (c ∷ cs) known sent f h =
      let (u, first, run, rest) =
        bind_ok (note_cluster refuses c) (λ _. note_clusters refuses cs) (known, sent) h in
      let (f1, k1) = note_cluster_lem c known sent f (unit_ok u first) in
      let s1 : Watching = (note_cluster refuses c (known, sent)).1 in
      let (f2, k2) = note_clusters_lem cs s1.0 s1.1 f1 rest in
      subst
        (λ (p : Result (Unit {0}) × Watching).
          IsFollowed base p.1
          × ((j : Str) → has_key j p.1.0 ≡ (is_listed j (c ∷ cs) || has_key j known)))
        (sym run)
        (f2, λ j. k2 j ∙ or_swap (is_listed j cs) (str_eq c.id j) (has_key j known) (k1 j))

  drop_known_lem :
      (cs : List Cluster) (id : Str) (ref : Reference) (known : Assoc Reference)
      (sent : List WatchEvent)
      → str_eq id ref.id ≡ true
      → IsFollowed base (known, sent)
      → (drop_known refuses cs id ref (known, sent)).0 ≡ ok tt
      → IsFollowed base (drop_known refuses cs id ref (known, sent)).1
        × ((j : Str)
            → has_key j (drop_known refuses cs id ref (known, sent)).1.0
              ≡ (has_key j known && (is_listed j cs || not (str_eq id j))))
  unfolding drop_known send
  drop_known_lem cs id ref known sent same f h = elim (Bool-cases (is_listed id cs)) [
    | inl here ↦ rw here (f, λ j. kept_key id j cs known here)
    | inr gone ↦ rw gone (elim (Bool-cases (refuses sent)) [
      | inl refused ↦ absurd (err_apart (rw (gone, refused) at h))
      | inr accepted ↦ rw accepted (
        record {
          keyed = keyed-remove id known f.keyed;
          agree =
              ap (λ (m : Assoc Reference). remove ref.id m) f.agree
              ∙ ap (λ (k : Str). remove k known) (sym (str_eq_sound id ref.id same));
        },
        λ j. has_key-remove id j known ∙ gone_key id j cs known gone,
      )
    ])
  ]

  drop_missing_lem :
      (cs : List Cluster) (es known : Assoc Reference) (sent : List WatchEvent)
      → is_keyed es ≡ true
      → IsFollowed base (known, sent)
      → (drop_missing refuses cs es (known, sent)).0 ≡ ok tt
      → IsFollowed base (drop_missing refuses cs es (known, sent)).1
        × ((j : Str)
            → has_key j (drop_missing refuses cs es (known, sent)).1.0
              ≡ (has_key j known && (is_listed j cs || not (has_key j es))))
  unfolding drop_missing lookup
  drop_missing_lem cs [] known sent keyed f h =
      (f, λ j. none_dropped (has_key j known) (is_listed j cs))
  drop_missing_lem cs ((id, ref) ∷ es) known sent keyed f h =
      let (u, first, run, rest) =
        bind_ok (drop_known refuses cs id ref) (λ _. drop_missing refuses cs es) (known, sent) h in
      let (same, keyed') = &&-eq-true (str_eq id ref.id) (is_keyed es) keyed in
      let (f1, k1) = drop_known_lem cs id ref known sent same f (unit_ok u first) in
      let s1 : Watching = (drop_known refuses cs id ref (known, sent)).1 in
      let (f2, k2) = drop_missing_lem cs es s1.0 s1.1 keyed' f1 rest in
      subst
        (λ (p : Result (Unit {0}) × Watching).
          IsFollowed base p.1
          × ((j : Str)
              → has_key j p.1.0
                ≡ (has_key j known && (is_listed j cs || not (has_key j ((id, ref) ∷ es))))))
        (sym run) (f2, λ j. k2 j ∙ drop_both id j ref cs es (has_key j known) (k1 j))

-- What was listed last: the base before the first tick.
abbrev pub last_listed : (Str → Bool) → List (Result (List Cluster)) → Str → Bool
last_listed before [] id = before id
last_listed before (ok cs ∷ answers) id = last_listed (λ j. is_listed j cs) answers id
last_listed before (err e ∷ answers) id = last_listed before answers id

module _ (refuses : List WatchEvent → Bool) (base : Assoc Reference)
    (order : List WatchEvent → Assoc Reference → Assoc Reference) (o : IsOrder order) where
  tick_lem :
      (cs : List Cluster) (known : Assoc Reference) (sent : List WatchEvent)
      → IsFollowed base (known, sent)
      → (tick refuses order cs (known, sent)).0 ≡ ok tt
      → IsFollowed base (tick refuses order cs (known, sent)).1
        × ((j : Str) → has_key j (tick refuses order cs (known, sent)).1.0 ≡ is_listed j cs)
  unfolding tick
  tick_lem cs known sent f h =
      let (u, first, run, rest) =
        bind_ok (note_clusters refuses cs) (λ _ (k, e). drop_missing refuses cs (order e k) (k, e))
          (known, sent) h in
      let (f1, k1) = note_clusters_lem refuses base cs known sent f (unit_ok u first) in
      let s1 : Watching = (note_clusters refuses cs (known, sent)).1 in
      let (f2, k2) =
        drop_missing_lem refuses base cs (order s1.1 s1.0) s1.0 s1.1 (o.keyed s1.1 s1.0 f1.keyed) f1
          rest in
      subst
        (λ (p : Result (Unit {0}) × Watching).
          IsFollowed base p.1 × ((j : Str) → has_key j p.1.0 ≡ is_listed j cs))
        (sym run)
        (
          f2,
          λ j.
              k2 j
              ∙ ap (λ (b : Bool). has_key j s1.0 && (is_listed j cs || not b))
                  (o.visits s1.1 s1.0 j)
              ∙ settled (has_key j s1.0) (is_listed j cs) (has_key j known) (k1 j),
        )

  ticks_from :
      (answers : List (Result (List Cluster))) (known : Assoc Reference) (sent : List WatchEvent)
      (before : Str → Bool)
      → IsFollowed base (known, sent)
      → ((j : Str) → has_key j known ≡ before j)
      → (ticks refuses order answers (known, sent)).0 ≡ ok tt
      → IsFollowed base (ticks refuses order answers (known, sent)).1
        × ((j : Str)
            → has_key j (ticks refuses order answers (known, sent)).1.0
              ≡ last_listed before answers j)
  unfolding ticks
  ticks_from [] known sent before f b h = (f, b)
  ticks_from (err e ∷ answers) known sent before f b h = cc
  ticks_from (ok cs ∷ answers) known sent before f b h =
      let (u, first, run, rest) =
        bind_ok (tick refuses order cs) (λ _. ticks refuses order answers) (known, sent) h in
      let (f1, k1) = tick_lem cs known sent f (unit_ok u first) in
      let s1 : Watching = (tick refuses order cs (known, sent)).1 in
      let (f2, k2) = ticks_from answers s1.0 s1.1 (λ j. is_listed j cs) f1 k1 rest in
      subst
        (λ (p : Result (Unit {0}) × Watching).
          IsFollowed base p.1
          × ((j : Str) → has_key j p.1.0 ≡ last_listed (λ j. is_listed j cs) answers j))
        (sym run) (f2, k2)

module _ {State : Type 0} (store : ClusterStore State) where
  load_known-keyed :
      (refs : List Reference) (known base : Assoc Reference) (s : State)
      → is_keyed known ≡ true
      → (load_known store refs known s).0 ≡ ok base
      → is_keyed base ≡ true
  unfolding load_known
  load_known-keyed [] known base s k h =
      ap (λ (m : Assoc Reference). is_keyed m) (sym (ok_injective h)) ∙ k
  load_known-keyed (ref ∷ refs) known base s k h =
      let (c, got, run, rest) =
        bind_ok (store.get_cluster ref) (λ _. load_known store refs (insert ref.id ref known)) s
          h in
      load_known-keyed refs (insert ref.id ref known) base (store.get_cluster ref s).1
        (keyed-insert ref known k) rest

  start_watch-keyed :
      (in' : WatchClustersRequest) (base : Assoc Reference) (s : State)
      → (start_watch store in' s).0 ≡ ok base
      → is_keyed base ≡ true
  unfolding start_watch
  start_watch-keyed in' base s h =
      let (u, valid, run, rest) =
        bind_ok (λ (t : State). (validate_watch_clusters in', t))
          (λ _. load_items store in'.known_clusters) s h in
      loaded in'.known_clusters s rest
    where
      loaded :
          (o : Option (List Reference)) (t : State)
          → (load_items store o t).0 ≡ ok base
          → is_keyed base ≡ true
      loaded none t e = cc
      loaded (some refs) t e = load_known-keyed refs [] base t refl e

  -- If WatchClusters enters its loop and its ticks so far were all answered and all sent, then a
  -- client that started with the clusters of its request and applied each event, in order, has
  -- the clusters that the server keeps as known, and it has a cluster exactly when the last tick
  -- listed it (before the first tick: when the request named it); in whatever order each tick
  -- ranges over the map of the known clusters.
  pub ticks-view :
      (in' : WatchClustersRequest) (base : Assoc Reference) (s : State)
      (refuses : List WatchEvent → Bool)
      (order : List WatchEvent → Assoc Reference → Assoc Reference)
      (answers : List (Result (List Cluster)))
      → IsOrder order
      → (start_watch store in' s).0 ≡ ok base
      → (ticks refuses order answers (base, [])).0 ≡ ok tt
      → (view base (ticks refuses order answers (base, [])).1.1
          ≡ (ticks refuses order answers (base, [])).1.0)
        × ((id : Str)
            → has_key id (view base (ticks refuses order answers (base, [])).1.1)
              ≡ last_listed (λ j. has_key j base) answers id)
  ticks-view in' base s refuses order answers o started h =
      let start : IsFollowed base (base, []) = record {
        keyed = start_watch-keyed in' base s started;
        agree = refl;
      } in
      let (f, k) =
        ticks_from refuses base order o answers base [] (λ j. has_key j base) start (λ j. refl) h in
      (f.agree, λ id. ap (λ (m : Assoc Reference). has_key id m) f.agree ∙ k id)

  -- A request with no list of known clusters is valid, and WatchClusters panics on it before its
  -- loop; with an empty list it enters its loop.
  pub start_watch-unset :
      (s : State)
      → (validate_watch_clusters (record { known_clusters = none }) ≡ ok tt)
        × (start_watch store (record { known_clusters = none }) s ≡ (err panicked, s))
        × (start_watch store (record { known_clusters = some [] }) s ≡ (ok [], s))
  unfolding validate_watch_clusters start_watch load_items load_known
  start_watch-unset s = (refl, refl, refl)
