-- ===== src/Rules/Notifier/Latest.antt =====
-- What a channel gets that is opened after the groups were published.
use opni_monitoring.Prelude.{
  Bool, true, false, List, [], ◌∷◌, ◌++◌, ok, ◌≡◌, refl, ap, arith, Bool-cases, inl, inr,
}
use opni_monitoring.Rules.Notifier.{UpdateNotifier, notify_c, is_modified, all_equal, publish}

module _ {G : Type 0} (equal : G → G → Bool) where
  all_equal_refl : ((g : G) → equal g g ≡ true) → (gs : List G) → all_equal equal gs gs ≡ true
  unfolding all_equal
  all_equal_refl same [] = refl
  all_equal_refl same (g ∷ gs) = ground (arith, same g, all_equal_refl same gs)

  unmodified : ((g : G) → equal g g ≡ true) → (gs : List G) → is_modified equal gs gs ≡ false
  unfolding is_modified
  unmodified same gs = ground (arith, all_equal_refl same gs)

  latest-publish :
      ((g : G) → equal g g ≡ true)
      → (groups : List G) (u : UpdateNotifier G)
      → is_modified equal groups (publish equal (ok groups) u).latest ≡ false
  unfolding publish
  latest-publish same groups u = elim (Bool-cases (is_modified equal groups u.latest)) [
    | inl changed ↦ rw changed (unmodified same groups)
    | inr kept ↦ rw kept kept
  ]

  publish_same :
      (groups : List G) (u : UpdateNotifier G)
      → is_modified equal groups u.latest ≡ false
      → publish equal (ok groups) u ≡ u
  unfolding publish
  publish_same groups u h = rw h refl

  -- When a list of groups was published, a channel is opened after that, and the finder answers the
  -- same list again, then the channels are those of before with their buffers as they were, and
  -- after them the new one, whose buffer is empty: it got neither the latest list when it was
  -- opened nor the second answer. It is assumed that each group equals itself.
  pub publish-notify_c :
      ((g : G) → equal g g ≡ true)
      → (groups : List G) (u : UpdateNotifier G)
      → (publish equal (ok groups) (notify_c (publish equal (ok groups) u))).update_channels
        ≡ (publish equal (ok groups) u).update_channels
          ++ (record { number = (publish equal (ok groups) u).opened; buffer = [] } ∷ [])
  unfolding notify_c
  publish-notify_c same groups u =
      ap (λ (v : UpdateNotifier G). v.update_channels)
        (publish_same groups (notify_c (publish equal (ok groups) u))
          (latest-publish same groups u))
