-- ===== src/Rules/Notifier.antt =====
-- pkg/rules/notifier.go. A channel is the groups in its buffer, the oldest first, and has a number;
-- CloneRuleGroupList copies, so a list of groups is its own clone. cmp.Equal is a parameter.
pub mod Latest
use opni_monitoring.Prelude.{
  ℕ, suc, ◌+◌, Bool, true, false, not, ◌&&◌, List, [], ◌∷◌, ◌++◌, ◌==◌, ltb, length, if◌then◌else◌,
  Option, none, some, map, Result, ok, err, Error, is_empty,
}

pub record Channel (G : Type 0) : Type 0 where
  pub number : ℕ
  pub buffer : List (List G)

pub record UpdateNotifier (G : Type 0) : Type 0 where
  pub update_channels : List (Channel G)
  pub latest : List G
  -- the number of the next channel
  pub opened : ℕ

-- make(chan []rulefmt.RuleGroup, 3)
abbrev pub capacity : ℕ
capacity = 3

module _ {G : Type 0} where
  unfoldable pub new_update_notifier : UpdateNotifier G
  new_update_notifier = record { update_channels = []; latest = []; opened = 0 }

  unfoldable pub notify_c : UpdateNotifier G → UpdateNotifier G
  notify_c u = record u {
    update_channels = u.update_channels ++ (record { number = u.opened; buffer = [] } ∷ []);
    opened = suc u.opened;
  }

  -- slices.Delete at the first channel that is the one
  unfoldable pub delete_channel : ℕ → List (Channel G) → List (Channel G)
  delete_channel number [] = []
  delete_channel number (c ∷ cs) =
      let rest = delete_channel number cs in if c.number == number then cs else c ∷ rest

  -- The goroutine of NotifyC, once its context is done.
  unfoldable pub cancel : ℕ → UpdateNotifier G → UpdateNotifier G
  unfolding delete_channel
  cancel number u = record u { update_channels = delete_channel number u.update_channels }

  abbrev pub drop_first : List (List G) → List (List G)
  drop_first [] = []
  drop_first (groups ∷ buffer) = buffer

  -- A receive from a channel, where its buffer is not empty.
  unfoldable pub receive_from : ℕ → List (Channel G) → List (Channel G)
  receive_from number [] = []
  receive_from number (c ∷ cs) =
      let rest = receive_from number cs in
      if c.number == number then record c { buffer = drop_first c.buffer } ∷ cs else c ∷ rest

  unfoldable pub receive : ℕ → UpdateNotifier G → UpdateNotifier G
  unfolding receive_from
  receive number u = record u { update_channels = receive_from number u.update_channels }

  -- select { case c <- cloned: default: }
  unfoldable pub offer : List G → Channel G → Channel G
  offer groups c =
      if ltb (length c.buffer) capacity then record c { buffer = c.buffer ++ (groups ∷ []) } else c

  unfoldable pub offer_all : List G → List (Channel G) → List (Channel G)
  unfolding offer
  offer_all groups [] = []
  offer_all groups (c ∷ cs) = offer groups c ∷ offer_all groups cs

module _ {G : Type 0} (equal : G → G → Bool) where
  -- The comparison of FetchRules, the lengths first.
  unfoldable pub all_equal : List G → List G → Bool
  all_equal [] [] = true
  all_equal [] (h ∷ hs) = false
  all_equal (g ∷ gs) [] = false
  all_equal (g ∷ gs) (h ∷ hs) = equal g h && all_equal gs hs

  unfoldable pub is_modified : List G → List G → Bool
  unfolding all_equal
  is_modified groups latest =
      if length groups == length latest then not (all_equal groups latest) else true

  -- The part of FetchRules behind FindGroups; the wait for a first channel comes before that.
  unfoldable pub publish : Result (List G) → UpdateNotifier G → UpdateNotifier G
  unfolding is_modified offer_all
  publish (err e) u = u
  publish (ok groups) u =
      if not (is_modified groups u.latest)
      then u
      else record u { latest = groups; update_channels = offer_all groups u.update_channels }
