-- ===== src/OpenId/Cache/Inverse.antt =====
-- The two maps of the cache are inverse to each other, and what keeps them so.
use opni_monitoring.Prelude.{
  some_injective, Str, str_eq, str_eq_sound, Assoc, lookup, insert, remove, lookup-insert_same,
  lookup-insert_other, lookup-remove_other, found-insert, found-remove, str_ne, ne_str, Option,
  none, some, ok, ◌≡◌, ◌≢◌, refl, sym, ◌∙◌, ap, Bool-cases, inl, inr,
}
use mathlib.Core.Path.{subst}
use opni_monitoring.OpenId.Cache.{
  UserInfo, UserInfoCache, new_user_info_cache, user_id, refresh, remember,
}

module _ {V : Type 0} (sprint : V → Str) where
  -- Each cached answer is filed under the token that its user is known by, and each known user's
  -- token is cached.
  pub record IsConsistent (c : UserInfoCache V) : Type 0 where
    pub owner :
        (t : Str) (i : UserInfo V)
        → lookup t c.cache ≡ some i
        → (u : Str) × (user_id sprint i ≡ ok u) × (lookup u c.known_users ≡ some t)
    pub cached :
        (u t : Str)
        → lookup u c.known_users ≡ some t
        → (i : UserInfo V) × (lookup t c.cache ≡ some i) × (user_id sprint i ≡ ok u)

  pub new_user_info_cache-IsConsistent : IsConsistent new_user_info_cache
  unfolding lookup
  new_user_info_cache-IsConsistent = record { owner = λ t i h. cc; cached = λ u t h. cc }

  -- In a consistent cache two tokens of one user are the same token.
  pub one_token :
      (c : UserInfoCache V)
      → IsConsistent c
      → (t t' u : Str) (i i' : UserInfo V) → lookup t c.cache ≡ some i
      → lookup t' c.cache ≡ some i'
      → user_id sprint i ≡ ok u
      → user_id sprint i' ≡ ok u
      → t ≡ t'
  one_token c h t t' u i i' at at' id id' =
      let (x, a, b) = h.owner t i at in let (y, a', b') = h.owner t' i' at' in cc

  -- What refresh leaves of the cache: the entries that do not belong to the user.
  record Others (c c' : UserInfoCache V) (id : Str) : Type 0 where
    kept :
        (t : Str) (i : UserInfo V)
        → lookup t c'.cache ≡ some i
        → (lookup t c.cache ≡ some i) × (lookup id c.known_users ≢ some t)
    others :
        (t : Str) (i : UserInfo V)
        → lookup t c.cache ≡ some i
        → lookup id c.known_users ≢ some t
        → lookup t c'.cache ≡ some i

  remembered_owner :
      (c : UserInfoCache V) (base : Assoc (UserInfo V)) (id token : Str) (info : UserInfo V)
      → IsConsistent c
      → Others c (record c { cache = base }) id
      → user_id sprint info ≡ ok id
      → (t : Str) (i : UserInfo V) → lookup t (insert token info base) ≡ some i
      → (u : Str) × (user_id sprint i ≡ ok u) × (lookup u (insert id token c.known_users) ≡ some t)
  remembered_owner c base id token info h o known t i at =
      elim (found-insert token t info i base at) [
        | inl (same, new) ↦
            (id, cc, lookup-insert_same id token c.known_users ∙ ap (λ (s : Str). some s) same)
        | inr (differ, old) ↦
            (let (was, foreign) = o.kept t i old in
              let (u, uid, at_u) = h.owner t i was in
              (
                u,
                uid,
                lookup-insert_other id u token c.known_users (
                      str_ne id u
                        (λ e. foreign (ap (λ (s : Str). lookup s c.known_users) e ∙ at_u)))
                    ∙ at_u,
              ))
      ]

  remembered_cached :
      (c : UserInfoCache V) (base : Assoc (UserInfo V)) (id token : Str) (info : UserInfo V)
      → IsConsistent c
      → Others c (record c { cache = base }) id
      → user_id sprint info ≡ ok id
      → lookup token c.cache ≡ none
      → (u t : Str) → lookup u (insert id token c.known_users) ≡ some t
      → (i : UserInfo V) × (lookup t (insert token info base) ≡ some i) × (user_id sprint i ≡ ok u)
  remembered_cached c base id token info h o known missed u t at =
      elim (found-insert id u token t c.known_users at) [
        | inl (same, new) ↦ (
          info,
          subst (λ s. lookup s (insert token info base) ≡ some info) new
              (lookup-insert_same token info base),
          known ∙ ap (λ (s : Str). ok s) same,
        )
        | inr (differ, old) ↦
            (let (i, was, uid) = h.cached u t old in
              (
                i,
                lookup-insert_other token t info base
                      (str_ne token t (λ e. missed_apart (missed_here e was)))
                    ∙ o.others t i was (λ mine. ne_str id u differ (owner_eq i was uid mine)),
                uid,
              ))
      ]
    where
      missed_here :
          {i : UserInfo V}
          → token ≡ t
          → lookup t c.cache ≡ some i
          → ◌≡◌ {A = Option (UserInfo V)} none (some i)
      missed_here e was = sym missed ∙ ap (λ (s : Str). lookup s c.cache) e ∙ was

      missed_apart : {i : UserInfo V} → ◌≡◌ {A = Option (UserInfo V)} none (some i) → ⊥
      missed_apart e = cc

      owner_eq :
          (i : UserInfo V)
          → lookup t c.cache ≡ some i
          → user_id sprint i ≡ ok u
          → lookup id c.known_users ≡ some t
          → id ≡ u
      owner_eq i was uid mine = let (j, at_j, jid) = h.cached id t mine in cc

  some_apart : {A : Type 0} {x : A} → ◌≡◌ {A = Option A} none (some x) → ⊥
  some_apart e = cc

  unknown-Others :
      (c : UserInfoCache V) (id : Str)
      → lookup id c.known_users ≡ none
      → Others c (record c { cache = c.cache }) id
  unknown-Others c id unknown = record {
    kept = λ t i at. (at, λ mine. some_apart (sym unknown ∙ mine));
    others = λ t i at foreign. at;
  }

  removed-Others :
      (c : UserInfoCache V) (id previous : Str)
      → lookup id c.known_users ≡ some previous
      → Others c (record c { cache = remove previous c.cache }) id
  removed-Others c id previous known = record {
    kept = λ t i at.
        let (differ, was) = found-remove previous t i c.cache at in
        (was, λ mine. ne_str previous t differ (some_injective (sym known ∙ mine)));
    others = λ t i at foreign.
        lookup-remove_other previous t c.cache
          (str_ne previous t (λ e. foreign (known ∙ ap (λ (s : Str). some s) e)))
        ∙ at;
  }

  remembered-IsConsistent :
      (c : UserInfoCache V) (base : Assoc (UserInfo V)) (id token : Str) (info : UserInfo V)
      → IsConsistent c
      → Others c (record c { cache = base }) id
      → user_id sprint info ≡ ok id
      → lookup token c.cache ≡ none
      → IsConsistent
          (record { cache = insert token info base; known_users = insert id token c.known_users })
  remembered-IsConsistent c base id token info h o known missed = record {
    owner = remembered_owner c base id token info h o known;
    cached = remembered_cached c base id token info h o known missed;
  }

  refreshed-IsConsistent :
      (c : UserInfoCache V) (id token : Str) (info : UserInfo V) (o : Option Str)
      → IsConsistent c
      → user_id sprint info ≡ ok id
      → lookup token c.cache ≡ none
      → lookup id c.known_users ≡ o
      → IsConsistent
          (record (refresh id token o c) { cache = insert token info (refresh id token o c).cache })
  unfolding refresh
  refreshed-IsConsistent c id token info none h known missed at =
      remembered-IsConsistent c c.cache id token info h (unknown-Others c id at) known missed
  refreshed-IsConsistent c id token info (some previous) h known missed at =
      elim (Bool-cases (str_eq previous token)) [
        | inl same ↦ absurd (hit (h.cached id previous at) (str_eq_sound previous token same))
        | inr differ ↦ rw differ (
            remembered-IsConsistent c (remove previous c.cache) id token info h
              (removed-Others c id previous at) known missed)
      ]
    where
      hit :
          (i : UserInfo V) × (lookup previous c.cache ≡ some i) × (user_id sprint i ≡ ok id)
          → previous ≡ token
          → ⊥
      hit (i, was, _) e = some_apart (sym missed ∙ ap (λ (s : Str). lookup s c.cache) (sym e) ∙ was)

  pub remember-IsConsistent :
      (c : UserInfoCache V) (id token : Str) (info : UserInfo V)
      → IsConsistent c
      → user_id sprint info ≡ ok id
      → lookup token c.cache ≡ none
      → IsConsistent (remember id token info c)
  unfolding remember
  remember-IsConsistent c id token info h known missed =
      refreshed-IsConsistent c id token info (lookup id c.known_users) h known missed refl
