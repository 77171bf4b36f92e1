-- ===== src/Crds/Tokens/Laws.antt =====
-- The life of a token: GetToken returns it until its time is over, with the time that is left.
use opni_monitoring.Prelude.{
  ℕ, suc, ◌+◌, ◌-◌, ◌^◌, ◌≤◌, ◌<◌, Str, Option, none, some, Bool, true, false, List, [], ◌∷◌, ltb,
  if◌then◌else◌, Result, ok, err, object_not_found, ◌≡◌, refl, arith, length, Bool-cases, inl, inr,
}
use opni_monitoring.Core.Types.{Reference, BootstrapToken, BootstrapTokenMetadata}
use opni_monitoring.Crds.Objects.{Object, Resource, get_object, translate}
use opni_monitoring.Crds.Tokens.{
  subtract, remaining, patch_metadata, patch_ttl, is_expired, fill_slot, next_slot, found_token,
  get_token, live_tokens,
}

subtract_older : (a b : ℕ) → a < 2 ^ 63 → b ≤ a → subtract a b ≡ a - b
unfolding subtract
subtract_older a b h k = omega arith

subtract_younger : (a b : ℕ) → b < 2 ^ 63 → a < b → 2 ^ 63 ≤ subtract a b
unfolding subtract
subtract_younger a b h k = omega arith

-- While no time is before 1970 or after the last int64, and the token was not created after now,
-- what patchTTL leaves is the ttl less the token's age, and 0 once it is older than its ttl.
pub remaining_lem :
    (now created ttl : ℕ)
    → ttl < 2 ^ 63
    → now < 2 ^ 63
    → created ≤ now
    → remaining now created ttl ≡ ttl - (now - created)
unfolding remaining
remaining_lem now created ttl small late old = ground (
  arith,
  subtract_older now created,
  subtract_older ttl (now - created),
  subtract_younger ttl (now - created),
)

-- Whatever the three numbers are, what patchTTL leaves is not negative.
pub remaining_bound : (now created ttl : ℕ) → remaining now created ttl < 2 ^ 63
unfolding remaining
remaining_bound now created ttl = ground arith

module _ (now created ttl : ℕ) (small : ttl < 2 ^ 63) (late : now < 2 ^ 63)
    (old : created ≤ now) where
  still_left : ltb now (created + ttl) ≡ true → remaining now created ttl ≡ created + ttl - now
  still_left h = ground (arith, remaining_lem now created ttl small late old)

  not_expired : ltb now (created + ttl) ≡ true → is_expired (created + ttl - now) ≡ false
  not_expired h = ground arith

  run_out : ltb now (created + ttl) ≡ false → is_expired (remaining now created ttl) ≡ true
  run_out h = ground (arith, remaining_lem now created ttl small late old)

module _ {State : Type 0} (tokens : Resource State BootstrapToken) where
  -- A request for a token that is stored with metadata, at a time between its creation and 2^63,
  -- gives the token with the seconds that are left of its ttl, if that time is before its creation
  -- and its ttl together; otherwise it fails with the API's "not found" and starts the
  -- collection of the token.
  pub get_token_lem :
      (now : ℕ) (ref : Reference) (s : State) (collecting : List Str) (o : Object BootstrapToken)
      (m : BootstrapTokenMetadata)
      → (tokens.get ref.id s).0 ≡ ok o
      → o.spec.metadata ≡ some m
      → m.ttl < 2 ^ 63
      → now < 2 ^ 63
      → o.created ≤ now
      → get_token tokens now ref (s, collecting) ≡ (
          if ltb now (o.created + m.ttl)
          then (
            ok (record (o.spec) { metadata = some (record m { ttl = o.created + m.ttl - now }) }),
            ((tokens.get ref.id s).1, collecting),
          )
          else (err object_not_found, ((tokens.get ref.id s).1, o.name ∷ collecting)))
  unfolding get_token get_object found_token patch_ttl patch_metadata translate
  get_token_lem now ref s collecting o m got has small late old =
      rw (got, has)
        (elim (Bool-cases (ltb now (o.created + m.ttl))) [
          | inl young ↦
              rw
                (
                  still_left now o.created m.ttl small late old young,
                  not_expired now o.created m.ttl small late old young,
                  young,
                )
                refl
          | inr over ↦ rw (run_out now o.created m.ttl small late old over, over) refl
        ])

  -- The slots that ListTokens leaves nil.
  abbrev pub nil_slots : List (Option BootstrapToken) → ℕ
  nil_slots [] = 0
  nil_slots (none ∷ slots) = 1 + nil_slots slots
  nil_slots (some t ∷ slots) = nil_slots slots

  -- What the loop did from one list of collections to another.
  abbrev Balanced : ℕ → List Str → Result (List (Option BootstrapToken)) × List Str → Type 0
  Balanced n collecting (r, collecting') =
      (slots : List (Option BootstrapToken))
      → r ≡ ok slots
      → (length slots ≡ n) × (length collecting' ≡ length collecting + nil_slots slots)

  fill_slot-Balanced :
      (n : ℕ) (expired : Bool) (token : BootstrapToken) (name : Str) (collecting : List Str)
      (p : Result (List (Option BootstrapToken)) × List Str)
      → Balanced n (if expired then name ∷ collecting else collecting) p
      → Balanced (suc n) collecting (fill_slot tokens expired token p)
  unfolding fill_slot
  fill_slot-Balanced n expired token name collecting (err e, q) b slots h = cc
  fill_slot-Balanced n true token name collecting (ok rest, q) b slots h =
      let (c, d) = b rest refl in ground (arith, c, d, h)
  fill_slot-Balanced n false token name collecting (ok rest, q) b slots h =
      let (c, d) = b rest refl in ground (arith, c, d, h)

  next_slot-Balanced :
      (n : ℕ) (name : Str) (p : Result (ℕ × BootstrapToken))
      (rest : List Str → Result (List (Option BootstrapToken)) × List Str) (collecting : List Str)
      → ((q : List Str) → Balanced n q (rest q))
      → Balanced (suc n) collecting (next_slot tokens name p rest collecting)
  unfolding next_slot
  next_slot-Balanced n name (err e) rest collecting b slots h = cc
  next_slot-Balanced n name (ok (ttl, token)) rest collecting b slots h =
      let q : List Str = if is_expired ttl then name ∷ collecting else collecting in
      fill_slot-Balanced n (is_expired ttl) token name collecting (rest q) (b q) slots h

  live_tokens-Balanced :
      (now : ℕ) (items : List (Object BootstrapToken)) (collecting : List Str)
      → Balanced (length items) collecting (live_tokens tokens now items collecting)
  unfolding live_tokens
  live_tokens-Balanced now [] collecting slots h = ground (arith, nils slots h)
    where
      nils :
          (slots : List (Option BootstrapToken))
          → ◌≡◌ {A = Result (List (Option BootstrapToken))} (ok []) (ok slots)
          → slots ≡ []
      nils slots h = cc
  live_tokens-Balanced now (item ∷ items) collecting slots h =
      next_slot-Balanced (length items) item.name (patch_ttl now item)
        (λ c. live_tokens tokens now items c) collecting (live_tokens-Balanced now items) slots h

  -- If the loop of ListTokens ends without a panic, there is one slot per object, and it started
  -- as many collections as it left slots nil.
  pub live_tokens-length :
      (now : ℕ) (items : List (Object BootstrapToken)) (collecting : List Str)
      (slots : List (Option BootstrapToken))
      → (live_tokens tokens now items collecting).0 ≡ ok slots
      → (length slots ≡ length items)
        × (length (live_tokens tokens now items collecting).1 ≡ length collecting + nil_slots slots)
  live_tokens-length now items collecting slots h =
      live_tokens-Balanced now items collecting slots h
