-- ===== src/Bootstrap/Join.antt =====
-- What /bootstrap/join gives away: for each stored token one signature, and nothing else.
use opni_monitoring.Prelude
use opni_monitoring.Prelude.{
  ℕ, Str, str_eq, str_eq_sound, str_eq_refl, Assoc, lookup, insert, has_key, lookup-insert, Option,
  none, some, Bool, true, false, List, [], ◌∷◌, all, is_empty, if◌then◌else◌, Result, ok, err,
  Error, >>=-ok, ◌≡◌, ◌⊎◌, inl, inr, refl, sym, ◌∙◌, ap, arith, Bool-cases, ◌&&◌,
}
use mathlib.Core.Path.{subst}
use opni_monitoring.GoLib.Text.{trim_space}
use opni_monitoring.Core.Types.{BootstrapToken, slot_token}
use opni_monitoring.Tokens.{Token, hex_id, from_bootstrap_token}
use opni_monitoring.Tokens.Jws.{Signer, SigningKey, sign_detached}
use opni_monitoring.Bootstrap.{Stores, Response, send, signatures, no_body}
use opni_monitoring.Bootstrap.Server.{sign_tokens, join_response, handle_bootstrap_join}

-- Some slot of the list has the id, and the signature is that of the token.
pub data Offers (j : Signer) (key : SigningKey j.PrivateKey)
    : List (Option BootstrapToken) → Str → Str → Type 0 where
  here :
      (t : Option BootstrapToken) (ts : List (Option BootstrapToken)) (raw : Token) (sig : Str)
      → from_bootstrap_token (slot_token t) ≡ ok raw
      → sign_detached j raw key ≡ ok sig
      → Offers j key (t ∷ ts) (hex_id raw) sig
  there :
      (t : Option BootstrapToken) (ts : List (Option BootstrapToken)) (id sig : Str)
      → Offers j key ts id sig
      → Offers j key (t ∷ ts) id sig

-- The token can be read and its id has a signature.
abbrev pub is_signed : Assoc Str → Option BootstrapToken → Bool
is_signed sigs t = elim (from_bootstrap_token (slot_token t)) [
  | ok raw ↦ has_key (hex_id raw) sigs
  | err e ↦ false
]

module _ {S : Type 0} (j : Signer) (stores : Stores S) (key : SigningKey j.PrivateKey) where
  offered_by_first :
      (t : Option BootstrapToken) (ts : List (Option BootstrapToken)) (raw : Token)
      (id sig first : Str) (acc : Assoc Str)
      → from_bootstrap_token (slot_token t) ≡ ok raw
      → sign_detached j raw key ≡ ok first
      → lookup id (insert (hex_id raw) first acc) ≡ some sig
      → (lookup id acc ≡ some sig) ⊎ Offers j key (t ∷ ts) id sig
  offered_by_first t ts raw id sig first acc e f h = elim (Bool-cases (str_eq (hex_id raw) id)) [
    | inl same ↦ inr (
        subst (λ i. Offers j key (t ∷ ts) i sig) (str_eq_sound (hex_id raw) id same)
          (here t ts raw sig e
            (f ∙ ap (λ (x : Str). ok x) (ground (arith, lookup-insert (hex_id raw) id first acc)))))
    | inr differ ↦ inl (ground (arith, lookup-insert (hex_id raw) id first acc))
  ]

  sign_tokens-Offers :
      (acc sigs : Assoc Str) (ts : List (Option BootstrapToken))
      → sign_tokens j stores key acc ts ≡ ok sigs
      → (id sig : Str) → lookup id sigs ≡ some sig
      → (lookup id acc ≡ some sig) ⊎ Offers j key ts id sig
  unfolding sign_tokens
  sign_tokens-Offers acc sigs [] h id sig found = inl (ground arith)
  sign_tokens-Offers acc sigs (t ∷ ts) h id sig found =
      let (raw, e, rest) = >>=-ok (from_bootstrap_token (slot_token t)) _ h in
      let (first, f, later) = >>=-ok (sign_detached j raw key) _ rest in
      elim (sign_tokens-Offers (insert (hex_id raw) first acc) sigs ts later id sig found) [
        | inl old ↦ offered_by_first t ts raw id sig first acc e f old
        | inr offered ↦ inr (there t ts id sig offered)
      ]

  has_key-insert_self : (k v : Str) (acc : Assoc Str) → has_key k (insert k v acc) ≡ true
  has_key-insert_self k v acc = ground (arith, lookup-insert k k v acc, str_eq_refl k)

  has_key-insert :
      (k id v : Str) (acc : Assoc Str) → has_key id acc ≡ true → has_key id (insert k v acc) ≡ true
  has_key-insert k id v acc h = ground (arith, lookup-insert k id v acc)

  sign_tokens_keeps :
      (acc sigs : Assoc Str) (ts : List (Option BootstrapToken)) (id : Str)
      → sign_tokens j stores key acc ts ≡ ok sigs
      → has_key id acc ≡ true
      → has_key id sigs ≡ true
  unfolding sign_tokens
  sign_tokens_keeps acc sigs [] id h k = ground arith
  sign_tokens_keeps acc sigs (t ∷ ts) id h k =
      let (raw, e, rest) = >>=-ok (from_bootstrap_token (slot_token t)) _ h in
      let (first, f, later) = >>=-ok (sign_detached j raw key) _ rest in
      sign_tokens_keeps (insert (hex_id raw) first acc) sigs ts id later
        (has_key-insert (hex_id raw) id first acc k)

  sign_tokens-all :
      (acc sigs : Assoc Str) (ts : List (Option BootstrapToken))
      → sign_tokens j stores key acc ts ≡ ok sigs
      → all (is_signed sigs) ts ≡ true
  unfolding sign_tokens
  sign_tokens-all acc sigs [] h = refl
  sign_tokens-all acc sigs (t ∷ ts) h =
      let (raw, e, rest) = >>=-ok (from_bootstrap_token (slot_token t)) _ h in
      let (first, f, later) = >>=-ok (sign_detached j raw key) _ rest in
      let now : has_key (hex_id raw) sigs ≡ true =
        sign_tokens_keeps (insert (hex_id raw) first acc) sigs ts (hex_id raw) later
          (has_key-insert_self (hex_id raw) first acc) in
      ground (arith, e, now, sign_tokens-all (insert (hex_id raw) first acc) sigs ts later)

  abbrev answer : Result (Assoc Str) → Response
  answer r = elim r [ ok sigs ↦ join_response j stores sigs | err e ↦ send 500 no_body ]

  signed_of :
      (r : Result (Assoc Str)) (sigs : Assoc Str)
      → answer r ≡ send 200 (signatures sigs)
      → r ≡ ok sigs
  signed_of (err e) sigs h = ground arith
  signed_of (ok []) sigs h = ground arith
  signed_of (ok (x ∷ xs)) sigs h = ground arith

  listed_of :
      (b : Bool) (s s' : S) (sigs : Assoc Str)
      → ◌≡◌ {A = Response × S}
          (if b
            then (
              answer (Prelude.◌>>=◌ (stores.list_tokens s).0 (sign_tokens j stores key [])),
              (stores.list_tokens s).1,
            )
            else (send 400 no_body, s))
          (send 200 (signatures sigs), s')
      → (b ≡ true)
        × (Prelude.◌>>=◌ (stores.list_tokens s).0 (sign_tokens j stores key []) ≡ ok sigs)
  listed_of true s s' sigs h = (refl, signed_of _ sigs (ap (λ (p : Response × S). p.0) h))
  listed_of false s s' sigs h = absurd (refused (ap (λ (p : Response × S). p.0) h))
    where
      refused : send 400 no_body ≡ send 200 (signatures sigs) → ⊥
      refused e = ground arith

  offered :
      (ts : List (Option BootstrapToken)) (id sig : Str)
      → (lookup id [] ≡ some sig) ⊎ Offers j key ts id sig
      → Offers j key ts id sig
  unfolding lookup
  offered ts id sig (inl h) = cc
  offered ts id sig (inr o) = o

  -- If handleBootstrapJoin answers 200 with signatures, then the request had no Authorization
  -- header, the tokens were listed, every listed token's id has a signature, and whatever stands
  -- under an id is the detached signature of some listed token with that id. A nil slot of the
  -- list, as the Kubernetes store leaves it for an expired token, counts as an empty token.
  pub handle_bootstrap_join-Offers :
      (authorization : Str) (s s' : S) (sigs : Assoc Str)
      → handle_bootstrap_join j stores key authorization s ≡ (send 200 (signatures sigs), s')
      → (id sig : Str) → lookup id sigs ≡ some sig
      → (ts : List (Option BootstrapToken)) × ((stores.list_tokens s).0 ≡ ok ts)
        × (is_empty (trim_space authorization) ≡ true)
        × (all (is_signed sigs) ts ≡ true)
        × Offers j key ts id sig
  unfolding handle_bootstrap_join
  handle_bootstrap_join-Offers authorization s s' sigs h id sig found =
      let (no_header, signed) = listed_of (is_empty (trim_space authorization)) s s' sigs h in
      let (ts, listed, run) = >>=-ok (stores.list_tokens s).0 _ signed in
      (
        ts,
        listed,
        no_header,
        sign_tokens-all [] sigs ts run,
        offered ts id sig (sign_tokens-Offers [] sigs ts run id sig found),
      )
