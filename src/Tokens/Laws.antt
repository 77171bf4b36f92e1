-- ===== src/Tokens/Laws.antt =====
-- Round trips of the text forms of a token and of its detached signature.
use opni_monitoring.Prelude.{
  ℕ, suc, Str, true, false, List, [], ◌∷◌, ◌++◌, leb, ◌==◌, length, take, drop, Result, ok, err,
  Error, ◌≡◌, ◌⊎◌, inl, inr, refl, ap, ◌∙◌, arith, append_assoc, length-append, some,
  malformed_token,
}
use opni_monitoring.GoLib
use opni_monitoring.GoLib.Hex.{
  is_bytes, has_digits_only, decode-encode, length-encode, length-decode,
}
use opni_monitoring.GoLib.Base64.{any_of_all, all-encode, is_digit}
use opni_monitoring.GoLib.Split.{split_on, has_byte, split_on-append, split_on_plain}
use opni_monitoring.GoLib.Index.{
  index_byte, last_index_byte, index_byte-append, last_index_byte-append, take-append, drop-append,
}
use opni_monitoring.Tokens.{
  Token, encode_hex, parse_hex, parse_parts, decode_exactly, from_bootstrap_token,
  to_bootstrap_token,
}
use opni_monitoring.Tokens.Jws.{
  Signer, IsCompact, ed25519, sign_detached, verify_detached, reattach, splice,
}

-- The token that NewToken makes: six bytes of id and twenty-six of secret.
pub record IsToken (t : Token) : Type 0 where
  pub id_length : length t.id ≡ 6
  pub secret_length : length t.secret ≡ 26
  pub id_bytes : is_bytes t.id ≡ true
  pub secret_bytes : is_bytes t.secret ≡ true

hex_plain : (s : Str) → has_byte b'.' (GoLib.Hex.encode s) ≡ false
hex_plain s =
    any_of_all (λ d. leb 48 d) (λ c. c == b'.') (GoLib.Hex.encode s) (λ c p. ground arith)
      (has_digits_only 0 s (omega arith))

decode_exactly-encode :
    (n : ℕ) (s : Str)
    → length s ≡ n
    → is_bytes s ≡ true
    → decode_exactly n (GoLib.Hex.encode s) ≡ ok s
unfolding decode_exactly
decode_exactly-encode n s l b = rw (decode_exactly, decode-encode s b) (ground arith)

split_hex :
    (t : Token)
    → split_on b'.' (encode_hex t) ≡ GoLib.Hex.encode t.id ∷ GoLib.Hex.encode t.secret ∷ []
unfolding encode_hex
split_hex t = rw (
  split_on-append b'.' (GoLib.Hex.encode t.id) (GoLib.Hex.encode t.secret),
  split_on_plain b'.' (GoLib.Hex.encode t.id) (hex_plain t.id),
  split_on_plain b'.' (GoLib.Hex.encode t.secret) (hex_plain t.secret),
)

parse_parts-encode :
    (t : Token)
    → IsToken t
    → parse_parts (GoLib.Hex.encode t.id ∷ GoLib.Hex.encode t.secret ∷ []) ≡ ok t
unfolding parse_parts
parse_parts-encode t h =
    rw
      (
        decode_exactly-encode 6 t.id h.id_length h.id_bytes,
        decode_exactly-encode 26 t.secret h.secret_length h.secret_bytes,
      )
      (ground (arith, length-encode t.id, length-encode t.secret))

-- ParseHex reads back what EncodeHex wrote, for every token with an id of six bytes and a secret
-- of twenty-six.
pub parse_hex-encode_hex : (t : Token) → IsToken t → parse_hex (encode_hex t) ≡ ok t
unfolding parse_hex
parse_hex-encode_hex t h = rw (split_hex t) (parse_parts-encode t h)

decode_exactly-length : (n : ℕ) (s : Str) {b : Str} → decode_exactly n s ≡ ok b → length b ≡ n
unfolding decode_exactly
decode_exactly-length n s h = ground arith

parse_parts_lengths :
    (parts : List Str) {t : Token}
    → parse_parts parts ≡ ok t
    → (length t.id ≡ 6) × (length t.secret ≡ 26)
unfolding parse_parts
parse_parts_lengths [] h = cc
parse_parts_lengths (a ∷ []) h = cc
parse_parts_lengths (a ∷ b ∷ c ∷ rest) h = cc
parse_parts_lengths (a ∷ b ∷ []) h =
    grind (arith, decode_exactly-length 6 a, decode_exactly-length 26 b)

decode_exactly_error :
    (n : ℕ) (s : Str) {e : Error} → decode_exactly n s ≡ err e → e ≡ malformed_token
unfolding decode_exactly
decode_exactly_error n s h = ground arith

parse_parts_error : (parts : List Str) {e : Error} → parse_parts parts ≡ err e → e ≡ malformed_token
unfolding parse_parts
parse_parts_error [] h = ground arith
parse_parts_error (a ∷ []) h = ground arith
parse_parts_error (a ∷ b ∷ c ∷ rest) h = ground arith
parse_parts_error (a ∷ b ∷ []) h =
    grind (arith, decode_exactly_error 6 a, decode_exactly_error 26 b)

Result-cases {ℓ} :
    {A : Type ℓ} (r : Result A) → ((a : A) × (r ≡ ok a)) ⊎ ((e : Error) × (r ≡ err e))
Result-cases (ok a) = inl (a, refl)
Result-cases (err e) = inr (e, refl)

-- Every text is either refused by ParseHex as a malformed token, or accepted with an id of six
-- bytes and a secret of twenty-six.
pub parse_hex_total :
    (s : Str)
    → (parse_hex s ≡ err malformed_token)
      ⊎ ((t : Token) × (parse_hex s ≡ ok t) × (length t.id ≡ 6) × (length t.secret ≡ 26))
unfolding parse_hex
parse_hex_total s = elim (Result-cases (parse_hex s)) [
  | inl (t, p) ↦ inr (
    t,
    p,
    (parse_parts_lengths (split_on b'.' s) p).0,
    (parse_parts_lengths (split_on b'.' s) p).1,
  )
  | inr (e, p) ↦ inl (p ∙ ap (λ (x : Error). err x) (parse_parts_error (split_on b'.' s) p))
]

-- A token survives the way into a stored bootstrap token and back.
pub from-to_bootstrap_token :
    (t : Token)
    → is_bytes t.id ≡ true
    → is_bytes t.secret ≡ true
    → from_bootstrap_token (to_bootstrap_token t) ≡ ok t
unfolding from_bootstrap_token to_bootstrap_token
from-to_bootstrap_token t hi hs = rw (decode-encode t.id hi, decode-encode t.secret hs)

module _ (h x sig : Str) (no_dot : has_byte b'.' h ≡ false)
    (no_dot' : has_byte b'.' sig ≡ false) where
  abbrev whole : Str
  whole = h ++ (b'.' ∷ (x ++ (b'.' ∷ sig)))

  last_dot : last_index_byte b'.' whole ≡ some (length (h ++ (b'.' ∷ x)))
  last_dot =
      rw (← append_assoc h (b'.' ∷ x) (b'.' ∷ sig))
        (last_index_byte-append b'.' (h ++ (b'.' ∷ x)) sig no_dot')

  length_dot : length (h ++ (b'.' ∷ [])) ≡ suc (length h)
  length_dot = omega (arith, length-append h (b'.' ∷ []))

  head_of : take (suc (length h)) whole ≡ h ++ (b'.' ∷ [])
  head_of =
      rw (← length_dot, ← append_assoc h (b'.' ∷ []) (x ++ (b'.' ∷ sig)))
        (take-append (h ++ (b'.' ∷ [])) (x ++ (b'.' ∷ sig)))

  tail_of : drop (length (h ++ (b'.' ∷ x))) whole ≡ b'.' ∷ sig
  tail_of =
      rw (← append_assoc h (b'.' ∷ x) (b'.' ∷ sig)) (drop-append (h ++ (b'.' ∷ x)) (b'.' ∷ sig))

  -- Cutting at the two dots and putting `middle` between them.
  splice_lem :
      (middle : Str)
      → splice (index_byte b'.' whole) (last_index_byte b'.' whole) middle whole
        ≡ ok (h ++ (b'.' ∷ (middle ++ (b'.' ∷ sig))))
  unfolding splice
  splice_lem middle =
      rw (index_byte-append b'.' h (x ++ (b'.' ∷ sig)) no_dot, last_dot, head_of, tail_of)
        (ap (λ (s : Str). ok s) (append_assoc h (b'.' ∷ []) (middle ++ (b'.' ∷ sig))))

reattach_lem :
    (h sig payload : Str)
    → has_byte b'.' h ≡ false
    → has_byte b'.' sig ≡ false
    → reattach payload (h ++ (b'.' ∷ b'.' ∷ sig))
      ≡ ok (h ++ (b'.' ∷ (GoLib.Base64.encode payload ++ (b'.' ∷ sig))))
unfolding reattach
reattach_lem h sig payload nh ns =
    let e = splice_lem h [] sig nh ns (GoLib.Base64.encode payload) in rw (reattach, e)

module _ (j : Signer) (c : IsCompact j) where
  open j use {PrivateKey, public, marshal, sign}

  -- If a token is marshalled and signed, SignDetached gives a signature in which nothing stands
  -- between the two dots, and VerifyDetached with the public key rebuilds from it the signed
  -- message, dot by dot, and accepts it.
  pub verify-sign_detached :
      (t : Token) (key : PrivateKey) (payload full : Str)
      → marshal t ≡ ok payload
      → sign payload key ≡ ok full
      → (header : Str) × (signature : Str) × (sign_detached j t (ed25519 key)
          ≡ ok (header ++ (b'.' ∷ b'.' ∷ signature)))
        × (verify_detached j t (header ++ (b'.' ∷ b'.' ∷ signature)) (public key) ≡ ok full)
  unfolding sign_detached verify_detached
  verify-sign_detached t key payload full m s =
      let (h, sg, e, nh, ns) = c.parts payload full key s in
      (
        h,
        sg,
        rw (m, s, e) (splice_lem h (GoLib.Base64.encode payload) sg nh ns []),
        rw (m, reattach_lem h sg payload nh ns, ← e, c.verifies payload full key s),
      )
