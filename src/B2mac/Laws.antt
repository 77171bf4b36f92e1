-- ===== src/B2mac/Laws.antt =====
-- The header Authorization is read back as it was written.
use opni_monitoring.Prelude.{
  Str, str_eq, codes, true, false, [], ◌∷◌, ◌++◌, any, is_empty, append_assoc, Result, ok, err, ◌≡◌,
  refl, sym, ◌∙◌, ap, arith,
}
use opni_monitoring.GoLib
use opni_monitoring.GoLib.Hex.{is_bytes}
use opni_monitoring.GoLib.Base64.{decode-encode, all-encode, any_of_all, is_digit}
use opni_monitoring.GoLib.Text.{trim_left, trim_space, has_prefix, trim_prefix}
use opni_monitoring.B2mac.{
  Uuid, Fields, unquote, encode_auth_header, read_field, read_sides, read_pairs, decode_auth_header,
}
use opni_monitoring.B2mac.Pairs.{
  last_solid, last_solid-append, trim_end, quoted, drop_quote-quoted, is_value, encode_value, pair,
  split_pair, pair_no_comma, split_list,
}

-- What google/uuid documents of String and Parse: the text of a version 4 uuid, of hexadecimal
-- digits and dashes, is read back.
pub record IsUuid (u : Uuid) : Type 0 where
  pub reads_back : (nonce : Str) → u.is_v4 nonce ≡ true → u.parse (u.text nonce) ≡ ok nonce
  pub plain : (nonce : Str) → u.is_v4 nonce ≡ true → is_value (u.text nonce) ≡ true

module _ (u : Uuid) (laws : IsUuid u) where
  open u use {text, is_v4, nil_uuid}

  read_sides_lem :
      (key value : Str) (f : Fields)
      → trim_space key ≡ key
      → any (λ x. str_eq x key) f.found ≡ false
      → read_sides u (key ∷ (b'"' ∷ quoted value) ∷ []) f
        ≡ read_field u key value (record f { found = key ∷ f.found })
  unfolding read_sides unquote
  read_sides_lem key value f trimmed new = rw (drop_quote-quoted value, trimmed, new) refl

  abbrev listed : Str → Str → Str → Str
  listed id nonce mac =
      pair (codes "id") (GoLib.Base64.encode id)
      ++ (b','
          ∷ (pair (codes "nonce") (text nonce)
              ++ (b',' ∷ pair (codes "mac") (GoLib.Base64.encode mac))))

  header_lem :
      (id nonce mac : Str)
      → is_v4 nonce ≡ true
      → encode_auth_header u id nonce mac ≡ ok (codes "MAC " ++ listed id nonce mac)
  unfolding encode_auth_header
  header_lem id nonce mac v4 =
      rw
        (
          v4,
          append_assoc (GoLib.Base64.encode id) (b'"' ∷ []) (
              b','
              ∷ (pair (codes "nonce") (text nonce)
                  ++ (b',' ∷ pair (codes "mac") (GoLib.Base64.encode mac)))),
          append_assoc (text nonce) (b'"' ∷ [])
              (b',' ∷ pair (codes "mac") (GoLib.Base64.encode mac)),
        )
        refl

  listed_solid : (id nonce mac : Str) → last_solid (listed id nonce mac) ≡ true
  listed_solid id nonce mac =
      last_solid-append (pair (codes "id") (GoLib.Base64.encode id)) b','
        (pair (codes "nonce") (text nonce) ++ (b',' ∷ pair (codes "mac") (GoLib.Base64.encode mac)))
      ∙ last_solid-append (b',' ∷ pair (codes "nonce") (text nonce)) b','
          (pair (codes "mac") (GoLib.Base64.encode mac))
      ∙ last_solid-append (b',' ∷ (codes "mac" ++ (b'=' ∷ b'"' ∷ GoLib.Base64.encode mac))) b'"' []

  abbrev pub read_fields : Str → Str → Str → Fields
  read_fields id nonce mac = record {
    id = id;
    nonce = nonce;
    mac = mac;
    found = codes "mac" ∷ codes "nonce" ∷ codes "id" ∷ [];
  }

  read_pairs_lem :
      (id nonce mac : Str)
      → is_bytes id ≡ true
      → is_bytes mac ≡ true
      → is_v4 nonce ≡ true
      → read_pairs u
          (pair (codes "id") (GoLib.Base64.encode id)
            ∷ pair (codes "nonce") (text nonce)
            ∷ pair (codes "mac") (GoLib.Base64.encode mac)
            ∷ [])
          (record { id = []; nonce = nil_uuid; mac = []; found = [] })
        ≡ ok (read_fields id nonce mac)
  unfolding read_pairs read_field trim_space str_eq
  read_pairs_lem id nonce mac hi hm v4 =
      rw
        (
          split_pair (codes "id") (GoLib.Base64.encode id) refl (encode_value id hi),
          read_sides_lem (codes "id") (GoLib.Base64.encode id)
              (record { id = []; nonce = nil_uuid; mac = []; found = [] }) refl refl,
          decode-encode id hi,
          split_pair (codes "nonce") (text nonce) refl (laws.plain nonce v4),
          read_sides_lem (codes "nonce") (text nonce)
              (record { id = id; nonce = nil_uuid; mac = []; found = codes "id" ∷ [] }) refl refl,
          laws.reads_back nonce v4,
          v4,
          split_pair (codes "mac") (GoLib.Base64.encode mac) refl (encode_value mac hm),
          read_sides_lem (codes "mac") (GoLib.Base64.encode mac)
              (record { id = id; nonce = nonce; mac = []; found = codes "nonce" ∷ codes "id" ∷ [] })
              refl refl,
          decode-encode mac hm,
        )
        refl

  encoded_v4 :
      (id nonce mac header : Str)
      → encode_auth_header u id nonce mac ≡ ok header
      → is_v4 nonce ≡ true
  unfolding encode_auth_header
  encoded_v4 id nonce mac header h = ground arith

  trimmed_listed :
      (id nonce mac : Str)
      → trim_space (trim_prefix (codes "MAC " ++ listed id nonce mac) (codes "MAC"))
        ≡ listed id nonce mac
  unfolding trim_space trim_left trim_prefix has_prefix
  trimmed_listed id nonce mac = trim_end (listed id nonce mac) (listed_solid id nonce mac)

  decode_listed :
      (id nonce mac : Str)
      → is_bytes id ≡ true
      → is_bytes mac ≡ true
      → is_v4 nonce ≡ true
      → is_empty id ≡ false
      → is_empty mac ≡ false
      → str_eq nonce nil_uuid ≡ false
      → decode_auth_header u (codes "MAC " ++ listed id nonce mac) ≡ ok (read_fields id nonce mac)
  unfolding decode_auth_header has_prefix
  decode_listed id nonce mac hi hm v4 ni nm nn =
      rw
        (
          trimmed_listed id nonce mac,
          split_list (pair (codes "id") (GoLib.Base64.encode id))
              (pair (codes "nonce") (text nonce)) (pair (codes "mac") (GoLib.Base64.encode mac))
              (pair_no_comma (codes "id") (GoLib.Base64.encode id) refl (encode_value id hi))
              (pair_no_comma (codes "nonce") (text nonce) refl (laws.plain nonce v4))
              (pair_no_comma (codes "mac") (GoLib.Base64.encode mac) refl (encode_value mac hm)),
          read_pairs_lem id nonce mac hi hm v4,
          ni,
          nm,
          nn,
        )
        refl

  -- DecodeAuthHeader reads back the id, the nonce and the digest that EncodeAuthHeader wrote, if
  -- neither the id nor the digest is empty and the nonce is not zero.
  pub decode-encode_auth_header :
      (id nonce mac header : Str)
      → is_bytes id ≡ true
      → is_bytes mac ≡ true
      → is_empty id ≡ false
      → is_empty mac ≡ false
      → str_eq nonce nil_uuid ≡ false
      → encode_auth_header u id nonce mac ≡ ok header
      → decode_auth_header u header ≡ ok (read_fields id nonce mac)
  decode-encode_auth_header id nonce mac header hi hm ni nm nn h =
      let v4 = encoded_v4 id nonce mac header h in
      let same : codes "MAC " ++ listed id nonce mac ≡ header =
        ok_same (sym (header_lem id nonce mac v4) ∙ h) in
      ap (λ (s : Str). decode_auth_header u s) (sym same)
      ∙ decode_listed id nonce mac hi hm v4 ni nm nn
    where
      ok_same : {s t : Str} → ◌≡◌ {A = Result Str} (ok s) (ok t) → s ≡ t
      ok_same e = ap (λ (r : Result Str). elim r [ ok x ↦ x | err y ↦ [] ]) e
