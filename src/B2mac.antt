-- ===== src/B2mac.antt =====
-- pkg/b2mac: keyed digests of a payload and the header Authorization that carries one. The nonce
-- of google/uuid is its 16 bytes.
pub mod Pairs
pub mod Laws
use opni_monitoring.Prelude.{
  Str, str_eq, codes, Bool, not, ◌||◌, ◌==◌, List, [], ◌∷◌, ◌++◌, any, is_empty, if◌then◌else◌,
  Result, ok, err, other, guard, ◌>>=◌, ◌>>◌,
}
use opni_monitoring.GoLib
use opni_monitoring.GoLib.Split.{split_on}
use opni_monitoring.GoLib.Text.{trim_space, has_prefix, trim_prefix}

-- github.com/google/uuid: Parse, String, a test of Version and Variant, and Nil
pub record Uuid : Type 0 where
  pub parse : Str → Result Str
  pub text : Str → Str
  pub is_v4 : Str → Bool
  pub nil_uuid : Str

-- golang.org/x/crypto/blake2b: New512 with a key, and Sum of what was written
pub record Blake2b : Type 0 where
  pub mac_512 : Str → Str → Result Str

-- New512, with the nonce that uuid.New made
unfoldable pub new_512 : Blake2b → Str → Str → Str → Str → Result (Str × Str)
new_512 b nonce id payload key = do sum ← b.mac_512 key (id ++ (nonce ++ payload)); ok (nonce, sum)

unfoldable pub verify : Blake2b → Str → Str → Str → Str → Str → Result (Unit {0})
verify b mac id nonce payload key = do
  sum ← b.mac_512 key (id ++ (nonce ++ payload))
  guard (str_eq sum mac) other

-- A value in double quotes, which may be empty.
unfoldable pub drop_quote : Str → Result Str
drop_quote [] = err other
drop_quote (c ∷ []) = if c == b'"' then ok [] else err other
drop_quote (c ∷ d ∷ s) = drop_quote (d ∷ s) >>= λ rest. ok (c ∷ rest)

unfoldable pub unquote : Str → Result Str
unfolding drop_quote
unquote [] = err other
unquote (c ∷ s) = if c == b'"' then drop_quote s else err other

-- The results of DecodeAuthHeader as its loop fills them, with the keys found.
pub record Fields : Type 0 where
  pub id : Str
  pub nonce : Str
  pub mac : Str
  pub found : List Str

module _ (u : Uuid) where
  open u use {parse, text, is_v4, nil_uuid}

  unfoldable pub encode_auth_header : Str → Str → Str → Result Str
  encode_auth_header id nonce mac =
      if not (is_v4 nonce)
      then err other
      else ok (
          codes "MAC id=\""
          ++ (GoLib.Base64.encode id
              ++ (codes "\",nonce=\""
                  ++ (text nonce
                      ++ (codes "\",mac=\"" ++ (GoLib.Base64.encode mac ++ codes "\""))))))

  -- The cases of the switch over the key.
  unfoldable pub read_field : Str → Str → Fields → Result Fields
  read_field key value f =
      if str_eq key (codes "id")
      then (GoLib.Base64.decode value >>= λ id. ok (record f { id = id }))
      else if str_eq key (codes "nonce")
      then (parse value >>= λ nonce.
          if is_v4 nonce then ok (record f { nonce = nonce }) else err other)
      else if str_eq key (codes "mac")
      then (GoLib.Base64.decode value >>= λ mac. ok (record f { mac = mac }))
      else err other

  -- One round of the loop, with the two sides of the pair.
  unfoldable pub read_sides : List Str → Fields → Result Fields
  unfolding unquote read_field
  read_sides (k ∷ v ∷ []) f = do
    value ← unquote v
    guard (not (any (λ x. str_eq x (trim_space k)) f.found)) other
    read_field (trim_space k) value (record f { found = trim_space k ∷ f.found })
  read_sides _ f = err other

  unfoldable pub read_pairs : List Str → Fields → Result Fields
  unfolding read_sides
  read_pairs [] f = ok f
  read_pairs (pair ∷ pairs) f = read_sides (split_on b'=' pair) f >>= read_pairs pairs

  abbrev pub no_fields : Fields
  no_fields = record { id = []; nonce = nil_uuid; mac = []; found = [] }

  -- The tests behind the loop.
  abbrev pub check_fields : Fields → Result Fields
  check_fields f =
      if is_empty f.id || str_eq f.nonce nil_uuid || is_empty f.mac then err other else ok f

  unfoldable pub decode_auth_header : Str → Result Fields
  unfolding read_pairs
  decode_auth_header header =
      if not (has_prefix header (codes "MAC "))
      then err other
      else read_pairs (split_on b',' (trim_space (trim_prefix header (codes "MAC")))) no_fields
        >>= check_fields

  -- NewEncodedHeader
  unfoldable pub new_encoded_header : Blake2b → Str → Str → Str → Str → Result Str
  unfolding new_512 encode_auth_header
  new_encoded_header b nonce id payload key = do
    made ← new_512 b nonce id payload key
    encode_auth_header id made.0 made.1
