-- ===== src/Tokens.antt =====
-- pkg/tokens: bootstrap tokens, their text forms, and signatures with a detached payload.
pub mod Jws
pub mod Laws
use opni_monitoring.Prelude.{
  ℕ, suc, ◌+◌, Str, codes, Option, none, some, Bool, true, false, not, ◌&&◌, ◌||◌, List, [], ◌∷◌,
  ◌++◌, ◌==◌, if◌then◌else◌, length, take, drop, Result, ok, err, Error, malformed_token, other,
  panicked, ◌>>=◌,
}
use opni_monitoring.GoLib
use opni_monitoring.GoLib.Split.{split_on}
use opni_monitoring.GoLib.Index.{index_byte, last_index_byte}
use opni_monitoring.Core.Types.{BootstrapToken, Reference, empty_token_metadata}

pub record Token : Type 0 where
  pub id : Str
  pub secret : Str

-- NewToken over the digest that sha256.Sum256 gives of the 256 bytes read.
unfoldable pub new_token : Str → Token
new_token sum = record { id = take 6 sum; secret = drop 6 sum }

unfoldable pub encode_hex : Token → Str
encode_hex t = GoLib.Hex.encode t.id ++ (b'.' ∷ GoLib.Hex.encode t.secret)

unfoldable pub hex_id : Token → Str
hex_id t = GoLib.Hex.encode t.id

unfoldable pub hex_secret : Token → Str
hex_secret t = GoLib.Hex.encode t.secret

unfoldable pub reference : Token → Reference
unfolding hex_id
reference t = record { id = hex_id t }

-- hex.Decode into a buffer of `n` bytes, with its error and its count checked.
unfoldable pub decode_exactly : ℕ → Str → Result Str
decode_exactly n s = elim (GoLib.Hex.decode s) [
  | ok bytes ↦ (if length bytes == n then ok bytes else err malformed_token)
  | err e ↦ err malformed_token
]

unfoldable pub parse_parts : List Str → Result Token
unfolding decode_exactly
parse_parts (first ∷ second ∷ []) =
    if not (length first == 12) || not (length second == 52) then err malformed_token else do
      id ← decode_exactly 6 first
      secret ← decode_exactly 26 second
      ok (record { id = id; secret = secret })
parse_parts _ = err malformed_token

unfoldable pub parse_hex : Str → Result Token
unfolding parse_parts
parse_hex s = parse_parts (split_on b'.' s)

-- The buffers have the decoded lengths, so the copies fill them.
unfoldable pub from_bootstrap_token : BootstrapToken → Result Token
from_bootstrap_token t = do
  id ← GoLib.Hex.decode t.token_id
  secret ← GoLib.Hex.decode t.secret
  ok (record { id = id; secret = secret })

unfoldable pub to_bootstrap_token : Token → BootstrapToken
unfolding hex_id hex_secret
to_bootstrap_token t = record {
  token_id = hex_id t;
  secret = hex_secret t;
  metadata = some empty_token_metadata;
}
