-- ===== src/Tokens/Jws.antt =====
-- SignDetached and VerifyDetached of pkg/tokens/token.go.
use opni_monitoring.Prelude.{
  ℕ, suc, Str, Option, none, some, false, [], ◌∷◌, ◌++◌, take, drop, Result, ok, err,
  malformed_token, other, panicked, ◌>>=◌, ◌≡◌,
}
use opni_monitoring.GoLib
use opni_monitoring.GoLib.Split.{has_byte}
use opni_monitoring.GoLib.Index.{index_byte, last_index_byte}
use opni_monitoring.Tokens.{Token}

-- A key handed over as interface{}: an ed25519 private key, or anything else.
pub data SigningKey (K : Type 0) : Type 0 where
  ed25519 : K → SigningKey K
  foreign : SigningKey K

-- github.com/lestrrat-go/jwx/jws with EdDSA, and json.Marshal of a token. `sign` gives the compact
-- serialization: header, payload and signature in base64, joined by dots.
pub record Signer : Type 1 where
  pub PrivateKey : Type 0
  pub PublicKey : Type 0
  pub public : PrivateKey → PublicKey
  pub marshal : Token → Result Str
  pub sign : Str → PrivateKey → Result Str
  pub verify : Str → PublicKey → Result Str

-- The documented behaviour that a round trip rests on: the serialization is compact, and what was
-- signed is verified with the public key and gives the payload back.
pub record IsCompact (j : Signer) : Type 0 where
  pub parts :
      (payload sig : Str) (k : j.PrivateKey)
      → j.sign payload k ≡ ok sig
      → (header : Str) × (signature : Str) × (sig
          ≡ header ++ (b'.' ∷ (GoLib.Base64.encode payload ++ (b'.' ∷ signature))))
        × (has_byte b'.' header ≡ false)
        × (has_byte b'.' signature ≡ false)
  pub verifies :
      (payload sig : Str) (k : j.PrivateKey)
      → j.sign payload k ≡ ok sig
      → j.verify sig (j.public k) ≡ ok payload

-- sig[:first+1] with `middle` and then sig[last:]; an index of -1 is a slice out of range.
unfoldable pub splice : Option ℕ → Option ℕ → Str → Str → Result Str
splice (some first) (some last) middle sig = ok (take (suc first) sig ++ (middle ++ drop last sig))
splice none last middle sig = err panicked
splice (some first) none middle sig = err panicked

-- The check of both indices that comes before the slices.
unfoldable pub reattach : Str → Str → Result Str
unfolding splice
reattach payload sig =
    elim (splice (index_byte b'.' sig) (last_index_byte b'.' sig) (GoLib.Base64.encode payload)
      sig) [ ok full ↦ ok full | err e ↦ err malformed_token ]

module _ (j : Signer) where
  open j use {PrivateKey, PublicKey, marshal, sign, verify}

  unfoldable pub sign_detached : Token → SigningKey PrivateKey → Result Str
  unfolding splice
  sign_detached t foreign = err other
  sign_detached t (ed25519 key) = do
    payload ← marshal t
    sig ← sign payload key
    splice (index_byte b'.' sig) (last_index_byte b'.' sig) [] sig

  unfoldable pub verify_detached : Token → Str → PublicKey → Result Str
  unfolding reattach
  verify_detached t sig key = do
    payload ← marshal t
    full ← reattach payload sig
    checked ← verify full key
    ok full
