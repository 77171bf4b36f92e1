-- ===== src/Ecdh.antt =====
-- pkg/ecdh/ecdh.go: the shared secret of two ephemeral key pairs.
use opni_monitoring.Prelude.{ℕ, Str, ◌++◌, Result, ok, err, invalid_peer_type, ◌>>=◌, ◌≡◌}

pub record EphemeralKeyPair : Type 0 where
  pub private_key : Str
  pub public_key : Str

-- An int outside the two constants is `unknown`.
pub data PeerType : Type 0 where
  client server : PeerType
  unknown : ℕ → PeerType

-- golang.org/x/crypto: scalar multiplication on curve25519 and blake2b-512 with no key.
pub record Crypto : Type 0 where
  pub x25519 : Str → Str → Result Str
  pub blake2b_512 : Str → Str

-- What is hashed behind the x25519 secret.
unfoldable pub key_order : PeerType → Str → Str → Result Str
key_order client ours theirs = ok (theirs ++ ours)
key_order server ours theirs = ok (ours ++ theirs)
key_order (unknown n) ours theirs = err invalid_peer_type

module _ (c : Crypto) where
  open c use {x25519, blake2b_512}

  unfoldable pub derive_shared_secret : EphemeralKeyPair → Str → PeerType → Result Str
  unfolding key_order
  derive_shared_secret ours theirs peer = do
    q ← x25519 ours.private_key theirs
    keys ← key_order peer ours.public_key theirs
    ok (blake2b_512 (q ++ keys))

  -- If the two scalar multiplications agree, as they do for key pairs of the curve, then the
  -- server, which names its peer a client, and the client, which names its peer a server, derive
  -- the same secret or meet the same error.
  pub derive_shared_secret_agrees :
      (server_pair client_pair : EphemeralKeyPair)
      → x25519 server_pair.private_key client_pair.public_key
        ≡ x25519 client_pair.private_key server_pair.public_key
      → derive_shared_secret server_pair client_pair.public_key client
        ≡ derive_shared_secret client_pair server_pair.public_key server
  unfolding derive_shared_secret
  derive_shared_secret_agrees s k h = rw h
