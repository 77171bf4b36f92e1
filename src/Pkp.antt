-- ===== src/Pkp.antt =====
-- pkg/pkp: public key pins, and the check of a connection against them.
pub mod Laws
use opni_monitoring.Prelude.{
  ℕ, Str, str_eq, codes, Option, none, some, Bool, true, false, not, ◌&&◌, ◌||◌, List, [], ◌∷◌,
  ◌++◌, ◌==◌, if◌then◌else◌, length, is_empty, any, Result, ok, err, Error, guard, ◌>>=◌, ◌>>◌,
  missing_algorithm, unsupported_algorithm, malformed_pin, no_pins, cert_validation_failed,
  panicked,
}
use opni_monitoring.GoLib
use opni_monitoring.GoLib.Split.{split_on}

pub record PublicKeyPin : Type 0 where
  pub algorithm : Str
  pub fingerprint : Str

abbrev pub alg_sha256 : Str
alg_sha256 = codes "sha256"

abbrev pub alg_b2b256 : Str
alg_b2b256 = codes "b2b256"

abbrev pub is_algorithm : Str → Bool
is_algorithm a = str_eq a alg_sha256 || str_eq a alg_b2b256

unfoldable pub validate : PublicKeyPin → Result (Unit {0})
validate p = do
  guard (is_algorithm p.algorithm) unsupported_algorithm
  guard (length p.fingerprint == 32) malformed_pin

unfoldable pub encode : PublicKeyPin → Str
encode p = p.algorithm ++ (b':' ∷ GoLib.Base64.encode p.fingerprint)

unfoldable pub equal : PublicKeyPin → PublicKeyPin → Bool
equal p q = str_eq p.algorithm q.algorithm && str_eq p.fingerprint q.fingerprint

-- The text in front of the colon, once the rest is decoded.
unfoldable pub pin_of : Str → Str → Result PublicKeyPin
pin_of alg fp =
    if str_eq alg alg_sha256
    then ok (record { algorithm = alg_sha256; fingerprint = fp })
    else if str_eq alg alg_b2b256
    then ok (record { algorithm = alg_b2b256; fingerprint = fp })
    else err unsupported_algorithm

-- The decoder's error is reported as a malformed pin.
unfoldable pub decode_fingerprint : Str → Result Str
decode_fingerprint s = elim (GoLib.Base64.decode s) [ ok fp ↦ ok fp | err e ↦ err malformed_pin ]

unfoldable pub decode_parts : List Str → Result PublicKeyPin
unfolding pin_of decode_fingerprint
decode_parts [] = err panicked
decode_parts (alg ∷ []) = err missing_algorithm
decode_parts (alg ∷ fp ∷ []) = do bytes ← decode_fingerprint fp; pin_of alg bytes
decode_parts (alg ∷ fp ∷ more ∷ rest) = err malformed_pin

unfoldable pub decode_pin : Str → Result PublicKeyPin
unfolding decode_parts
decode_pin pin = decode_parts (split_on b':' pin)

-- crypto/x509 certificates, with the two digests of their public key info and the check that one
-- is signed by another.
pub record Certificates : Type 1 where
  pub Certificate : Type 0
  pub sha256 : Certificate → Str
  pub blake2b256 : Certificate → Str
  pub check_signature_from : Certificate → Certificate → Result (Unit {0})

module _ (x : Certificates) where
  open x use {Certificate, sha256, blake2b256, check_signature_from}

  -- New
  unfoldable pub new_pin : Certificate → Str → Result PublicKeyPin
  new_pin cert alg =
      if str_eq alg alg_sha256
      then ok (record { algorithm = alg_sha256; fingerprint = sha256 cert })
      else if str_eq alg alg_b2b256
      then ok (record { algorithm = alg_b2b256; fingerprint = blake2b256 cert })
      else err unsupported_algorithm

  -- Each certificate is signed by the next.
  unfoldable pub check_chain : List Certificate → Result (Unit {0})
  check_chain [] = ok tt
  check_chain (cert ∷ []) = ok tt
  check_chain (cert ∷ next ∷ rest) =
      let later = check_chain (next ∷ rest) in
      elim (check_signature_from cert next) [ ok _ ↦ later | err e ↦ err cert_validation_failed ]

  -- pin.Equal(peerCertPin); the pin of an algorithm that New does not know is nil.
  unfoldable pub pin_matches : PublicKeyPin → Certificate → Result Bool
  unfolding new_pin equal
  pin_matches pin cert = elim (new_pin cert pin.algorithm) [
    | ok q ↦ ok (equal pin q)
    | err e ↦ err panicked
  ]

  -- The loop over the pins for one certificate, and over the certificates.
  unfoldable pub find_pin : List PublicKeyPin → Certificate → Result Bool
  unfolding pin_matches
  find_pin [] cert = ok false
  find_pin (pin ∷ pins) cert =
      let later = find_pin pins cert in
      do hit ← pin_matches pin cert; if hit then ok true else later

  unfoldable pub find_pinned : List PublicKeyPin → List Certificate → Result Bool
  unfolding find_pin
  find_pinned pins [] = ok false
  find_pinned pins (cert ∷ certs) =
      let later = find_pinned pins certs in
      do hit ← find_pin pins cert; if hit then ok true else later

  -- VerifyConnection of the configuration that TLSConfig returns.
  unfoldable pub verify_connection : List PublicKeyPin → List Certificate → Result (Unit {0})
  unfolding check_chain find_pinned
  verify_connection pins certs = do
    check_chain certs
    found ← find_pinned pins certs
    guard found cert_validation_failed

unfoldable pub validate_pins : List PublicKeyPin → Result (List PublicKeyPin)
unfolding validate
validate_pins [] = ok []
validate_pins (p ∷ ps) = do validate p; rest ← validate_pins ps; ok (p ∷ rest)

-- TLSConfig: the pins that its VerifyConnection checks, copied.
unfoldable pub tls_config : List PublicKeyPin → Result (List PublicKeyPin)
unfolding validate_pins
tls_config pins = if is_empty pins then err no_pins else validate_pins pins
