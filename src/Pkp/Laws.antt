-- ===== src/Pkp/Laws.antt =====
-- Pins survive their text form, and a connection is accepted exactly when a pinned certificate
-- stands in a chain of valid signatures.
use opni_monitoring.Prelude.{
  Str, str_eq, str_eq_iff, str_eq_sound, Bool-cases, inl, inr, Bool, true, false, ◌&&◌, List, [],
  ◌∷◌, ◌==◌, if◌then◌else◌, any, all, ok, err, is_ok, ◌≡◌, refl, arith, cert_validation_failed,
}
use opni_monitoring.GoLib
use opni_monitoring.GoLib.Hex.{is_bytes}
use opni_monitoring.GoLib.Base64.{decode-encode, all-encode, any_of_all, is_digit}
use opni_monitoring.GoLib.Split.{has_byte, split_on-append, split_on_plain}
use opni_monitoring.Pkp.{
  PublicKeyPin, Certificates, is_algorithm, alg_sha256, alg_b2b256, validate, encode, equal, pin_of,
  decode_fingerprint, decode_parts, decode_pin, new_pin, check_chain, pin_matches, find_pin,
  find_pinned, verify_connection, validate_pins, tls_config,
}

algorithm_plain : (a : Str) → is_algorithm a ≡ true → has_byte b':' a ≡ false
algorithm_plain a h = elim (Bool-cases (str_eq a alg_sha256)) [
  | inl e ↦ rw (str_eq_sound a alg_sha256 e)
  | inr e ↦ rw (str_eq_sound a alg_b2b256 (ground arith))
]

decode_fingerprint-encode :
    (fp : Str) → is_bytes fp ≡ true → decode_fingerprint (GoLib.Base64.encode fp) ≡ ok fp
unfolding decode_fingerprint
decode_fingerprint-encode fp h = let e = decode-encode fp h in rw (decode_fingerprint, e)

pin_of_algorithm :
    (a fp : Str)
    → is_algorithm a ≡ true
    → pin_of a fp ≡ ok (record { algorithm = a; fingerprint = fp })
unfolding pin_of
pin_of_algorithm a fp h = ground (arith, str_eq_iff a alg_sha256, str_eq_iff a alg_b2b256)

-- DecodePin reads back what Encode wrote, for every pin with a known algorithm.
pub decode_pin-encode :
    (p : PublicKeyPin)
    → is_algorithm p.algorithm ≡ true
    → is_bytes p.fingerprint ≡ true
    → decode_pin (encode p) ≡ ok p
unfolding decode_pin encode decode_parts
decode_pin-encode p ha hb =
    rw
      (
        split_on-append b':' p.algorithm (GoLib.Base64.encode p.fingerprint),
        split_on_plain b':' p.algorithm (algorithm_plain p.algorithm ha),
        split_on_plain b':' (GoLib.Base64.encode p.fingerprint) (
            any_of_all is_digit (λ c. c == b':') (GoLib.Base64.encode p.fingerprint)
              (λ c d. ground arith) (all-encode p.fingerprint hb)),
        decode_fingerprint-encode p.fingerprint hb,
      )
      (pin_of_algorithm p.algorithm p.fingerprint ha)

module _ (x : Certificates) where
  open x use {Certificate, sha256, blake2b256, check_signature_from}

  -- The digest of a certificate's public key under an algorithm.
  abbrev pub digest : Str → Certificate → Str
  digest alg cert = if str_eq alg alg_sha256 then sha256 cert else blake2b256 cert

  abbrev pub is_pinned : PublicKeyPin → Certificate → Bool
  is_pinned pin cert = str_eq pin.fingerprint (digest pin.algorithm cert)

  abbrev pub is_chain : List Certificate → Bool
  is_chain [] = true
  is_chain (cert ∷ []) = true
  is_chain (cert ∷ next ∷ rest) = is_ok (check_signature_from cert next) && is_chain (next ∷ rest)

  check_chain_lem :
      (certs : List Certificate)
      → check_chain x certs ≡ (if is_chain certs then ok tt else err cert_validation_failed)
  unfolding check_chain
  check_chain_lem [] = refl
  check_chain_lem (cert ∷ []) = refl
  check_chain_lem (cert ∷ next ∷ rest) = ground (arith, check_chain_lem (next ∷ rest))

  abbrev pub known : PublicKeyPin → Bool
  known p = is_algorithm p.algorithm

  pin_matches_lem :
      (p : PublicKeyPin) (cert : Certificate)
      → known p ≡ true
      → pin_matches x p cert ≡ ok (is_pinned p cert)
  unfolding pin_matches new_pin equal
  pin_matches_lem p cert h =
      ground (arith, str_eq_iff p.algorithm alg_sha256, str_eq_iff p.algorithm alg_b2b256)

  find_pin_lem :
      (pins : List PublicKeyPin) (cert : Certificate)
      → all known pins ≡ true
      → find_pin x pins cert ≡ ok (any (λ p. is_pinned p cert) pins)
  unfolding find_pin
  find_pin_lem [] cert h = refl
  find_pin_lem (p ∷ pins) cert h = ground (arith, pin_matches_lem p cert, find_pin_lem pins cert)

  find_pinned_lem :
      (pins : List PublicKeyPin) (certs : List Certificate)
      → all known pins ≡ true
      → find_pinned x pins certs ≡ ok (any (λ cert. any (λ p. is_pinned p cert) pins) certs)
  unfolding find_pinned
  find_pinned_lem pins [] h = refl
  find_pinned_lem pins (cert ∷ certs) h =
      ground (arith, find_pin_lem pins cert h, find_pinned_lem pins certs)

  validate_pins-known :
      (pins copied : List PublicKeyPin)
      → validate_pins pins ≡ ok copied
      → (copied ≡ pins) × (all known pins ≡ true)
  unfolding validate_pins validate
  validate_pins-known [] copied h = (ground arith, refl)
  validate_pins-known (p ∷ pins) copied h = grind (arith, validate_pins-known pins)

  tls_config-known :
      (pins copied : List PublicKeyPin)
      → tls_config pins ≡ ok copied
      → (copied ≡ pins) × (all known pins ≡ true)
  unfolding tls_config
  tls_config-known [] copied h = cc
  tls_config-known (p ∷ pins) copied h = validate_pins-known (p ∷ pins) copied h

  -- If TLSConfig accepts the pins, its check of a peer passes exactly when each certificate is
  -- signed by the next one and some certificate's public key has the digest of some pin; in every
  -- other case it fails as a certificate validation failure.
  pub verify_connection_lem :
      (pins copied : List PublicKeyPin) (certs : List Certificate)
      → tls_config pins ≡ ok copied
      → verify_connection x copied certs ≡ (
          if is_chain certs && any (λ cert. any (λ p. is_pinned p cert) pins) certs
          then ok tt
          else err cert_validation_failed)
  unfolding verify_connection
  verify_connection_lem pins copied certs h =
      let (same, k) = tls_config-known pins copied h in
      rw (same, check_chain_lem certs, find_pinned_lem pins certs k) (ground arith)
