-- ===== src/Examples/Texts.antt =====
-- Ids, labels, tokens and pins.
use opni_monitoring.Prelude.{
  Str, codes, Assoc, true, false, [], ◌∷◌, ◌++◌, all, length, ok, err, is_ok, other,
  malformed_token, ◌==◌, ◌≡◌, ◌↔◌, ◌≤◌, ◌⊎◌, refl, str_eq, str_eq_sound, if◌then◌else◌, arith,
}
use opni_monitoring.GoLib
use opni_monitoring.Validation.{validate_id, validate_labels, is_id_char}
use opni_monitoring.Validation.Laws.{validate_id_iff, is_ok-validate_labels}
use opni_monitoring.Tokens.{Token, parse_hex, encode_hex}
use opni_monitoring.Tokens.Jws.{Signer, IsCompact, ed25519, sign_detached, verify_detached}
use opni_monitoring.Tokens.Laws.{
  IsToken, parse_hex-encode_hex, parse_hex_total, verify-sign_detached,
}
use opni_monitoring.Pkp.{PublicKeyPin, alg_sha256}

abbrev cluster_name : Str
cluster_name = codes "edge-1.(eu)"

validate_id_iff_example : (validate_id cluster_name ≡ ok tt) ↔ (
    (1 ≤ length cluster_name)
    × (length cluster_name ≤ 128)
    × (all is_id_char cluster_name ≡ true)
    × (all (λ c. b'.' == c) cluster_name ≡ false))
validate_id_iff_example = validate_id_iff cluster_name

abbrev some_labels : Assoc Str
some_labels = (codes "region", codes "eu") ∷ (codes "-bad", codes "x") ∷ []

labels_refused : is_ok (validate_labels some_labels) ≡ false
unfolding validate_labels
labels_refused = is_ok-validate_labels some_labels

abbrev pub some_token : Token
some_token = record { id = codes "abcdef"; secret = codes "abcdefghijklmnopqrstuvwxyz" }

some_token-IsToken : IsToken some_token
some_token-IsToken = record {
  id_length = refl;
  secret_length = refl;
  id_bytes = refl;
  secret_bytes = refl;
}

parse_hex-encode_hex_example : parse_hex (encode_hex some_token) ≡ ok some_token
parse_hex-encode_hex_example = parse_hex-encode_hex some_token some_token-IsToken

abbrev short_text : Str
short_text = codes "6162.63"

parse_hex_total_example :
    (parse_hex short_text ≡ err malformed_token)
    ⊎ ((t : Token) × (parse_hex short_text ≡ ok t) × (length t.id ≡ 6) × (length t.secret ≡ 26))
parse_hex_total_example = parse_hex_total short_text

abbrev some_pin : PublicKeyPin
some_pin = record { algorithm = alg_sha256; fingerprint = codes "0123456789abcdef" }

-- A signer that knows one payload.
abbrev pub known_payload : Str
known_payload = codes "hi"

abbrev known_signature : Str
known_signature = codes "h" ++ (b'.' ∷ (GoLib.Base64.encode known_payload ++ (b'.' ∷ codes "s")))

abbrev pub toy_signer : Signer
toy_signer = record {
  PrivateKey = Unit {0};
  PublicKey = Unit {0};
  public = λ k. k;
  marshal = λ t. ok known_payload;
  sign = λ payload k. if str_eq payload known_payload then ok known_signature else err other;
  verify = λ sig k. ok known_payload;
}

signed_known :
    (payload sig : Str)
    → (if str_eq payload known_payload then ok known_signature else err other) ≡ ok sig
    → (payload ≡ known_payload) × (sig ≡ known_signature)
signed_known payload sig h = ground (arith, str_eq_sound payload known_payload)

toy_signer-IsCompact : IsCompact toy_signer
toy_signer-IsCompact = record {
  parts = λ payload sig k h.
      let (p, s) = signed_known payload sig h in (codes "h", codes "s", rw (p, s) refl, refl, refl);
  verifies = λ payload sig k h. let (p, s) = signed_known payload sig h in rw p refl;
}

verify-sign_detached_example :
    (header : Str) × (signature : Str) × (sign_detached toy_signer some_token (ed25519 tt)
      ≡ ok (header ++ (b'.' ∷ b'.' ∷ signature)))
    × (verify_detached toy_signer some_token (header ++ (b'.' ∷ b'.' ∷ signature)) tt
        ≡ ok known_signature)
unfolding str_eq
verify-sign_detached_example =
    verify-sign_detached toy_signer toy_signer-IsCompact some_token tt known_payload known_signature
      refl refl
