-- ===== src/Prelude/Faults.antt =====
-- Go's (T, error) results. An `Error` is told apart as `errors.Is` tells it apart: by the sentinel
-- that it wraps. The texts that fmt.Errorf puts around a sentinel are not kept.
use mathlib.Core.Path.{◌≡◌, refl}
use Prim.Native.Nat.{ℕ}
use mathlib.Core.Bool.{Bool, true, false}

pub data Error : Type 0 where
  -- pkg/validation/validation.go
  missing_required_field invalid_value read_only_field : Error
  invalid_label_name invalid_label_value invalid_id invalid_subject_name : Error
  -- pkg/validation/error.go: a ValidationError made by Errorf, which wraps no sentinel
  validation_error : Error
  -- pkg/storage/errors.go and the retry sentinel of pkg/storage/etcd/etcd.go
  not_found retry_err : Error
  -- pkg/tokens/token.go, pkg/pkp/pin.go, pkg/pkp/tls.go
  malformed_token : Error
  missing_algorithm unsupported_algorithm malformed_pin no_pins cert_validation_failed : Error
  -- pkg/capabilities
  unknown_capability backend_not_found backend_already_exists : Error
  -- pkg/auth/middleware.go
  invalid_middleware_name middleware_already_exists nil_middleware middleware_not_found : Error
  -- pkg/ident/ident.go
  invalid_provider_name provider_already_exists nil_provider provider_not_found : Error
  -- what IsNotFound and IsConflict of k8s.io/apimachinery/pkg/api/errors recognize
  object_not_found object_conflict : Error
  -- pkg/ecdh/ecdh.go
  invalid_peer_type : Error
  -- pkg/bootstrap/client.go
  bootstrap_failed no_valid_signature no_token : Error
  -- an unnamed errors.New of the code, and an error of code outside the repository
  other : Error
  -- a run-time panic of the code
  panicked : Error
  external : ℕ → Error

pub data Result {ℓ} (A : Type ℓ) : Type ℓ where
  ok : A → Result A
  err : Error → Result A

-- err == nil
abbrev pub is_ok {ℓ} : {A : Type ℓ} → Result A → Bool
is_ok (ok value) = true
is_ok (err fault) = false

-- errors.Is(err, ErrNotFound)
abbrev pub is_not_found : Error → Bool
is_not_found not_found = true
is_not_found _ = false

-- if !test { return fault }
abbrev pub guard : Bool → Error → Result (Unit {0})
guard test fault = elim test [ true ↦ ok tt | false ↦ err fault ]

-- if err != nil { return err }, and on with the value
module _ {ℓ κ} {A : Type ℓ} {B : Type κ} where
  infixl 5 ◌>>=◌ ◌>>◌
  abbrev pub ◌>>=◌ : Result A → (A → Result B) → Result B
  ◌>>=◌ (err fault) rest = err fault
  ◌>>=◌ (ok value) rest = rest value

  abbrev pub ◌>>◌ : Result A → Result B → Result B
  first >> second = first >>= λ _. second

  -- If a chain succeeds then so did its first part, and the rest from what that gave.
  pub >>=-ok :
      (first : Result A) (rest : A → Result B) {b : B}
      → (first >>= rest) ≡ ok b
      → (value : A) × (first ≡ ok value) × (rest value ≡ ok b)
  >>=-ok (err fault) rest e = cc
  >>=-ok (ok value) rest e = (value, refl, e)

pub ok_injective {ℓ} : {A : Type ℓ} {x y : A} → ◌≡◌ {A = Result A} (ok x) (ok y) → x ≡ y
ok_injective e = cc

-- The only value of a call that gives none.
pub unit_ok : {r : Result (Unit {0})} (u : Unit {0}) → r ≡ ok u → r ≡ ok tt
unit_ok tt e = e
