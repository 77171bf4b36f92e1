-- ===== src/Management/Requests.antt =====
-- pkg/management/validation.go. google.protobuf.Duration is a parameter: its CheckValid and
-- AsDuration; so is json.Valid.
use opni_monitoring.Prelude.{
  ℕ, ◌^◌, Str, Assoc, Option, none, some, Bool, not, ◌||◌, List, [], ◌==◌, leb, is_empty, Result,
  err, guard, ◌>>◌, missing_required_field, invalid_value,
}
use opni_monitoring.Core.Types.{Reference, TokenCapability, LabelSelector}
use opni_monitoring.Core.Validate.{
  each, validate_optional, validate_selector, validate_match_options, validate_reference,
  validate_token_capability,
}
use opni_monitoring.Validation.{validate_labels}

pub record CreateBootstrapTokenRequest (D : Type 0) : Type 0 where
  pub ttl : Option D
  pub labels : Assoc Str
  pub capabilities : List TokenCapability

pub record ListClustersRequest : Type 0 where
  pub match_labels : Option LabelSelector
  pub match_options : ℕ

pub record EditClusterRequest : Type 0 where
  pub cluster : Option Reference
  pub labels : Assoc Str

pub record WatchClustersRequest : Type 0 where
  pub known_clusters : Option (List Reference)

-- durationpb: a nil duration has these methods too. A time.Duration is an int64.
pub record Durations (D : Type 0) : Type 0 where
  pub is_valid : Option D → Bool
  pub as_duration : Option D → ℕ

-- r.GetTtl().AsDuration() <= 0
abbrev pub is_positive : ℕ → Bool
is_positive d = not (d == 0 || leb (2 ^ 63) d)

unfoldable pub validate_create_token :
    {D : Type 0} → Durations D → CreateBootstrapTokenRequest D → Result (Unit {0})
unfolding each
validate_create_token durations r = do
  guard (durations.is_valid r.ttl) invalid_value
  guard (is_positive (durations.as_duration r.ttl)) invalid_value
  validate_labels r.labels
  each validate_token_capability r.capabilities

unfoldable pub validate_list_clusters : ListClustersRequest → Result (Unit {0})
unfolding validate_optional
validate_list_clusters r = do
  validate_optional validate_selector r.match_labels
  validate_match_options r.match_options

unfoldable pub validate_edited : Option Reference → Result (Unit {0})
validate_edited none = err missing_required_field
validate_edited (some ref) = validate_reference ref

unfoldable pub validate_edit_cluster : EditClusterRequest → Result (Unit {0})
unfolding validate_edited
validate_edit_cluster r = do validate_edited r.cluster; validate_labels r.labels

-- r.GetKnownClusters().GetItems()
abbrev pub known_items : Option (List Reference) → List Reference
known_items none = []
known_items (some items) = items

unfoldable pub validate_watch_clusters : WatchClustersRequest → Result (Unit {0})
unfolding each
validate_watch_clusters r = each validate_reference (known_items r.known_clusters)

-- UpdateConfigRequest, as the JSON of its documents
unfoldable pub validate_update_config : (Str → Bool) → List Str → Result (Unit {0})
unfolding each
validate_update_config json_valid documents = do
  guard (not (is_empty documents)) missing_required_field
  each (λ doc. guard (json_valid doc) invalid_value) documents
