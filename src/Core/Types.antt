-- ===== src/Core/Types.antt =====
-- pkg/core/core.proto, and the accessors of pkg/core/metadata.go and pkg/core/reference.go.
-- A message pointer that may be nil is an `Option`; an int64 is its 64-bit pattern.
use opni_monitoring.Prelude.{ℕ, Str, Assoc, Option, none, some, List, []}

pub record Reference : Type 0 where
  pub id : Str

pub record TokenCapability : Type 0 where
  pub kind : Str  -- `type` in the message
  pub reference : Option Reference

pub record BootstrapTokenMetadata : Type 0 where
  pub lease_id : ℕ
  pub ttl : ℕ
  pub usage_count : ℕ
  pub labels : Assoc Str
  pub capabilities : List TokenCapability

pub record BootstrapToken : Type 0 where
  pub token_id : Str
  pub secret : Str
  pub metadata : Option BootstrapTokenMetadata

pub record ClusterCapability : Type 0 where
  pub name : Str

pub record ClusterMetadata : Type 0 where
  pub labels : Assoc Str
  pub capabilities : List ClusterCapability

pub record Cluster : Type 0 where
  pub id : Str
  pub metadata : Option ClusterMetadata

pub record LabelSelectorRequirement : Type 0 where
  pub key : Str
  pub operator : Str
  pub values : List Str

pub record LabelSelector : Type 0 where
  pub match_labels : Assoc Str
  pub match_expressions : List LabelSelectorRequirement

pub record Role : Type 0 where
  pub id : Str
  pub cluster_ids : List Str
  pub match_labels : Option LabelSelector

pub record RoleBinding : Type 0 where
  pub id : Str
  pub role_id : Str
  pub subjects : List Str
  pub taints : List Str

-- The zero values that `&T{}` gives.
abbrev pub empty_token_metadata : BootstrapTokenMetadata
empty_token_metadata = record {
  lease_id = 0;
  ttl = 0;
  usage_count = 0;
  labels = [];
  capabilities = [];
}

abbrev pub empty_cluster_metadata : ClusterMetadata
empty_cluster_metadata = record { labels = []; capabilities = [] }

-- A nil slot of a list of tokens reads as an empty token, as its getters have it.
unfoldable pub slot_token : Option BootstrapToken → BootstrapToken
slot_token none = record { token_id = []; secret = []; metadata = none }
slot_token (some t) = t

-- `t.GetMetadata()` with the nil case filled in by the getters of its fields.
abbrev pub token_metadata : BootstrapToken → BootstrapTokenMetadata
token_metadata t = elim t.metadata [ none ↦ empty_token_metadata | some m ↦ m ]

abbrev pub cluster_metadata : Cluster → ClusterMetadata
cluster_metadata c = elim c.metadata [ none ↦ empty_cluster_metadata | some m ↦ m ]

unfoldable pub token_capabilities : BootstrapToken → List TokenCapability
token_capabilities t = (token_metadata t).capabilities

unfoldable pub cluster_capabilities : Cluster → List ClusterCapability
cluster_capabilities c = (cluster_metadata c).capabilities

unfoldable pub token_labels : BootstrapToken → Assoc Str
token_labels t = (token_metadata t).labels

unfoldable pub cluster_labels : Cluster → Assoc Str
cluster_labels c = (cluster_metadata c).labels

-- `t.Metadata` is allocated first where it is nil.
unfoldable pub set_token_capabilities : List TokenCapability → BootstrapToken → BootstrapToken
set_token_capabilities cs t = record t {
  metadata = some (record (token_metadata t) { capabilities = cs });
}

unfoldable pub set_cluster_capabilities : List ClusterCapability → Cluster → Cluster
set_cluster_capabilities cs c = record c {
  metadata = some (record (cluster_metadata c) { capabilities = cs });
}

unfoldable pub set_token_labels : Assoc Str → BootstrapToken → BootstrapToken
set_token_labels ls t = record t { metadata = some (record (token_metadata t) { labels = ls }) }

unfoldable pub set_cluster_labels : Assoc Str → Cluster → Cluster
set_cluster_labels ls c = record c { metadata = some (record (cluster_metadata c) { labels = ls }) }

abbrev pub cluster_reference : Cluster → Reference
cluster_reference c = record { id = c.id }

abbrev pub token_reference : BootstrapToken → Reference
token_reference t = record { id = t.token_id }

abbrev pub role_reference : RoleBinding → Reference
role_reference rb = record { id = rb.role_id }
