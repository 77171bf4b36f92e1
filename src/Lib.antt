-- ===== src/Lib.antt =====
-- opni-monitoring: the core of its gateway.
--
-- The gateway keeps clusters, bootstrap tokens, roles, role bindings and keyrings in a store (etcd
-- or Kubernetes). A new cluster joins by HTTP: it fetches detached signatures of the tokens that the
-- server knows (/bootstrap/join), recognizes its own token's, and sends back the whole signed
-- token with its public key (/bootstrap/auth); both sides derive shared keys from the exchange.
-- Later requests of the cluster carry a digest by a shared key, which a middleware checks. Roles
-- and bindings say which subjects may see which clusters, by id or by label. A user's request is
-- authenticated by OpenID, authorized by those roles, and forwarded to Cortex with the ids of the
-- clusters that it may see in a header. The management API reads and changes the same stores.
--
-- Modules, and the code that each is about:
--   Prelude        byte strings, Boolean tests, maps with string keys, errors and results
--   Exec           calls that read and change a state and may fail
--   GoLib          strings, path, encoding/hex and encoding/base64 of Go, where they are used
--   Validation     pkg/validation/validation.go: ids, labels and subjects
--   Core           pkg/core: messages as records, accessors, comparators, Validate
--   Tokens         pkg/tokens: EncodeHex, ParseHex, SignDetached, VerifyDetached, conversions
--   Storage        pkg/storage: selection, mutators, the RBAC provider, taints, the store
--                  interfaces, the composite backend
--   Etcd           pkg/storage/etcd: the stores' operations over an etcd client
--   Crds           pkg/storage/crds: the same operations over a Kubernetes client
--   Management     pkg/management: the handlers of tokens, clusters and RBAC, WatchClusters
--   Pkp            pkg/pkp: pins of public keys and the check of a TLS connection
--   Keyring        pkg/keyring: keys by type, merging, the JSON form
--   Ecdh           pkg/ecdh: DeriveSharedSecret
--   B2mac          pkg/b2mac: keyed digests and the header that carries them
--   Auth           pkg/auth: the middleware that authenticates clusters, the registry by name
--   OpenId         pkg/auth/openid: the middleware that authenticates users, its cache
--   Ident          pkg/ident/ident.go: the registry of identity providers
--   Http           requests, pkg/rbac (the authorizing middleware), pkg/util/codecs.go
--   Cortex         plugins/cortex/pkg/cortex: the middlewares in front of Cortex; Aggregation,
--                  the rules of several tenants (aggregation.go)
--   Gateway        pkg/gateway/api.go: the routes that plugins may take
--   Rules          pkg/rules: the notifier of rule updates, behind its wait for a first channel;
--                  the finder of Prometheus rules
--   Capabilities   pkg/capabilities: the backends that install capabilities (store.go); Template,
--                  the arguments of installer templates (template.go)
--   Bootstrap      pkg/bootstrap: the two handlers of ServerConfig over the stores' interfaces; Client,
--                  Bootstrap of ClientConfig over an exchange with the server (Transport)
--   Examples       small runs, and the theorems at concrete inputs
-- A child module Laws, or one named for what it shows, holds proofs. The bootstrap handlers take
-- the stores as a record of operations (Bootstrap.Stores), as ServerConfig does.
--
-- Conventions. A Go name handleBootstrapAuth is handle_bootstrap_auth. A string or a []byte is the
-- list of its bytes. A pointer to a message that may be nil is an Option where the code tests it.
-- An error is its kind: the sentinel that the callers compare with, without its text. A panic, a
-- nil dereference and the end of the process by a fatal log are the error `panicked`, or the
-- response `crashed` in a handler. What was done to the store before a failure stays done. A map
-- is an association list, and where the code ranges over one the order is an argument or the
-- theorem holds of every order. uint64 counters wrap modulo 2^64. All loops are structural
-- recursion; no fuel is used. The retry loop of an update belongs to a library.
--
-- Parameters, with their documented behaviour as records of laws: the etcd client (Client, IsEtcd,
-- with the version and the lease of a key), protojson (Codec, IsCodec), client-go's
-- retry.OnError (Retry, IsRetry), jws and json of tokens (Signer, IsCompact), x25519 and blake2b
-- (Crypto), keyed blake2b (Blake2b), uuids (Uuid, IsUuid), x509 (Certificates), the Kubernetes
-- client (Resource, IsResource, with the version of an object), jwx (Jwx), protobuf durations
-- (Durations), cmp.Equal of rule groups, and fmt.Sprint and the provider's answers for OpenID, and
-- the exchange of a joining client (Transport), the forwarder of the
-- aggregator (Upstream), the lists and parsers of the rule finder, and json. Other clients may
-- write to etcd while a Get or a transaction runs: its laws speak only of the key that it reads or
-- writes. A Put and a Delete leave the other keys as they are.
--
-- Simplifications. strings.TrimSpace trims ASCII white space only. SubjectAccess and the taints
-- see one state of the store during a request. time.Duration is in whole seconds. Contexts with
-- their time limits, logging and metrics are left out. The names of HTTP headers are compared as
-- they stand. Of a Kubernetes object the name, the labels, the creation time, the version and the
-- payload are kept, and it has a payload. Calls that a lock keeps apart run one after the other;
-- the collection of an expired token is started, as a name in a list, and its call is a definition
-- of its own.
--
-- Not modelled: the HTTP and gRPC libraries, the operator, the agent, the forwarders, plugin
-- transport, configuration, the command line, and generated code.
pub mod Prelude
pub mod GoLib
pub mod Validation
pub mod Core
pub mod Tokens
pub mod Storage
pub mod Exec
pub mod Pkp
pub mod Keyring
pub mod Ecdh
pub mod Capabilities
pub mod B2mac
pub mod Auth
pub mod Http
pub mod Cortex
pub mod OpenId
pub mod Bootstrap
pub mod Etcd
pub mod Crds
pub mod Management
pub mod Gateway
pub mod Rules
pub mod Ident
pub mod Examples
