-- ===== src/Bootstrap/Authorization.antt =====
-- Who may change the stores through /bootstrap/auth, and what is answered to everybody else.
use opni_monitoring.Prelude.{
  Str, codes, Bool, false, is_empty, Result, ok, err, Error, ◌≡◌, refl, sym, arith,
}
use mathlib.Core.Path.{subst}
use opni_monitoring.Exec.{Exec}
use opni_monitoring.GoLib.Text.{trim_space, trim_prefix}
use opni_monitoring.Core.Types.{Reference, BootstrapToken, Cluster}
use opni_monitoring.Tokens.{Token, reference}
use opni_monitoring.Tokens.Jws.{Signer}
use opni_monitoring.Ecdh.{Crypto, EphemeralKeyPair}
use opni_monitoring.Bootstrap.{
  AuthRequest, validate_request, Stores, Response, send, crashed, no_body, text, Progress, respond,
  proceed, Handler,
}
use opni_monitoring.Bootstrap.Handler.{
  stop, check, check_result, bind_proceeds, or_respond_proceeds,
}
use opni_monitoring.Bootstrap.Server.{
  token_error, install_error, Plan, HttpRequest, decide_existing, check_existing, derive_keyring,
  authenticate, prepare, execute, final_response, finish, handle_bootstrap_auth,
}
use opni_monitoring.Bootstrap.Permission.{Permitted, decide_existing_permits}
use opni_monitoring.Bootstrap.Refusal.{
  is_success, Refuses, bind_quietly, past_stop, Refuses-bind, Refuses-check, Refuses-check_result,
  Refuses-stop, Refuses-go_on, Refuses-if,
}

-- Reads that leave the store as it is.
pub record ReadsOnly {S : Type 0} (stores : Stores S) : Type 0 where
  pub get_token : (ref : Reference) (s : S) → (stores.get_token ref s).1 ≡ s
  pub get_cluster : (ref : Reference) (s : S) → (stores.get_cluster ref s).1 ≡ s
  pub can_install : (c : Str) (s : S) → (stores.can_install c s).1 ≡ s

token_error_refuses : (e : Error) → is_success (token_error e) ≡ false
token_error_refuses e = ground arith

install_error_refuses : (e : Error) → is_success (install_error e) ≡ false
install_error_refuses e = ground arith

module _ {S : Type 0} (j : Signer) (stores : Stores S) (reads : ReadsOnly stores) where
  open j use {PublicKey, verify}
  open stores use {get_token, get_cluster, can_install}

  decide_existing_refuses :
      (req : AuthRequest) (token : BootstrapToken) (found : Result Cluster) (r : Response)
      → decide_existing j stores req token found ≡ respond r
      → is_success r ≡ false
  unfolding decide_existing
  decide_existing_refuses req token (err e) r h = ground arith
  decide_existing_refuses req token (ok cluster) r h = ground arith

  derive_keyring_refuses :
      (crypto : Crypto) (from_seed : Str → Str) (ekp : EphemeralKeyPair) (req : AuthRequest)
      (r : Response)
      → derive_keyring j stores crypto from_seed ekp req ≡ respond r
      → is_success r ≡ false
  unfolding derive_keyring
  derive_keyring_refuses crypto from_seed ekp req r h = ground arith

  check_existing-Refuses :
      (req : AuthRequest) (token : BootstrapToken) → Refuses (check_existing j stores req token)
  unfolding check_existing
  check_existing-Refuses req token = record {
    quiet = λ s. reads.get_cluster (record { id = req.client_id }) s;
    refuses = λ s r h.
        decide_existing_refuses req token (get_cluster (record { id = req.client_id }) s).0 r h;
  }

  authenticate-Refuses :
      (parse_json : Str → Result Token) (public_key : PublicKey) (authorization : Str)
      → Refuses (authenticate j stores parse_json public_key authorization)
  unfolding authenticate
  authenticate-Refuses parse_json public_key authorization =
      let header : Str = trim_space authorization in
      Refuses-if (is_empty (trim_space header)) (stop (send 401 no_body)) _
        (Refuses-stop (send 401 no_body) refl)
        (Refuses-bind
          (check_result (verify (trim_space (trim_prefix header (codes "Bearer"))) public_key)
            (λ _. send 401 no_body))
          _ (Refuses-check_result _ _ (λ _. refl))
          λ payload.
            Refuses-bind (check_result (parse_json payload) (λ _. crashed)) _
              (Refuses-check_result _ _ (λ _. refl))
              λ token.
                Refuses-check (get_token (reference token)) token_error
                  (reads.get_token (reference token)) token_error_refuses)

  prepare-Refuses :
      (parse_json : Str → Result Token) (public_key : PublicKey) (crypto : Crypto)
      (from_seed : Str → Str) (ekp : EphemeralKeyPair) (http : HttpRequest)
      → Refuses (prepare j stores parse_json public_key crypto from_seed ekp http)
  unfolding prepare
  prepare-Refuses parse_json public_key crypto from_seed ekp http =
      Refuses-bind (authenticate j stores parse_json public_key http.authorization) _
        (authenticate-Refuses parse_json public_key http.authorization)
        λ token.
          Refuses-bind (check_result http.body (λ _. send 400 text)) _
            (Refuses-check_result _ _ (λ _. refl))
            λ req.
              Refuses-bind (check_result (validate_request req) (λ _. send 400 text)) _
                (Refuses-check_result _ _ (λ _. refl))
                λ _.
                  Refuses-bind (check_existing j stores req token) _
                    (check_existing-Refuses req token)
                    λ edit.
                      Refuses-bind (λ s. (derive_keyring j stores crypto from_seed ekp req, s)) _
                        (record {
                          quiet = λ s. refl;
                          refuses = λ s r h. derive_keyring_refuses crypto from_seed ekp req r h;
                        })
                        λ kr.
                          Refuses-bind (check (can_install req.capability) install_error) _
                            (Refuses-check (can_install req.capability) install_error
                              (reads.can_install req.capability) install_error_refuses)
                            λ _. Refuses-go_on _

  -- What must hold of a request before the handler writes.
  pub record Granted (parse_json : Str → Result Token) (public_key : PublicKey) (http : HttpRequest)
      (s : S) (p : Plan) : Type 0 where
    pub payload : Str
    pub sent : Token
    pub verified :
        verify
          (trim_space (trim_prefix (trim_space http.authorization) (codes "Bearer")))
          public_key
        ≡ ok payload
    pub parsed : parse_json payload ≡ ok sent
    pub stored : (get_token (reference sent) s).0 ≡ ok p.token
    pub body : http.body ≡ ok p.request
    pub valid : validate_request p.request ≡ ok tt
    pub existing :
        Permitted p.request p.token
          (get_cluster (record { id = p.request.client_id }) s).0
          p.edit_existing
    pub installable : (can_install p.request.capability s).0 ≡ ok tt

  authenticate_grants :
      (parse_json : Str → Result Token) (public_key : PublicKey) (authorization : Str) (s : S)
      (token : BootstrapToken)
      → (authenticate j stores parse_json public_key authorization s).0 ≡ proceed token
      → (payload : Str) × (sent : Token) × (verify
            (trim_space (trim_prefix (trim_space authorization) (codes "Bearer")))
            public_key
          ≡ ok payload)
        × (parse_json payload ≡ ok sent)
        × ((get_token (reference sent) s).0 ≡ ok token)
  unfolding authenticate
  authenticate_grants parse_json public_key authorization s token h =
      let (payload, verified, h1) =
        bind_proceeds
          (check_result
            (verify (trim_space (trim_prefix (trim_space authorization) (codes "Bearer")))
              public_key)
            (λ _. send 401 no_body))
          _ s
          (past_stop (is_empty (trim_space (trim_space authorization))) (send 401 no_body) _ s h) in
      let (sent, parsed, h2) =
        bind_proceeds (check_result (parse_json payload) (λ _. crashed)) _ s h1 in
      (
        payload,
        sent,
        or_respond_proceeds _ _ verified,
        or_respond_proceeds _ _ parsed,
        or_respond_proceeds _ _ h2,
      )

  check_proceeds :
      {A : Type 0} (m : Exec S A) (f : Error → Response) (s : S) {a : A}
      → (check m f s).0 ≡ proceed a
      → (m s).0 ≡ ok a
  check_proceeds m f s h = or_respond_proceeds (m s).0 f h

  prepare_grants :
      (parse_json : Str → Result Token) (public_key : PublicKey) (crypto : Crypto)
      (from_seed : Str → Str) (ekp : EphemeralKeyPair) (http : HttpRequest) (s : S) (p : Plan)
      → (prepare j stores parse_json public_key crypto from_seed ekp http s).0 ≡ proceed p
      → Granted parse_json public_key http s p
  unfolding prepare check_existing
  prepare_grants parse_json public_key crypto from_seed ekp http s p h =
      let (token, authenticated, h1) =
        bind_quietly (authenticate j stores parse_json public_key http.authorization) _ s
          (authenticate-Refuses parse_json public_key http.authorization) h in
      let (req, body, h2) = bind_proceeds (check_result http.body (λ _. send 400 text)) _ s h1 in
      let (_, valid, h3) =
        bind_proceeds (check_result (validate_request req) (λ _. send 400 text)) _ s h2 in
      let (edit, existing, h4) =
        bind_quietly (check_existing j stores req token) _ s (check_existing-Refuses req token)
          h3 in
      let (kr, _, h5) =
        bind_proceeds (λ s. (derive_keyring j stores crypto from_seed ekp req, s)) _ s h4 in
      let (_, installable, h6) =
        bind_proceeds (check (can_install req.capability) install_error) _ s h5 in
      let same : ◌≡◌ {A = Plan}
          (record { request = req; token = token; keyring = kr; edit_existing = edit }) p =
        cc in
      let (payload, sent, verified, parsed, stored) =
        authenticate_grants parse_json public_key http.authorization s token authenticated in
      subst (Granted parse_json public_key http s) same (record {
        payload = payload;
        sent = sent;
        verified = verified;
        parsed = parsed;
        stored = stored;
        body = or_respond_proceeds _ _ body;
        valid = or_respond_proceeds _ _ valid;
        existing = decide_existing_permits j stores req token _ edit existing;
        installable = check_proceeds (can_install req.capability) install_error s installable;
      })

  -- The outcome of a run of the handler.
  pub data Outcome (parse_json : Str → Result Token) (public_key : PublicKey)
      (ekp : EphemeralKeyPair) (order order' : Bool) (http : HttpRequest) (s : S)
      : Response × S → Type 0 where
    refused :
        (r : Response)
        → is_success r ≡ false
        → Outcome parse_json public_key ekp order order' http s (r, s)
    granted :
        (p : Plan)
        → Granted parse_json public_key http s p
        → Outcome parse_json public_key ekp order order' http s (
          final_response j stores ekp (execute j stores order order' p s).0,
          (execute j stores order order' p s).1,
        )

  finish-Outcome :
      (parse_json : Str → Result Token) (public_key : PublicKey) (ekp : EphemeralKeyPair)
      (order order' : Bool) (http : HttpRequest) (s : S) (q : Progress Plan)
      → ((r : Response) → q ≡ respond r → is_success r ≡ false)
      → ((p : Plan) → q ≡ proceed p → Granted parse_json public_key http s p)
      → Outcome parse_json public_key ekp order order' http s (finish j stores order order' ekp q s)
  unfolding finish
  finish-Outcome parse_json public_key ekp order order' http s (respond r) hr hp =
      refused r (hr r refl)
  finish-Outcome parse_json public_key ekp order order' http s (proceed p) hr hp =
      granted p (hp p refl)

  -- A run of handleBootstrapAuth has one of two outcomes. Either it answers with a status other
  -- than 200, or panics, and the stores are as before; or the token that came with the request
  -- verified and is stored, the request is valid, its cluster either is not stored or lacks the
  -- capability and may be joined with this token, the capability can be installed, and the answer
  -- and the stores are those of the writes. It is assumed that GetToken, GetCluster and CanInstall
  -- change nothing.
  pub handle_bootstrap_auth-Outcome :
      (parse_json : Str → Result Token) (public_key : PublicKey) (crypto : Crypto)
      (from_seed : Str → Str) (ekp : EphemeralKeyPair) (order order' : Bool) (http : HttpRequest)
      (s : S)
      → Outcome parse_json public_key ekp order order' http s (
          handle_bootstrap_auth j stores parse_json public_key crypto from_seed ekp order order'
            http s)
  unfolding handle_bootstrap_auth
  handle_bootstrap_auth-Outcome parse_json public_key crypto from_seed ekp order order' http s =
      let m : Handler S Plan = prepare j stores parse_json public_key crypto from_seed ekp http in
      let hm : Refuses m = prepare-Refuses parse_json public_key crypto from_seed ekp http in
      subst
        (λ t.
          Outcome parse_json public_key ekp order order' http s
            (finish j stores order order' ekp (m s).0 t))
        (sym (hm.quiet s))
        (finish-Outcome parse_json public_key ekp order order' http s (m s).0 (hm.refuses s)
          λ p h. prepare_grants parse_json public_key crypto from_seed ekp http s p h)
