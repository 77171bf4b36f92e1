-- ===== src/Cortex/Aggregation/Laws.antt =====
-- What Handle replies when each upstream answer is one that it aggregates or skips.
use opni_monitoring.Prelude.{
  ℕ, Str, codes, str_eq, true, false, some, List, [], ◌∷◌, ◌++◌, append_assoc, append-nil, Result,
  ok, ◌≡◌, refl, sym, ap, ◌∙◌,
}
use opni_monitoring.Http.{Request, set_header}
use opni_monitoring.Http.Rbac.{HeaderCodec}
use opni_monitoring.Cortex.{authorized_cluster_ids}
use opni_monitoring.Cortex.Aggregation.{
  DataFormat, namespace_keyed_yaml, prometheus_rule_groups_json, Response, RawPromJsonData,
  Upstream, reset_response, Progress, replied, Round, ends, continues, add_groups, opening, closing,
  media_type, read_body, add_data, add_body, after_forward, forward_all, reply, handle_ids, handle,
}
use opni_monitoring.Cortex.Aggregation.Joined.{
  body_text, grow, grow-nil, grow-append, grow-body_text,
}

module _ {W : Type 0} (u : Upstream W) where
  open u use {forward, unmarshal}

  -- What one answer of the forwarder adds to the aggregate.
  pub data Adds : DataFormat → Response → List Str → Type 0 where
    missing : {format : DataFormat} {resp : Response} → resp.status_code ≡ 404 → Adds format resp []
    document :
        {resp : Response} {text : Str}
        → resp.status_code ≡ 200
        → read_body u resp ≡ ok text
        → Adds namespace_keyed_yaml resp (text ∷ [])
    refused :
        {resp : Response} {text : Str} {d : RawPromJsonData}
        → resp.status_code ≡ 200
        → read_body u resp ≡ ok text
        → unmarshal text ≡ ok d
        → str_eq d.status (codes "success") ≡ false
        → Adds prometheus_rule_groups_json resp []
    grouped :
        {resp : Response} {text : Str} {d : RawPromJsonData}
        → resp.status_code ≡ 200
        → read_body u resp ≡ ok text
        → unmarshal text ≡ ok d
        → str_eq d.status (codes "success") ≡ true
        → Adds prometheus_rule_groups_json resp d.groups

  -- One round with the forwarder for each id, with a header of that id alone.
  pub data Rounds (format : DataFormat) (codec : HeaderCodec)
      : List Str → Request → W → List Str → W → Type 0 where
    finished : {r : Request} {w : W} → Rounds format codec [] r w [] w
    round :
        {id : Str} {ids : List Str} {r : Request} {w w' end : W} {resp : Response}
        {pieces rest : List Str}
        → forward (set_header codec.key (codec.encode (id ∷ [])) r) w ≡ (ok resp, w')
        → Adds format resp pieces
        → Rounds format codec ids (set_header codec.key (codec.encode (id ∷ [])) r) w' rest end
        → Rounds format codec (id ∷ ids) r w (pieces ++ rest) end

  after_forward_ok :
      (format : DataFormat) (resp : Response) (p : Progress)
      → resp.status_code ≡ 200
      → after_forward u format (ok resp) p
        ≡ add_body u format (read_body u resp) (record p { response = resp })
  unfolding after_forward
  after_forward_ok format resp p s = rw s refl

  after_forward-Adds :
      (format : DataFormat) (resp : Response) (pieces : List Str) (p : Progress)
      → Adds format resp pieces
      → (p' : Progress) × (after_forward u format (ok resp) p ≡ continues p')
        × (p'.request ≡ p.request)
        × (p'.written ≡ grow format pieces p.written)
  unfolding after_forward add_body add_data
  after_forward-Adds format resp pieces p (missing s) =
      (record p { response = resp }, rw s refl, refl, sym (grow-nil format p.written))
  after_forward-Adds format resp pieces p (document {text = t} s b) = (
    record p { response = reset_response; written = (p.written.0, p.written.1 ++ t) },
    after_forward_ok namespace_keyed_yaml resp p s ∙ rw b refl,
    refl,
    ap (λ (x : Str). (p.written.0, p.written.1 ++ x)) (sym (append-nil t)),
  )
  after_forward-Adds format resp pieces p (refused s b m e) = (
    record p { response = resp },
    after_forward_ok prometheus_rule_groups_json resp p s ∙ rw b (rw m (rw e refl)),
    refl,
    sym (grow-nil prometheus_rule_groups_json p.written),
  )
  after_forward-Adds format resp pieces p (grouped {d = d} s b m e) = (
    record p { response = reset_response; written = add_groups d.groups p.written },
    after_forward_ok prometheus_rule_groups_json resp p s ∙ rw b (rw m (rw e refl)),
    refl,
    refl,
  )

  forward_step :
      (format : DataFormat) (codec : HeaderCodec) (id : Str) (ids : List Str) (p p' : Progress)
      (w w' : W) (resp : Response)
      → forward (set_header codec.key (codec.encode (id ∷ [])) p.request) w ≡ (ok resp, w')
      → after_forward u format
          (ok resp)
          (record p { request = set_header codec.key (codec.encode (id ∷ [])) p.request })
        ≡ continues p'
      → forward_all u format codec (id ∷ ids) p w ≡ forward_all u format codec ids p' w'
  unfolding forward_all
  forward_step format codec id ids p p' w w' resp f a =
      ap
        (λ (x : Result Response × W). then_rest x.1 (
          after_forward u format x.0
            (record p { request = set_header codec.key (codec.encode (id ∷ [])) p.request })))
        f
      ∙ ap (then_rest w') a
    where
      then_rest : W → Round → Round × W
      then_rest v x = elim x [
        | ends e ↦ (ends e, v)
        | continues q ↦ forward_all u format codec ids q v
      ]

  forward_all-Rounds :
      (format : DataFormat) (codec : HeaderCodec) (ids : List Str) (r : Request) (w : W)
      (pieces : List Str) (end : W) (p : Progress)
      → Rounds format codec ids r w pieces end
      → p.request ≡ r
      → (p' : Progress) × (forward_all u format codec ids p w ≡ (continues p', end))
        × (p'.written ≡ grow format pieces p.written)
  unfolding forward_all
  forward_all-Rounds format codec ids r w pieces end p finished is =
      (p, refl, sym (grow-nil format p.written))
  forward_all-Rounds format codec _ r w _ end p
        (round {id = id} {ids = ids} {w' = w'} {resp = resp} {pieces = pieces} {rest = rest} f a
          rounds)
        is =
      let one : Request → Request = set_header codec.key (codec.encode (id ∷ [])) in
      let (p', go, kept, grown) =
        after_forward-Adds format resp pieces (record p { request = one p.request }) a in
      let (p'', all, all_grown) =
        forward_all-Rounds format codec ids (one r) w' rest end p' rounds (kept ∙ ap one is) in
      (
        p'',
        forward_step format codec id ids p p' w w' resp
              (ap (λ (x : Request). forward (one x) w) is ∙ f) go
            ∙ all,
        all_grown ∙ ap (grow format rest) grown ∙ sym (grow-append format pieces rest p.written),
      )

  authorized :
      (r : Request) (ids : List Str) → r.cluster_ids ≡ some ids → authorized_cluster_ids r ≡ ok ids
  unfolding authorized_cluster_ids
  authorized r ids here = rw here refl

  -- If the request has ids, and the forwarder, asked in order for each id with a header of that id
  -- alone, answers each time with 404 or with a body that can be read (and, of JSON, parsed), then
  -- Handle replies 200 with the media type of its format and one body: the YAML documents one
  -- after the other, or the JSON list of all groups of the successful answers, in order and with
  -- a comma between any two.
  pub handle_aggregates :
      (format : DataFormat) (codec : HeaderCodec) (ids : List Str) (r : Request) (w : W)
      (pieces : List Str) (end : W)
      → r.cluster_ids ≡ some ids
      → Rounds format codec ids r w pieces end
      → (resp : Response) × (handle u format codec r w ≡ (replied resp, end))
        × (resp.status_code ≡ 200)
        × (resp.content_type ≡ media_type format)
        × (resp.body ≡ opening format ++ (body_text format pieces ++ closing format))
  unfolding handle handle_ids reply
  handle_aggregates format codec ids r w pieces end here rounds =
      let (p, all, grown) =
        forward_all-Rounds format codec ids r w pieces end
          (record { request = r; response = reset_response; written = (0, opening format) }) rounds
          refl in
      (
        record p.response {
          content_type = media_type format;
          body = p.written.1 ++ closing format;
          status_code = 200;
        },
        ap (λ (x : Result (List Str)). handle_ids u format codec r x w) (authorized r ids here)
            ∙ ap (λ (x : Round × W). (reply format x.0, x.1)) all,
        refl,
        refl,
        ap (λ (x : ℕ × Str). x.1 ++ closing format) grown
            ∙ ap (λ (x : Str). x ++ closing format) (grow-body_text format pieces (opening format))
            ∙ append_assoc (opening format) (body_text format pieces) (closing format),
      )
