-- ===== src/Cortex/Aggregation.antt =====
-- plugins/cortex/pkg/cortex/aggregation.go: MultiTenantRuleAggregator. The forwarder, compress and
-- json.Unmarshal are parameters. groupCount does not overflow, and no middleware has set the response.
pub mod Joined
pub mod Laws
use opni_monitoring.Prelude.{
  ℕ, ◌+◌, Str, codes, str_eq, ltb, ◌==◌, Bool, true, false, not, List, [], ◌∷◌, ◌++◌, if◌then◌else◌,
  Result, ok, err, Error, other,
}
use opni_monitoring.Http.{Request, set_header}
use opni_monitoring.Http.Rbac.{HeaderCodec}
use opni_monitoring.Cortex.{authorized_cluster_ids}

pub data DataFormat : Type 0 where
  namespace_keyed_yaml : DataFormat
  prometheus_rule_groups_json : DataFormat

-- What Handle reads and sets of the response of a fiber.Ctx.
pub record Response : Type 0 where
  pub status_code : ℕ
  pub content_encoding : Str
  pub content_type : Str
  pub body : Str

-- rawPromJSONData, with the text of each group.
pub record RawPromJsonData : Type 0 where
  pub status : Str
  pub groups : List Str

pub record Upstream (W : Type 0) : Type 0 where
  -- The response that the forwarder leaves in the context.
  pub forward : Request → W → Result Response × W
  pub gunzip : Str → Result Str
  pub unbrotli : Str → Result Str
  pub inflate : Str → Result Str
  pub unmarshal : Str → Result RawPromJsonData

-- resp.Reset
abbrev pub reset_response : Response
reset_response = record { status_code = 200; content_encoding = []; content_type = []; body = [] }

-- The variables of the loop; `written` is groupCount and the text in buf.
pub record Progress : Type 0 where
  pub request : Request
  pub response : Response
  pub written : ℕ × Str

-- How Handle returns: with an error, or with the response that is then in the context.
pub data Ending : Type 0 where
  failed : Error → Ending
  replied : Response → Ending

pub data Round : Type 0 where
  ends : Ending → Round
  continues : Progress → Round

-- The loop over rawData.Data.Groups.
unfoldable pub add_groups : List Str → ℕ × Str → ℕ × Str
add_groups [] (n, buf) = (n, buf)
add_groups (g ∷ gs) (n, buf) =
    add_groups gs (n + 1, (if ltb 0 n then buf ++ codes "," else buf) ++ g)

unfoldable pub opening : DataFormat → Str
opening namespace_keyed_yaml = codes "---\n"
opening prometheus_rule_groups_json = codes "{\"status\":\"success\",\"data\":{\"groups\":["

unfoldable pub closing : DataFormat → Str
closing namespace_keyed_yaml = []
closing prometheus_rule_groups_json = codes "]},\"errorType\":\"\",\"error\":\"\"}"

unfoldable pub media_type : DataFormat → Str
media_type namespace_keyed_yaml = codes "application/yaml"
media_type prometheus_rule_groups_json = codes "application/json"

-- The end of Handle.
unfoldable pub reply : DataFormat → Round → Ending
unfolding closing media_type
reply format (ends e) = e
reply format (continues p) = replied (record p.response {
  content_type = media_type format;
  body = p.written.1 ++ closing format;
  status_code = 200;
})

module _ {W : Type 0} (u : Upstream W) where
  open u use {forward, gunzip, unbrotli, inflate, unmarshal}

  unfoldable pub read_body : Response → Result Str
  read_body resp =
      if str_eq resp.content_encoding (codes "gzip")
      then gunzip resp.body
      else if str_eq resp.content_encoding (codes "brotli")
      then unbrotli resp.body
      else if str_eq resp.content_encoding (codes "deflate")
      then inflate resp.body
      else if str_eq resp.content_encoding []
      then ok resp.body
      else err other

  -- A status that is not success skips the reset of the response.
  unfoldable pub add_data : Result RawPromJsonData → Progress → Round
  unfolding add_groups
  add_data (err e) p = ends (failed e)
  add_data (ok raw_data) p =
      if str_eq raw_data.status (codes "success")
      then continues
          (record p { response = reset_response; written = add_groups raw_data.groups p.written })
      else continues p

  unfoldable pub add_body : DataFormat → Result Str → Progress → Round
  unfolding add_data
  add_body format (err e) p = ends (failed e)
  add_body namespace_keyed_yaml (ok body) p =
      continues
        (record p { response = reset_response; written = (p.written.0, p.written.1 ++ body) })
  add_body prometheus_rule_groups_json (ok body) p = add_data (unmarshal body) p

  -- The body of the loop over the ids, after the call of the forwarder.
  unfoldable pub after_forward : DataFormat → Result Response → Progress → Round
  unfolding add_body read_body
  after_forward format (err e) p = ends (failed e)
  after_forward format (ok resp) p =
      if not (resp.status_code == 200)
      then if resp.status_code == 404
        then continues (record p { response = resp })
        else ends (replied resp)
      else add_body format (read_body resp) (record p { response = resp })

  unfoldable pub forward_all : DataFormat → HeaderCodec → List Str → Progress → W → Round × W
  unfolding after_forward set_header
  forward_all format codec [] p w = (continues p, w)
  forward_all format codec (id ∷ ids) p w =
      let req = set_header codec.key (codec.encode (id ∷ [])) p.request in
      let (answer, w') = forward req w in
      elim (after_forward format answer (record p { request = req })) [
        | ends e ↦ (ends e, w')
        | continues p' ↦ forward_all format codec ids p' w'
      ]

  unfoldable pub handle_ids :
      DataFormat → HeaderCodec → Request → Result (List Str) → W → Ending × W
  unfolding forward_all opening reply
  handle_ids format codec r (err e) w = (failed e, w)
  handle_ids format codec r (ok ids) w =
      let (round, w') =
        forward_all format codec ids
          (record { request = r; response = reset_response; written = (0, opening format) }) w in
      (reply format round, w')

  -- Handle
  unfoldable pub handle : DataFormat → HeaderCodec → Request → W → Ending × W
  unfolding handle_ids authorized_cluster_ids
  handle format codec r w = handle_ids format codec r (authorized_cluster_ids r) w
