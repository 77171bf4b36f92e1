-- ===== src/Examples/Tenants.antt =====
-- The rule groups of three tenants, one of which has none.
use opni_monitoring.Prelude.{
  ℕ, Str, codes, str_eq, lookup, insert, some, List, [], ◌∷◌, ◌++◌, if◌then◌else◌, ok, err, other,
  ◌≡◌, refl,
}
use opni_monitoring.Http.{Request, header, set_header}
use opni_monitoring.Http.Codec.{org_id_codec, encode}
use opni_monitoring.Cortex.Aggregation.{
  DataFormat, prometheus_rule_groups_json, Response, RawPromJsonData, Upstream, Ending, replied,
  opening, closing, media_type, handle,
}
use opni_monitoring.Cortex.Aggregation.Joined.{body_text}
use opni_monitoring.Cortex.Aggregation.Laws.{finished, round, missing, grouped, handle_aggregates}

abbrev answer : ℕ → Str → Response
answer status_code body = record {
  status_code = status_code;
  content_encoding = [];
  content_type = [];
  body = body;
}

abbrev upstream : Upstream (Unit {0})
upstream = record {
  forward = λ r w. (
    ok (
        if str_eq (header org_id_codec.key r) (codes "b")
        then answer 404 []
        else answer 200 (header org_id_codec.key r)),
    w,
  );
  gunzip = λ s. err other;
  unbrotli = λ s. err other;
  inflate = λ s. err other;
  unmarshal =
      λ s. ok (record { status = codes "success"; groups = (codes "{" ++ s ++ codes "}") ∷ [] });
}

abbrev request : Request
request = record {
  headers = [];
  user_id = some (codes "ann");
  cluster_ids = some (codes "a" ∷ codes "b" ∷ codes "c" ∷ []);
}

abbrev pieces : List Str
pieces = codes "{a}" ∷ codes "{c}" ∷ []

handle_aggregates_example :
    (resp : Response) × (handle upstream prometheus_rule_groups_json org_id_codec request tt
      ≡ (replied resp, tt))
    × (resp.status_code ≡ 200)
    × (resp.content_type ≡ media_type prometheus_rule_groups_json)
    × (resp.body
        ≡ opening prometheus_rule_groups_json
          ++ (body_text prometheus_rule_groups_json pieces ++ closing prometheus_rule_groups_json))
unfolding opni_monitoring.Cortex.Aggregation.read_body str_eq header lookup set_header insert
    opni_monitoring.Http.Codec.delimiter_codec encode
handle_aggregates_example =
    handle_aggregates upstream prometheus_rule_groups_json org_id_codec
      (codes "a" ∷ codes "b" ∷ codes "c" ∷ []) request tt pieces tt refl
      (round refl
        (grouped {resp = answer 200 (codes "a")} {text = codes "a"}
          {d = record { status = codes "success"; groups = codes "{a}" ∷ [] }} refl refl refl refl)
        (round refl (missing {resp = answer 404 []} refl) (
          round refl
            (grouped {resp = answer 200 (codes "c")} {text = codes "c"}
              {d = record { status = codes "success"; groups = codes "{c}" ∷ [] }} refl refl refl
              refl)
            finished)))
