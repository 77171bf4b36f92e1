-- ===== src/Cortex/Aggregation/Joined.antt =====
-- The text of an aggregate, and how the loop over groups writes it.
use opni_monitoring.Prelude.{
  arith, if◌then◌else◌, ℕ, ◌+◌, Str, codes, ltb, true, List, [], ◌∷◌, ◌++◌, append_assoc,
  append-nil, ◌≡◌, refl, sym, ap, ◌∙◌,
}
use opni_monitoring.Http.Codec.{join_with}
use opni_monitoring.Cortex.Aggregation.{
  DataFormat, namespace_keyed_yaml, prometheus_rule_groups_json, add_groups,
}

-- Each piece after the first comes with its separator.
abbrev separated : ℕ → List Str → Str
separated sep [] = []
separated sep (g ∷ gs) = (sep ∷ g) ++ separated sep gs

join_with-separated :
    (sep : ℕ) (g : Str) (gs : List Str) → join_with sep (g ∷ gs) ≡ g ++ separated sep gs
unfolding join_with
join_with-separated sep g [] = sym (append-nil g)
join_with-separated sep g (h ∷ gs) = rw (join_with-separated sep h gs) refl

-- What the aggregate of some pieces is: the concatenation of YAML documents, or the list of
-- groups with commas between them.
abbrev pub body_text : DataFormat → List Str → Str
body_text namespace_keyed_yaml [] = []
body_text namespace_keyed_yaml (b ∷ bs) = b ++ body_text namespace_keyed_yaml bs
body_text prometheus_rule_groups_json gs = join_with b',' gs

abbrev pub grow : DataFormat → List Str → ℕ × Str → ℕ × Str
grow namespace_keyed_yaml bs (n, buf) = (n, buf ++ body_text namespace_keyed_yaml bs)
grow prometheus_rule_groups_json gs written = add_groups gs written

ltb-add_one : (n : ℕ) → ltb 0 (n + 1) ≡ true
ltb-add_one n = ground arith

add_groups_after :
    (gs : List Str) (n : ℕ) (buf : Str) → (add_groups gs (n + 1, buf)).1 ≡ buf ++ separated b',' gs
unfolding add_groups
add_groups_after [] n buf = sym (append-nil buf)
add_groups_after (g ∷ gs) n buf =
    ap (λ b. (add_groups gs (n + 1 + 1, (if b then buf ++ codes "," else buf) ++ g)).1)
      (ltb-add_one n)
    ∙ add_groups_after gs (n + 1) ((buf ++ codes ",") ++ g)
    ∙ append_assoc (buf ++ codes ",") g (separated b',' gs)
    ∙ append_assoc buf (codes ",") (g ++ separated b',' gs)

add_groups-join_with :
    (gs : List Str) (buf : Str) → (add_groups gs (0, buf)).1 ≡ buf ++ join_with b',' gs
unfolding add_groups join_with
add_groups-join_with [] buf = sym (append-nil buf)
add_groups-join_with (g ∷ gs) buf =
    add_groups_after gs 0 (buf ++ g)
    ∙ append_assoc buf g (separated b',' gs)
    ∙ ap (λ (s : Str). buf ++ s) (sym (join_with-separated b',' g gs))

add_groups-append :
    (gs hs : List Str) (w : ℕ × Str) → add_groups (gs ++ hs) w ≡ add_groups hs (add_groups gs w)
unfolding add_groups
add_groups-append [] hs w = refl
add_groups-append (g ∷ gs) hs (n, buf) = add_groups-append gs hs _

body_text-append :
    (bs cs : List Str)
    → body_text namespace_keyed_yaml (bs ++ cs)
      ≡ body_text namespace_keyed_yaml bs ++ body_text namespace_keyed_yaml cs
body_text-append [] cs = refl
body_text-append (b ∷ bs) cs =
    ap (λ (s : Str). b ++ s) (body_text-append bs cs)
    ∙ sym (append_assoc b (body_text namespace_keyed_yaml bs) (body_text namespace_keyed_yaml cs))

pub grow-nil : (format : DataFormat) (w : ℕ × Str) → grow format [] w ≡ w
unfolding add_groups
grow-nil namespace_keyed_yaml (n, buf) = ap (λ (s : Str). (n, s)) (append-nil buf)
grow-nil prometheus_rule_groups_json w = refl

pub grow-append :
    (format : DataFormat) (gs hs : List Str) (w : ℕ × Str)
    → grow format (gs ++ hs) w ≡ grow format hs (grow format gs w)
grow-append namespace_keyed_yaml gs hs (n, buf) =
    ap (λ (s : Str). (n, buf ++ s)) (body_text-append gs hs)
    ∙ ap (λ (s : Str). (n, s))
        (sym (
          append_assoc buf (body_text namespace_keyed_yaml gs) (body_text namespace_keyed_yaml hs)))
grow-append prometheus_rule_groups_json gs hs w = add_groups-append gs hs w

pub grow-body_text :
    (format : DataFormat) (pieces : List Str) (buf : Str)
    → (grow format pieces (0, buf)).1 ≡ buf ++ body_text format pieces
grow-body_text namespace_keyed_yaml pieces buf = refl
grow-body_text prometheus_rule_groups_json pieces buf = add_groups-join_with pieces buf
