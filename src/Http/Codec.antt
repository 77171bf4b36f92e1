-- ===== src/Http/Codec.antt =====
-- DelimiterCodec of pkg/util/codecs.go, with a delimiter of one byte, as its only use in
-- plugins/cortex/pkg/cortex/codec.go has it.
pub mod Laws
use opni_monitoring.Prelude.{
  ℕ, Str, codes, Bool, true, false, List, [], ◌∷◌, ◌++◌, is_empty, if◌then◌else◌, map,
}
use opni_monitoring.GoLib.Split.{split_on}
use opni_monitoring.GoLib.Text.{trim_space}
use opni_monitoring.Http.Rbac.{HeaderCodec}

-- strings.Join
unfoldable pub join_with : ℕ → List Str → Str
join_with sep [] = []
join_with sep (s ∷ []) = s
join_with sep (s ∷ t ∷ parts) = s ++ (sep ∷ join_with sep (t ∷ parts))

-- The loop of Encode: empty ids are left out, the others are trimmed.
unfoldable pub filtered : List Str → List Str
unfolding trim_space
filtered [] = []
filtered (id ∷ ids) = let rest = filtered ids in if is_empty id then rest else trim_space id ∷ rest

unfoldable pub encode : ℕ → List Str → Str
unfolding join_with filtered
encode delimiter ids = join_with delimiter (filtered ids)

unfoldable pub decode : ℕ → Str → List Str
unfolding split_on trim_space
decode delimiter s = map trim_space (split_on delimiter s)

unfoldable pub delimiter_codec : Str → ℕ → HeaderCodec
delimiter_codec key delimiter = record { key = key; encode = encode delimiter }

-- orgIDCodec
abbrev pub org_id_codec : HeaderCodec
org_id_codec = delimiter_codec (codes "X-Scope-OrgID") b'|'
