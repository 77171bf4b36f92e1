-- ===== src/Examples/Words.antt =====
-- A select of an installer template.
use opni_monitoring.Prelude.{Str, codes, List, [], ◌∷◌, ◌++◌, map, Result, ok, ◌≡◌, refl}
use opni_monitoring.Capabilities.Template.{ArgSpec, arg, is_option}
use opni_monitoring.Capabilities.Template.Laws.{
  Word, plain, required, default_value, print, arg-select,
}

-- Not all of the JSON.
abbrev marshal : ArgSpec → Result Str
marshal spec = ok spec.kind

abbrev words : List Word
words =
    plain (codes "Size")
    ∷ required
    ∷ plain (codes "small")
    ∷ default_value (codes "a:b")
    ∷ plain (codes "large")
    ∷ []

arg-select_example :
    arg marshal (codes "select") (map print words) ≡ ok (codes "%" ++ codes "select" ++ codes "%")
unfolding is_option
arg-select_example =
    arg-select marshal words (codes "Size") (codes "small") (codes "large" ∷ []) (codes "select")
      refl refl refl
