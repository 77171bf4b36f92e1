-- ===== src/Capabilities/Template.antt =====
-- pkg/capabilities/template.go: the function `arg` of installer templates. json.Marshal is a
-- parameter.
pub mod Laws
use opni_monitoring.Prelude.{
  ℕ, Str, codes, str_eq, Option, none, some, Bool, true, false, List, [], ◌∷◌, ◌++◌, ◌==◌,
  if◌then◌else◌, Result, ok, err, Error, other, ◌>>=◌,
}
use opni_monitoring.GoLib.Text.{has_prefix}
use opni_monitoring.GoLib.Split.{has_byte}

pub record OptionSpec : Type 0 where
  pub name : Str
  pub value : Str

pub record SelectSpec : Type 0 where
  pub label : Str
  pub items : List Str

-- An InputSpec and a ToggleSpec are their label.
pub record ArgSpec : Type 0 where
  pub kind : Str
  pub input : Option Str
  pub select : Option SelectSpec
  pub toggle : Option Str
  pub options : List OptionSpec

-- The value and the ok of strings.Cut at one byte.
unfoldable pub after_byte : ℕ → Str → Option Str
after_byte sep [] = none
after_byte sep (c ∷ s) = let rest = after_byte sep s in if c == sep then some s else rest

-- An option that takes no value, and one that must have one.
unfoldable pub flag : Str → Str → Result OptionSpec
flag name option =
    if has_byte b':' option then err other else ok (record { name = name; value = [] })

unfoldable pub valued : Str → Option Str → Result OptionSpec
valued name none = err other
valued name (some value) = ok (record { name = name; value = value })

-- The switch of extractOptions, on what follows the plus sign.
unfoldable pub read_option : Str → Result OptionSpec
unfolding has_prefix flag valued after_byte
read_option option =
    if has_prefix option (codes "required")
    then flag (codes "required") option
    else if has_prefix option (codes "omitEmpty")
    then flag (codes "omitEmpty") option
    else if has_prefix option (codes "default")
    then valued (codes "default") (after_byte b':' option)
    else if has_prefix option (codes "format")
    then valued (codes "format") (after_byte b':' option)
    else err other

unfoldable pub is_option : Str → Bool
is_option [] = false
is_option (c ∷ s) = c == b'+'

abbrev pub Extracted : Type 0
Extracted = List OptionSpec × List Str

unfoldable pub with_option : Result OptionSpec → Result Extracted → Result Extracted
with_option spec rest = spec >>= λ o. rest >>= λ found. ok (o ∷ found.0, found.1)

unfoldable pub with_argument : Str → Result Extracted → Result Extracted
with_argument argument rest = rest >>= λ found. ok (found.0, argument ∷ found.1)

-- extractOptions
unfoldable pub extract_options : List Str → Result Extracted
unfolding is_option read_option with_option with_argument
extract_options [] = ok ([], [])
extract_options ([] ∷ os) = with_argument [] (extract_options os)
extract_options ((c ∷ o) ∷ os) =
    let rest = extract_options os in
    if is_option (c ∷ o) then with_option (read_option o) rest else with_argument (c ∷ o) rest

unfoldable pub arg_input : ArgSpec → List Str → Result ArgSpec
arg_input spec [] = err other
arg_input spec (label ∷ args) = ok (record spec { input = some label })

unfoldable pub arg_select : ArgSpec → List Str → Result ArgSpec
arg_select spec [] = err other
arg_select spec (label ∷ []) = err other
arg_select spec (label ∷ item ∷ items) =
    ok (record spec { select = some (record { label = label; items = item ∷ items }) })

unfoldable pub arg_toggle : ArgSpec → List Str → Result ArgSpec
arg_toggle spec [] = err other
arg_toggle spec (label ∷ args) = ok (record spec { toggle = some label })

-- The switch of Arg. Another kind gets no control.
unfoldable pub arg_spec : Str → Extracted → Result ArgSpec
unfolding arg_input arg_select arg_toggle
arg_spec kind found =
    let spec : ArgSpec = record {
      kind = kind;
      input = none;
      select = none;
      toggle = none;
      options = found.0;
    } in
    if str_eq kind (codes "input")
    then arg_input spec found.1
    else if str_eq kind (codes "select")
    then arg_select spec found.1
    else if str_eq kind (codes "toggle")
    then arg_toggle spec found.1
    else ok spec

-- Arg
unfoldable pub arg : (ArgSpec → Result Str) → Str → List Str → Result Str
unfolding extract_options arg_spec
arg marshal kind args = extract_options args >>= arg_spec kind >>= marshal >>= λ json.
    ok (codes "%" ++ json ++ codes "%")
