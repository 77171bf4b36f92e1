-- ===== src/Capabilities/Template/Laws.antt =====
-- extractOptions reads back the arguments that spell options and plain words.
use opni_monitoring.Prelude.{
  arith, ℕ, Str, codes, str_eq, none, some, Bool, true, false, not, ◌&&◌, &&-eq-true, List, [], ◌∷◌,
  ◌++◌, map, Result, ok, ◌≡◌, refl, ap, ◌∙◌,
}
use opni_monitoring.Capabilities.Template.{
  OptionSpec, ArgSpec, is_option, with_argument, extract_options, arg,
}

-- What the author of a template writes behind the kind.
pub data Word : Type 0 where
  plain : Str → Word
  required : Word
  omit_empty : Word
  default_value : Str → Word
  format : Str → Word

abbrev pub print : Word → Str
print (plain s) = s
print required = codes "+required"
print omit_empty = codes "+omitEmpty"
print (default_value v) = codes "+default:" ++ v
print (format v) = codes "+format:" ++ v

abbrev pub specs_of : List Word → List OptionSpec
specs_of [] = []
specs_of (plain s ∷ ws) = specs_of ws
specs_of (required ∷ ws) = record { name = codes "required"; value = [] } ∷ specs_of ws
specs_of (omit_empty ∷ ws) = record { name = codes "omitEmpty"; value = [] } ∷ specs_of ws
specs_of (default_value v ∷ ws) = record { name = codes "default"; value = v } ∷ specs_of ws
specs_of (format v ∷ ws) = record { name = codes "format"; value = v } ∷ specs_of ws

abbrev pub plain_of : List Word → List Str
plain_of [] = []
plain_of (plain s ∷ ws) = s ∷ plain_of ws
plain_of (required ∷ ws) = plain_of ws
plain_of (omit_empty ∷ ws) = plain_of ws
plain_of (default_value v ∷ ws) = plain_of ws
plain_of (format v ∷ ws) = plain_of ws

-- No plain word starts with a plus sign.
abbrev pub are_words : List Word → Bool
are_words [] = true
are_words (plain s ∷ ws) = not (is_option s) && are_words ws
are_words (required ∷ ws) = are_words ws
are_words (omit_empty ∷ ws) = are_words ws
are_words (default_value v ∷ ws) = are_words ws
are_words (format v ∷ ws) = are_words ws

not-true : (b : Bool) → not b ≡ true → b ≡ false
not-true b h = ground arith

extract_plain :
    (c : ℕ) (s : Str) (os : List Str)
    → is_option (c ∷ s) ≡ false
    → extract_options ((c ∷ s) ∷ os) ≡ with_argument (c ∷ s) (extract_options os)
unfolding extract_options is_option
extract_plain c s os h = rw h refl

-- From words of which no plain one starts with a plus sign, in any order, extractOptions gets the
-- options with their values, in order, and the plain words, in order.
pub extract_options-print :
    (ws : List Word)
    → are_words ws ≡ true
    → extract_options (map print ws) ≡ ok (specs_of ws, plain_of ws)
unfolding extract_options
extract_options-print [] h = refl
extract_options-print (plain [] ∷ ws) h = rw (extract_options-print ws h) refl
extract_options-print (plain (c ∷ s) ∷ ws) h =
    let (word, words) = &&-eq-true (not (is_option (c ∷ s))) (are_words ws) h in
    extract_plain c s (map print ws) (not-true (is_option (c ∷ s)) word)
    ∙ ap (with_argument (c ∷ s)) (extract_options-print ws words)
extract_options-print (required ∷ ws) h = rw (extract_options-print ws h) refl
extract_options-print (omit_empty ∷ ws) h = rw (extract_options-print ws h) refl
extract_options-print (default_value v ∷ ws) h = rw (extract_options-print ws h) refl
extract_options-print (format v ∷ ws) h = rw (extract_options-print ws h) refl

-- Arg of a select whose words, of which no plain one starts with a plus sign, have at least two
-- plain ones, gives between percent signs the JSON, where there is one, of a control with the
-- first as its label, the others as its items in order, and the options.
pub arg-select :
    (marshal : ArgSpec → Result Str) (ws : List Word) (label item : Str) (items : List Str)
    (json : Str)
    → are_words ws ≡ true
    → plain_of ws ≡ label ∷ item ∷ items
    → marshal (record {
      kind = codes "select";
      input = none;
      select = some (record { label = label; items = item ∷ items });
      toggle = none;
      options = specs_of ws;
    })
      ≡ ok json
    → arg marshal (codes "select") (map print ws) ≡ ok (codes "%" ++ json ++ codes "%")
unfolding arg str_eq
arg-select marshal ws label item items json words plains encoded =
    rw (extract_options-print ws words) (rw plains (rw encoded refl))
