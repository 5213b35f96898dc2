-- ===== src/Json.antt =====
-- pkg/json/json.go: values that are static or resolved from the authorization JSON, and the
-- templates that mix text with placeholders. gjson and the marshalling of Go values are a
-- parameter, `JsonEnv`.
pub mod Templates
mod Tests
use authorino.Common.{
  ℕ, zero, suc, ◌+◌, Bytes, Bool, true, false, not, ◌==◌, is_empty, List, [], ◌∷◌, ◌++◌,
  if◌then◌else◌,
}

-- What the source takes of other packages, for the type `O` of Go's `interface{}` values:
-- `gjson.Get(json, pattern).Value()` and `.String()`, a string as a value, `StringifyJSON` with its
-- error dropped, and the number of matches of the regular expression for modifiers with arguments.
pub record JsonEnv (O : Type 0) : Type 0 where
  pub get_value : Bytes → Bytes → O
  pub get_string : Bytes → Bytes → Bytes
  pub of_string : Bytes → O
  pub stringify : O → Bytes
  pub modifier_braces : Bytes → ℕ

-- `JSONValue`; an empty pattern means a static value.
pub record JsonValue (O : Type 0) : Type 0 where
  pub static : O
  pub pattern : Bytes

-- `JSONProperty`
pub record JsonProperty (O : Type 0) : Type 0 where
  pub name : Bytes
  pub value : JsonValue O

-- The variables of `ReplaceJSONPlaceholders`.
pub record Scan : Type 0 where
  pub replaced : Bytes
  pub buffer : Bytes
  pub escaping : Bool
  pub inside_placeholder : Bool
  pub nested_curly_braces : ℕ

abbrev pub open_brace : ℕ
open_brace = 123

abbrev pub close_brace : ℕ
close_brace = 125

abbrev pub backslash : ℕ
backslash = 92

-- case 123: '{'
on_open : Scan → Scan
on_open s =
    if s.escaping
    then record s { replaced = s.replaced ++ (open_brace ∷ []); escaping = false }
    else if s.inside_placeholder
    then record s {
      buffer = s.buffer ++ (open_brace ∷ []);
      nested_curly_braces = s.nested_curly_braces + 1;
      escaping = false;
    }
    else record s { inside_placeholder = true; escaping = false }

-- case 125: '}'
close_nested : (Bytes → Bytes) → ℕ → Scan → Scan
close_nested get (suc n) s = record s {
  buffer = s.buffer ++ (close_brace ∷ []);
  nested_curly_braces = n;
  escaping = false;
}
close_nested get zero s =
    if is_empty s.buffer
    then record s { inside_placeholder = false; escaping = false }
    else record s {
      replaced = s.replaced ++ get s.buffer;
      buffer = [];
      inside_placeholder = false;
      escaping = false;
    }

on_close : (Bytes → Bytes) → Scan → Scan
unfolding close_nested
on_close get s =
    if s.inside_placeholder
    then close_nested get s.nested_curly_braces s
    else record s { replaced = s.replaced ++ (close_brace ∷ []); escaping = false }

-- case 92: '\'
on_backslash : Scan → Scan
on_backslash s =
    if s.inside_placeholder
    then record s { buffer = s.buffer ++ (backslash ∷ []) }
    else if s.escaping
    then record s { replaced = s.replaced ++ (backslash ∷ []); escaping = false }
    else record s { escaping = true }

on_default : ℕ → Scan → Scan
on_default b s =
    if s.inside_placeholder
    then record s { buffer = s.buffer ++ (b ∷ []); escaping = false }
    else record s { replaced = s.replaced ++ (b ∷ []); escaping = false }

unfoldable pub scan_byte : (Bytes → Bytes) → Scan → ℕ → Scan
unfolding on_open on_close on_backslash on_default
scan_byte get s b =
    if b == open_brace
    then on_open s
    else if b == close_brace
    then on_close get s
    else if b == backslash
    then on_backslash s
    else on_default b s

unfoldable pub scan : (Bytes → Bytes) → Scan → Bytes → Scan
unfolding scan_byte
scan get s [] = s
scan get s (b ∷ source) = scan get (scan_byte get s b) source

abbrev pub start : Scan
start = record {
  replaced = [];
  buffer = [];
  escaping = false;
  inside_placeholder = false;
  nested_curly_braces = 0;
}

-- `ReplaceJSONPlaceholders`, where `get` is the string that gjson finds in the JSON.
unfoldable pub replace_json_placeholders : (Bytes → Bytes) → Bytes → Bytes
unfolding scan
replace_json_placeholders get source = (scan get start source).replaced

count_braces : Bytes → ℕ
count_braces [] = 0
count_braces (b ∷ s) = let n = count_braces s in if b == open_brace then suc n else n

module _ {O : Type 0} (env : JsonEnv O) where
  -- `IsTemplate`
  unfoldable pub is_template : JsonValue O → Bool
  unfolding count_braces
  is_template v = not (env.modifier_braces v.pattern == count_braces v.pattern)

  -- `ResolveFor`
  unfoldable pub resolve_for : JsonValue O → Bytes → O
  unfolding is_template replace_json_placeholders
  resolve_for v json =
      if is_empty v.pattern
      then v.static
      else if is_template v
      then env.of_string (replace_json_placeholders (env.get_string json) v.pattern)
      else env.get_value json v.pattern
