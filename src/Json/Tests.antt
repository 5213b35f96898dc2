-- ===== src/Json/Tests.antt =====
-- Templates of pkg/json/json.go on small inputs.
use authorino.Common.{Bytes, codes, is_empty, ◌++◌, ◌∷◌, ◌≡◌, refl}
use authorino.Json.{replace_json_placeholders, open_brace, close_brace}
use authorino.Json.Templates.{escape, escape_roundtrip, placeholder_lem}

-- A stand-in for gjson: the string found for a selector is the selector between bars.
abbrev bars : Bytes → Bytes
bars s = codes "|" ++ (s ++ codes "|")

replace_runs :
    replace_json_placeholders bars (codes "Hi {auth.name}, \\{x}") ≡ codes "Hi |auth.name|, {x}"
unfolding replace_json_placeholders is_empty
replace_runs = refl

placeholder_lem_example :
    replace_json_placeholders bars
      (escape (codes "Hi ") ++ (open_brace ∷ (codes "a.b" ++ (close_brace ∷ escape (codes "!")))))
    ≡ codes "Hi " ++ (bars (codes "a.b") ++ codes "!")
unfolding is_empty
placeholder_lem_example =
    placeholder_lem bars (codes "Hi ") (codes "a.b") (codes "!")
      ((refl, refl, (refl, refl, (refl, refl, tt)))) refl

escape_roundtrip_example :
    replace_json_placeholders bars (escape (codes "a{b}\\c")) ≡ codes "a{b}\\c"
escape_roundtrip_example = escape_roundtrip bars (codes "a{b}\\c")
