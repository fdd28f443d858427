-- ===== src/Json/Tests.antt =====
-- JSON.hpp: libraries that are functions, and the functions of Json with them.
use iacore.Base.{
  ℕ, ◌≡◌, refl, none, some, [], ◌∷◌, Bytes, codes, length, ◌==◌, if◌then◌else◌, ok, err,
}
use iacore.Json.{Nlohmann, Simdjson, Glaze, parse_json, parse_to_struct, parse_read_only}

-- Values are texts, and the empty text is none.
abbrev texts : Nlohmann
texts = record {
  Value = Bytes;
  parse_value = λ s. s;
  is_discarded = λ s. length s == 0;
  dump = λ s. s;
}

invalid_syntax : parse_json texts [] ≡ err (codes "Failed to parse JSON (Invalid Syntax)")
unfolding parse_json
invalid_syntax = refl

same_text : parse_json texts (codes "[1]") ≡ ok (codes "[1]")
unfolding parse_json
same_text = refl

-- A length, and an error for the empty text.
abbrev lengths : Glaze ℕ
lengths = record {
  default_value = 0;
  read_json = λ n s. (if length s == 0 then some (codes "end") else none, length s);
  write_json = λ n. (none, codes "n");
}

no_struct : parse_to_struct lengths [] ≡ err (codes "JSON Struct Parse Error: end")
unfolding parse_to_struct
no_struct = refl

one_struct : parse_to_struct lengths (codes "12") ≡ ok 2
unfolding parse_to_struct
one_struct = refl

-- Every text is its own element.
abbrev elements : Simdjson
elements = record { Element = Bytes; parse_element = λ s. ok s }

one_parser : (parse_read_only elements (codes "{}") 7 (3 ∷ [])).parsers ≡ 7 ∷ 3 ∷ []
unfolding parse_read_only
one_parser = refl
