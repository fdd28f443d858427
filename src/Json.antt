-- ===== src/Json.antt =====
-- Src/IACore/inc/IACore/JSON.hpp: JsonDocument and the functions of Json. The libraries nlohmann json,
-- simdjson and glaze are the parameters `Nlohmann`, `Simdjson` and `Glaze`. A parser is named by its
-- address; the parsers that are allocated are a list, and a root names the parser whose memory it
-- points into. The laws are in Json/Ledger.
pub mod Ledger
mod Tests
use iacore.Base.{
  ℕ, ◌≡◌, Bool, true, false, Option, none, some, List, [], ◌∷◌, ◌++◌, Bytes, codes, ◌==◌,
  if◌then◌else◌, Result, ok, err,
}

-- `parse` with no exceptions and with comments ignored.
pub record Nlohmann : Type 1 where
  pub Value : Type 0
  pub parse_value : Bytes → Value
  pub is_discarded : Value → Bool
  pub dump : Value → Bytes

pub record Simdjson : Type 1 where
  pub Element : Type 0
  pub parse_element : Bytes → Result Bytes Element

-- Reading and writing of a type, each with the text of its error; a read starts from a default value.
pub record Glaze (T : Type 0) : Type 0 where
  pub default_value : T
  pub read_json : T → Bytes → Option Bytes × T
  pub write_json : T → Option Bytes × Bytes

pub parse_json : (N : Nlohmann) → Bytes → Result Bytes N.Value
parse_json N json_str =
    let res = N.parse_value json_str in
    if N.is_discarded res then err (codes "Failed to parse JSON (Invalid Syntax)") else ok res

pub encode : (N : Nlohmann) → N.Value → Bytes
encode N value = N.dump value

pub struct_read : {T : Type 0} → Option Bytes → T → Result Bytes T
struct_read none result = ok result
struct_read (some error) result = err (codes "JSON Struct Parse Error: " ++ error)

pub parse_to_struct : {T : Type 0} → Glaze T → Bytes → Result Bytes T
unfolding struct_read
parse_to_struct G json_str =
    let answer = G.read_json G.default_value json_str in struct_read answer.0 answer.1

pub struct_written : Option Bytes → Bytes → Result Bytes Bytes
struct_written none result = ok result
struct_written (some error) result = err (codes "JSON Struct Encode Error")

pub encode_struct : {T : Type 0} → Glaze T → T → Result Bytes Bytes
unfolding struct_written
encode_struct G value = let answer = G.write_json value in struct_written answer.0 answer.1

-- A root: the parser that holds it, and the element.
pub record Root (S : Simdjson) : Type 0 where
  pub holder : ℕ
  pub element : S.Element

pub record JsonDocument (S : Simdjson) : Type 0 where
  pub m_parser : Option ℕ
  pub m_root : Root S

-- What a call returns, and the parsers that are allocated after it.
pub record Parsed (S : Simdjson) : Type 0 where
  pub result : Result Bytes (JsonDocument S)
  pub parsers : List ℕ

pub free : ℕ → List ℕ → List ℕ
free p [] = []
free p (q ∷ parsers) = let rest = free p parsers in if q == p then parsers else q ∷ rest

pub free_box : Option ℕ → List ℕ → List ℕ
unfolding free
free_box none parsers = parsers
free_box (some p) parsers = free p parsers

pub with_answer : (S : Simdjson) → Result Bytes S.Element → (address : ℕ) → List ℕ → Parsed S
unfolding free
with_answer S (err message) address parsers = record {
  result = err (codes "JSON Error: " ++ message);
  parsers = free address parsers;
}
with_answer S (ok element) address parsers = record {
  result =
      ok (record {
        m_parser = some address;
        m_root = record { holder = address; element = element };
      });
  parsers = parsers;
}

-- `parse_read_only`, with the address that `make_box` gives.
pub parse_read_only : (S : Simdjson) → Bytes → (address : ℕ) → List ℕ → Parsed S
unfolding with_answer
parse_read_only S json_str address parsers =
    with_answer S (S.parse_element json_str) address (address ∷ parsers)

-- The move assignment: the old parser of the target is freed, and the source keeps no parser. The
-- target, the source and the parsers after it.
pub move_document :
    {S : Simdjson}
    → JsonDocument S
    → JsonDocument S
    → List ℕ
    → JsonDocument S × JsonDocument S × List ℕ
unfolding free_box
move_document target source parsers = (
  record { m_parser = source.m_parser; m_root = source.m_root },
  record source { m_parser = none },
  free_box target.m_parser parsers,
)

-- The destructor.
pub destroy_document : {S : Simdjson} → JsonDocument S → List ℕ → List ℕ
unfolding free_box
destroy_document d parsers = free_box d.m_parser parsers
