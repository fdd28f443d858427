-- ===== src/Json/Ledger.antt =====
-- JSON.hpp: who owns the parsers.
use iacore.Base.{
  ℕ, ◌≡◌, refl, true, ◌⊎◌, inl, none, some, List, ◌∷◌, Bytes, ◌==◌, Result, ok, err, arith,
}
use iacore.Json.{
  Simdjson, JsonDocument, free, free_box, with_answer, parse_read_only, move_document,
  destroy_document,
}

-- Where the root of a document that owns a parser points: into that parser.
pub IsOwned : {S : Simdjson} → JsonDocument S → Type 0
IsOwned d = (d.m_parser ≡ none) ⊎ (d.m_parser ≡ some d.m_root.holder)

free-first : (p : ℕ) (parsers : List ℕ) → free p (p ∷ parsers) ≡ parsers
unfolding free
free-first p parsers = let same : (p == p) ≡ true = ground arith in rw same refl

-- The parsers when the document of a call, if there is one, is destroyed.
pub after_document : {S : Simdjson} → Result Bytes (JsonDocument S) → List ℕ → List ℕ
unfolding destroy_document
after_document (err message) parsers = parsers
after_document (ok d) parsers = destroy_document d parsers

with_answer-after :
    (S : Simdjson) (answer : Result Bytes S.Element) (address : ℕ) (parsers : List ℕ)
    → after_document
        (with_answer S answer address (address ∷ parsers)).result
        (with_answer S answer address (address ∷ parsers)).parsers
      ≡ parsers
unfolding after_document with_answer destroy_document free_box
with_answer-after S (err message) address parsers = free-first address parsers
with_answer-after S (ok element) address parsers = free-first address parsers

-- `parse_read_only` leaves no parser behind: when it fails, and when the document that it returns is destroyed, the
-- parsers are those from before the call.
pub parse_read_only-after :
    (S : Simdjson) (json_str : Bytes) (address : ℕ) (parsers : List ℕ)
    → let call = parse_read_only S json_str address parsers in
      after_document call.result call.parsers ≡ parsers
unfolding parse_read_only
parse_read_only-after S json_str address parsers =
    with_answer-after S (S.parse_element json_str) address parsers

-- A move assignment hands the parser over: the target's root points into the parser that it owns if the source's did, and
-- destroying both documents after it frees what destroying both before it does.
pub move_document-IsOwned :
    {S : Simdjson} (target source : JsonDocument S) (parsers : List ℕ)
    → IsOwned source
    → let (target', source', parsers') = move_document target source parsers in
      IsOwned target'
      × IsOwned source'
      × (destroy_document target' (destroy_document source' parsers')
          ≡ destroy_document source (destroy_document target parsers))
unfolding move_document IsOwned destroy_document free_box
move_document-IsOwned target source parsers owned = (owned, inl refl, refl)
