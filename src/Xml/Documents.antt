-- ===== src/Xml/Documents.antt =====
-- Src/IACore/imp/cpp/XML.cpp: parsing and printing. The documents, the nodes and the calls of the
-- library pugixml are the parameter `Pugi`; `c_str` gives it the text up to its first zero byte.
use iacore.Base.{
  ◌≡◌, refl, ap, Bool, true, false, inl, inr, [], ◌∷◌, ◌++◌, Bytes, c_str, codes, ◌==◌,
  if◌then◌else◌, Bool-cases, Result, ok, err,
}
use iacore.Xml.{escape_xml_string}
use iacore.Xml.Entities.{read_text, escape_xml_string-reads_back}

-- A parse gives a document, or the description of its failure.
pub record Pugi : Type 1 where
  pub Document : Type 0
  pub Node : Type 0
  pub load_string : Bytes → Result Bytes Document
  pub load_file : Bytes → Result Bytes Document
  pub print : Node → Bytes
  pub save : Document → Bytes

pub parsed : {A : Type 0} → Result Bytes A → Result Bytes A
parsed (ok document) = ok document
parsed (err description) = err (codes "Failed to parse XML " ++ description)

unfoldable pub parse_from_string : (P : Pugi) → Bytes → Result Bytes P.Document
unfolding parsed c_str
parse_from_string P text = parsed (P.load_string (c_str text))

pub parse_from_file : (P : Pugi) → Bytes → Result Bytes P.Document
unfolding parsed c_str
parse_from_file P path = parsed (P.load_file (c_str path))

pub serialize_node : (P : Pugi) → P.Node → (escape : Bool) → Bytes
serialize_node P node escape = if escape then escape_xml_string (P.print node) else P.print node

unfoldable pub serialize_document : (P : Pugi) → P.Document → (escape : Bool) → Bytes
serialize_document P doc escape = if escape then escape_xml_string (P.save doc) else P.save doc

c_str-append : (xs ys : Bytes) → c_str (xs ++ 0 ∷ ys) ≡ c_str xs
unfolding c_str
c_str-append [] ys = refl
c_str-append (x ∷ xs) ys = elim (Bool-cases (x == 0)) [
  | inl nul ↦ rw nul refl
  | inr other ↦ rw other (ap (λ s. x ∷ s) (c_str-append xs ys))
]

-- `parse_from_string` and `parse_from_file` give the same result, whatever stands behind the first zero byte of the text
-- or of the path.
pub parse-c_str :
    (P : Pugi) (xs ys : Bytes)
    → (parse_from_string P (xs ++ 0 ∷ ys) ≡ parse_from_string P xs)
      × (parse_from_file P (xs ++ 0 ∷ ys) ≡ parse_from_file P xs)
unfolding parse_from_string parse_from_file
parse-c_str P xs ys = (
  ap (λ s. parsed (P.load_string s)) (c_str-append xs ys),
  ap (λ s. parsed (P.load_file s)) (c_str-append xs ys),
)

-- The text of an escaped document is the document that is printed without escaping.
pub read_text-serialize_document :
    (P : Pugi) (doc : P.Document)
    → read_text (serialize_document P doc true) ≡ serialize_document P doc false
unfolding serialize_document
read_text-serialize_document P doc = (escape_xml_string-reads_back (P.save doc)).1
