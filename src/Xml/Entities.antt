-- ===== src/Xml/Entities.antt =====
-- XML.cpp: escaped text holds no markup, and an XML reader that resolves the five predefined
-- entities reads the text back.
use iacore.Base.{
  ℕ, ◌≡◌, ◌≢◌, refl, sym, ap, ◌∙◌, [], ◌∷◌, ◌++◌, append_assoc, append-nil, Bytes, codes, bytes_eq,
  true, false, All, All-append, ◌==◌, if◌then◌else◌, arith,
}
use iacore.Xml.{escape_char, escape_loop, escape_xml_string}

-- The character of a predefined entity; another name is kept as it stands.
entity : Bytes → Bytes
entity name =
    if bytes_eq name (codes "amp")
    then b'&' ∷ []
    else if bytes_eq name (codes "quot")
    then b'"' ∷ []
    else if bytes_eq name (codes "apos")
    then b'\'' ∷ []
    else if bytes_eq name (codes "lt")
    then b'<' ∷ []
    else if bytes_eq name (codes "gt")
    then b'>' ∷ []
    else b'&' ∷ name ++ b';' ∷ []

-- A reader of character data: outside a reference, and inside one with the name so far.
mutual
  unfolding entity

  pub read_text : Bytes → Bytes
  read_text [] = []
  read_text (c ∷ text) = elim (c == b'&') [ true ↦ read_name text [] | false ↦ c ∷ read_text text ]

  pub read_name : Bytes → Bytes → Bytes
  read_name [] name = b'&' ∷ name
  read_name (c ∷ text) name = elim (c == b';') [
    | true ↦ entity name ++ read_text text
    | false ↦ read_name text (name ++ c ∷ [])
  ]

read_text-escape_char :
    (c : ℕ) (rest : Bytes) → read_text (escape_char c ++ rest) ≡ c ∷ read_text rest
unfolding escape_char read_text entity
read_text-escape_char c rest = ground arith

escape_loop-append : (xml buffer : Bytes) → escape_loop xml buffer ≡ buffer ++ escape_loop xml []
unfolding escape_loop
escape_loop-append [] buffer = sym (append-nil buffer)
escape_loop-append (c ∷ xml) buffer =
    escape_loop-append xml (buffer ++ escape_char c)
    ∙ append_assoc buffer (escape_char c) (escape_loop xml [])
    ∙ ap (λ t. buffer ++ t) (sym (escape_loop-append xml (escape_char c)))

read_text-escape_loop : (xml : Bytes) → read_text (escape_loop xml []) ≡ xml
unfolding escape_loop
read_text-escape_loop [] = unfold read_text in refl
read_text-escape_loop (c ∷ xml) =
    ap read_text (escape_loop-append xml (escape_char c))
    ∙ read_text-escape_char c (escape_loop xml [])
    ∙ ap (λ t. c ∷ t) (read_text-escape_loop xml)

-- A character that begins or ends no markup and no attribute value.
abbrev pub IsNoMarkup : ℕ → Type 0
IsNoMarkup c = (c ≢ b'<') × (c ≢ b'>') × (c ≢ b'"') × (c ≢ b'\'')

escape_char-IsNoMarkup : (c : ℕ) → All IsNoMarkup (escape_char c)
unfolding escape_char
escape_char-IsNoMarkup c = ground arith

escape_loop-IsNoMarkup : (xml : Bytes) → All IsNoMarkup (escape_loop xml [])
unfolding escape_loop
escape_loop-IsNoMarkup [] = tt
escape_loop-IsNoMarkup (c ∷ xml) = rw (escape_loop-append xml (escape_char c)) (
    All-append IsNoMarkup (escape_char c) (escape_loop xml []) (escape_char-IsNoMarkup c)
      (escape_loop-IsNoMarkup xml))

-- Escaped text holds no angle bracket and no quotation mark, so it neither begins markup nor ends an attribute value,
-- and a reader that resolves the five predefined entities of XML reads it back as the text that was escaped.
pub escape_xml_string-reads_back :
    (xml : Bytes)
    → All IsNoMarkup (escape_xml_string xml) × (read_text (escape_xml_string xml) ≡ xml)
unfolding escape_xml_string
escape_xml_string-reads_back xml = (escape_loop-IsNoMarkup xml, read_text-escape_loop xml)
