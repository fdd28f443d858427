-- ===== src/Xml/Tests.antt =====
-- XML.cpp: escaping by evaluation, and the theorems at a concrete input.
use iacore.Base.{All, ◌≡◌, refl, ◌∷◌, ◌++◌, Bytes, codes, ok, true}
use iacore.Xml.{escape_xml_string}
use iacore.Xml.Documents.{Pugi, parse_from_string, serialize_document}
use iacore.Xml.Entities.{read_text, IsNoMarkup, escape_xml_string-reads_back}

escape_all : escape_xml_string (codes "< & > ' \"") ≡ codes "&lt; &amp; &gt; &apos; &quot;"
unfolding escape_xml_string
escape_all = refl

escape_xml_string-reads_back_example :
    All IsNoMarkup (escape_xml_string (codes "a<b&lt;c"))
    × (read_text (escape_xml_string (codes "a<b&lt;c")) ≡ codes "a<b&lt;c")
escape_xml_string-reads_back_example = escape_xml_string-reads_back (codes "a<b&lt;c")

-- Documents that are their own text.
abbrev texts : Pugi
texts = record {
  Document = Bytes;
  Node = Bytes;
  load_string = ok;
  load_file = ok;
  print = λ s. s;
  save = λ s. s;
}

behind_zero : parse_from_string texts (codes "<a/>" ++ 0 ∷ codes "<b/>") ≡ ok (codes "<a/>")
unfolding parse_from_string
behind_zero = refl

escaped_document : serialize_document texts (codes "<a/>") true ≡ codes "&lt;a/&gt;"
unfolding serialize_document escape_xml_string
escaped_document = refl
