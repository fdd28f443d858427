-- ===== src/Xml.antt =====
-- Src/IACore/imp/cpp/XML.cpp: `escape_xml_string`. Its laws are in Xml/Entities; the
-- functions around the parser and the printer are in Xml/Documents.
pub mod Entities
pub mod Documents
mod Tests
use iacore.Base.{ℕ, [], ◌∷◌, ◌++◌, Bytes, codes, ◌==◌, if◌then◌else◌}

-- What one round of the loop appends.
pub escape_char : ℕ → Bytes
escape_char c =
    if c == b'&'
    then codes "&amp;"
    else if c == b'"'
    then codes "&quot;"
    else if c == b'\''
    then codes "&apos;"
    else if c == b'<'
    then codes "&lt;"
    else if c == b'>'
    then codes "&gt;"
    else c ∷ []

pub escape_loop : Bytes → Bytes → Bytes
escape_loop [] buffer = buffer
escape_loop (c ∷ xml) buffer = escape_loop xml (buffer ++ escape_char c)

pub escape_xml_string : Bytes → Bytes
unfolding escape_loop escape_char
escape_xml_string xml = escape_loop xml []
