-- ===== src/Http/Client/Tests.antt =====
-- Http/Client.cpp: requests by evaluation, and the theorems at one of them.
use iacore.Base.{ℕ, ◌≡◌, refl, true, none, some, [], ◌∷◌, Bytes, codes, Result, ok}
use iacore.Http.Headers.{header_type_to_string}
use iacore.Http.Client.{
  HttpError, get, Curl, HttpClient, full_url, back, slash_needed, build_headers_list, headers_loop,
  with_default, is_content_type, same_text, header_line,
}

abbrev server : Curl
server =
    λ request. record { failure = none; pieces = codes "4" ∷ codes "2" ∷ []; response_code = 200 }

abbrev client : HttpClient
client = record {
  m_curl =
      some (
        1,
        record { tcp_keepalive = true; ssl_verifypeer = true; ssl_verifyhost = 2; method = get },
      );
  m_host = codes "https://a.b";
  m_last_response_code = 500;
}

full_url-joined : full_url (codes "https://a.b") (codes "x") ≡ some (codes "https://a.b/x")
unfolding full_url back slash_needed
full_url-joined = refl

-- A header whose name is written in another case is not recognized.
build_headers_list-twice :
    build_headers_list ((codes "content-type", codes "text/plain") ∷ []) (some (codes "a/b"))
    ≡ codes "content-type: text/plain" ∷ codes "Content-Type: a/b" ∷ []
unfolding build_headers_list headers_loop with_default is_content_type same_text header_line
    header_type_to_string
build_headers_list-twice = refl

abbrev parse : Bytes → Result HttpError ℕ
parse b = ok 42
