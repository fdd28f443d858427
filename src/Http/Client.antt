-- ===== src/Http/Client.antt =====
-- Src/IACore/imp/cpp/Http/Client.cpp and Src/IACore/inc/IACore/Http/Client.hpp: HttpClient. A handle
-- of libcurl is a number, with the settings that the client makes on it; what a transfer gives is
-- the parameter `Curl`, and the reading and writing of JSON values are parameters too. The laws are
-- in Client/Requests.
pub mod Requests
mod Tests
use iacore.Base.{
  ℕ, Bool, true, false, ◌&&◌, not, Option, none, some, List, [], ◌∷◌, ◌++◌, Bytes, codes, ltb, leb,
  ◌==◌, if◌then◌else◌, Result, ok, err,
}
use iacore.Http.Headers.{Header, EHeaderType, header_type_to_string}

pub data HttpError : Type 0 where
  not_initialized : HttpError
  network_error : (code : ℕ) → HttpError
  http_error : (code : ℕ) → Bytes → HttpError
  not_ok : (code : ℕ) → HttpError
  json_error undefined_back : HttpError

pub data Method : Type 0 where
  get : Method
  post : Bytes → Method

-- The options that the client sets, and those of one request.
pub record Settings : Type 0 where
  pub tcp_keepalive : Bool
  pub ssl_verifypeer : Bool
  pub ssl_verifyhost : ℕ
  pub method : Method

pub record Request : Type 0 where
  pub settings : Settings
  pub url : Bytes
  pub headers : List Bytes

-- What `curl_easy_perform` gives: its code (`none` for `CURLE_OK`), the pieces that it hands to the
-- callback, and the code of the response.
pub record Answer : Type 0 where
  pub failure : Option ℕ
  pub pieces : List Bytes
  pub response_code : ℕ

abbrev pub Curl : Type 0
Curl = Request → Answer

pub record HttpClient : Type 0 where
  pub m_curl : Option (ℕ × Settings)
  pub m_host : Bytes
  pub m_last_response_code : ℕ

-- `EResponseCode::INTERNAL_SERVER_ERROR` and `EResponseCode::OK`
abbrev pub internal_server_error : ℕ
internal_server_error = 500

abbrev pub ok_code : ℕ
ok_code = 200

-- The constructor; `easy_init` is the answer of `curl_easy_init`.
pub new_client : (easy_init : Option ℕ) → Bytes → HttpClient
new_client easy_init host = record {
  m_curl = with_settings easy_init;
  m_host = host;
  m_last_response_code = internal_server_error;
}
  where
    with_settings : Option ℕ → Option (ℕ × Settings)
    with_settings none = none
    with_settings (some curl) = some (
      curl,
      record { tcp_keepalive = true; ssl_verifypeer = true; ssl_verifyhost = 2; method = get },
    )

-- The handle that the destructor, or an assignment to the client, cleans up.
unfoldable pub cleaned_up : Option (ℕ × Settings) → List ℕ
cleaned_up none = []
cleaned_up (some c) = c.0 ∷ []

-- The moved client is left without a handle; its host is left unspecified by the language.
unfoldable pub moved_client : (host_left : Bytes) → HttpClient → HttpClient × HttpClient
moved_client host_left other = (other, record other { m_curl = none; m_host = host_left })

unfoldable pub assign_client :
    (host_left : Bytes) → HttpClient → HttpClient → (HttpClient × HttpClient) × List ℕ
unfolding cleaned_up moved_client
assign_client host_left this other = (moved_client host_left other, cleaned_up this.m_curl)

unfoldable pub set_option : (Settings → Settings) → Option (ℕ × Settings) → Option (ℕ × Settings)
set_option change none = none
set_option change (some c) = some (c.0, change c.1)

pub enable_certificate_verification : HttpClient → HttpClient
unfolding set_option
enable_certificate_verification client = record client {
  m_curl = set_option (λ s. record s { ssl_verifypeer = true }) client.m_curl;
}

pub disable_certificate_verification : HttpClient → HttpClient
unfolding set_option
disable_certificate_verification client = record client {
  m_curl = set_option (λ s. record s { ssl_verifypeer = false }) client.m_curl;
}

-- `CurlHeaders::add` of a key and a value.
unfoldable pub header_line : Header → Bytes
header_line h = h.0 ++ (codes ": " ++ h.1)

unfoldable pub same_text : Bytes → Bytes → Bool
same_text [] [] = true
same_text [] (d ∷ t) = false
same_text (c ∷ s) [] = false
same_text (c ∷ s) (d ∷ t) = if c == d then same_text s t else false

unfoldable pub is_content_type : Header → Bool
unfolding same_text
is_content_type h = same_text h.0 (header_type_to_string EHeaderType.content_type)

-- The loop: the lines, and `has_content_type`.
unfoldable pub headers_loop : List Header → (has_content_type : Bool) → List Bytes × Bool
unfolding header_line is_content_type
headers_loop [] has_content_type = ([], has_content_type)
headers_loop (h ∷ headers) has_content_type =
    let rest = headers_loop headers (if is_content_type h then true else has_content_type) in
    (header_line h ∷ rest.0, rest.1)

unfoldable pub with_default : Bool → Option Bytes → List Bytes → List Bytes
unfolding header_line
with_default true default_content_type lines = lines
with_default false none lines = lines
with_default false (some content_type) lines =
    lines ++ header_line (codes "Content-Type", content_type) ∷ []

unfoldable pub build_headers_list : List Header → (default_content_type : Option Bytes) → List Bytes
unfolding headers_loop with_default
build_headers_list headers default_content_type =
    let r = headers_loop headers false in with_default r.1 default_content_type r.0

-- `m_host.back()`, which an empty host does not have.
unfoldable pub back : Bytes → Option ℕ
back [] = none
back (c ∷ []) = some c
back (c ∷ d ∷ s) = back (d ∷ s)

unfoldable pub slash_needed : Option ℕ → Option Bool
slash_needed none = none
slash_needed (some c) = some (not (c == b'/'))

-- The target address; `none` where the source asks an empty host for its last character.
unfoldable pub full_url : (host path : Bytes) → Option Bytes
unfolding back slash_needed
full_url host [] = some host
full_url host (c ∷ path) =
    if c == b'/' then some (host ++ c ∷ path) else joined (slash_needed (back host))
  where
    joined : Option Bool → Option Bytes
    joined none = none
    joined (some true) = some ((host ++ codes "/") ++ c ∷ path)
    joined (some false) = some (host ++ c ∷ path)

-- `write_callback` appends each piece to the body.
unfoldable pub response_body : List Bytes → Bytes
response_body [] = []
response_body (piece ∷ pieces) = piece ++ response_body pieces

unfoldable pub finish_request : Option ℕ → Answer → HttpClient → Result HttpError Bytes × HttpClient
unfolding response_body
finish_request (some code) a client = (err (network_error code), client)
finish_request none a client =
    let body = response_body a.pieces in
    let seen = record client { m_last_response_code = a.response_code } in
    if leb 200 a.response_code && ltb a.response_code 300
    then (ok body, seen)
    else (err (http_error a.response_code body), seen)

unfoldable pub perform_request :
    Curl
    → Option (ℕ × Settings)
    → (url : Bytes) → (headers : List Bytes) → HttpClient
    → Result HttpError Bytes × HttpClient
unfolding finish_request
perform_request curl none url headers client = (err not_initialized, client)
perform_request curl (some c) url headers client =
    let a = curl (record { settings = c.1; url = url; headers = headers }) in
    finish_request a.failure a client

-- `raw_get` and `raw_post`, which set the method first.
unfoldable pub request_with :
    Method
    → Curl
    → (url : Option Bytes) → (headers : List Bytes) → HttpClient
    → Result HttpError Bytes × HttpClient
unfolding set_option perform_request
request_with method curl none headers client = (err undefined_back, client)
request_with method curl (some url) headers client =
    let handle = set_option (λ s. record s { method = method }) client.m_curl in
    perform_request curl handle url headers (record client { m_curl = handle })

unfoldable pub raw_get :
    Curl
    → (path : Bytes) → List Header
    → (default_content_type : Option Bytes) → HttpClient
    → Result HttpError Bytes × HttpClient
unfolding request_with full_url build_headers_list
raw_get curl path headers default_content_type client =
    request_with get curl (full_url client.m_host path)
      (build_headers_list headers default_content_type) client

unfoldable pub raw_post :
    Curl
    → (path : Bytes) → List Header
    → (body : Bytes) → (default_content_type : Option Bytes) → HttpClient
    → Result HttpError Bytes × HttpClient
unfolding request_with full_url build_headers_list
raw_post curl path headers body default_content_type client =
    request_with (post body) curl (full_url client.m_host path)
      (build_headers_list headers default_content_type) client

-- The check of the response and the reading of its value; `parse` is `Json::parse_to_struct`.
unfoldable pub json_response {ℓ} :
    {A : Type ℓ}
    → (parse : Bytes → Result HttpError A) → Result HttpError Bytes
    → HttpClient
    → Result HttpError A
json_response parse (err e) client = err e
json_response parse (ok raw) client =
    if not (client.m_last_response_code == ok_code)
    then err (not_ok client.m_last_response_code)
    else parse raw

unfoldable pub json_get {ℓ} :
    {A : Type ℓ}
    → (parse : Bytes → Result HttpError A) → Curl
    → (path : Bytes) → List Header
    → HttpClient
    → Result HttpError A × HttpClient
unfolding json_response raw_get
json_get parse curl path headers client =
    let raw = raw_get curl path headers (some (codes "application/json")) client in
    (json_response parse raw.0 raw.1, raw.1)

-- `encoded` is what `Json::encode_struct` gives for the body.
unfoldable pub json_post {ℓ} :
    {A : Type ℓ}
    → (parse : Bytes → Result HttpError A) → (encoded : Result HttpError Bytes) → Curl
    → (path : Bytes) → List Header
    → HttpClient
    → Result HttpError A × HttpClient
unfolding json_response raw_post
json_post parse (err e) curl path headers client = (err e, client)
json_post parse (ok encoded) curl path headers client =
    let raw = raw_post curl path headers encoded (some (codes "application/json")) client in
    (json_response parse raw.0 raw.1, raw.1)
