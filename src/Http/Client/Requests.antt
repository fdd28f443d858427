-- ===== src/Http/Client/Requests.antt =====
-- Http/Client.cpp: what a request that succeeds has done, and the addresses and headers of requests.
use iacore.Base.{
  ℕ, ◌≤◌, ◌<◌, ◌≡◌, refl, sym, ◌&&◌, inl, inr, Option, none, some, List, Bytes, codes, ltb, leb,
  ◌==◌, Result, ok, err, Bool-cases, ==→eq, arith,
}
use iacore.Http.Headers.{Header}
use iacore.Http.Client.{
  HttpError, Method, get, post, Settings, Request, Answer, Curl, HttpClient, ok_code,
  build_headers_list, full_url, response_body, finish_request, perform_request, request_with,
  set_option, raw_get, raw_post, json_response, json_get,
}

-- A transfer that libcurl has done without failure, and whose response has a code from 200 to 299.
pub record IsServed (curl : Curl) (method : Method) (target : Option Bytes) (headers : List Bytes)
    (client : HttpClient) (body : Bytes) (client' : HttpClient) : Type 0 where
  pub handle : ℕ × Settings
  pub url : Bytes
  pub has_handle : client.m_curl ≡ some handle
  pub has_url : target ≡ some url
  pub sent : Request
  pub is_sent :
      sent ≡ record { settings = record handle.1 { method = method }; url = url; headers = headers }
  pub transferred : (curl sent).failure ≡ none
  pub whole_body : body ≡ response_body (curl sent).pieces
  pub code_seen : client'.m_last_response_code ≡ (curl sent).response_code
  pub success : (200 ≤ (curl sent).response_code) × ((curl sent).response_code < 300)

ok_same : (a b : Bytes) → ◌≡◌ {A = Result HttpError Bytes} (ok a) (ok b) → a ≡ b
ok_same a b e = cc

-- The end of a request.
finish_request-ok :
    (failure : Option ℕ) (a : Answer) (client : HttpClient) (body : Bytes)
    → (finish_request failure a client).0 ≡ ok body
    → (failure ≡ none)
      × (body ≡ response_body a.pieces)
      × ((finish_request failure a client).1.m_last_response_code ≡ a.response_code)
      × (200 ≤ a.response_code)
      × (a.response_code < 300)
unfolding finish_request
finish_request-ok (some code) a client body e = cc
finish_request-ok none a client body e =
    elim (Bool-cases (leb 200 a.response_code && ltb a.response_code 300)) [
      | inl good ↦ (
        refl,
        sym (ok_same (response_body a.pieces) body (rw good at e)),
        rw good refl,
        ground arith,
        ground arith,
      )
      | inr bad ↦ cc
    ]

module _ (curl : Curl) (method : Method) (url : Bytes) (headers : List Bytes)
    (client : HttpClient) where
  handle_of : Option (ℕ × Settings) → Option (ℕ × Settings)
  handle_of = set_option (λ s. record s { method = method })

  performed : Option (ℕ × Settings) → Result HttpError Bytes × HttpClient
  performed m =
      perform_request curl (handle_of m) url headers (record client { m_curl = handle_of m })

  performed-IsServed :
      (m : Option (ℕ × Settings)) (body : Bytes)
      → client.m_curl ≡ m
      → (performed m).0 ≡ ok body
      → IsServed curl method (some url) headers client body (performed m).1
  unfolding performed handle_of perform_request set_option
  performed-IsServed none body is e = cc
  performed-IsServed (some handle) body is e =
      let request : Request = record {
        settings = record handle.1 { method = method };
        url = url;
        headers = headers;
      } in
      let a = curl request in
      let set = record client { m_curl = some (handle.0, record handle.1 { method = method }) } in
      let (done, whole, seen, low, high) = finish_request-ok a.failure a set body e in
      record {
        handle = handle;
        url = url;
        has_handle = is;
        has_url = refl;
        sent = request;
        is_sent = refl;
        transferred = done;
        whole_body = whole;
        code_seen = seen;
        success = (low, high);
      }

request_with-IsServed :
    (method : Method) (curl : Curl) (target : Option Bytes) (headers : List Bytes)
    (client : HttpClient) (body : Bytes)
    → (request_with method curl target headers client).0 ≡ ok body
    → IsServed curl method target headers client body
        (request_with method curl target headers client).1
unfolding request_with performed handle_of
request_with-IsServed method curl none headers client body e = cc
request_with-IsServed method curl (some url) headers client body e =
    performed-IsServed curl method url headers client client.m_curl body refl e

json_response-ok {ℓ} :
    {A : Type ℓ} (parse : Bytes → Result HttpError A) (raw : Result HttpError Bytes)
    (client : HttpClient) (value : A)
    → json_response parse raw client ≡ ok value
    → (body : Bytes) × (raw ≡ ok body)
      × (client.m_last_response_code ≡ ok_code)
      × (parse body ≡ ok value)
unfolding json_response
json_response-ok parse (err e) client value h = cc
json_response-ok parse (ok raw) client value h =
    elim (Bool-cases (client.m_last_response_code == ok_code)) [
      | inl same ↦ (raw, refl, ==→eq client.m_last_response_code ok_code same, rw same at h)
      | inr other ↦ (let refused = rw other at h in cc)
    ]

-- A `raw_post` gives a body only when the client has a handle and an address, libcurl has done the transfer of exactly
-- this request (the posted content, its address and header lines) without failure, and the response has a code from
-- 200 to 299, which the client remembers; the body is all the pieces that libcurl handed over, in order.
pub raw_post-IsServed :
    (curl : Curl) (path content body : Bytes) (headers : List Header) (content_type : Option Bytes)
    (client : HttpClient)
    → (raw_post curl path headers content content_type client).0 ≡ ok body
    → IsServed curl
        (post content)
        (full_url client.m_host path)
        (build_headers_list headers content_type)
        client
        body
        (raw_post curl path headers content content_type client).1
unfolding raw_post
raw_post-IsServed curl path content body headers content_type client =
    request_with-IsServed (post content) curl (full_url client.m_host path)
      (build_headers_list headers content_type) client body

-- A `json_get` gives a value only when its request is served, with the content type of JSON unless the caller has set
-- one, the code of the response is 200, and the value is what the parser reads from the body.
pub json_get-IsServed {ℓ} :
    {A : Type ℓ} (parse : Bytes → Result HttpError A) (curl : Curl) (path : Bytes)
    (headers : List Header) (client : HttpClient) (value : A)
    → (json_get parse curl path headers client).0 ≡ ok value
    → (body : Bytes) × IsServed curl get
        (full_url client.m_host path)
        (build_headers_list headers (some (codes "application/json")))
        client
        body
        (json_get parse curl path headers client).1
      × ((json_get parse curl path headers client).1.m_last_response_code ≡ 200)
      × (parse body ≡ ok value)
unfolding json_get raw_get
json_get-IsServed parse curl path headers client value e =
    let lines = build_headers_list headers (some (codes "application/json")) in
    let url = full_url client.m_host path in
    let raw = request_with get curl url lines client in
    let (body, is, two_hundred, parsed) = json_response-ok parse raw.0 raw.1 value e in
    (body, request_with-IsServed get curl url lines client body is, two_hundred, parsed)
