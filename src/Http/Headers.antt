-- ===== src/Http/Headers.antt =====
-- Http/Common.hpp and Http/Common.cpp: the header names and the status codes.
-- The laws are in Headers/Names.
pub mod Names
use iacore.Base.{ℕ, Bool, ◌&&◌, Bytes, codes, ltb, leb}

pub data EHeaderType : Type 0 where
  accept accept_charset accept_encoding accept_language : EHeaderType
  authorization cache_control connection content_length : EHeaderType
  content_type cookie date expect : EHeaderType
  host if_match if_modified_since if_none_match : EHeaderType
  origin pragma proxy_authorization range : EHeaderType
  referer te upgrade user_agent : EHeaderType
  via warning : EHeaderType

unfoldable pub header_type_to_string : EHeaderType → Bytes
header_type_to_string accept = codes "Accept"
header_type_to_string accept_charset = codes "Accept-Charset"
header_type_to_string accept_encoding = codes "Accept-Encoding"
header_type_to_string accept_language = codes "Accept-Language"
header_type_to_string authorization = codes "Authorization"
header_type_to_string cache_control = codes "Cache-Control"
header_type_to_string connection = codes "Connection"
header_type_to_string content_length = codes "Content-Length"
header_type_to_string content_type = codes "Content-Type"
header_type_to_string cookie = codes "Cookie"
header_type_to_string date = codes "Date"
header_type_to_string expect = codes "Expect"
header_type_to_string host = codes "Host"
header_type_to_string if_match = codes "If-Match"
header_type_to_string if_modified_since = codes "If-Modified-Since"
header_type_to_string if_none_match = codes "If-None-Match"
header_type_to_string origin = codes "Origin"
header_type_to_string pragma = codes "Pragma"
header_type_to_string proxy_authorization = codes "Proxy-Authorization"
header_type_to_string range = codes "Range"
header_type_to_string referer = codes "Referer"
header_type_to_string te = codes "TE"
header_type_to_string upgrade = codes "Upgrade"
header_type_to_string user_agent = codes "User-Agent"
header_type_to_string via = codes "Via"
header_type_to_string warning = codes "Warning"

abbrev pub Header : Type 0
Header = Bytes × Bytes

-- `create_header` with a known name.
pub create_header : EHeaderType → Bytes → Header
create_header key value = (header_type_to_string key, value)

pub data EResponseCode : Type 0 where
  continue switching_protocols processing : EResponseCode
  early_hints ok created : EResponseCode
  accepted non_authoritative_information no_content : EResponseCode
  reset_content partial_content multi_status : EResponseCode
  already_reported im_used multiple_choices : EResponseCode
  moved_permanently found see_other : EResponseCode
  not_modified use_proxy temporary_redirect : EResponseCode
  permanent_redirect bad_request unauthorized : EResponseCode
  payment_required forbidden not_found : EResponseCode
  method_not_allowed not_acceptable proxy_authentication_required : EResponseCode
  request_timeout conflict gone : EResponseCode
  length_required precondition_failed payload_too_large : EResponseCode
  uri_too_long unsupported_media_type range_not_satisfiable : EResponseCode
  expectation_failed im_a_teapot misdirected_request : EResponseCode
  unprocessable_entity locked failed_dependency : EResponseCode
  too_early upgrade_required precondition_required : EResponseCode
  too_many_requests request_header_fields_too_large unavailable_for_legal_reasons : EResponseCode
  internal_server_error not_implemented bad_gateway : EResponseCode
  service_unavailable gateway_timeout http_version_not_supported : EResponseCode
  variant_also_negotiates insufficient_storage loop_detected : EResponseCode
  not_extended network_authentication_required : EResponseCode

-- The number of a status code: the cast to `i32`.
pub response_code_value : EResponseCode → ℕ
response_code_value continue = 100
response_code_value switching_protocols = 101
response_code_value processing = 102
response_code_value early_hints = 103
response_code_value ok = 200
response_code_value created = 201
response_code_value accepted = 202
response_code_value non_authoritative_information = 203
response_code_value no_content = 204
response_code_value reset_content = 205
response_code_value partial_content = 206
response_code_value multi_status = 207
response_code_value already_reported = 208
response_code_value im_used = 226
response_code_value multiple_choices = 300
response_code_value moved_permanently = 301
response_code_value found = 302
response_code_value see_other = 303
response_code_value not_modified = 304
response_code_value use_proxy = 305
response_code_value temporary_redirect = 307
response_code_value permanent_redirect = 308
response_code_value bad_request = 400
response_code_value unauthorized = 401
response_code_value payment_required = 402
response_code_value forbidden = 403
response_code_value not_found = 404
response_code_value method_not_allowed = 405
response_code_value not_acceptable = 406
response_code_value proxy_authentication_required = 407
response_code_value request_timeout = 408
response_code_value conflict = 409
response_code_value gone = 410
response_code_value length_required = 411
response_code_value precondition_failed = 412
response_code_value payload_too_large = 413
response_code_value uri_too_long = 414
response_code_value unsupported_media_type = 415
response_code_value range_not_satisfiable = 416
response_code_value expectation_failed = 417
response_code_value im_a_teapot = 418
response_code_value misdirected_request = 421
response_code_value unprocessable_entity = 422
response_code_value locked = 423
response_code_value failed_dependency = 424
response_code_value too_early = 425
response_code_value upgrade_required = 426
response_code_value precondition_required = 428
response_code_value too_many_requests = 429
response_code_value request_header_fields_too_large = 431
response_code_value unavailable_for_legal_reasons = 451
response_code_value internal_server_error = 500
response_code_value not_implemented = 501
response_code_value bad_gateway = 502
response_code_value service_unavailable = 503
response_code_value gateway_timeout = 504
response_code_value http_version_not_supported = 505
response_code_value variant_also_negotiates = 506
response_code_value insufficient_storage = 507
response_code_value loop_detected = 508
response_code_value not_extended = 510
response_code_value network_authentication_required = 511

pub is_success_response_code : EResponseCode → Bool
is_success_response_code code =
    leb 200 (response_code_value code) && ltb (response_code_value code) 300
