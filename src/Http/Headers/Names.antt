-- ===== src/Http/Headers/Names.antt =====
-- Http/Common.cpp: a header's name tells its type, and the successful status codes.
use iacore.Base.{
  ◌≡◌, refl, ap, ◌↔◌, true, Option, none, some, List, [], ◌∷◌, Bytes, bytes_eq, if◌then◌else◌,
}
use iacore.Http.Headers.{
  EHeaderType, header_type_to_string, EResponseCode, response_code_value, is_success_response_code,
}

abbrev all_types : List EHeaderType
all_types =
    EHeaderType.accept ∷ EHeaderType.accept_charset ∷ EHeaderType.accept_encoding
    ∷ EHeaderType.accept_language ∷ EHeaderType.authorization ∷ EHeaderType.cache_control
    ∷ EHeaderType.connection ∷ EHeaderType.content_length ∷ EHeaderType.content_type
    ∷ EHeaderType.cookie ∷ EHeaderType.date ∷ EHeaderType.expect ∷ EHeaderType.host
    ∷ EHeaderType.if_match ∷ EHeaderType.if_modified_since ∷ EHeaderType.if_none_match
    ∷ EHeaderType.origin ∷ EHeaderType.pragma ∷ EHeaderType.proxy_authorization ∷ EHeaderType.range
    ∷ EHeaderType.referer ∷ EHeaderType.te ∷ EHeaderType.upgrade ∷ EHeaderType.user_agent
    ∷ EHeaderType.via ∷ EHeaderType.warning ∷ []

-- The first type of a list whose name is the given one.
find_type : Bytes → List EHeaderType → Option EHeaderType
find_type name [] = none
find_type name (t ∷ ts) =
    if bytes_eq name (header_type_to_string t) then some t else find_type name ts

find_type-name : (t : EHeaderType) → find_type (header_type_to_string t) all_types ≡ some t
unfolding find_type header_type_to_string
find_type-name EHeaderType.accept = refl
find_type-name EHeaderType.accept_charset = refl
find_type-name EHeaderType.accept_encoding = refl
find_type-name EHeaderType.accept_language = refl
find_type-name EHeaderType.authorization = refl
find_type-name EHeaderType.cache_control = refl
find_type-name EHeaderType.connection = refl
find_type-name EHeaderType.content_length = refl
find_type-name EHeaderType.content_type = refl
find_type-name EHeaderType.cookie = refl
find_type-name EHeaderType.date = refl
find_type-name EHeaderType.expect = refl
find_type-name EHeaderType.host = refl
find_type-name EHeaderType.if_match = refl
find_type-name EHeaderType.if_modified_since = refl
find_type-name EHeaderType.if_none_match = refl
find_type-name EHeaderType.origin = refl
find_type-name EHeaderType.pragma = refl
find_type-name EHeaderType.proxy_authorization = refl
find_type-name EHeaderType.range = refl
find_type-name EHeaderType.referer = refl
find_type-name EHeaderType.te = refl
find_type-name EHeaderType.upgrade = refl
find_type-name EHeaderType.user_agent = refl
find_type-name EHeaderType.via = refl
find_type-name EHeaderType.warning = refl

-- Two header types with the same name are the same type.
pub header_type_to_string_injective :
    (s t : EHeaderType) → header_type_to_string s ≡ header_type_to_string t → s ≡ t
header_type_to_string_injective s t e =
    cc (find_type-name s, find_type-name t, ap (λ n. find_type n all_types) e)

-- The status codes of RFC 9110 and its extensions that report success.
pub data IsSuccess : EResponseCode → Type 0 where
  ok_success : IsSuccess EResponseCode.ok
  created_success : IsSuccess EResponseCode.created
  accepted_success : IsSuccess EResponseCode.accepted
  non_authoritative_information_success : IsSuccess EResponseCode.non_authoritative_information
  no_content_success : IsSuccess EResponseCode.no_content
  reset_content_success : IsSuccess EResponseCode.reset_content
  partial_content_success : IsSuccess EResponseCode.partial_content
  multi_status_success : IsSuccess EResponseCode.multi_status
  already_reported_success : IsSuccess EResponseCode.already_reported
  im_used_success : IsSuccess EResponseCode.im_used

-- `is_success_response_code` accepts the ten status codes of the class 2xx that the enumeration
-- names, and no other.
pub is_success_response_code_iff :
    (code : EResponseCode) → (is_success_response_code code ≡ true) ↔ IsSuccess code
unfolding is_success_response_code response_code_value
is_success_response_code_iff EResponseCode.continue = (λ e. cc, λ s. elim s [ ])
is_success_response_code_iff EResponseCode.switching_protocols = (λ e. cc, λ s. elim s [ ])
is_success_response_code_iff EResponseCode.processing = (λ e. cc, λ s. elim s [ ])
is_success_response_code_iff EResponseCode.early_hints = (λ e. cc, λ s. elim s [ ])
is_success_response_code_iff EResponseCode.ok = (λ e. ok_success, λ s. refl)
is_success_response_code_iff EResponseCode.created = (λ e. created_success, λ s. refl)
is_success_response_code_iff EResponseCode.accepted = (λ e. accepted_success, λ s. refl)
is_success_response_code_iff EResponseCode.non_authoritative_information =
    (λ e. non_authoritative_information_success, λ s. refl)
is_success_response_code_iff EResponseCode.no_content = (λ e. no_content_success, λ s. refl)
is_success_response_code_iff EResponseCode.reset_content = (λ e. reset_content_success, λ s. refl)
is_success_response_code_iff EResponseCode.partial_content =
    (λ e. partial_content_success, λ s. refl)
is_success_response_code_iff EResponseCode.multi_status = (λ e. multi_status_success, λ s. refl)
is_success_response_code_iff EResponseCode.already_reported =
    (λ e. already_reported_success, λ s. refl)
is_success_response_code_iff EResponseCode.im_used = (λ e. im_used_success, λ s. refl)
is_success_response_code_iff EResponseCode.multiple_choices = (λ e. cc, λ s. elim s [ ])
is_success_response_code_iff EResponseCode.moved_permanently = (λ e. cc, λ s. elim s [ ])
is_success_response_code_iff EResponseCode.found = (λ e. cc, λ s. elim s [ ])
is_success_response_code_iff EResponseCode.see_other = (λ e. cc, λ s. elim s [ ])
is_success_response_code_iff EResponseCode.not_modified = (λ e. cc, λ s. elim s [ ])
is_success_response_code_iff EResponseCode.use_proxy = (λ e. cc, λ s. elim s [ ])
is_success_response_code_iff EResponseCode.temporary_redirect = (λ e. cc, λ s. elim s [ ])
is_success_response_code_iff EResponseCode.permanent_redirect = (λ e. cc, λ s. elim s [ ])
is_success_response_code_iff EResponseCode.bad_request = (λ e. cc, λ s. elim s [ ])
is_success_response_code_iff EResponseCode.unauthorized = (λ e. cc, λ s. elim s [ ])
is_success_response_code_iff EResponseCode.payment_required = (λ e. cc, λ s. elim s [ ])
is_success_response_code_iff EResponseCode.forbidden = (λ e. cc, λ s. elim s [ ])
is_success_response_code_iff EResponseCode.not_found = (λ e. cc, λ s. elim s [ ])
is_success_response_code_iff EResponseCode.method_not_allowed = (λ e. cc, λ s. elim s [ ])
is_success_response_code_iff EResponseCode.not_acceptable = (λ e. cc, λ s. elim s [ ])
is_success_response_code_iff EResponseCode.proxy_authentication_required =
    (λ e. cc, λ s. elim s [ ])
is_success_response_code_iff EResponseCode.request_timeout = (λ e. cc, λ s. elim s [ ])
is_success_response_code_iff EResponseCode.conflict = (λ e. cc, λ s. elim s [ ])
is_success_response_code_iff EResponseCode.gone = (λ e. cc, λ s. elim s [ ])
is_success_response_code_iff EResponseCode.length_required = (λ e. cc, λ s. elim s [ ])
is_success_response_code_iff EResponseCode.precondition_failed = (λ e. cc, λ s. elim s [ ])
is_success_response_code_iff EResponseCode.payload_too_large = (λ e. cc, λ s. elim s [ ])
is_success_response_code_iff EResponseCode.uri_too_long = (λ e. cc, λ s. elim s [ ])
is_success_response_code_iff EResponseCode.unsupported_media_type = (λ e. cc, λ s. elim s [ ])
is_success_response_code_iff EResponseCode.range_not_satisfiable = (λ e. cc, λ s. elim s [ ])
is_success_response_code_iff EResponseCode.expectation_failed = (λ e. cc, λ s. elim s [ ])
is_success_response_code_iff EResponseCode.im_a_teapot = (λ e. cc, λ s. elim s [ ])
is_success_response_code_iff EResponseCode.misdirected_request = (λ e. cc, λ s. elim s [ ])
is_success_response_code_iff EResponseCode.unprocessable_entity = (λ e. cc, λ s. elim s [ ])
is_success_response_code_iff EResponseCode.locked = (λ e. cc, λ s. elim s [ ])
is_success_response_code_iff EResponseCode.failed_dependency = (λ e. cc, λ s. elim s [ ])
is_success_response_code_iff EResponseCode.too_early = (λ e. cc, λ s. elim s [ ])
is_success_response_code_iff EResponseCode.upgrade_required = (λ e. cc, λ s. elim s [ ])
is_success_response_code_iff EResponseCode.precondition_required = (λ e. cc, λ s. elim s [ ])
is_success_response_code_iff EResponseCode.too_many_requests = (λ e. cc, λ s. elim s [ ])
is_success_response_code_iff EResponseCode.request_header_fields_too_large =
    (λ e. cc, λ s. elim s [ ])
is_success_response_code_iff EResponseCode.unavailable_for_legal_reasons =
    (λ e. cc, λ s. elim s [ ])
is_success_response_code_iff EResponseCode.internal_server_error = (λ e. cc, λ s. elim s [ ])
is_success_response_code_iff EResponseCode.not_implemented = (λ e. cc, λ s. elim s [ ])
is_success_response_code_iff EResponseCode.bad_gateway = (λ e. cc, λ s. elim s [ ])
is_success_response_code_iff EResponseCode.service_unavailable = (λ e. cc, λ s. elim s [ ])
is_success_response_code_iff EResponseCode.gateway_timeout = (λ e. cc, λ s. elim s [ ])
is_success_response_code_iff EResponseCode.http_version_not_supported = (λ e. cc, λ s. elim s [ ])
is_success_response_code_iff EResponseCode.variant_also_negotiates = (λ e. cc, λ s. elim s [ ])
is_success_response_code_iff EResponseCode.insufficient_storage = (λ e. cc, λ s. elim s [ ])
is_success_response_code_iff EResponseCode.loop_detected = (λ e. cc, λ s. elim s [ ])
is_success_response_code_iff EResponseCode.not_extended = (λ e. cc, λ s. elim s [ ])
is_success_response_code_iff EResponseCode.network_authentication_required =
    (λ e. cc, λ s. elim s [ ])
