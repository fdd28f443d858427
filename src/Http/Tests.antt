-- ===== src/Http/Tests.antt =====
-- Http/Common.cpp: header names and percent-encoding by evaluation, and the theorems at concrete inputs.
use iacore.Base.{◌≡◌, [], ◌∷◌, arith}
use iacore.Http.Common.{url_encode, url_decode}
use iacore.Http.Common.Url.{url_decode-url_encode}

url_decode-url_encode_example :
    url_decode (url_encode (37 ∷ 0 ∷ 43 ∷ 255 ∷ [])) ≡ 37 ∷ 0 ∷ 43 ∷ 255 ∷ []
url_decode-url_encode_example = url_decode-url_encode (37 ∷ 0 ∷ 43 ∷ 255 ∷ []) (omega arith)
