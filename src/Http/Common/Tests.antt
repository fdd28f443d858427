-- ===== src/Http/Common/Tests.antt =====
-- Http/Common.cpp: percent-encoding by evaluation.
use iacore.Base.{◌≡◌, refl, codes}
use iacore.Http.Common.{url_encode, url_decode}

encode_blank : url_encode (codes "a b/c~") ≡ codes "a%20b%2Fc~"
unfolding url_encode
encode_blank = refl

decode_cut : url_decode (codes "a+%4") ≡ codes "a %4"
unfolding url_decode
decode_cut = refl
