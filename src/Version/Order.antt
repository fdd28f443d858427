-- ===== src/Version/Order.antt =====
-- PCH.hpp: the number of a version and the order of the versions.
use iacore.Base.{
  ◌+◌, ◌*◌, ◌%◌, ◌^◌, ◌<◌, ◌≡◌, ap, ◌∙◌, bit_or, bit_or_disjoint, Bool, ltb, ◌==◌, if◌then◌else◌,
  arith,
}
use iacore.Version.{Version, to_u64}

-- The later field counts when the earlier ones are the same.
pub precedes : Version → Version → Bool
precedes v w =
    if v.major == w.major
    then (if v.minor == w.minor then ltb v.patch w.patch else ltb v.minor w.minor)
    else ltb v.major w.major

-- Each field has room in the number.
unfoldable pub Fits : Version → Type 0
Fits v = (v.major < 2 ^ 24) × (v.minor < 2 ^ 24) × (v.patch < 2 ^ 16)

to_u64-sum : (v : Version) → Fits v → to_u64 v ≡ v.major * 2 ^ 40 + v.minor * 2 ^ 16 + v.patch
unfolding to_u64 Fits
to_u64-sum v (major_fits, minor_fits, patch_fits) =
    let high : v.major * 2 ^ 40 % 2 ^ 64 ≡ v.major * 2 ^ 40 = omega arith in
    let middle : v.minor * 2 ^ 16 % 2 ^ 64 ≡ v.minor * 2 ^ 16 = omega arith in
    let joined : bit_or (v.major * 2 ^ 40 % 2 ^ 64) (v.minor * 2 ^ 16 % 2 ^ 64)
        ≡ (v.major * 2 ^ 24 + v.minor) * 2 ^ 16 =
      ap (λ a. bit_or a (v.minor * 2 ^ 16 % 2 ^ 64)) high
      ∙ ap (bit_or (v.major * 2 ^ 40)) middle
      ∙ bit_or_disjoint 40 v.major (v.minor * 2 ^ 16) (omega arith)
      ∙ omega arith in
    ap (λ a. bit_or a v.patch) joined
    ∙ bit_or_disjoint 16 (v.major * 2 ^ 24 + v.minor) v.patch (omega arith)
    ∙ omega arith

-- The numbers of two versions are in the order of the versions, field by field, if the first two fields of each are below
-- 2 ^ 24 and the last is below 2 ^ 16.
pub to_u64-precedes : (v w : Version) → Fits v → Fits w → ltb (to_u64 v) (to_u64 w) ≡ precedes v w
unfolding Fits precedes
to_u64-precedes v w fits_v fits_w =
    let (v1, v2, v3) = fits_v in
    let (w1, w2, w3) = fits_w in
    let first = to_u64-sum v fits_v in let second = to_u64-sum w fits_w in ground arith
