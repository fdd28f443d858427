-- ===== src/Utils/Tests.antt =====
-- Utils.cpp, Utils.hpp: hexadecimal text and combined hashes by evaluation, and the theorems at concrete inputs.
use iacore.Base.{ℕ, ◌%◌, ◌≡◌, refl, [], ◌∷◌, codes, ok, err, arith}
use iacore.Utils.{odd_length, invalid_character, binary_to_hex_string, hex_string_to_binary}
use iacore.Utils.Hash.{compute_hash}
use iacore.Utils.Hex.{hex_string_to_binary-binary_to_hex_string}

print_bytes : binary_to_hex_string (0xDE ∷ 0xAD ∷ 0x0F ∷ []) ≡ codes "DEAD0F"
unfolding binary_to_hex_string
print_bytes = refl

read_mixed_case : hex_string_to_binary (codes "dEaD") ≡ ok (0xDE ∷ 0xAD ∷ [])
unfolding hex_string_to_binary
read_mixed_case = refl

read_errors :
    (hex_string_to_binary (codes "ABC") ≡ err odd_length)
    × (hex_string_to_binary (codes "ZZTOP1") ≡ err invalid_character)
unfolding hex_string_to_binary
read_errors = (refl, refl)

hex_string_to_binary-binary_to_hex_string_example :
    hex_string_to_binary (binary_to_hex_string (1 ∷ 254 ∷ [])) ≡ ok (1 ∷ 254 ∷ [])
hex_string_to_binary-binary_to_hex_string_example =
    hex_string_to_binary-binary_to_hex_string (1 ∷ 254 ∷ []) (omega arith)

abbrev remainder_hash : ℕ → ℕ
remainder_hash n = n % 7

combined_hash : compute_hash remainder_hash (1 ∷ []) ≡ 0x9e3779b97f4a7c16
unfolding compute_hash
combined_hash = refl
