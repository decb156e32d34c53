-- ===== src/Tests/Runs.antt =====
-- Runs of the model in the memory of `Tests.Memory`.
use tendril.Common.{◌≡◌, refl, some, [], ◌∷◌}
use tendril.Fmt.Utf8.{encode_utf8, char_indices, char_indices_from, next_char}
use tendril.Buf32.{checked_next_power_of_two}

euro : encode_utf8 0x20AC ≡ 0xE2 ∷ 0x82 ∷ 0xAC ∷ []
unfolding encode_utf8
euro = refl

indices :
    char_indices (0x41 ∷ 0xE2 ∷ 0x82 ∷ 0xAC ∷ 0x42 ∷ []) ≡ (0, 0x41) ∷ (1, 0x20AC) ∷ (4, 0x42) ∷ []
unfolding char_indices char_indices_from next_char
indices = refl

doubled : checked_next_power_of_two 100 ≡ some 128
unfolding checked_next_power_of_two
doubled = refl
