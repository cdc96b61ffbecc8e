-- ===== src/Query/Patterns.antt =====
-- The patterns of src/modules/query/cursor-codec.ts and src/modules/query/log-query-repository.ts.
pub mod Laws
use log_stream.Base.{
  ℕ, Bool, true, false, not, ◌&&◌, ◌||◌, List, [], ◌∷◌, ◌++◌, leb, ◌==◌, replicate, is_empty,
}
use log_stream.Base.Text.{Text}

abbrev pub is_hex : ℕ → Bool
is_hex c = (leb b'0' c && leb c b'9') || (leb b'a' c && leb c b'f')

abbrev pub is_base64 : ℕ → Bool
is_base64 c =
    (leb b'A' c && leb c b'Z')
    || (leb b'a' c && leb c b'z')
    || (leb b'0' c && leb c b'9')
    || c == b'-'
    || c == b'_'

abbrev pub is_variant : ℕ → Bool
is_variant c = c == b'8' || c == b'9' || c == b'a' || c == b'b'

-- One class for each unit of the text.
unfoldable pub fits : List (ℕ → Bool) → Text → Bool
fits [] t = is_empty t
fits (class ∷ classes) [] = false
fits (class ∷ classes) (c ∷ t) = class c && fits classes t

abbrev pub hex_digits : ℕ → List (ℕ → Bool)
hex_digits n = replicate n is_hex

abbrev pub unit : ℕ → List (ℕ → Bool)
unit c = (λ x. x == c) ∷ []

-- UUID_V4_PATTERN.
unfoldable pub is_uuid_v4 : Text → Bool
is_uuid_v4 = fits (
    hex_digits 8
    ++ (unit b'-'
        ++ (hex_digits 4
            ++ (unit b'-'
                ++ (unit b'4'
                    ++ (hex_digits 3
                        ++ (unit b'-'
                            ++ ((is_variant ∷ [])
                                ++ (hex_digits 3 ++ (unit b'-' ++ hex_digits 12))))))))))

-- SHA_256_HEX_PATTERN.
unfoldable pub is_sha_256_hex : Text → Bool
is_sha_256_hex = fits (hex_digits 64)

unfoldable pub all_base64 : Text → Bool
all_base64 [] = true
all_base64 (c ∷ t) = is_base64 c && all_base64 t

-- BASE64URL_PATTERN.
unfoldable pub is_base64url : Text → Bool
is_base64url t = not (is_empty t) && all_base64 t
