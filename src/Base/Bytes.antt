-- ===== src/Base/Bytes.antt =====
-- Bytes of a text: UTF-8 and base64url, as `Buffer` and `TextDecoder` have them.
pub mod Ascii
pub mod Base64
use Prim.Native.Nat.{ℕ, zero, suc, ◌+◌, ◌-◌, ◌*◌, ◌/◌, ◌%◌}
use mathlib.Core.Bool.{Bool, true, false, not, ◌&&◌, ◌||◌}
use mathlib.Core.List.{List, [], ◌∷◌, ◌++◌}
use mathlib.Core.Option.{Option, none, some}
use log_stream.Base.Tests.{ltb, leb, ◌==◌, if◌then◌else◌}
use log_stream.Base.Maybe.{◌>>=◌}
use log_stream.Base.Text.{Text}

abbrev pub Bytes : Type 0
Bytes = List ℕ

-- The bytes of a code point.
unfoldable pub utf8_point : ℕ → Bytes
utf8_point p =
    if ltb p 0x80
    then p ∷ []
    else if ltb p 0x800
    then (0xc0 + p / 64) ∷ (0x80 + p % 64) ∷ []
    else if ltb p 0x10000
    then (0xe0 + p / 4096) ∷ (0x80 + p / 64 % 64) ∷ (0x80 + p % 64) ∷ []
    else (0xf0 + p / 262144) ∷ (0x80 + p / 4096 % 64) ∷ (0x80 + p / 64 % 64) ∷ (0x80 + p % 64) ∷ []

abbrev is_surrogate : ℕ → Bool
is_surrogate c = leb 0xd800 c && ltb c 0xe000

abbrev is_pair : ℕ → ℕ → Bool
is_pair c d = leb 0xd800 c && ltb c 0xdc00 && leb 0xdc00 d && ltb d 0xe000

-- A lone surrogate is written as U+FFFD.
abbrev utf8_unit : ℕ → Bytes
utf8_unit c = if is_surrogate c then utf8_point 0xfffd else utf8_point c

-- `Buffer.from(text, "utf8")`.
unfoldable pub utf8 : Text → Bytes
utf8 [] = []
utf8 (c ∷ []) = utf8_unit c
utf8 (c ∷ d ∷ t) =
    let pair = utf8_point (0x10000 + (c - 0xd800) * 1024 + (d - 0xdc00)) ++ utf8 t in
    let unit = utf8_unit c ++ utf8 (d ∷ t) in if is_pair c d then pair else unit

-- The units of a code point.
abbrev point_units : ℕ → Text → Text
point_units p later =
    if ltb p 0x10000
    then p ∷ later
    else (0xd800 + (p - 0x10000) / 1024) ∷ (0xdc00 + (p - 0x10000) % 1024) ∷ later

-- The decoder of the Encoding standard: the bytes still needed, the value so far, and the bounds of
-- the next byte; `none` is the error of `fatal`.
unfoldable pub decode_from : ℕ → ℕ → ℕ → ℕ → Bytes → Option Text
decode_from zero value low high [] = some []
decode_from (suc needed) value low high [] = none
decode_from zero value low high (b ∷ bytes) =
    let ascii = decode_from 0 0 0x80 0xbf bytes in
    let two = decode_from 1 (b - 0xc0) 0x80 0xbf bytes in
    let three =
      decode_from 2 (b - 0xe0) (if b == 0xe0 then 0xa0 else 0x80) (if b == 0xed then 0x9f else 0xbf)
        bytes in
    let four =
      decode_from 3 (b - 0xf0) (if b == 0xf0 then 0x90 else 0x80) (if b == 0xf4 then 0x8f else 0xbf)
        bytes in
    if ltb b 0x80
    then (do later ← ascii; some (b ∷ later))
    else if leb 0xc2 b && leb b 0xdf
    then two
    else if leb 0xe0 b && leb b 0xef
    then three
    else if leb 0xf0 b && leb b 0xf4
    then four
    else none
decode_from (suc zero) value low high (b ∷ bytes) =
    let later = decode_from 0 0 0x80 0xbf bytes in
    if leb low b && leb b high
    then (do later' ← later; some (point_units (value * 64 + (b - 0x80)) later'))
    else none
decode_from (suc (suc needed)) value low high (b ∷ bytes) =
    let later = decode_from (suc needed) (value * 64 + (b - 0x80)) 0x80 0xbf bytes in
    if leb low b && leb b high then later else none

-- `TextDecoder` leaves out a byte order mark at the start.
unfoldable pub skip_mark : Bytes → Bytes
skip_mark (a ∷ b ∷ c ∷ bytes) =
    if a == 0xef && b == 0xbb && c == 0xbf then bytes else a ∷ b ∷ c ∷ bytes
skip_mark bytes = bytes

-- `new TextDecoder("utf-8", { fatal: true }).decode(bytes)`.
unfoldable pub decode_utf8 : Bytes → Option Text
decode_utf8 bytes = decode_from 0 0 0x80 0xbf (skip_mark bytes)

-- The digits of base64url.
unfoldable pub base64_digit : ℕ → ℕ
base64_digit n =
    if ltb n 26
    then b'A' + n
    else if ltb n 52
    then b'a' + (n - 26)
    else if ltb n 62
    then b'0' + (n - 52)
    else if n == 62
    then b'-'
    else b'_'

unfoldable pub base64_value : ℕ → ℕ
base64_value c =
    if leb b'A' c && leb c b'Z'
    then c - b'A'
    else if leb b'a' c && leb c b'z'
    then c - b'a' + 26
    else if leb b'0' c && leb c b'9'
    then c - b'0' + 52
    else if c == b'-'
    then 62
    else 63

-- `toString("base64url")`.
unfoldable pub to_base64url : Bytes → Text
to_base64url [] = []
to_base64url (a ∷ []) = base64_digit (a / 4) ∷ base64_digit (a % 4 * 16) ∷ []
to_base64url (a ∷ b ∷ []) =
    base64_digit (a / 4) ∷ base64_digit (a % 4 * 16 + b / 16) ∷ base64_digit (b % 16 * 4) ∷ []
to_base64url (a ∷ b ∷ c ∷ bytes) =
    base64_digit (a / 4)
    ∷ base64_digit (a % 4 * 16 + b / 16)
    ∷ base64_digit (b % 16 * 4 + c / 64)
    ∷ base64_digit (c % 64)
    ∷ to_base64url bytes

-- `Buffer.from(text, "base64url")` for a text of digits: bits that fill no byte are left out.
unfoldable pub from_base64url : Text → Bytes
from_base64url (w ∷ x ∷ y ∷ z ∷ t) =
    (base64_value w * 4 + base64_value x / 16)
    ∷ (base64_value x % 16 * 16 + base64_value y / 4)
    ∷ (base64_value y % 4 * 64 + base64_value z)
    ∷ from_base64url t
from_base64url (w ∷ x ∷ y ∷ []) =
    (base64_value w * 4 + base64_value x / 16)
    ∷ (base64_value x % 16 * 16 + base64_value y / 4)
    ∷ []
from_base64url (w ∷ x ∷ []) = (base64_value w * 4 + base64_value x / 16) ∷ []
from_base64url _ = []
