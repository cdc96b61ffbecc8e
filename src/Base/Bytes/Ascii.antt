-- ===== src/Base/Bytes/Ascii.antt =====
-- ASCII texts are their own bytes.
use Prim.Native.Nat.{◌<◌}
use mathlib.Core.Path.{◌≡◌, refl, ap, ◌∙◌}
use mathlib.Core.Bool.{Bool, true, false}
use mathlib.Core.List.{[], ◌∷◌, ◌++◌}
use mathlib.Core.Option.{some}
use native.Mathlib.Omega.{arith}
use log_stream.Base.Tests.{ltb, if◌then◌else◌}
use log_stream.Base.Lists.{All}
use log_stream.Base.Text.{Text}
use log_stream.Base.Bytes.{utf8_point, utf8, decode_from, skip_mark, decode_utf8}

abbrev pub IsAscii : Text → Type 0
IsAscii = All (λ c. c < 128)

pub utf8-IsAscii : (t : Text) → IsAscii t → utf8 t ≡ t
unfolding utf8 utf8_point
utf8-IsAscii [] h = refl
utf8-IsAscii (c ∷ []) (h, _) = ground arith
utf8-IsAscii (c ∷ d ∷ t) (h, k) = ground (arith, utf8-IsAscii (d ∷ t) k)

decode_from-IsAscii : (t : Text) → IsAscii t → decode_from 0 0 0x80 0xbf t ≡ some t
unfolding decode_from
decode_from-IsAscii [] h = refl
decode_from-IsAscii (c ∷ t) (h, k) = ground (arith, decode_from-IsAscii t k)

skip_mark-IsAscii : (t : Text) → IsAscii t → skip_mark t ≡ t
unfolding skip_mark
skip_mark-IsAscii [] h = refl
skip_mark-IsAscii (a ∷ []) h = refl
skip_mark-IsAscii (a ∷ b ∷ []) h = refl
skip_mark-IsAscii (a ∷ b ∷ c ∷ t) (h, _) = ground arith

pub decode_utf8-IsAscii : (t : Text) → IsAscii t → decode_utf8 t ≡ some t
unfolding decode_utf8
decode_utf8-IsAscii t h =
    ap (decode_from 0 0 0x80 0xbf) (skip_mark-IsAscii t h) ∙ decode_from-IsAscii t h

abbrev all_ascii : Text → Bool
all_ascii [] = true
all_ascii (c ∷ t) = if ltb c 128 then all_ascii t else false

-- A prefix whose units are known is ASCII by evaluation.
pub append-IsAscii : (prefix t : Text) → all_ascii prefix ≡ true → IsAscii t → IsAscii (prefix ++ t)
append-IsAscii [] t h k = k
append-IsAscii (c ∷ prefix) t h k =
    let low : c < 128 = ground (arith, h) in
    let rest : all_ascii prefix ≡ true = ground (arith, h) in (low, append-IsAscii prefix t rest k)

pub IsAscii-bytes : (t : Text) → IsAscii t → All (λ b. b < 256) t
IsAscii-bytes [] h = tt
IsAscii-bytes (c ∷ t) (h, k) = (omega (arith, h), IsAscii-bytes t k)
