-- ===== src/Domain/Timestamp/Print.antt =====
-- What src/domain/timestamp.ts uses of `Date`: the time of calendar fields, and `toISOString`.
use log_stream.Base.{ℕ, ◌+◌, ◌-◌, ◌*◌, ◌/◌, ◌%◌, [], ◌∷◌, ◌++◌, ltb, leb, if◌then◌else◌}
use log_stream.Base.Text.{Text, text_eq, units}
use log_stream.Domain.Calendar.{make_day, civil_from_day, Civil}
use log_stream.Domain.Timestamp.Scan.{DateTime}

abbrev pub digit : ℕ → ℕ
digit n = b'0' + n % 10

abbrev pub pad2 : ℕ → Text
pad2 n = digit (n / 10) ∷ digit n ∷ []

abbrev pub pad3 : ℕ → Text
pad3 n = digit (n / 100) ∷ pad2 n

abbrev pub pad4 : ℕ → Text
pad4 n = pad2 (n / 100) ++ pad2 n

abbrev pub pad6 : ℕ → Text
pad6 n = pad2 (n / 10000) ++ pad4 n

abbrev pub to_civil : DateTime → Civil
to_civil f = record { year = f.year + 400; month = f.month; day = f.day }

-- The time of the fields in UTC: `setUTCFullYear` and `setUTCHours` with no milliseconds.
unfoldable pub local_time : DateTime → ℕ
local_time f =
    make_day (f.year + 400) f.month f.day * 86400000
    + (f.hour * 3600000 + f.minute * 60000 + f.second * 1000)

-- The year of `toISOString`, for the year y + 400: six digits and a sign outside 0 to 9999.
unfoldable pub iso_year : ℕ → Text
iso_year y =
    if ltb y 400
    then b'-' ∷ pad6 (400 - y)
    else if leb 10400 y
    then b'+' ∷ pad6 (y - 400)
    else pad4 (y - 400)

abbrev pub iso_time : ℕ → Text
iso_time ms =
    pad2 (ms / 3600000)
    ++ (b':'
        ∷ (pad2 (ms / 60000 % 60)
            ++ (b':' ∷ (pad2 (ms / 1000 % 60) ++ (b'.' ∷ (pad3 (ms % 1000) ++ (b'Z' ∷ [])))))))

unfoldable pub to_iso_string : ℕ → Text
to_iso_string t =
    let c = civil_from_day (t / 86400000) in
    iso_year c.year
    ++ (b'-' ∷ (pad2 c.month ++ (b'-' ∷ (pad2 c.day ++ (b'T' ∷ iso_time (t % 86400000))))))

-- `replace(/\.000Z$/, "")`.
unfoldable pub strip_zero_ms : Text → Text
strip_zero_ms [] = []
strip_zero_ms (c ∷ t) =
    let rest = strip_zero_ms t in if text_eq (c ∷ t) (units ".000Z") then [] else c ∷ rest

-- The text that both patterns read up to the seconds, in front of a rest.
abbrev pub print_date_time : DateTime → Text → Text
print_date_time f rest =
    pad4 f.year
    ++ (b'-'
        ∷ (pad2 f.month
            ++ (b'-'
                ∷ (pad2 f.day
                    ++ (b'T'
                        ∷ (pad2 f.hour
                            ++ (b':' ∷ (pad2 f.minute ++ (b':' ∷ (pad2 f.second ++ rest))))))))))
