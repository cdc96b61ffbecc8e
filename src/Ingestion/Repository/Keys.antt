-- ===== src/Ingestion/Repository/Keys.antt =====
-- src/modules/ingestion/ingestion-repository.ts: the keys of the map of groups tell their parts apart.
use mathlib.Core.Option.{some-injective}
use log_stream.Base.{
  ℕ, ◌-◌, ◌*◌, ◌/◌, ◌%◌, ◌≡◌, ◌≢◌, refl, sym, ap, subst, ◌∙◌, [], ◌∷◌, ◌++◌, some, All, if_intro,
  ltb, leb, arith,
}
use log_stream.Base.Maybe.{>>=_elim}
use log_stream.Base.Text.{Text}
use log_stream.Domain.LogEntry.{LogLevel, debug, info, warn, error, LogInsertionRecord}
use log_stream.Domain.Calendar.{civil_from_day}
use log_stream.Domain.Timestamp.Print.{digit, pad2, pad4, pad6, iso_year, iso_time, to_iso_string}
use log_stream.Domain.Validator.Fields.{level_name}
use log_stream.Ingestion.Repository.{
  parse_date, to_minute_bucket_iso, AggregateGroup, group_for, key_of,
}

abbrev pub IsPlain : Text → Type 0
IsPlain t = All (λ c. c ≢ 0) t

IsPlain-append : (s t : Text) → IsPlain s → IsPlain t → IsPlain (s ++ t)
IsPlain-append [] t h k = k
IsPlain-append (c ∷ s) t (p, h) k = (p, IsPlain-append s t h k)

digit-ne : (n : ℕ) → digit n ≢ 0
digit-ne n h = absurd (omega (arith, h))

pad2-IsPlain : (n : ℕ) → IsPlain (pad2 n)
pad2-IsPlain n = (digit-ne (n / 10), (digit-ne n, tt))

pad4-IsPlain : (n : ℕ) → IsPlain (pad4 n)
pad4-IsPlain n = IsPlain-append (pad2 (n / 100)) (pad2 n) (pad2-IsPlain _) (pad2-IsPlain n)

pad6-IsPlain : (n : ℕ) → IsPlain (pad6 n)
pad6-IsPlain n = IsPlain-append (pad2 (n / 10000)) (pad4 n) (pad2-IsPlain _) (pad4-IsPlain n)

iso_year-IsPlain : (y : ℕ) → IsPlain (iso_year y)
unfolding iso_year
iso_year-IsPlain y =
    if_intro IsPlain (ltb y 400) (λ _. (λ h. absurd (omega (arith, h)), pad6-IsPlain (400 - y)))
      (λ _.
        if_intro IsPlain (leb 10400 y)
          (λ _. (λ h. absurd (omega (arith, h)), pad6-IsPlain (y - 400)))
          (λ _. pad4-IsPlain (y - 400)))

-- The part of `toISOString` behind the year.
day-IsPlain :
    (month day ms : ℕ)
    → IsPlain (b'-' ∷ (pad2 month ++ (b'-' ∷ (pad2 day ++ (b'T' ∷ iso_time ms)))))
day-IsPlain month day ms = omega arith

pub to_iso_string-IsPlain : (t : ℕ) → IsPlain (to_iso_string t)
unfolding to_iso_string
to_iso_string-IsPlain t =
    let c = civil_from_day (t / 86400000) in
    IsPlain-append (iso_year c.year) _ (iso_year-IsPlain c.year)
      (day-IsPlain c.month c.day (t % 86400000))

-- U+0000 ends a text without one.
split_first :
    (a b s t : Text) → IsPlain a → IsPlain b → a ++ (0 ∷ s) ≡ b ++ (0 ∷ t) → (a ≡ b) × (s ≡ t)
split_first [] [] s t h k e = (refl, cc (e))
split_first [] (y ∷ b) s t h (q, k) e = absurd (q (cc (e)))
split_first (x ∷ a) [] s t (p, h) k e = absurd (p (cc (e)))
split_first (x ∷ a) (y ∷ b) s t (p, h) (q, k) e =
    let (same, rest) = split_first a b s t h k (cc (e)) in (cc (e, same), rest)

not_inside : (s t : Text) → IsPlain (s ++ (0 ∷ t)) → ⊥
not_inside [] t (p, h) = p refl
not_inside (x ∷ s) t (p, h) = not_inside s t h

-- And so for the last.
split_last :
    (s t l m : Text) → IsPlain l → IsPlain m → s ++ (0 ∷ l) ≡ t ++ (0 ∷ m) → (s ≡ t) × (l ≡ m)
split_last [] [] l m h k e = (refl, cc (e))
split_last [] (y ∷ t) l m h k e =
    let tail : l ≡ t ++ (0 ∷ m) = cc (e) in absurd (not_inside t m (subst IsPlain tail h))
split_last (x ∷ s) [] l m h k e =
    let tail : m ≡ s ++ (0 ∷ l) = cc (e) in absurd (not_inside s l (subst IsPlain tail k))
split_last (x ∷ s) (y ∷ t) l m h k e =
    let (same, rest) = split_last s t l m h k (cc (e)) in (cc (e, same), rest)

pub key_of-injective :
    (b s l b' s' l' : Text)
    → IsPlain b
    → IsPlain b'
    → IsPlain l
    → IsPlain l'
    → key_of b s l ≡ key_of b' s' l'
    → (b ≡ b') × (s ≡ s') × (l ≡ l')
key_of-injective b s l b' s' l' hb hb' hl hl' e =
    let (same, rest) = split_first b b' _ _ hb hb' e in
    let (service, level) = split_last s s' l l' hl hl' rest in (same, service, level)

-- No U+0000 in the minute and the level.
abbrev pub IsClean : AggregateGroup → Type 0
IsClean g = IsPlain g.bucket_start × IsPlain g.level

level_name-IsPlain : (l : LogLevel) → IsPlain (level_name l)
level_name-IsPlain debug = omega arith
level_name-IsPlain info = omega arith
level_name-IsPlain warn = omega arith
level_name-IsPlain error = omega arith

-- The group of a record: its minute, service and level, counted once.
pub record IsOwn (r : LogInsertionRecord) (g : AggregateGroup) : Type 0 where
  pub time : ℕ
  pub parsed : parse_date r.entry.timestamp ≡ some time
  pub minute : g.bucket_start ≡ to_iso_string (time - time % 60000)
  pub service : g.service ≡ r.entry.service
  pub level : g.level ≡ level_name r.entry.level
  pub once : g.count ≡ 1
  pub clean : IsClean g

minute_start : (t : ℕ) → t / 60000 * 60000 ≡ t - t % 60000
minute_start t = omega arith

pub group_for-IsOwn :
    (r : LogInsertionRecord) {g : AggregateGroup} → group_for r ≡ some g → IsOwn r g
unfolding group_for to_minute_bucket_iso
group_for-IsOwn r = >>=_elim (to_minute_bucket_iso r.entry.timestamp) _ λ bucket e h.
    >>=_elim (parse_date r.entry.timestamp) _
      (λ time parsed k.
        let b : to_iso_string (time / 60000 * 60000) ≡ bucket = some-injective _ _ k in
        subst (IsOwn r) (some-injective _ _ h) (record {
          time = time;
          parsed = parsed;
          minute = sym b ∙ ap to_iso_string (minute_start time);
          service = refl;
          level = refl;
          once = refl;
          clean = (subst IsPlain b (to_iso_string-IsPlain _), level_name-IsPlain r.entry.level);
        }))
      e
