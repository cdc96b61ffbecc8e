-- ===== src/Query/Paging/Complete.antt =====
-- src/modules/query/log-query-service.ts: the pages of a query, one after the other.
use log_stream.Base.{
  ℕ, zero, suc, ◌+◌, ◌≤◌, ◌<◌, ◌≡◌, refl, ap, ◌∙◌, sym, subst, true, false, List, [], ◌∷◌, ◌++◌,
  append_assoc, Option, none, some, All, ltb, lt→ltb, take, drop, keep_if, arith, length,
  Bool-cases, inl, inr, ltb→lt,
}
use log_stream.Base.Bytes.{Bytes}
use log_stream.Base.Number.{Number}
use log_stream.Base.Text.{Text}
use log_stream.Domain.Json.{Json, Members}
use log_stream.Query.Result.{parsed}
use log_stream.Query.Parameters.{LogFilters, ParsedLogListQuery, parse_log_list_query}
use log_stream.Query.Cursor.{LogCursorPosition, encode_log_cursor, decode_log_cursor}
use log_stream.Query.Cursor.Exact.{decode_log_cursor-nonempty}
use log_stream.Query.Repository.{ApiLogResponseItem, LogQueryPageRequest, PageResult, page}
use log_stream.Query.Service.{response, next_cursor_of, respond, start_of, list_parsed, list_logs}
use log_stream.Query.Paging.{position_of, Behind, IsDescending, FindsPages, with_cursor, fetch_all}
use log_stream.Query.Paging.Cursorless.{parse_log_list_query-cursor}
use log_stream.Query.Paging.Order.{
  keep_if-IsDescending, take-drop, length-take_more, take-take_more, take_all, last_taken,
  length-drop, All-middle,
}

module _ (digest : Bytes → Text) (stringify_number : Number → Text)
    (read_number : Text → Number) where
  -- The cursor of a row is one that leads back to the row.
  abbrev pub LeadsBack : LogFilters → ApiLogResponseItem → Type 0
  LeadsBack f row =
      decode_log_cursor digest stringify_number read_number
        (encode_log_cursor digest stringify_number read_number (position_of row) f) f
      ≡ some (position_of row)

  start_of-cursor :
      (v : ParsedLogListQuery) (t : Text) (p : LogCursorPosition)
      → decode_log_cursor digest stringify_number read_number t v.filters ≡ some p
      → start_of digest stringify_number read_number (record v { cursor = some t }) ≡ some (some p)
  unfolding start_of
  start_of-cursor v t p d = rw (d, start_of)

  module _ (find : LogQueryPageRequest → PageResult) (behind : Behind)
      (rows : List ApiLogResponseItem) (query : Members) (v : ParsedLogListQuery) where
    -- A cursor behind which the rest of the rows stands.
    abbrev At : Option Text → List ApiLogResponseItem → Type 0
    At none rest = rows ≡ rest
    At (some t) rest =
        (front : List ApiLogResponseItem) × (row : ApiLogResponseItem) × (rows
          ≡ front ++ (row ∷ rest))
        × (t ≡ encode_log_cursor digest stringify_number read_number (position_of row) v.filters)

    At-front :
        (c : Option Text) (rest : List ApiLogResponseItem)
        → At c rest
        → (front : List ApiLogResponseItem) × (rows ≡ front ++ rest)
    At-front none rest e = ([], e)
    At-front (some t) rest (front, row, e, _) =
        (front ++ (row ∷ []), e ∙ sym (append_assoc front (row ∷ []) rest))

    list-At :
        (c : Option Text) (rest : List ApiLogResponseItem)
        → parse_log_list_query (Json.object query) ≡ parsed v
        → v.cursor ≡ none
        → IsDescending behind rows
        → ((start : Option LogCursorPosition)
            → FindsPages behind rows find
                (record { filters = v.filters; limit = v.limit; cursor = start }))
        → All (LeadsBack v.filters) rows
        → At c rest
        → list_logs digest stringify_number read_number find (Json.object (with_cursor c query))
          ≡ respond digest stringify_number read_number v.filters v.limit
              (page (take (v.limit + 1) rest))
    unfolding list_logs list_parsed start_of
    list-At none rest hp hn ord finds back e =
        rw (hp, list_logs)
          (rw (hn, start_of)
            (ap (respond digest stringify_number read_number v.filters v.limit)
              (finds none ∙ ap (λ r. page (take (v.limit + 1) r)) e)))
    list-At (some t) rest hp hn ord finds back (front, row, e, et) =
        let p = position_of row in
        let b : LeadsBack v.filters row =
          All-middle (LeadsBack v.filters) front row rest
            (subst (All (LeadsBack v.filters)) e back) in
        let d : decode_log_cursor digest stringify_number read_number t v.filters ≡ some p =
          ap (λ c. decode_log_cursor digest stringify_number read_number c v.filters) et ∙ b in
        let full = decode_log_cursor-nonempty digest stringify_number read_number t v.filters p d in
        let kept : keep_if (behind p) rows ≡ rest =
          ap (keep_if (behind p)) e
          ∙ keep_if-IsDescending behind front row rest (subst (IsDescending behind) e ord) in
        rw (parse_log_list_query-cursor query t v full hp, list_logs)
          (rw (start_of-cursor v t p d, list_parsed)
            (ap (respond digest stringify_number read_number v.filters v.limit)
              (finds (some p) ∙ ap (λ r. page (take (v.limit + 1) r)) kept)))

    respond-more :
        (rest : List ApiLogResponseItem)
        → 1 ≤ v.limit
        → v.limit < length rest
        → (front : List ApiLogResponseItem) × (row : ApiLogResponseItem) × (take v.limit rest
            ≡ front ++ (row ∷ []))
          × (respond digest stringify_number read_number v.filters v.limit
                (page (take (v.limit + 1) rest))
              ≡ response (take v.limit rest) (
                  some (
                    encode_log_cursor digest stringify_number read_number
                      (position_of row)
                      v.filters)))
    unfolding next_cursor_of
    respond-more rest one more =
        let (front, row, el, es) = last_taken v.limit rest one (omega (arith, more)) in
        let next : v.limit + 1 ≡ suc v.limit = omega arith in
        let long : ltb v.limit (length (take (suc v.limit) rest)) ≡ true =
          ap (ltb v.limit) (length-take_more v.limit rest more)
          ∙ lt→ltb v.limit (suc v.limit) (omega arith) in
        (front, row, es, rw next (rw (take-take_more v.limit rest, long, el)))

    respond-last :
        (rest : List ApiLogResponseItem)
        → length rest ≤ v.limit
        → respond digest stringify_number read_number v.filters v.limit
            (page (take (v.limit + 1) rest))
          ≡ response rest none
    unfolding next_cursor_of
    respond-last rest few =
        let all = take_all v.limit rest few in
        let all' = take_all (v.limit + 1) rest (omega (arith, few)) in
        let short : ltb v.limit (length rest) ≡ false = ground arith in rw all' (rw (all, short))

    fetch_all-response :
        (fuel : ℕ) (c : Option Text) (logs : List ApiLogResponseItem)
        → list_logs digest stringify_number read_number find (Json.object (with_cursor c query))
          ≡ response logs none
        → fetch_all digest stringify_number read_number find (suc fuel) query c ≡ some logs
    unfolding fetch_all
    fetch_all-response fuel c logs h = rw (h, fetch_all)

    fetch_all-next :
        (fuel : ℕ) (c : Option Text) (logs : List ApiLogResponseItem) (next : Text)
        (later : List ApiLogResponseItem)
        → list_logs digest stringify_number read_number find (Json.object (with_cursor c query))
          ≡ response logs (some next)
        → fetch_all digest stringify_number read_number find fuel query (some next) ≡ some later
        → fetch_all digest stringify_number read_number find (suc fuel) query c
          ≡ some (logs ++ later)
    unfolding fetch_all
    fetch_all-next fuel c logs next later h k = rw (h, fetch_all) (rw k)

    pub fetch_all-At :
        (fuel : ℕ) (c : Option Text) (rest : List ApiLogResponseItem)
        → parse_log_list_query (Json.object query) ≡ parsed v
        → v.cursor ≡ none
        → 1 ≤ v.limit
        → IsDescending behind rows
        → ((start : Option LogCursorPosition)
            → FindsPages behind rows find
                (record { filters = v.filters; limit = v.limit; cursor = start }))
        → All (LeadsBack v.filters) rows
        → At c rest
        → length rest < fuel
        → fetch_all digest stringify_number read_number find fuel query c ≡ some rest
    fetch_all-At zero c rest hp hn one ord finds back at enough = absurd (omega arith)
    fetch_all-At (suc fuel) c rest hp hn one ord finds back at enough =
        let listed = list-At c rest hp hn ord finds back at in
        elim (Bool-cases (ltb v.limit (length rest))) [
          | inl more ↦
              let (front, row, es, er) =
                respond-more rest one (ltb→lt v.limit (length rest) more) in
              let next =
                encode_log_cursor digest stringify_number read_number (position_of row) v.filters in
              let (before, eb) = At-front c rest at in
              let split : rows ≡ (before ++ front) ++ (row ∷ drop v.limit rest) =
                eb
                ∙ ap (λ r. before ++ r)
                    (sym (take-drop v.limit rest)
                      ∙ (ap (λ r. r ++ drop v.limit rest) es
                          ∙ append_assoc front (row ∷ []) (drop v.limit rest)))
                ∙ sym (append_assoc before front (row ∷ drop v.limit rest)) in
              let shorter : length (drop v.limit rest) < fuel =
                ground (arith, length-drop v.limit rest) in
              let later =
                fetch_all-At fuel (some next) (drop v.limit rest) hp hn one ord finds back
                  (before ++ front, row, split, refl) shorter in
              fetch_all-next fuel c (take v.limit rest) next (drop v.limit rest) (listed ∙ er) later
              ∙ ap some (take-drop v.limit rest)
          | inr few ↦ fetch_all-response fuel c rest (listed ∙ respond-last rest (ground arith))
        ]
