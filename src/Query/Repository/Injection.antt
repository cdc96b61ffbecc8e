-- ===== src/Query/Repository/Injection.antt =====
-- src/modules/query/log-query-repository.ts: what the text of a statement depends on.
use log_stream.Base.{◌≡◌, refl, ap, List, Option, none, some, length, length-append, arith}
use log_stream.Query.Cursor.{LogCursorPosition}
use log_stream.Query.Predicate.{SqlValue}
use log_stream.Query.Predicate.Shape.{SameShape, is_some, build_log_predicate-SameShape}
use log_stream.Query.Repository.{LogQueryPageRequest, cursor_clause, bind_cursor, build_page_query}

bind_cursor-length :
    (p q : Option LogCursorPosition) (v w : List SqlValue)
    → is_some p ≡ is_some q
    → length v ≡ length w
    → ((bind_cursor p v).0 ≡ (bind_cursor q w).0)
      × (length (bind_cursor p v).1 ≡ length (bind_cursor q w).1)
unfolding bind_cursor
bind_cursor-length none none v w h k = (refl, k)
bind_cursor-length (some p) (some q) v w h k =
    (ap cursor_clause k, omega (arith, k, length-append {0} {A = SqlValue}))
bind_cursor-length none (some q) v w h k = absurd (cc)
bind_cursor-length (some p) none v w h k = absurd (cc)

-- Two requests that give the same filters, as many attributes, and a cursor both or neither, are sent as the same SQL text with as many parameters: no text of a request reaches the statement but as a parameter.
pub build_page_query-SameShape :
    (r s : LogQueryPageRequest)
    → SameShape r.filters s.filters
    → is_some r.cursor ≡ is_some s.cursor
    → ((build_page_query r).text ≡ (build_page_query s).text)
      × (length (build_page_query r).values ≡ length (build_page_query s).values)
unfolding build_page_query
build_page_query-SameShape r s shape cursor =
    let (text, count) = build_log_predicate-SameShape r.filters s.filters shape in
    let (clause, bound) = bind_cursor-length r.cursor s.cursor _ _ cursor count in
    let all : length (build_page_query r).values ≡ length (build_page_query s).values =
      omega (arith, bound, length-append {0} {A = SqlValue}) in
    (cc (text, clause, all), all)
