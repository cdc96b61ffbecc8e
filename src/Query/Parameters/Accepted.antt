-- ===== src/Query/Parameters/Accepted.antt =====
-- src/modules/query/query-parameter-parser.ts: which queries have filters.
use log_stream.Base.{◌≡◌, refl, sym, subst, ◌∙◌, ◌↔◌}
use log_stream.Base.Text.{units}
use log_stream.Domain.Json.{Members}
use log_stream.Query.Result.{
  service_duplicate, service_string, service_nul, level_duplicate, level_string, since_duplicate,
  since_timestamp, until_duplicate, until_timestamp, q_duplicate, q_string, q_nul, parsed,
  parsed_elim, parsed-injective,
}
use log_stream.Query.Parameters.{
  LogFilters, read_scalar, refuse_nul, parse_level, parse_optional_timestamp, check_range,
  attribute_names, parse_attributes, parse_attribute_filters, parse_filters,
}
use log_stream.Query.Parameters.Described.{level_text, IsSorted, names_behind, IsFilters}
use log_stream.Query.Parameters.Named.{
  sort-IsSorted, canonical_of-eq, attribute_names-eq, is_reversed-IsInOrder, IsInOrder-is_reversed,
  IsRead-IsSearch, IsSearch-IsRead,
}
use log_stream.Query.Parameters.Reading.{
  refuse_nul-HasNoNul, parse_level-name, check_range-eq, level-member, refuse_nul-IsRead,
  read_scalar-text, parse_optional_timestamp-IsReadTime, IsReadTime-parse,
}
use log_stream.Query.Parameters.Attributes.{
  parse_attributes-AreFound, parse_attributes-of, attribute_names-All,
}

describes : (query : Members) (f : LogFilters) → parse_filters query ≡ parsed f → IsFilters query f
unfolding parse_filters parse_attribute_filters
describes query f =
    parsed_elim (read_scalar (units "service") service_duplicate service_string query) _ λ s es.
      parsed_elim (refuse_nul service_nul s) _ λ s' es'.
        parsed_elim (read_scalar (units "level") level_duplicate level_string query) _ λ l el.
          parsed_elim (parse_level l) _ λ l' el'.
            parsed_elim
              (parse_optional_timestamp (units "since") since_duplicate since_timestamp query) _
              λ since esi.
                parsed_elim
                  (parse_optional_timestamp (units "until") until_duplicate until_timestamp query) _
                  λ until eun. parsed_elim (check_range since until) _ λ u eu.
                    parsed_elim (parse_attributes (attribute_names query) query) _ λ found ef.
                      parsed_elim (read_scalar (units "q") q_duplicate q_string query) _ λ q eq.
                        parsed_elim (refuse_nul q_nul q) _ λ q' eq' h.
                          let (names, attributes) =
                            parse_attributes-AreFound (attribute_names query) query
                              (attribute_names-All query) ef in
                          subst (IsFilters query) (parsed-injective h) (record {
                            service_ok = refuse_nul-IsRead query (units "service") _ _ _ es es';
                            level_ok = level-member query el el';
                            since_time = since;
                            until_time = until;
                            since_ok = parse_optional_timestamp-IsReadTime _ _ _ query esi;
                            until_ok = parse_optional_timestamp-IsReadTime _ _ _ query eun;
                            since_same = canonical_of-eq since;
                            until_same = canonical_of-eq until;
                            range_ok =
                                is_reversed-IsInOrder since until (check_range-eq since until eu);
                            in_order =
                                subst IsSorted (sym (names ∙ attribute_names-eq query))
                                  (sort-IsSorted (names_behind query));
                            names_ok = names ∙ attribute_names-eq query;
                            attributes_ok = attributes;
                            search_ok =
                                IsRead-IsSearch query q'
                                  (refuse_nul-IsRead query (units "q") _ _ _ eq eq');
                          })

accepts : (query : Members) (f : LogFilters) → IsFilters query f → parse_filters query ≡ parsed f
unfolding parse_filters parse_attribute_filters check_range
accepts query f d =
    let (search, (search_there, search_clean), q_same) = IsSearch-IsRead query f.q d.search_ok in
    rw
      (
        read_scalar-text query (units "service") service_duplicate service_string f.service
            d.service_ok.0,
        refuse_nul-HasNoNul service_nul f.service d.service_ok.1,
        read_scalar-text query (units "level") level_duplicate level_string (level_text f.level)
            d.level_ok,
        parse_level-name f.level,
        IsReadTime-parse (units "since") since_duplicate since_timestamp query d.since_time
            d.since_ok,
        IsReadTime-parse (units "until") until_duplicate until_timestamp query d.until_time
            d.until_ok,
        IsInOrder-is_reversed d.since_time d.until_time d.range_ok,
        attribute_names-eq query,
        sym d.names_ok,
        parse_attributes-of f.attributes query d.attributes_ok,
        read_scalar-text query (units "q") q_duplicate q_string search search_there,
        refuse_nul-HasNoNul q_nul search search_clean,
        canonical_of-eq d.since_time,
        sym d.since_same,
        canonical_of-eq d.until_time,
        sym d.until_same,
        sym q_same,
      )
      refl

-- The filters of a query are accepted exactly when they are described by it: each parameter is absent or a text, none has U+0000, the level is one of the names, the times parse with `until` not before `since` and are kept in canonical form, a search is left out where it is absent or empty, and there is one attribute for each name that begins with `attr.`, in the order of code units, with the rest of the name as its key and the value of its parameter.
pub parse_filters-IsFilters_iff :
    (query : Members) (f : LogFilters) → (parse_filters query ≡ parsed f) ↔ IsFilters query f
parse_filters-IsFilters_iff query f = (describes query f, accepts query f)
