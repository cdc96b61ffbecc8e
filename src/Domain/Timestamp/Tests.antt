-- ===== src/Domain/Timestamp/Tests.antt =====
-- Timestamps of the tests in tests/unit, and the theorems at them.
use log_stream.Base.{◌≡◌}
use log_stream.Base.Text.{units}
use log_stream.Domain.Timestamp.{parse_canonical_timestamp, parse_general}
use log_stream.Domain.Timestamp.FastPath.{parse_canonical_timestamp-parse_general}

parse_canonical_timestamp-parse_general_example :
    parse_canonical_timestamp (units "2024-02-29T23:59:59.120Z")
    ≡ parse_general (units "2024-02-29T23:59:59.120Z")
parse_canonical_timestamp-parse_general_example =
    parse_canonical_timestamp-parse_general (units "2024-02-29T23:59:59.120Z")
