-- ===== src/Database/Partitions/Statements.antt =====
-- src/database/partitions/partition-preparer.ts: `buildPartitionStructuralSql`, the texts of the two
-- statements that create and attach a partition.
use log_stream.Base.{List, [], ◌∷◌, ◌++◌, Option, some}
use log_stream.Base.Maybe.{◌>>=◌}
use log_stream.Base.Text.{Text, units}
use log_stream.Database.Partitions.{DailyPartition, assert_daily_partition}

pub record PartitionStructuralSql : Type 0 where
  pub create : Text
  pub attach : Text

-- Each line with its end.
unfoldable pub unlines : List Text → Text
unlines [] = []
unlines (line ∷ lines) = line ++ (10 ∷ unlines lines)

abbrev create_lines : DailyPartition → (constraint : Text) → List Text
create_lines p constraint =
    []
    ∷ (units "CREATE TABLE logstream." ++ p.name ++ units " (")
    ∷ units "  LIKE logstream.logs INCLUDING DEFAULTS INCLUDING CONSTRAINTS"
    ∷ units ");"
    ∷ (units "ALTER TABLE logstream." ++ p.name ++ units " OWNER TO logstream_owner;")
    ∷ (units "ALTER TABLE logstream." ++ p.name)
    ∷ (units "  ADD CONSTRAINT " ++ constraint)
    ∷ units "  CHECK ("
    ∷ (units "    timestamp >= TIMESTAMPTZ '" ++ p.start ++ units "'")
    ∷ (units "    AND timestamp < TIMESTAMPTZ '" ++ p.end ++ units "'")
    ∷ units "  ) NOT VALID;"
    ∷ (units "ALTER TABLE logstream."
        ++ p.name
        ++ units " VALIDATE CONSTRAINT "
        ++ constraint
        ++ units ";")
    ∷ (units "REVOKE ALL ON TABLE logstream." ++ p.name ++ units " FROM PUBLIC;")
    ∷ (units "REVOKE ALL ON TABLE logstream." ++ p.name ++ units " FROM logstream_runtime;")
    ∷ []

abbrev attach_text : DailyPartition → Text
attach_text p =
    units "ALTER TABLE logstream.logs ATTACH PARTITION logstream."
    ++ p.name
    ++ units " FOR VALUES FROM (TIMESTAMPTZ '"
    ++ p.start
    ++ units "') TO (TIMESTAMPTZ '"
    ++ p.end
    ++ units "')"

-- `none` is an InvalidPartitionPlanError.
unfoldable pub build_partition_structural_sql : DailyPartition → Option PartitionStructuralSql
build_partition_structural_sql partition = do
  p ← assert_daily_partition partition
  some (record {
    create = unlines (create_lines p (p.name ++ units "_timestamp_bounds"));
    attach = attach_text p;
  })
