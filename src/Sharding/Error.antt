-- ===== src/Sharding/Error.antt =====
-- ecat-data-sharding/src/catalog.rs: `ShardError`. The texts of the messages are left out.
use e_cat.Prelude.{String, List}

pub data ShardError : Type 0 where
  config missing_key shard_count_mismatch : ShardError
  unknown_table : String → ShardError
  partial_failure : (failed : List String) → ShardError
  clock_rollback id_out_of_range unsupported_dialect database : ShardError
