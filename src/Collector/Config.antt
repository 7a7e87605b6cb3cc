-- ===== src/Collector/Config.antt =====
-- include/dapper/collector.h and src/collector/main.c: the configuration of a collector.
use dapper_lite.Prelude.{ℕ, Option, none, some, List}
use dapper_lite.Prelude.Int.{ℤ, pos}
use dapper_lite.Prelude.Text.{codes}
use dapper_lite.Collector.{
  trace_map_default_buckets, default_max_active_traces, default_max_spans_per_trace,
}

-- A `char *` is the bytes of its string, or `none` for NULL. The authentication hook is an argument
-- of the receiver's thread.
pub record Config : Type 0 where
  pub bind_addr : Option (List ℕ)
  pub port : ℤ
  pub allowed_sources : Option (List ℕ)
  pub timeout_sec : ℕ
  pub flush_count : ℕ
  pub flush_interval_sec : ℕ
  pub map_buckets : ℕ
  pub storage_path : Option (List ℕ)
  pub max_active_traces : ℕ
  pub max_spans_per_trace : ℕ
  pub max_packets_per_sec : ℕ

abbrev pub default_bind_addr : List ℕ
default_bind_addr = codes "127.0.0.1"

unfoldable pub collector_default_config : Config
collector_default_config = record {
  bind_addr = some default_bind_addr;
  port = pos 7831;
  allowed_sources = none;
  timeout_sec = 5;
  flush_count = 100;
  flush_interval_sec = 1;
  map_buckets = trace_map_default_buckets;
  storage_path = some (codes "traces.log");
  max_active_traces = default_max_active_traces;
  max_spans_per_trace = default_max_spans_per_trace;
  max_packets_per_sec = 0;
}
