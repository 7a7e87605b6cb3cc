-- ===== src/Tests/Configuring.antt =====
-- The creation of a collector with an allowlist, and the statistics of a trace.
use dapper_lite.Prelude.{
  ℕ, ◌≤◌, ◌≡◌, refl, true, false, Option, none, some, List, [], ◌∷◌, map, arith, ltb, length, All,
  if◌then◌else◌,
}
use dapper_lite.Prelude.Text.{codes}
use dapper_lite.Prelude.Outcome.{ok, map_ok, Safe}
use dapper_lite.Collector.Config.{Config, collector_default_config}
use dapper_lite.Receiver.{source_allowed, listed}
use dapper_lite.Receiver.Create.{Network, tokens_from, parse_allowed_sources}
use dapper_lite.Receiver.Allowlist.{
  Entry, IsEntry, comma_separated, has_address, source_allowed-parse_allowed_sources,
}
use dapper_lite.Daemon.{collector_create}
use dapper_lite.Daemon.Creation.{collector_create-Safe}
use dapper_lite.Tests.Collecting.{fresh_receiver}

-- The system takes texts of 7 and of 8 bytes for addresses.
abbrev few_addresses : List ℕ → Option ℕ
few_addresses text =
    let n = length text in if ltb n 7 then none else if ltb n 9 then some n else none

abbrev two_entries : List Entry
two_entries =
    (record { text = codes "1.2.3.4"; address = 7 })
    ∷ (record { text = codes "10.2.3.4"; address = 8 })
    ∷ []

two_entries-AreEntries : All (IsEntry few_addresses) two_entries
two_entries-AreEntries = (
  record {
    valid = refl;
    filled = omega arith;
    short = omega arith;
    plain = (
      ground arith,
      (
        ground arith,
        (ground arith, (ground arith, (ground arith, (ground arith, (ground arith, tt))))),
      ),
    );
  },
  (
    record {
      valid = refl;
      filled = omega arith;
      short = omega arith;
      plain = (
        ground arith,
        (
          ground arith,
          (
            ground arith,
            (ground arith, (ground arith, (ground arith, (ground arith, (ground arith, tt))))),
          ),
        ),
      );
    },
    tt,
  ),
)

source_allowed-parse_allowed_sources_example :
    map_ok
      (λ allowed. source_allowed (record fresh_receiver { allowed = allowed }) 9)
      (parse_allowed_sources few_addresses (some (comma_separated two_entries)))
    ≡ ok (has_address two_entries 9)
source_allowed-parse_allowed_sources_example =
    source_allowed-parse_allowed_sources few_addresses two_entries fresh_receiver 9
      two_entries-AreEntries (omega arith) (omega arith)

abbrev listed_text : List ℕ
listed_text = codes ",1.2.3.4,,10.2.3.4"

abbrev strict_config : Config
strict_config = record collector_default_config { allowed_sources = some listed_text }

abbrev quiet_network : Network
quiet_network = record { socket = true; bind = λ address port. true; bound_port = none }

collector_create-Safe_example :
    Safe
      (λ c.
        (map few_addresses (tokens_from [] listed_text) ≡ map some c.receiver.allowed)
        × (1 ≤ length c.receiver.allowed)
        × (length c.receiver.allowed ≤ 16)
        × (source_allowed c.receiver 8 ≡ listed c.receiver.allowed 8)
        × (c.running ≡ false)
        × (c.receiver.running ≡ false))
      (collector_create (λ path. some []) few_addresses quiet_network (some strict_config))
collector_create-Safe_example =
    collector_create-Safe (λ path. some []) few_addresses quiet_network strict_config listed_text 8
      refl
