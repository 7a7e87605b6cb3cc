-- ===== src/Receiver/Create.antt =====
-- src/collector/receiver.c: `parse_allowed_sources`, `receiver_create` and the calls that start and
-- stop the receiver's thread. What the operating system answers is an argument. Allocations
-- succeed.
use dapper_lite.Prelude.{
  ℕ, ◌*◌, Bool, true, false, Option, none, some, List, [], ◌∷◌, ◌++◌, ltb, leb, ◌==◌, if◌then◌else◌,
  length,
}
use dapper_lite.Prelude.Int.{ℤ, pos, negsuc}
use dapper_lite.Prelude.Outcome.{Outcome, ok, failed, ◌>>=◌, ◌>>◌, fail_if}
use dapper_lite.Collector.{TraceMap}
use dapper_lite.Collector.Config.{Config, default_bind_addr}
use dapper_lite.Receiver.{Receiver}

abbrev pub max_allowed_sources : ℕ
max_allowed_sources = 16

-- The tokens of `strtok_r(buf, ",", ...)`: the longest parts without a comma that are not empty;
-- `part` is the one that is being read.
abbrev pub end_token : List ℕ → List (List ℕ) → List (List ℕ)
end_token [] tokens = tokens
end_token (c ∷ part) tokens = (c ∷ part) ∷ tokens

unfoldable pub tokens_from : List ℕ → List ℕ → List (List ℕ)
tokens_from part [] = end_token part []
tokens_from part (c ∷ list) =
    let after = tokens_from [] list in
    let longer = tokens_from (part ++ (c ∷ [])) list in
    if c == 44 then end_token part after else longer

-- The answers of the operating system: whether `socket` and `bind` succeed, and what `getsockname`
-- says of the port, if it succeeds.
pub record Network : Type 0 where
  pub socket : Bool
  pub bind : ℕ → ℕ → Bool
  pub bound_port : Option ℕ

abbrev pub valid_port : ℤ → Outcome ℕ
valid_port (pos port) = if ltb 65535 port then failed else ok port
valid_port (negsuc n) = failed

abbrev pub or_default : {A : Type 0} → Option A → A → A
or_default none a = a
or_default (some b) a = b

abbrev pub or_failed : {A : Type 0} → Option A → Outcome A
or_failed none = failed
or_failed (some a) = ok a

-- `inet_pton(AF_INET, ...)` is a function of the system: the address of a text, if it is one.
module _ (inet_pton : List ℕ → Option ℕ) where
  unfoldable add_source : List ℕ → Option ℕ → Outcome (List ℕ)
  add_source allowed none = failed
  add_source allowed (some address) = ok (allowed ++ (address ∷ []))

  -- The loop over the tokens.
  unfoldable pub add_sources : List ℕ → List (List ℕ) → Outcome (List ℕ)
  unfolding add_source
  add_sources allowed [] = ok allowed
  add_sources allowed (token ∷ tokens) = do
    fail_if (leb max_allowed_sources (length allowed))
    allowed ← add_source allowed (inet_pton token)
    add_sources allowed tokens

  unfoldable pub parse_allowed_sources : Option (List ℕ) → Outcome (List ℕ)
  unfolding tokens_from add_sources
  parse_allowed_sources none = ok []
  parse_allowed_sources (some list) = do
    fail_if (leb (max_allowed_sources * 16) (length list))
    allowed ← add_sources [] (tokens_from [] list)
    fail_if (length allowed == 0)
    ok allowed

  unfoldable pub receiver_create : Network → Config → TraceMap → Outcome Receiver
  unfolding parse_allowed_sources
  receiver_create network config trace_map = do
    port ← valid_port config.port
    address ← or_failed (inet_pton (or_default config.bind_addr default_bind_addr))
    allowed ← parse_allowed_sources config.allowed_sources
    fail_if (if network.socket then false else true)
    fail_if (if network.bind address port then false else true)
    ok (record {
      trace_map = trace_map;
      port = or_default network.bound_port port;
      running = false;
      allowed = allowed;
      max_packets_per_sec = config.max_packets_per_sec;
      window_sec = 0;
      window_count = 0;
      packets_received = 0;
      packets_invalid = 0;
      packets_unauthorized = 0;
      packets_rate_limited = 0;
      spans_processed = 0;
    })

unfoldable pub receiver_port : Option Receiver → ℤ
receiver_port none = negsuc 0
receiver_port (some r) = pos r.port

-- Whether the thread can be created; the result is 0 or -1.
unfoldable pub receiver_start : Bool → Receiver → Receiver × Bool
receiver_start thread r = (record r { running = thread }, thread)

unfoldable pub receiver_stop : Receiver → Receiver
receiver_stop r = record r { running = false }
