-- ===== src/Memory/Options.antt =====
-- memory/options.go, memory/eviction.go and memory/clock.go: what a limiter is configured with.
-- `int` fields are integers; of the clock and the sink only whether they are nil is kept here, their
-- calls being arguments and events elsewhere.
pub mod Checks
use Prim.Native.Nat.{bit_and}
use Prim.Native.String.{String}
use kaka.Prelude.{
  ℕ, ◌-◌, ℤ, pos, pos_part, ltb_ℤ, eqb_ℤ, Bool, true, false, not, ◌||◌, ◌&&◌, Option, none, some,
  List, [], ◌∷◌, ◌==◌, if◌then◌else◌,
}
use kaka.Clock.{Duration, minute}

abbrev pub evict_reject : ℤ
evict_reject = pos 0

abbrev pub evict_lru : ℤ
evict_lru = pos 1

abbrev pub cleanup_batch_size : ℕ
cleanup_batch_size = 100

abbrev pub default_shard_count : ℤ
default_shard_count = pos 64

abbrev pub max_shard_count : ℤ
max_shard_count = pos 1024

pub record Options : Type 0 where
  pub max_keys : ℤ
  pub key_ttl : Duration
  pub cleanup_interval : Duration
  pub clock : Bool
  pub eviction : ℤ
  pub shards : ℤ
  pub sink : Bool

abbrev pub default_options : Options
default_options = record {
  max_keys = pos 0;
  key_ttl = pos 0;
  cleanup_interval = pos 0;
  clock = true;
  eviction = evict_reject;
  shards = default_shard_count;
  sink = false;
}

abbrev pub Setting : Type 0
Setting = Options → Options

unfoldable pub with_max_keys : ℤ → Setting
with_max_keys n o = record o { max_keys = n }

unfoldable pub with_key_ttl : Duration → Setting
with_key_ttl d o = record o { key_ttl = d }

unfoldable pub with_cleanup_interval : Duration → Setting
with_cleanup_interval d o = record o { cleanup_interval = d }

unfoldable pub with_clock : Bool → Setting
with_clock c o = record o { clock = c }

unfoldable pub with_eviction_policy : ℤ → Setting
with_eviction_policy p o = record o { eviction = p }

unfoldable pub with_shard_count : ℤ → Setting
with_shard_count n o = record o { shards = n }

unfoldable pub with_metric_sink : Bool → Setting
with_metric_sink sink o = record o { sink = sink }

unfoldable pub apply_settings : List Setting → Options → Options
apply_settings [] o = o
apply_settings (opt ∷ opts) o = apply_settings opts (opt o)

unfoldable pub apply_defaults : Options → Options
apply_defaults o =
    if ltb_ℤ (pos 0) o.key_ttl && eqb_ℤ o.cleanup_interval (pos 0)
    then record o { cleanup_interval = pos minute }
    else o

-- `n < 1 || n > maxShardCount || n&(n-1) != 0`; the last test is reached for positive `n` alone.
unfoldable pub bad_shard_count : ℤ → Bool
bad_shard_count n =
    ltb_ℤ n (pos 1) || (ltb_ℤ max_shard_count n || not (bit_and (pos_part n) (pos_part n - 1) == 0))

-- The message of the panic, if there is one.
unfoldable pub validate : Options → Option String
unfolding bad_shard_count
validate o =
    if ltb_ℤ o.max_keys (pos 0)
    then some "memory: maxKeys must be >= 0"
    else if ltb_ℤ o.key_ttl (pos 0)
    then some "memory: keyTTL must be >= 0"
    else if ltb_ℤ o.cleanup_interval (pos 0)
    then some "memory: cleanupInterval must be >= 0"
    else if not o.clock
    then some "memory: clock must not be nil"
    else if ltb_ℤ o.eviction evict_reject || ltb_ℤ evict_lru o.eviction
    then some "memory: invalid eviction policy"
    else if bad_shard_count o.shards
    then some "memory: shardCount must be a power of two in [1, 1024]"
    else none

-- What a constructor does with its options: defaults, the settings in order, the derived default of
-- the interval, and the check.
unfoldable pub configure : List Setting → Options
unfolding apply_settings apply_defaults
configure opts = apply_defaults (apply_settings opts default_options)
