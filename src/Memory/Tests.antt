-- ===== src/Memory/Tests.antt =====
-- memory/options.go and memory/hash.go: runs, and the theorems at concrete options and keys.
use kaka.Prelude.{◌≡◌, refl, ◌↔◌, pos, [], ◌∷◌, none, some}
use kaka.Clock.{minute}
use kaka.Memory.Options.{Options, default_options, with_key_ttl, configure, validate}
use kaka.Memory.Options.Checks.{Accepted, validate-Accepted}
use kaka.Memory.Hash.{fnv1a64, hash_from}

abbrev odd_shards : Options
odd_shards = record default_options { shards = pos 48 }

-- "a", a vector of the hash's authors.
hash_test : fnv1a64 (97 ∷ []) ≡ 0xaf63dc4c8601ec8c
unfolding fnv1a64 hash_from
hash_test = refl

validate_test : validate odd_shards ≡ some "memory: shardCount must be a power of two in [1, 1024]"
unfolding validate
validate_test = refl

default_interval_test : (configure (with_key_ttl (pos 5) ∷ [])).cleanup_interval ≡ pos minute
unfolding configure with_key_ttl
default_interval_test = refl

validate-Accepted_example : (validate odd_shards ≡ none) ↔ Accepted odd_shards
validate-Accepted_example = validate-Accepted odd_shards
