-- ===== src/Memory/Hash.antt =====
-- memory/hash.go and `shardFor` of memory/sharded_store.go: a key's shard.
pub mod Range
use Prim.Native.Nat.{bit_and, bit_xor}
use kaka.Prelude.{ℕ, ◌-◌, ◌*◌, ◌%◌, ◌^◌, List, [], ◌∷◌}
use kaka.Core.{Key}

abbrev offset64 : ℕ
offset64 = 14695981039346656037

abbrev prime64 : ℕ
prime64 = 1099511628211

-- The loop, over the bytes left, from the hash so far; uint64 arithmetic.
unfoldable pub hash_from : ℕ → List ℕ → ℕ
hash_from h [] = h
hash_from h (b ∷ s) = hash_from (bit_xor h b * prime64 % 2 ^ 64) s

unfoldable pub fnv1a64 : Key → ℕ
unfolding hash_from
fnv1a64 key = hash_from offset64 key

-- `fnv1a64(key) & uint64(len(shards)-1)`
unfoldable pub shard_for : ℕ → Key → ℕ
unfolding fnv1a64
shard_for shards key = bit_and (fnv1a64 key) (shards - 1)
