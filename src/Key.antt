-- ===== src/Key.antt =====
-- The key checks of memory/key_validation.go, layered/key_validation.go and redis/key.go: a key is
-- refused if `strings.TrimSpace` leaves nothing of it. `is_blank` is that test on the UTF-8 bytes.
pub mod Blank
mod Tests
use kaka.Prelude.{
  Option, none, some, ◌≡◌, refl, ◌↔◌, ◌⊎◌, inl, inr, Bool-cases, arith, if◌then◌else◌,
}
use kaka.Core.{Key, Error, memory_invalid_key, layered_invalid_key, redis_blank_key}
use Blank.{Spaces, is_blank, is_blank-Spaces}

unfoldable pub validate_memory : Key → Option Error
validate_memory key = if is_blank key then some memory_invalid_key else none

unfoldable pub validate_layered : Key → Option Error
validate_layered key = if is_blank key then some layered_invalid_key else none

unfoldable pub validate_redis : Key → Option Error
validate_redis key = if is_blank key then some redis_blank_key else none

-- How a key check comes out, given the error that its package reports.
abbrev pub Checked : Key → Error → Option Error → Type 0
Checked key e r = (Spaces key × (r ≡ some e)) ⊎ ((¬ Spaces key) × (r ≡ none))

checked : (key : Key) (e : Error) → Checked key e (if is_blank key then some e else none)
checked key e = elim (Bool-cases (is_blank key)) [
  | inl p ↦ inl ((is_blank-Spaces key).0 p, rw p)
  | inr p ↦ inr (λ w. cc ((is_blank-Spaces key).1 w, p), rw p)
]

-- `validateKey` of memory/ returns its error exactly for the keys that are a sequence of white-space
-- characters, the empty one included, and no error for the others.
pub validate_memory-Spaces : (key : Key) → Checked key memory_invalid_key (validate_memory key)
unfolding validate_memory
validate_memory-Spaces key = checked key memory_invalid_key

pub validate_layered-Spaces : (key : Key) → Checked key layered_invalid_key (validate_layered key)
unfolding validate_layered
validate_layered-Spaces key = checked key layered_invalid_key

pub validate_redis-Spaces : (key : Key) → Checked key redis_blank_key (validate_redis key)
unfolding validate_redis
validate_redis-Spaces key = checked key redis_blank_key
