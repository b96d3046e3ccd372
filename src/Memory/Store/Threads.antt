-- ===== src/Memory/Store/Threads.antt =====
-- memory/sharded_store.go with any number of goroutines, which run `withState` side by side. A turn of
-- one goroutine goes up to its next access to what the others see: a lock, or the atomic counter of
-- live keys. Under a shard's lock nobody else sees the shard; the decrements of the counter that the
-- code makes there, one for each key that it removes, follow one at a time as `paying`.
pub mod Owing
pub mod Inv
pub mod Keeping
pub mod Effects
pub mod Looks
pub mod Claims
pub mod Reserving
pub mod Turns
pub mod Moving
pub mod Safety
pub mod Progress
pub mod Writes
pub mod Atomic
pub mod Stored
mod Tests
use kaka.Prelude.{
  ℕ, zero, suc, ℤ, pos, neg_part, ◌+ℤ◌, ◌-ℤ◌, ltb_ℤ, leb_ℤ, eqb_ℤ, Bool, true, false, ◌&&◌, Option,
  none, some, List, [], ◌∷◌, length, get_or, get_elem?, set, replicate, ◌==◌, ltb, lookup,
  if◌then◌else◌, ◌≡◌,
}
use kaka.Core.{Key}
use kaka.Clock.{Time, time_sub}
use kaka.Memory.Options.{Options}
use kaka.Memory.Hash.{shard_for}
use kaka.Memory.Shard.{
  Shard, KeyEntry, Held, empty_shard, cleanup_off, cleanup_map, cleanup_lru, evict_from, find_elem,
}
use kaka.Memory.Store.{
  new_store, is_lru, cleanup, touch_map, touch_lru, create_map, create_lru, write_back,
}

-- The arguments of `withState`, with the index of `sh`.
pub record Request : Type 0 where
  pub key : Key
  pub now : Time
  pub home : ℕ

-- Where a goroutine stands, with its local variables.
pub data Pc (A : Type 0) : Type 0 where
  idle : Pc A
  -- `withState`, before `sh.mu.Lock()`, in `getOrCreateMap` or `getOrCreateLRU`, and before `Unlock`
  waiting looking : Request → Pc A
  serving : A → Request → Pc A
  leaving : Request → Pc A
  -- `reserveSlot`, at the load and at the compare-and-swap, and after it returned true
  reserving : Bool → Request → Pc A
  trying : Bool → ℤ → Request → Pc A
  claiming : Request → Pc A
  -- `sweepExpired`, before and under `sweepMu`, and at shard `j`
  sweeping checking : Request → Pc A
  sweep_at sweep_in sweep_out : ℕ → Request → Pc A
  -- after it, in `evictAnyOther` at shard `j`, and before `sh.mu.Lock()`
  outside : Request → Pc A
  evict_at evict_in : ℕ → Request → Pc A
  evict_out : ℕ → Bool → Request → Pc A
  relocking : Request → Pc A
  -- decrements of `live` and an increment of `evicts` that are due
  paying : ℕ → Pc A → Pc A
  counting : Pc A → Pc A

-- What the goroutines share; a lock is free or held by a goroutine.
pub record Shared (A : Type 0) : Type 0 where
  pub shards : List (Shard A)
  pub live : ℤ
  pub last_sweep : Time
  pub evicts : ℕ
  pub owner : ℕ → Option ℕ
  pub sweeper : Option ℕ

-- A goroutine waits for a lock or a request, or panics, or goes on.
pub data Turn (A : Type 0) : Type 0 where
  blocked panicked : Turn A
  moved : Shared A → Pc A → Turn A

abbrev pub with_owner : ℕ → Option ℕ → (ℕ → Option ℕ) → ℕ → Option ℕ
with_owner j x owner k = if k == j then x else owner k

module _ {A : Type 0} where
  abbrev pub take_lock : ℕ → ℕ → Shared A → Shared A
  take_lock t j m = record m { owner = with_owner j (some t) m.owner }

  abbrev pub free_lock : ℕ → Shared A → Shared A
  free_lock j m = record m { owner = with_owner j none m.owner }

  -- `mu.Lock()` by goroutine `t`
  unfoldable pub acquire : ℕ → ℕ → Shared A → Pc A → Turn A
  acquire t j m p = elim (m.owner j) [ none ↦ moved (take_lock t j m) p | some u ↦ blocked ]

  -- The shard, with counters that start at zero.
  abbrev pub local : Shared A → ℕ → Held A
  local m j = record { shard = get_or m.shards j empty_shard; live = pos 0; evicts = 0 }

  abbrev pub put : Shared A → ℕ → Held A → Shared A
  put m j h = record m { shards = set m.shards j h.shard }

  -- The decrements that a stretch of code made.
  abbrev pub debt : Held A → ℕ
  debt h = neg_part h.live

module _ {A R : Type 0} (visit : Time → List (Key × KeyEntry A) → List (Key × KeyEntry A))
    (o : Options) (create : Time → A) (fn : A → Time → A × R) where
  abbrev pub look_map : Request → Held A → Held A × Option A
  look_map r h = elim (lookup r.key h.shard.items) [
    | some e ↦ (cleanup_map visit o r.now (touch_map r.key e r.now h), some e.value)
    | none ↦ (cleanup_map visit o r.now h, none)
  ]

  abbrev pub look_lru : Request → Held A → Option (Held A × Option A)
  look_lru r h = elim (lookup r.key h.shard.order_items) [
    | none ↦ some (cleanup_lru o r.now h, none)
    | some id ↦ elim (find_elem id h.shard.order) [
      | none ↦ none
      | some e ↦ some (cleanup_lru o r.now (touch_lru e r.now h), some e.entry.value)
    ]
  ]

  -- Up to the call of `reserveSlot`.
  unfoldable pub look : Request → Held A → Option (Held A × Option A)
  look r h = if is_lru o then look_lru r h else some (look_map r h)

  abbrev pub claim_map : Request → Held A → Held A × A × ℕ
  claim_map r h = elim (lookup r.key h.shard.items) [
    | some e ↦ (touch_map r.key e r.now h, e.value, 1)
    | none ↦ (create_map r.key (create r.now) r.now h, create r.now, 0)
  ]

  abbrev pub claim_lru : Request → Held A → Option (Held A × A × ℕ)
  claim_lru r h = elim (lookup r.key h.shard.order_items) [
    | none ↦ some (create_lru r.key (create r.now) r.now h, create r.now, 0)
    | some id ↦ elim (find_elem id h.shard.order) [
      | none ↦ none
      | some e ↦ some (touch_lru e r.now h, e.entry.value, 1)
    ]
  ]

  -- After `reserveSlot` returned true: the state, and the slots to give back.
  unfoldable pub claim : Request → Held A → Option (Held A × A × ℕ)
  claim r h = if is_lru o then claim_lru r h else some (claim_map r h)

  abbrev pub after_look : Request → Option A → Pc A
  after_look r none = reserving false r
  after_look r (some v) = serving v r

  -- One round of the loop of `reserveSlot`, up to its compare-and-swap.
  unfoldable pub reserve_turn : Shared A → Bool → Request → Turn A
  reserve_turn m swept r =
      if leb_ℤ o.max_keys (pos 0)
      then moved (record m { live = m.live +ℤ pos 1 }) (claiming r)
      else if ltb_ℤ m.live o.max_keys
      then moved m (trying swept m.live r)
      else if is_lru o
      then elim (evict_from (local m r.home)) [
        | some h ↦ moved (put m r.home h) (paying (debt h) (counting (reserving swept r)))
        | none ↦ moved (free_lock r.home m) (if swept then outside r else sweeping r)
      ]
      else if swept
      then moved m (leaving r)
      else moved (free_lock r.home m) (sweeping r)

  unfoldable pub swap_turn : Shared A → Bool → ℤ → Request → Turn A
  swap_turn m swept n r =
      if eqb_ℤ m.live n
      then moved (record m { live = n +ℤ pos 1 }) (claiming r)
      else moved m (reserving swept r)

  -- `sweepExpired`
  unfoldable pub sweep_turn : ℕ → Shared A → Request → Turn A
  unfolding cleanup_off
  sweep_turn t m r = if cleanup_off o then moved m (outside r) else elim m.sweeper [
    | none ↦ moved (record m { sweeper = some t }) (checking r)
    | some u ↦ blocked
  ]

  unfoldable pub check_turn : Shared A → Request → Turn A
  check_turn m r =
      if ltb_ℤ (time_sub r.now m.last_sweep) o.cleanup_interval
      then moved (record m { sweeper = none }) (outside r)
      else moved (record m { last_sweep = r.now }) (sweep_at 0 r)

  unfoldable pub sweep_at_turn : ℕ → Shared A → ℕ → Request → Turn A
  unfolding acquire
  sweep_at_turn t m j r =
      if ltb j (length m.shards)
      then acquire t j m (sweep_in j r)
      else moved (record m { sweeper = none }) (outside r)

  unfoldable pub sweep_in_turn : Shared A → ℕ → Request → Turn A
  unfolding cleanup
  sweep_in_turn m j r =
      let h = cleanup visit o r.now (local m j) in
      moved (put m j h) (paying (debt h) (sweep_out j r))

  unfoldable pub outside_turn : Shared A → Request → Turn A
  outside_turn m r =
      if is_lru o && leb_ℤ o.max_keys m.live then moved m (evict_at 0 r) else moved m (relocking r)

  -- `evictAnyOther`
  unfoldable pub evict_at_turn : ℕ → Shared A → ℕ → Request → Turn A
  unfolding acquire
  evict_at_turn t m j r =
      if ltb j (length m.shards)
      then if j == r.home then moved m (evict_at (suc j) r) else acquire t j m (evict_in j r)
      else moved m (relocking r)

  unfoldable pub evict_in_turn : Shared A → ℕ → Request → Turn A
  evict_in_turn m j r = elim (evict_from (local m j)) [
    | some h ↦ moved (put m j h) (paying (debt h) (counting (evict_out j true r)))
    | none ↦ moved m (evict_out j false r)
  ]

  unfoldable pub look_turn : Shared A → Request → Turn A
  unfolding look
  look_turn m r = elim (look r (local m r.home)) [
    | none ↦ panicked
    | some (h, found) ↦ moved (put m r.home h) (paying (debt h) (after_look r found))
  ]

  unfoldable pub claim_turn : Shared A → Request → Turn A
  unfolding claim
  claim_turn m r = elim (claim r (local m r.home)) [
    | none ↦ panicked
    | some (h, v, slots) ↦ moved (put m r.home h) (paying slots (serving v r))
  ]

  -- `fn(v, now)`, and what it writes through `v`
  unfoldable pub serve_turn : Shared A → A → Request → Turn A
  unfolding write_back
  serve_turn m v r =
      let sh = write_back o r.key (fn v r.now).0 (get_or m.shards r.home empty_shard) in
      moved (record m { shards = set m.shards r.home sh }) (leaving r)

  unfoldable pub move : ℕ → Shared A → Pc A → Turn A
  unfolding acquire look_turn serve_turn reserve_turn swap_turn claim_turn sweep_turn check_turn
      sweep_at_turn sweep_in_turn outside_turn evict_at_turn evict_in_turn
  move t m idle = blocked
  move t m (waiting r) = acquire t r.home m (looking r)
  move t m (looking r) = look_turn m r
  move t m (serving v r) = serve_turn m v r
  move t m (leaving r) = moved (free_lock r.home m) idle
  move t m (reserving swept r) = reserve_turn m swept r
  move t m (trying swept n r) = swap_turn m swept n r
  move t m (claiming r) = claim_turn m r
  move t m (sweeping r) = sweep_turn t m r
  move t m (checking r) = check_turn m r
  move t m (sweep_at j r) = sweep_at_turn t m j r
  move t m (sweep_in j r) = sweep_in_turn m j r
  move t m (sweep_out j r) = moved (free_lock j m) (sweep_at (suc j) r)
  move t m (outside r) = outside_turn m r
  move t m (evict_at j r) = evict_at_turn t m j r
  move t m (evict_in j r) = evict_in_turn m j r
  move t m (evict_out j done r) =
      moved (free_lock j m) (if done then relocking r else evict_at (suc j) r)
  move t m (relocking r) = acquire t r.home m (reserving true r)
  move t m (paying zero p) = moved m p
  move t m (paying (suc k) p) = moved (record m { live = m.live -ℤ pos 1 }) (paying k p)
  move t m (counting p) = moved (record m { evicts = suc m.evicts }) p

  -- Goroutine `t` is the one at that place of the list.
  pub record System : Type 0 where
    pub mem : Shared A
    pub threads : List (Pc A)

  -- `newShardedStore`, and `k` goroutines that have not called yet.
  abbrev pub launch : ℕ → System
  launch k = record {
    mem = record {
      shards = (new_store o).shards;
      live = (new_store {A = A} o).live;
      last_sweep = (new_store {A = A} o).last_sweep;
      evicts = (new_store {A = A} o).evicts;
      owner = λ j. none;
      sweeper = none;
    };
    threads = replicate k idle;
  }

  pub data Step (s : System) : System → Type 0 where
    ask :
        (t : ℕ) (key : Key) (now : Time)
        → get_elem? s.threads t ≡ some idle
        → Step s (record s {
          threads = set s.threads t (
              waiting
                (record { key = key; now = now; home = shard_for (length s.mem.shards) key }));
        })
    turn :
        (t : ℕ) {p p' : Pc A} {m' : Shared A}
        → get_elem? s.threads t ≡ some p
        → move t s.mem p ≡ moved m' p'
        → Step s (record { mem = m'; threads = set s.threads t p' })
    -- `drainEvictions` takes what is pending.
    drain : Step s (record s { mem = record (s.mem) { evicts = 0 } })
