-- ===== src/Memory/Store/Threads/Inv.antt =====
-- memory/sharded_store.go: what holds of the shards, the locks and the counter whatever the order of the
-- goroutines' turns, and what a turn may do to keep it.
use kaka.Prelude.{
  ℕ, ◌+◌, ◌<◌, ◌≡◌, ◌⊎◌, pos, pos_part, neg_part, ◌≤ℤ◌, ◌<ℤ◌, Bool, true, false, Option, none, some,
  List, length, get_elem?,
}
use kaka.Core.{Key}
use kaka.Memory.Options.{Options}
use kaka.Memory.Hash.{shard_for}
use kaka.Memory.Shard.{Shard}
use kaka.Memory.Store.Thins.{AllSound, AllInMode, total, at}
use kaka.Memory.Store.Access.{value_at}
use kaka.Memory.Store.Threads.{
  Request, Pc, idle, waiting, looking, serving, leaving, reserving, trying, claiming, sweeping,
  checking, sweep_at, sweep_in, sweep_out, outside, evict_at, evict_in, evict_out, relocking,
  paying, counting, Shared, with_owner,
}
use kaka.Memory.Store.Threads.Owing.{holds, sweeps, owed, owing, subject}

-- The state that the shards keep for a key.
abbrev pub seen : {A : Type 0} → Options → ℕ → List (Shard A) → Key → Option A
seen o n xs k = value_at o k (at xs (shard_for n k))

abbrev pub Placed : ℕ → Request → Type 0
Placed n r = r.home ≡ shard_for n r.key

-- What a goroutine does to the shards' locks, `h` being the one it holds.
pub data Locks (t : ℕ) (owner : ℕ → Option ℕ) (h : Option ℕ) (owner' : ℕ → Option ℕ) (h' : Option ℕ)
    : Type 0 where
  keeps : ((k : ℕ) → owner' k ≡ owner k) → h' ≡ h → Locks t owner h owner' h'
  takes :
      (j : ℕ)
      → ((k : ℕ) → owner' k ≡ with_owner j (some t) owner k)
      → owner j ≡ none
      → h ≡ none
      → h' ≡ some j
      → Locks t owner h owner' h'
  frees :
      (j : ℕ)
      → ((k : ℕ) → owner' k ≡ with_owner j none owner k)
      → h ≡ some j
      → h' ≡ none
      → Locks t owner h owner' h'

pub data Sweeps (t : ℕ) (sweeper : Option ℕ) (b : Bool) (sweeper' : Option ℕ) (b' : Bool)
    : Type 0 where
  keeps : sweeper' ≡ sweeper → b' ≡ b → Sweeps t sweeper b sweeper' b'
  takes : sweeper' ≡ some t → sweeper ≡ none → b' ≡ true → Sweeps t sweeper b sweeper' b'
  frees : sweeper' ≡ none → b ≡ true → b' ≡ false → Sweeps t sweeper b sweeper' b'

module _ {A : Type 0} (o : Options) (n : ℕ) where
  -- What a goroutine's local variables say about the shards, of which there are `n`: the state that it
  -- is about to update is the one that is stored.
  abbrev pub IsFresh : List (Shard A) → Pc A → Type 0
  IsFresh xs idle = Unit {0}
  IsFresh xs (serving v r) = Placed n r × (value_at o r.key (at xs r.home) ≡ some v)
  IsFresh xs (trying swept k r) = Placed n r × (k <ℤ o.max_keys)
  IsFresh xs (sweep_in j r) = Placed n r × (j < n)
  IsFresh xs (evict_in j r) = Placed n r × (j < n)
  IsFresh xs (waiting r) = Placed n r
  IsFresh xs (looking r) = Placed n r
  IsFresh xs (leaving r) = Placed n r
  IsFresh xs (reserving swept r) = Placed n r
  IsFresh xs (claiming r) = Placed n r
  IsFresh xs (sweeping r) = Placed n r
  IsFresh xs (checking r) = Placed n r
  IsFresh xs (sweep_at j r) = Placed n r
  IsFresh xs (sweep_out j r) = Placed n r
  IsFresh xs (outside r) = Placed n r
  IsFresh xs (evict_at j r) = Placed n r
  IsFresh xs (evict_out j done r) = Placed n r
  IsFresh xs (relocking r) = Placed n r
  IsFresh xs (paying k p) = IsFresh xs p
  IsFresh xs (counting p) = IsFresh xs p

  -- Who holds a lock knows it, and is the only one.
  pub record Inv (m : Shared A) (ps : List (Pc A)) : Type 0 where
    pub sound : AllSound m.shards
    pub mode : AllInMode o m.shards
    pub as_many : length m.shards ≡ n
    pub counted : m.live ≡ pos (total m.shards + owing ps)
    pub bounded : (o.max_keys ≤ℤ pos 0) ⊎ (m.live ≤ℤ o.max_keys)
    pub fresh : (t : ℕ) (p : Pc A) → get_elem? ps t ≡ some p → IsFresh m.shards p
    pub held :
        (t j : ℕ) (p : Pc A) → get_elem? ps t ≡ some p → holds p ≡ some j → m.owner j ≡ some t
    pub holder :
        (t j : ℕ) → m.owner j ≡ some t → (p : Pc A) × (get_elem? ps t ≡ some p) × (holds p ≡ some j)
    pub sweeping_by :
        (t : ℕ) (p : Pc A) → get_elem? ps t ≡ some p → sweeps p ≡ true → m.sweeper ≡ some t
    pub sweeper_is :
        (t : ℕ) → m.sweeper ≡ some t → (p : Pc A) × (get_elem? ps t ≡ some p) × (sweeps p ≡ true)

  -- A turn of goroutine `t`: it changes no shard but one that it holds, and the counter moves as the
  -- number of keys and what the goroutine owes do.
  pub record Effect (t : ℕ) (m : Shared A) (p : Pc A) (m' : Shared A) (p' : Pc A) : Type 0 where
    pub sound : AllSound m'.shards
    pub mode : AllInMode o m'.shards
    pub as_many : length m'.shards ≡ length m.shards
    pub counted :
        pos_part m'.live + neg_part m.live + total m.shards + owed p
        ≡ neg_part m'.live + pos_part m.live + total m'.shards + owed p'
    pub bounded : (m'.live ≤ℤ m.live) ⊎ ((o.max_keys ≤ℤ pos 0) ⊎ (m'.live ≤ℤ o.max_keys))
    pub fresh : IsFresh m'.shards p'
    pub elsewhere : (j : ℕ) → (holds p ≡ some j) ⊎ (at m'.shards j ≡ at m.shards j)
    pub others :
        (k : Key)
        → (subject p ≡ some k)
          ⊎ ((seen o n m'.shards k ≡ seen o n m.shards k)
              ⊎ ((subject p ≡ none) × (seen o n m'.shards k ≡ none)))
    pub locks : Locks t m.owner (holds p) m'.owner (holds p')
    pub sweep : Sweeps t m.sweeper (sweeps p) m'.sweeper (sweeps p')
