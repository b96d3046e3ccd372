-- ===== src/Memory/Limiter/Serves.antt =====
-- memory/token_bucket.go and memory/leaky_bucket.go, `Allow` on its store, for any decision and any
-- invariant of a key's state that the decision keeps.
use kaka.Prelude.{
  ◌≡◌, sym, ap, ◌∙◌, ◌⊎◌, inl, inr, ◌≤ℤ◌, false, Option, none, some, List, [], ◌∷◌, key_eq,
  key_eq_iff, if◌then◌else◌, Bool-cases, arith,
}
use mathlib.Core.Path.{subst}
use mathlib.Core.Option.{some-injective}
use kaka.Core.{
  Key, Result, Reply, returns, fails, memory_invalid_key, max_keys_exceeded, Event, on_error,
  tier_single,
}
use kaka.Clock.{Time}
use kaka.Key.Blank.{Spaces}
use kaka.Key.{validate_memory, validate_memory-Spaces}
use kaka.Memory.Options.{Options}
use kaka.Memory.Shard.{KeyEntry}
use kaka.Memory.Shard.Cleaning.{Ranges}
use kaka.Memory.Store.{Store, new_store, Verdict, is_lru, with_state}
use kaka.Memory.Options.Checks.{Accepted}
use kaka.Memory.Store.Promise.Fresh.{new_store-Valid}
use kaka.Memory.Store.Promise.{peek, Valid, Ran, Full, Promised, with_state-Promised}
use kaka.Memory.SlidingWindow.Sound.{peek-report, live-report, Valid-report}
use kaka.Memory.Limiter.{answered, allow}

-- An invariant `P` of a key's state at the time of its last request, and what a decision then promises.
pub record Kept {A : Type 0} (create : Time → A) (decide : A → Time → A × Result)
    (P : Time → A → Type 0) (Q : A → Time → A → Result → Type 0) : Type 0 where
  pub created : (now : Time) → P now (create now)
  pub later : (a : A) (last now : Time) → last ≤ℤ now → P last a → P now a
  pub decided : (a : A) (now : Time) → P now a → P now (decide a now).0
  pub promised : (a : A) (now : Time) → P now a → Q a now (decide a now).0 (decide a now).1

-- The store of a limiter, no request on which came after `last`.
pub record Sound {A : Type 0} (o : Options) (P : Time → A → Type 0) (s : Store A) (last : Time)
    : Type 0 where
  pub valid : Valid o s
  pub states : (k : Key) (a : A) → peek o s k ≡ some a → P last a

-- How a request at `now` ends: the key is refused, the key's own state decides, or the store is full.
pub data Ruled {A : Type 0} (o : Options) (create : Time → A) (Q : A → Time → A → Result → Type 0)
    (s : Store A) (key : Key) (now : Time) : Store A → Reply → Type 0 where
  blank : Spaces key → Ruled o create Q s key now s (fails memory_invalid_key)
  decided :
      {t : Store A} (a c : A) (r : Result)
      → ¬ Spaces key
      → (peek o s key ≡ some a) ⊎ ((peek o s key ≡ none) × (a ≡ create now))
      → peek o t key ≡ some c
      → Q a now c r
      → Ruled o create Q s key now t (returns r)
  full :
      {t : Store A}
      → ¬ Spaces key
      → is_lru o ≡ false
      → peek o s key ≡ none
      → t.live ≡ o.max_keys
      → Ruled o create Q s key now t (fails max_keys_exceeded)

-- A request at `now` is answered, and the invariant holds of what it leaves.
abbrev pub Upheld :
    {A : Type 0}
    → Options
    → (Time → A)
    → (Time → A → Type 0)
    → (A → Time → A → Result → Type 0)
    → Store A
    → Key
    → Time
    → Option (Store A × Reply × List Event)
    → Type 0
Upheld {A} o create P Q s key now out =
    (t : Store A) × (r : Reply) × (events : List Event) × (out ≡ some (t, r, events))
    × Sound o P t now
    × Ruled o create Q s key now t r

-- A store that was just made is sound.
pub new_store-Sound :
    {A : Type 0} (o : Options) (P : Time → A → Type 0) (first : Time)
    → Accepted o
    → Sound o P (new_store o) first
new_store-Sound {A} o P first accepted =
    let (valid, none_yet) = new_store-Valid A o accepted in
    record { valid = valid; states = λ k a here. absurd (ground (arith, none_yet k, here)) }

module _ {A : Type 0} (visit : Time → List (Key × KeyEntry A) → List (Key × KeyEntry A))
    (ranges : (now : Time) → Ranges (visit now)) (o : Options) (create : Time → A)
    (decide : A → Time → A × Result) (P : Time → A → Type 0) (Q : A → Time → A → Result → Type 0)
    (kept : Kept create decide P Q) (s : Store A) (key : Key) (now last : Time)
    (forward : last ≤ℤ now) (sound : Sound o P s last) where
  -- The store after the sink was told.
  abbrev told : Reply → Store A → Store A
  told r t = (answered visit o create decide r t).0

  told-Sound :
      (r : Reply) (t : Store A)
      → Valid o t
      → ((k : Key) (a : A) → peek o t k ≡ some a → P now a)
      → Sound o P (told r t) now
  told-Sound r t v states = record {
    valid = Valid-report o o.sink r t v;
    states = λ k a e. states k a (sym (peek-report o o.sink r t k) ∙ e);
  }

  others_kept :
      (t : Store A)
      → ((j : Key) → key_eq key j ≡ false → (peek o t j ≡ none) ⊎ (peek o t j ≡ peek o s j))
      → ((a : A) → peek o t key ≡ some a → P now a)
      → (k : Key) (a : A) → peek o t k ≡ some a
      → P now a
  others_kept t others own k a e = elim (Bool-cases (key_eq key k)) [
    | inl same ↦ own a (ap (peek o t) ((key_eq_iff key k).0 same) ∙ e)
    | inr other ↦ elim (others k other) [
      | inl gone ↦ absurd (ground (arith, gone, e))
      | inr before ↦ kept.later a last now forward (sound.states k a (sym before ∙ e))
    ]
  ]

  origin_kept :
      (a : A) → (peek o s key ≡ some a) ⊎ ((peek o s key ≡ none) × (a ≡ create now)) → P now a
  origin_kept a (inl e) = kept.later a last now forward (sound.states key a e)
  origin_kept a (inr (gone, e)) = subst (P now) (sym e) (kept.created now)

  module _ (open_key : ¬ Spaces key) (e : validate_memory key ≡ none) (t : Store A)
      (v : Verdict Result) (stored : with_state visit o create now decide key s ≡ some (t, v))
      (p : Promised visit o create now decide key s t v) where
    run_outcome :
        Ran visit o create now decide key s t v
        → Upheld o create P Q s key now (allow visit o create decide s key now)
    unfolding allow
    run_outcome a =
        let r = returns (decide a.before now).1 in
        let good = origin_kept a.before a.origin in
        (
          told r t,
          r,
          (answered visit o create decide r t).2,
          rw (e, allow, stored, a.verdict),
          told-Sound r t p.valid (
              others_kept t p.others (λ b here.
                subst (P now) (some-injective _ _ (sym a.after ∙ here))
                  (kept.decided a.before now good))),
          decided a.before _ _ open_key a.origin (peek-report o o.sink r t key ∙ a.after)
              (kept.promised a.before now good),
        )

    refusal_outcome :
        Full visit o create now decide key s t v
        → Upheld o create P Q s key now (allow visit o create decide s key now)
    unfolding allow
    refusal_outcome a =
        let r = fails max_keys_exceeded in
        (
          told r t,
          r,
          (answered visit o create decide r t).2,
          rw (e, allow, stored, a.verdict),
          told-Sound r t p.valid
              (others_kept t p.others (λ b here. absurd (ground (arith, a.still_new, here)))),
          full open_key a.mode a.new (live-report o o.sink r t ∙ a.full),
        )

  pub allow-Upheld : Upheld o create P Q s key now (allow visit o create decide s key now)
  unfolding allow
  allow-Upheld = elim (validate_memory-Spaces key) [
    | inl (w, e) ↦ (
      s,
      fails memory_invalid_key,
      if o.sink then on_error tier_single memory_invalid_key ∷ [] else [],
      rw (e, allow),
      record {
        valid = sound.valid;
        states = λ k a here. kept.later a last now forward (sound.states k a here);
      },
      blank w,
    )
    | inr (w, e) ↦
        let (t, v, stored, p) =
          with_state-Promised visit o create now decide key s sound.valid (ranges now) in
        elim p.outcome [
          | inl a ↦ run_outcome w e t v stored p a
          | inr a ↦ refusal_outcome w e t v stored p a
        ]
  ]
