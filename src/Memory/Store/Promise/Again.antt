-- ===== src/Memory/Store/Promise/Again.antt =====
-- memory/sharded_store.go, `withState` again for one key: what a request left is what the next one gets.
use kaka.Prelude.{
  ◌⊎◌, ◌≡◌, refl, sym, ap, ◌∙◌, inl, inr, false, Option, none, some, List, [], ◌∷◌, key_eq, arith,
}
use mathlib.Core.Path.{subst}
use mathlib.Core.Option.{some-injective}
use kaka.Core.{Key}
use kaka.Clock.{Time}
use kaka.Memory.Options.{Options}
use kaka.Memory.Shard.{KeyEntry}
use kaka.Memory.Shard.Cleaning.{Ranges}
use kaka.Memory.Store.{Store, ran, with_state}
use kaka.Memory.Store.Promise.{peek, Valid, Promised, with_state-Promised}

-- The two requests are answered, the second on the state `w` that the first left.
abbrev pub Continues :
    {A R : Type 0}
    → (Time → List (Key × KeyEntry A) → List (Key × KeyEntry A))
    → Options
    → (Time → A)
    → (A → Time → A × R)
    → Key
    → Store A
    → Time
    → A
    → Type 0
Continues {A} visit o create fn key t now w =
    (u : Store A) × (with_state visit o create now fn key t ≡ some (u, ran (fn w now).1))
    × (peek o u key ≡ some (fn w now).0)

module _ {A R : Type 0} (visit : Time → List (Key × KeyEntry A) → List (Key × KeyEntry A))
    (ranges : (now : Time) → Ranges (visit now)) (o : Options) (create : Time → A)
    (fn : A → Time → A × R) (key : Key) where
  -- A request for a key that the store has.
  with_state-Continues :
      (t : Store A) (now : Time) (w : A)
      → Valid o t
      → peek o t key ≡ some w
      → Continues visit o create fn key t now w
  with_state-Continues t now w valid here =
      let (u, v, e, p) = with_state-Promised visit o create now fn key t valid (ranges now) in
      elim p.outcome [
        | inr full ↦ absurd (ground (arith, full.new, here))
        | inl a ↦
            let same : a.before ≡ w = elim a.origin [
              | inl found ↦ some-injective _ _ (sym found ∙ here)
              | inr gone ↦ absurd (ground (arith, gone.0, here))
            ] in
            (
              u,
              e ∙ ap (λ x. some (u, x)) (a.verdict ∙ ap (λ b. ran (fn b now).1) same),
              a.after ∙ ap (λ b. some (fn b now).0) same,
            )
      ]

  -- Requests, each with its key and its time.
  unfoldable pub requests : List (Key × Time) → Store A → Option (Store A)
  requests [] t = some t
  requests ((k, now) ∷ rest) t = elim (with_state visit o create now fn k t) [
    | none ↦ none
    | some (u, v) ↦ requests rest u
  ]

  -- None of them is for the key.
  abbrev pub Others : List (Key × Time) → Type 0
  Others [] = Unit {0}
  Others ((k, now) ∷ rest) = (key_eq k key ≡ false) × Others rest

  -- Requests for other keys are answered, and leave the key's state, or remove it.
  requests-Stays :
      (rest : List (Key × Time)) (t : Store A)
      → Others rest
      → Valid o t
      → (u : Store A) × (requests rest t ≡ some u)
        × Valid o u
        × ((peek o u key ≡ peek o t key) ⊎ ((peek o u key ≡ none) × (¬ (rest ≡ []))))
  unfolding requests
  requests-Stays [] t others valid = (t, refl, valid, inl refl)
  requests-Stays ((k, now) ∷ rest) t others valid =
      let (u, v, e, p) = with_state-Promised visit o create now fn k t valid (ranges now) in
      let (w, f, valid', stays) = requests-Stays rest u others.1 p.valid in
      (
        w,
        rw (e, requests) f,
        valid',
        elim stays [
          | inl same ↦ elim (p.others key others.0) [
            | inl gone ↦ inr (same ∙ gone, λ h. cc)
            | inr kept ↦ inl (same ∙ kept)
          ]
          | inr gone ↦ inr (gone.0, λ h. cc)
        ],
      )

  -- A request is decided on the key's state `a`, or on a new one. Any requests for other keys then are
  -- answered, and the next request for the key is decided on what the first left, however late it comes
  -- and even if the key has expired, unless one of those between removed the key: without one between,
  -- the key is there. (The store is valid before; the runtime ranges over entries of the map, in any
  -- order.)
  pub with_state_again :
      (s t : Store A) (now next : Time) (r : R) (between : List (Key × Time))
      → Valid o s
      → with_state visit o create now fn key s ≡ some (t, ran r)
      → Others between
      → (a : A) × ((peek o s key ≡ some a) ⊎ ((peek o s key ≡ none) × (a ≡ create now)))
        × ((fn a now).1 ≡ r)
        × ((u : Store A) × (requests between t ≡ some u)
            × (Continues visit o create fn key u next (fn a now).0
                ⊎ ((peek o u key ≡ none) × (¬ (between ≡ [])))))
  with_state_again s t now next r between valid e others =
      let (t', v, e', p) = with_state-Promised visit o create now fn key s valid (ranges now) in
      let q : Promised visit o create now fn key s t (ran r) =
        subst (λ x. Promised visit o create now fn key s x.0 x.1) (some-injective _ _ (sym e' ∙ e))
          p in
      elim q.outcome [
        | inr full ↦ absurd (ground (arith, full.verdict))
        | inl a ↦
            let (u, f, valid', stays) = requests-Stays between t others q.valid in
            (
              a.before,
              a.origin,
              ground (arith, a.verdict),
              (
                u,
                f,
                elim stays [
                  | inl same ↦
                      inl (with_state-Continues u next (fn a.before now).0 valid' (same ∙ a.after))
                  | inr gone ↦ inr gone
                ],
              ),
            )
      ]
