-- ===== src/Redis/Limiters/Serves.antt =====
-- redis/: what the `Allow` of each of the three limiters asks its script.
use kaka.Prelude.{◌≡◌, inl, inr, [], ◌∷◌}
use kaka.Core.{Key}
use kaka.Key.Blank.{Spaces}
use kaka.Redis as Base
use kaka.Redis.{Options, Attempt, Response, Outcome, Runner, decision, key_for, milliseconds}
use kaka.Redis.Verdict.{Reported, allow-decision}
use kaka.Redis.Limiters.{float, int, text, ScriptRunner, bound}
use kaka.Redis.Limiters.TokenBucket as Token
use kaka.Redis.Limiters.TokenBucket.{TokenBucket}
use kaka.Redis.Limiters.LeakyBucket as Leaky
use kaka.Redis.Limiters.LeakyBucket.{LeakyBucket}
use kaka.Redis.Limiters.SlidingWindow as Window
use kaka.Redis.Limiters.SlidingWindow.{SlidingWindow}

module _ {S : Type 0} where
  -- The outcome is that of this run of the script.
  abbrev pub Settles : Options → Outcome S → Attempt Response × S → Type 0
  Settles o out asked = Reported o (decision asked.0) out.reply out.notices × (out.state ≡ asked.1)

bound-Settles :
    (o : Options) (r : Runner) (key : Key) (s : r.State)
    → ¬ Spaces key
    → Settles o (Base.allow o r key s) (r.run (key_for o key) (milliseconds o.key_ttl) s)
bound-Settles o r key s open_key = elim (allow-decision o r key s) [
  | inl (spaces, reply, same) ↦ absurd (open_key spaces)
  | inr (w, reported, state) ↦ (reported, state)
]

-- For a key that is not blank each limiter runs its script once, with the prefixed key as its only key:
-- a bucket with its capacity, its rate and the time to live in milliseconds, a sliding window with its
-- limit, its window in milliseconds, the time to live and the salt; and it settles the response.
pub limiters-Settles :
    {W : Type 0} (r : ScriptRunner W) (tb : TokenBucket W) (lb : LeakyBucket W) (sw : SlidingWindow)
    (member key : Key) (s : r.State)
    → ¬ Spaces key
    → Settles tb.base (Token.allow r tb key s) (
        r.run
          (key_for tb.base key ∷ [])
          (float tb.capacity ∷ float tb.rate ∷ int (milliseconds tb.base.key_ttl) ∷ [])
          s)
      × Settles lb.base (Leaky.allow r lb key s) (
          r.run
            (key_for lb.base key ∷ [])
            (float lb.capacity ∷ float lb.rate ∷ int (milliseconds lb.base.key_ttl) ∷ [])
            s)
      × Settles sw.base (Window.allow r sw member key s) (
          r.run
            (key_for sw.base key ∷ [])
            (int sw.limit
              ∷ int (milliseconds sw.window)
              ∷ int (milliseconds sw.base.key_ttl)
              ∷ text member
              ∷ [])
            s)
unfolding Token.allow Leaky.allow Window.allow
limiters-Settles r tb lb sw member key s open_key = (
  bound-Settles tb.base (bound r (λ ttl_ms. float tb.capacity ∷ float tb.rate ∷ int ttl_ms ∷ []))
      key s open_key,
  bound-Settles lb.base (bound r (λ ttl_ms. float lb.capacity ∷ float lb.rate ∷ int ttl_ms ∷ []))
      key s open_key,
  bound-Settles sw.base
      (bound r
        (λ ttl_ms. int sw.limit ∷ int (milliseconds sw.window) ∷ int ttl_ms ∷ text member ∷ []))
      key s open_key,
)
