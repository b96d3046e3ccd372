-- ===== src/Layered.antt =====
-- layered/limiter.go: the two-tier limiter. `local` and `remote` are any limiters; the state is the
-- pair of theirs, since the limiter itself keeps none.
pub mod Decision
pub mod Quota
mod Tests
use kaka.Prelude.{ℕ, Bool, true, false, Option, none, some, List, [], ◌∷◌, ◌++◌, if◌then◌else◌}
use kaka.Core.{
  Key, Result, Error, Reply, returns, fails, Event, on_allowed, on_rejected, on_error, Limiter,
  Built, built, panics, tier_single, tier_local, tier_remote,
}
use kaka.Key.{validate_layered}
use Prim.Native.String.{String}

-- `options`: whether a sink is registered.
pub record Options : Type 0 where
  pub sink : Bool

abbrev pub Setting : Type 0
Setting = Options → Options

pub with_metric_sink : Bool → Setting
with_metric_sink sink o = record o { sink = sink }

pub record Layered : Type 1 where
  pub local : Limiter
  pub remote : Limiter
  pub sink : Bool

pub apply_settings : List Setting → Options → Options
apply_settings [] o = o
apply_settings (opt ∷ opts) o = apply_settings opts (opt o)

-- `none` is a nil limiter.
pub new_layered : Option Limiter → Option Limiter → List Setting → Built Layered
new_layered none remote opts = panics "layered: local limiter must not be nil"
new_layered (some local) none opts = panics "layered: remote limiter must not be nil"
new_layered (some local) (some remote) opts =
    let o : Options = apply_settings opts (record { sink = false }) in
    built (record { local = local; remote = remote; sink = o.sink })

unfoldable pub emit : Bool → String → Result → List Event
emit sink tier result =
    if sink
    then (if result.allowed then on_allowed tier result else on_rejected tier result) ∷ []
    else []

unfoldable pub emit_error : Bool → String → Error → List Event
emit_error sink tier e = if sink then on_error tier e ∷ [] else []

-- The reply, the state left behind, and the calls on the sink.
pub record Outcome (S : Type 0) : Type 0 where
  pub reply : Reply
  pub state : S
  pub events : List Event

module _ (l : Layered) where
  abbrev pub State : Type 0
  State = l.local.State × l.remote.State

  unfoldable pub remote_allow : Key → State → Outcome State
  unfolding emit emit_error
  remote_allow key s =
      let (r, remote) = l.remote.allow key s.1 in
      elim r.err [
        | some e ↦ record {
          reply = r;
          state = (s.0, remote);
          events = emit_error l.sink tier_remote e;
        }
        | none ↦ record {
          reply = returns r.result;
          state = (s.0, remote);
          events = emit l.sink tier_remote r.result;
        }
      ]

  after_local : Key → Reply → State → Outcome State
  unfolding emit emit_error remote_allow
  after_local key r s = elim r.err [
    | some e ↦
        let o = remote_allow key s in
        record o { events = emit_error l.sink tier_local e ++ o.events }
    | none ↦ if r.result.allowed then remote_allow key s else record {
      reply = returns r.result;
      state = s;
      events = emit l.sink tier_local r.result;
    }
  ]

  unfoldable pub allow : Key → State → Outcome State
  unfolding emit emit_error remote_allow after_local
  allow key s = elim (validate_layered key) [
    | some e ↦ record { reply = fails e; state = s; events = emit_error l.sink tier_single e }
    | none ↦ let (r, local) = l.local.allow key s.0 in after_local key r (local, s.1)
  ]
