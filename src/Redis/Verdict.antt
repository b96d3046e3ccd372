-- ===== src/Redis/Verdict.antt =====
-- redis/: how a failure of Redis, or a response that the code does not understand, is settled.
use kaka.Prelude.{
  ℕ, suc, ℤ, pos, ◌≡◌, refl, ◌⊎◌, inl, inr, eqb_ℤ, Bool, true, false, not, ◌&&◌, none, List, [],
  ◌∷◌, arith, if◌then◌else◌,
}
use kaka.Core.{
  Key, Error, script_error, Result, Reply, returns, fails, redis_blank_key, on_allowed, on_rejected,
  on_error,
}
use kaka.Key.Blank.{Spaces}
use kaka.Key.{validate_redis-Spaces}
use kaka.Redis.{
  Options, error_fail_open, Notice, callback, sink_call, key_for, call_on_error, emit, emit_error,
  milliseconds, Attempt, success, failure, Response, other_response, array, other_item, int64,
  of_milliseconds, parse, decision, Runner, degrade, settle, allow,
}

-- The calls on the callback, and those on the sink by their kind.
abbrev pub callbacks : List Notice → ℕ
callbacks [] = 0
callbacks (callback e ∷ ns) = suc (callbacks ns)
callbacks (sink_call v ∷ ns) = callbacks ns

abbrev pub sink_errors : List Notice → ℕ
sink_errors [] = 0
sink_errors (sink_call (on_error t e) ∷ ns) = suc (sink_errors ns)
sink_errors (n ∷ ns) = sink_errors ns

abbrev pub sink_allowed : List Notice → ℕ
sink_allowed [] = 0
sink_allowed (sink_call (on_allowed t r) ∷ ns) = suc (sink_allowed ns)
sink_allowed (n ∷ ns) = sink_allowed ns

abbrev pub sink_rejected : List Notice → ℕ
sink_rejected [] = 0
sink_rejected (sink_call (on_rejected t r) ∷ ns) = suc (sink_rejected ns)
sink_rejected (n ∷ ns) = sink_rejected ns

abbrev pub failed : Attempt Result → Bool
failed (success r) = false
failed (failure e) = true

-- The verdict: the script's, or else the policy's.
abbrev pub verdict : Options → Attempt Result → Bool
verdict o (success r) = r.allowed
verdict o (failure e) = eqb_ℤ o.policy error_fail_open

-- The result: the script's, or else the policy's verdict, with zeros.
abbrev pub given : Options → Attempt Result → Result
given o (success r) = r
given o (failure e) = record {
  allowed = verdict o (failure e);
  remaining = pos 0;
  retry_after = pos 0;
}

-- What the script's answer means: three integers are a result, whose wait is in milliseconds, and
-- anything else, or a failed run, is a failure.
pub data Means : Attempt Response → Attempt Result → Type 0 where
  three_integers :
      (a b c : ℤ)
      → Means (success (array (int64 a ∷ int64 b ∷ int64 c ∷ []))) (
          success
            (record { allowed = eqb_ℤ a (pos 1); remaining = b; retry_after = of_milliseconds c }))
  malformed :
      (v : Response) (k : ℕ)
      → ((a b c : ℤ) → ¬ (v ≡ array (int64 a ∷ int64 b ∷ int64 c ∷ [])))
      → Means (success v) (failure (script_error k))
  not_run : (e : Error) → Means (failure e) (failure e)

-- What is reported for a decision `a` that gave `reply`.
pub record Reported (o : Options) (a : Attempt Result) (reply : Reply) (ns : List Notice)
    : Type 0 where
  pub answered : reply.err ≡ none
  pub verdict_given : reply.result.allowed ≡ verdict o a
  pub result_given : reply.result ≡ given o a
  pub errors : sink_errors ns ≡ (if o.sink && failed a then 1 else 0)
  pub calls : callbacks ns ≡ (if o.on_error && failed a then 1 else 0)
  pub grants : sink_allowed ns ≡ (if o.sink && verdict o a then 1 else 0)
  pub denials : sink_rejected ns ≡ (if o.sink && not (verdict o a) then 1 else 0)

parse-Means : (v : Response) → Means (success v) (parse v)
unfolding parse
parse-Means other_response = malformed other_response 0 (λ a b c e. cc)
parse-Means (array []) = malformed (array []) 0 (λ a b c e. ground (arith, e))
parse-Means (array (x ∷ [])) = malformed (array (x ∷ [])) 0 (λ a b c e. ground (arith, e))
parse-Means (array (x ∷ y ∷ [])) = malformed (array (x ∷ y ∷ [])) 0 (λ a b c e. ground (arith, e))
parse-Means (array (other_item ∷ y ∷ z ∷ [])) =
    malformed (array (other_item ∷ y ∷ z ∷ [])) 1 (λ a b c e. ground (arith, e))
parse-Means (array (int64 a ∷ other_item ∷ z ∷ [])) =
    malformed (array (int64 a ∷ other_item ∷ z ∷ [])) 1 (λ a' b c e. ground (arith, e))
parse-Means (array (int64 a ∷ int64 b ∷ other_item ∷ [])) =
    malformed (array (int64 a ∷ int64 b ∷ other_item ∷ [])) 1 (λ a' b' c e. ground (arith, e))
parse-Means (array (int64 a ∷ int64 b ∷ int64 c ∷ [])) = three_integers a b c
parse-Means (array (x ∷ y ∷ z ∷ w ∷ rest)) =
    malformed (array (x ∷ y ∷ z ∷ w ∷ rest)) 0 (λ a b c e. ground (arith, e))

decision-Means : (x : Attempt Response) → Means x (decision x)
unfolding decision
decision-Means (failure e) = not_run e
decision-Means (success v) = parse-Means v

module _ (o : Options) where
  settle-Reported : (a : Attempt Result) → Reported o a (returns (settle o a).0) (settle o a).1
  unfolding settle degrade emit emit_error call_on_error
  settle-Reported (success r) = record {
    answered = refl;
    verdict_given = refl;
    result_given = refl;
    errors = ground arith;
    calls = ground arith;
    grants = ground arith;
    denials = ground arith;
  }
  settle-Reported (failure e) = record {
    answered = refl;
    verdict_given = refl;
    result_given = refl;
    errors = ground arith;
    calls = ground arith;
    grants = ground arith;
    denials = ground arith;
  }

  module _ (r : Runner) (key : Key) (s : r.State) where
    abbrev pub script_run : Attempt Response × r.State
    script_run = r.run (key_for o key) (milliseconds o.key_ttl) s

    -- The same, with the code's reading of the script's answer.
    pub allow-decision :
        (Spaces key
          × ((allow o r key s).reply ≡ fails redis_blank_key)
          × ((allow o r key s).state ≡ s))
        ⊎ ((¬ Spaces key)
            × Reported o (decision script_run.0) (allow o r key s).reply (allow o r key s).notices
            × ((allow o r key s).state ≡ script_run.1))
    unfolding allow
    allow-decision = elim (validate_redis-Spaces key) [
      | inl (w, e) ↦ inl (rw (e, allow) (w, refl, refl))
      | inr (w, e) ↦ inr (rw (e, allow) (w, settle-Reported (decision script_run.0), refl))
    ]

    -- A blank key is an error, and Redis is not asked. For any other key the script is run once, on the
    -- prefixed key, and no error is returned. If the script returned three integers, they are the
    -- result; if it failed, or returned anything else, the result is the policy's verdict with zeros. The
    -- failure is reported once to the sink and once to the callback, and the decision once to the sink.
    pub allow-Reported :
        (Spaces key
          × ((allow o r key s).reply ≡ fails redis_blank_key)
          × ((allow o r key s).state ≡ s))
        ⊎ ((¬ Spaces key)
            × ((a : Attempt Result) × Means script_run.0 a
                × Reported o a (allow o r key s).reply (allow o r key s).notices)
            × ((allow o r key s).state ≡ script_run.1))
    allow-Reported = elim allow-decision [
      | inl x ↦ inl x
      | inr (w, reported, state) ↦
          inr (w, (decision script_run.0, decision-Means script_run.0, reported), state)
    ]
