-- ===== src/Redis/Script/Reload.antt =====
-- redis/script.go: a script that the server has lost is loaded again, unseen by the caller.
use kaka.Prelude.{
  ◌≡◌, refl, sym, ap, ℕ, ◌⊎◌, inl, inr, ℤ, Bool, true, false, [], ◌∷◌, arith, Bool-cases,
}
use kaka.Core.{Key, Error}
use kaka.Redis.{Attempt, success, failure, Response}
use kaka.Redis.Script.{Server, Cached, load, eval, wrap_error, run_loaded, run}

-- What Redis documents, while the connection lasts: SCRIPT LOAD makes a script known and answers with
-- its SHA; EVALSHA runs a known script, here one that does not fail, and answers NOSCRIPT for an
-- unknown one, which changes nothing.
pub record Documented (srv : Server) (known : srv.State → Bool) (sha : Key) : Type 0 where
  pub loads :
      (s : srv.State) → (t : srv.State) × (srv.script_load s ≡ (success sha, t)) × (known t ≡ true)
  pub runs :
      (key : Key) (ttl : ℤ) (s : srv.State)
      → known s ≡ true
      → (v : Response) × (t : srv.State) × (srv.eval_sha sha key ttl s ≡ (success v, t))
  pub misses :
      (key : Key) (ttl : ℤ) (s : srv.State)
      → known s ≡ false
      → (e : Error) × (srv.eval_sha sha key ttl s ≡ (failure e, s)) × (srv.is_no_script e ≡ true)

-- A run that was answered in the state `s`, or in the one after a load.
pub record Answered (srv : Server) (known : srv.State → Bool) (sha key : Key) (ttl : ℤ)
    (s : srv.State) (r : Attempt Response × Cached srv) : Type 0 where
  pub before : srv.State
  pub ready : known before ≡ true
  pub reached : (before ≡ s) ⊎ (before ≡ (srv.script_load s).1)
  pub response : Response
  pub after : srv.State
  pub ran_there : srv.eval_sha sha key ttl before ≡ (success response, after)
  pub result : r ≡ (success response, (sha, after))

module _ (srv : Server) (known : srv.State → Bool) (b : ℕ) (tail key : Key) (ttl : ℤ)
    (s : srv.State) (doc : Documented srv known (b ∷ tail)) where
  abbrev sha : Key
  sha = b ∷ tail

  -- The server knows the script.
  run_known : known s ≡ true → Answered srv known sha key ttl s (run_loaded srv key ttl (sha, s))
  unfolding run_loaded eval
  run_known k =
      let (v, t, e) = doc.runs key ttl s k in
      record {
        before = s;
        ready = k;
        reached = inl refl;
        response = v;
        after = t;
        ran_there = e;
        result = ground (arith, e);
      }

  run_unknown : known s ≡ false → Answered srv known sha key ttl s (run_loaded srv key ttl (sha, s))
  unfolding run_loaded eval load wrap_error
  run_unknown k =
      let (e, missed, no_script) = doc.misses key ttl s k in
      let (t, loaded, ready) = doc.loads s in
      let (v, u, ran_there) = doc.runs key ttl t ready in
      record {
        before = t;
        ready = ready;
        reached = inr (ap (λ x. x.1) (sym loaded));
        response = v;
        after = u;
        ran_there = ran_there;
        result = ground (arith, missed, no_script, loaded, ran_there);
      }

  run_cached : Answered srv known sha key ttl s (run_loaded srv key ttl (sha, s))
  run_cached = elim (Bool-cases (known s)) [ inl k ↦ run_known k | inr k ↦ run_unknown k ]

  run_fresh : Answered srv known sha key ttl s (run srv key ttl ([], s))
  unfolding run run_loaded eval load
  run_fresh =
      let (t, loaded, ready) = doc.loads s in
      let (v, u, ran_there) = doc.runs key ttl t ready in
      record {
        before = t;
        ready = ready;
        reached = inr (ap (λ x. x.1) (sym loaded));
        response = v;
        after = u;
        ran_there = ran_there;
        result = ground (arith, loaded, ran_there);
      }

  -- With a server as documented, whether no SHA is cached, or the script's SHA is and the server
  -- knows the script or has lost it, `Run` returns the response of running the script once on the
  -- server as it was or as it was after one load, and leaves the SHA cached.
  pub run-Answered :
      (cached : Key)
      → (cached ≡ []) ⊎ (cached ≡ b ∷ tail)
      → Answered srv known (b ∷ tail) key ttl s (run srv key ttl (cached, s))
  unfolding run
  run-Answered cached (inl e) = rw e run_fresh
  run-Answered cached (inr e) = rw e run_cached
