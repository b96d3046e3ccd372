-- ===== src/Redis/Script/Serves.antt =====
-- redis/: `Allow` over a script that is cached, and loaded again when the server has lost it.
use kaka.Prelude.{◌≡◌, ◌∙◌, ap, ℕ, ◌⊎◌, inl, inr, Bool, [], ◌∷◌}
use mathlib.Core.Path.{subst}
use kaka.Core.{Key}
use kaka.Key.Blank.{Spaces}
use kaka.Redis.{Options, Runner, parse, decision, key_for, milliseconds, allow}
use kaka.Redis.Verdict.{Reported, allow-decision}
use kaka.Redis.Script.{Server, Cached, run}
use kaka.Redis.Script.Reload.{Documented, Answered, run-Answered}

-- The script of a limiter, on this server.
abbrev pub cached_script : Server → Runner
cached_script srv = record { State = Cached srv; run = run srv }

module _ (srv : Server) (known : srv.State → Bool) (b : ℕ) (tail : Key)
    (doc : Documented srv known (b ∷ tail)) (o : Options) (key cached : Key) (s : srv.State) where
  -- The script answered, and the reply is what was made of its response.
  pub record Reloaded : Type 0 where
    pub answer :
        Answered srv known
          (b ∷ tail)
          (key_for o key)
          (milliseconds o.key_ttl)
          s
          (run srv (key_for o key) (milliseconds o.key_ttl) (cached, s))
    pub reported :
        Reported o
          (parse answer.response)
          (allow o (cached_script srv) key (cached, s)).reply
          (allow o (cached_script srv) key (cached, s)).notices
    pub state : (allow o (cached_script srv) key (cached, s)).state ≡ (b ∷ tail, answer.after)

  -- With a server as documented, whether no SHA is cached, or the script's SHA is and the server knows
  -- the script or has lost it, a request for a key that is not blank is settled by the response of one
  -- run of the script on the prefixed key; a failure is never reported but for a malformed response.
  pub allow-Reloaded : ¬ Spaces key → (cached ≡ []) ⊎ (cached ≡ b ∷ tail) → Reloaded
  unfolding decision
  allow-Reloaded open_key h =
      let a =
        run-Answered srv known b tail (key_for o key) (milliseconds o.key_ttl) s doc cached h in
      elim (allow-decision o (cached_script srv) key (cached, s)) [
        | inl (spaces, reply, same) ↦ absurd (open_key spaces)
        | inr (w, reported, state) ↦ record {
          answer = a;
          reported =
              subst
                (λ x.
                  Reported o (decision x) (allow o (cached_script srv) key (cached, s)).reply
                    (allow o (cached_script srv) key (cached, s)).notices)
                (ap (λ x. x.0) a.result) reported;
          state = state ∙ ap (λ x. x.1) a.result;
        }
      ]
