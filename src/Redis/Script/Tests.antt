-- ===== src/Redis/Script/Tests.antt =====
-- redis/script.go: a server that loses its scripts, and the theorem at it.
use kaka.Prelude.{arith, ◌≡◌, refl, inr, pos, Bool, true, false, [], ◌∷◌}
use kaka.Core.{foreign}
use kaka.Key.Blank.{Spaces, is_blank, is_blank-Spaces}
use kaka.Redis.Script.Serves.{Reloaded, allow-Reloaded}
use kaka.Redis.{default_options, success, failure, array}
use kaka.Redis.Script.{Server, run, run_loaded, eval, load, wrap_error}
use kaka.Redis.Script.Reload.{Documented, Answered, run-Answered}

-- The state is whether the script is known.
abbrev demo : Server
demo = record {
  State = Bool;
  script_load = λ s. (success (7 ∷ []), true);
  eval_sha = λ sha key ttl s. elim s [
    | true ↦ (success (array []), true)
    | false ↦ (failure (foreign 1), false)
  ];
  is_no_script = λ e. true;
}

demo-Documented : Documented demo (λ s. s) (7 ∷ [])
demo-Documented = record {
  loads = λ s. (true, refl, refl);
  runs = λ key ttl. elim [ true ↦ λ k. (array [], true, refl) | false ↦ λ k. cc ];
  misses = λ key ttl. elim [ true ↦ λ k. cc | false ↦ λ k. (foreign 1, refl, refl) ];
}

reload_test : run demo [] (pos 0) (7 ∷ [], false) ≡ (success (array []), (7 ∷ [], true))
unfolding run run_loaded eval load wrap_error
reload_test = refl

run-Answered_example :
    Answered demo (λ s. s) (7 ∷ []) [] (pos 0) false (run demo [] (pos 0) (7 ∷ [], false))
run-Answered_example =
    run-Answered demo (λ s. s) 7 [] [] (pos 0) false demo-Documented (7 ∷ []) (inr refl)

user_open : ¬ Spaces (117 ∷ [])
unfolding is_blank
user_open w = ground (arith, (is_blank-Spaces (117 ∷ [])).1 w)

allow-Reloaded_example :
    Reloaded demo (λ s. s) 7 [] demo-Documented default_options (117 ∷ []) (7 ∷ []) false
allow-Reloaded_example =
    allow-Reloaded demo (λ s. s) 7 [] demo-Documented default_options (117 ∷ []) (7 ∷ []) false
      user_open (inr refl)
