-- ===== src/Whoami/Health.antt =====
-- The health count of http-whoami (kubernetes/k8s-practise/pod/http-whoami/main.go).
use Prim.Native.Nat.{ℕ, zero, suc}
use mathlib.Core.Path.{◌≡◌, refl, ap}
use mathlib.Core.List.{List, [], ◌∷◌, ◌++◌, map}
use bad_pen.Base.{take, drop}
use bad_pen.Base.Int.{pos, negsuc}
use bad_pen.Base.Result.{returned}
use bad_pen.Whoami.{Env, Request, respond, unhealthy, handle, serve}

-- With a health count of `n`, of requests that are served one after the other, so that each handler
-- ends before the next one begins, the first `n` are answered, and every later one is refused with
-- the status 500.
pub serve-take-drop :
    (env : Env) (n : ℕ) (requests : List Request)
    → serve env (pos n) requests
      ≡ map (respond env) (take n requests) ++ map (λ r. returned unhealthy) (drop n requests)
unfolding serve handle
serve-take-drop env zero [] = refl
serve-take-drop env zero (r ∷ requests) =
    ap (◌∷◌ (returned unhealthy)) (serve-take-drop env zero requests)
serve-take-drop env (suc n) [] = refl
serve-take-drop env (suc n) (r ∷ requests) =
    ap (◌∷◌ (respond env r)) (serve-take-drop env n requests)

-- With a negative count it answers every request.
pub serve-map :
    (env : Env) (n : ℕ) (requests : List Request)
    → serve env (negsuc n) requests ≡ map (respond env) requests
unfolding serve handle
serve-map env n [] = refl
serve-map env n (r ∷ requests) = ap (◌∷◌ (respond env r)) (serve-map env n requests)
