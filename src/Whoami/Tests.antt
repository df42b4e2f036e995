-- ===== src/Whoami/Tests.antt =====
-- The theorems on the health count, for two or three requests.
use Prim.Native.Nat.{◌+◌, ◌≤◌}
use mathlib.Core.Path.{◌≡◌, refl}
use mathlib.Core.Option.{none}
use mathlib.Core.List.{List, [], ◌∷◌, ◌++◌, map}
use native.Mathlib.Omega.{arith}
use bad_pen.Base.{take, drop, All}
use bad_pen.Base.Int.{pos, negsuc, pos_part, neg_part}
use bad_pen.Base.Result.{ok, returned}
use bad_pen.Whoami.{Env, Request, respond, unhealthy, serve}
use bad_pen.Whoami.Race.{
  begun, holding, answers, if_positive, read, first, later, Steps, start, next, all_at,
}
use bad_pen.Whoami.Race.Served.{IsAccepted, Steps-IsAccepted}
use bad_pen.Whoami.Race.Lost.{limit_lost}
use bad_pen.Whoami.Health.{serve-take-drop}

abbrev env : Env
env = record {
  getenv = λ name. "";
  split_host_port = λ addr. none;
  atoi = λ s. ok (pos 1);
  hostname = ok "whoami-1";
  sort_strings = λ keys. keys;
  quote = λ s. s;
}

abbrev requests : List Request
requests =
    record { remote_addr = "10.0.0.1:80"; header = ("Accept", "*/*" ∷ []) ∷ [] }
    ∷ record { remote_addr = "10.0.0.2:80"; header = [] }
    ∷ []

serve-take-drop_example :
    serve env (pos 1) requests
    ≡ map (respond env) (take 1 requests) ++ map (λ r. returned unhealthy) (drop 1 requests)
serve-take-drop_example = serve-take-drop env 1 requests

-- One of three handlers takes its steps while the two others stand.
abbrev one_read : Steps (pos 3) (all_at begun 3) (pos 3) (begun ∷ holding (pos 3) ∷ begun ∷ [])
one_read =
    next (next start (later begun (first (begun ∷ []) (if_positive refl))))
      (later begun (first (begun ∷ []) read))

Steps-IsAccepted_example :
    All IsAccepted (begun ∷ holding (pos 3) ∷ begun ∷ [])
    × (3 + neg_part (pos 3) ≤ pos_part (pos 3) + 3)
Steps-IsAccepted_example = Steps-IsAccepted 3 3 (omega arith) one_read

limit_lost_example : Steps (pos 1) (all_at begun 3) (negsuc 0) (all_at answers 3)
limit_lost_example = limit_lost 1
