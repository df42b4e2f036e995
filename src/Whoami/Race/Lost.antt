-- ===== src/Whoami/Race/Lost.antt =====
-- How the limit of http-whoami is lost when requests are handled at the same time
-- (kubernetes/k8s-practise/pod/http-whoami/main.go).
use Prim.Native.Nat.{ℕ, zero, suc}
use mathlib.Core.Path.{refl}
use mathlib.Core.List.{List, ◌∷◌}
use bad_pen.Base.Int.{ℤ, pos, negsuc}
use bad_pen.Whoami.Race.{
  decremented, Pc, begun, tested, answers, if_positive, if_not_positive, read, write, if_not_zero,
  first, later, Steps, start, next, all_at,
}

Steps-later :
    {c : ℤ} {ps : List Pc} {c' : ℤ} {ps' : List Pc} (p : Pc)
    → Steps c ps c' ps'
    → Steps c (p ∷ ps) c' (p ∷ ps')
Steps-later p start = start
Steps-later p (next steps st) = next (Steps-later p steps) (later p st)

Steps-append :
    {c c' : ℤ} {ps ps' : List Pc} {c'' : ℤ} {ps'' : List Pc}
    → Steps c ps c' ps'
    → Steps c' ps' c'' ps''
    → Steps c ps c'' ps''
Steps-append a start = a
Steps-append a (next b st) = next (Steps-append a b) st

-- With a negative count a handler answers.
rest_answers : (m : ℕ) → Steps (negsuc 0) (all_at begun m) (negsuc 0) (all_at answers m)
rest_answers zero = start
rest_answers (suc m) =
    Steps-append
      (next (next start (first (all_at begun m) (if_not_positive refl)))
        (first (all_at begun m) (if_not_zero (λ e. cc e))))
      (Steps-later answers (rest_answers m))

-- The limit can be lost: with a health count of one, two requests that are tested before either
-- of them is counted leave the count at -1, from which every further request is answered, so that
-- any number of requests from two on may all be answered.
pub limit_lost :
    (m : ℕ) → Steps (pos 1) (all_at begun (suc (suc m))) (negsuc 0) (all_at answers (suc (suc m)))
unfolding decremented
limit_lost m =
    let rest = all_at begun m in
    Steps-append
      (next
        (next
          (next
            (next
              (next (next start (first (begun ∷ rest) (if_positive refl)))
                (later tested (first rest (if_positive refl))))
              (first (tested ∷ rest) read))
            (first (tested ∷ rest) write))
          (later answers (first rest read)))
        (later answers (first rest write)))
      (Steps-later answers (Steps-later answers (rest_answers m)))
