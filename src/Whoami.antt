-- ===== src/Whoami.antt =====
-- The HTTP server http-whoami (kubernetes/k8s-practise/pod/http-whoami/main.go; the same text
-- stands under kubernetes/kubernetes-in-action). Requests are handled one after the other here.
pub mod Health
pub mod Race
mod Tests
use Prim.Native.Nat.{ℕ, zero, suc}
use Prim.Native.String
use Prim.Native.String.{String}
use mathlib.Core.Option.{Option, none, some}
use mathlib.Core.List.{List, [], ◌∷◌, map}
use text.Mathlib.Text.{◌==◌}
use bad_pen.Base.{if◌then◌else◌, lookup}
use bad_pen.Base.Int.{ℤ, pos, negsuc}
use bad_pen.Base.Result.{Error, message, Result, ok, err, Checked, returned, panicked}

-- What the program takes from the libraries and the machine.
pub record Env : Type 0 where
  pub getenv : String → String
  -- the error of `net.SplitHostPort`
  pub split_host_port : String → Option Error
  pub atoi : String → Result ℤ
  pub hostname : Result String
  -- sort.StringSlice's `Sort`, and `fmt`'s verb %q
  pub sort_strings : List String → List String
  pub quote : String → String

-- The variables of the package.
pub record State : Type 0 where
  pub healthy : ℤ
  pub listen_addr : String

-- The count, if the variable is set and is a number.
counted : Result ℤ → ℤ
counted (ok num) = num
counted (err e) = negsuc 0

initial_count : Env → String → ℤ
unfolding counted
initial_count env count = if count == "" then negsuc 0 else counted (env.atoi count)

with_addr : ℤ → String → Option Error → Option State
with_addr healthy addr none = some (record { healthy = healthy; listen_addr = addr })
with_addr healthy addr (some e) = none

-- `init`; `none` says that `log.Fatalf` has ended the program.
unfoldable pub init : Env → Option State
unfolding initial_count with_addr
init env =
    let healthy = initial_count env (env.getenv "SERVICE_HEALTHY_COUNT") in
    let addr = env.getenv "SERVICE_LISTEN_ADDR" in
    if addr == ""
    then some (record { healthy = healthy; listen_addr = ":8080" })
    else with_addr healthy addr (env.split_host_port addr)

pub record Request : Type 0 where
  pub remote_addr : String
  pub header : List (String × List String)

pub record Response : Type 0 where
  pub status : ℕ
  pub body : List String

-- `v[0]`, where the values of a key that is missing are none.
first_value : Option (List String) → Checked String
first_value none = panicked
first_value (some []) = panicked
first_value (some (v ∷ vs)) = returned v

line : Env → String → Checked String → Checked (List String) → Checked (List String)
line env k panicked rest = panicked
line env k (returned v) panicked = panicked
line env k (returned v) (returned lines) =
    returned
      (String.◌++◌ (env.quote k) (String.◌++◌ " => " (String.◌++◌ (env.quote v) "\n")) ∷ lines)

-- The second loop of `SortHeaderMap`, with the function that the handler gives it.
unfoldable pub header_lines :
    Env → List (String × List String) → List String → Checked (List String)
unfolding line first_value lookup
header_lines env header [] = returned []
header_lines env header (k ∷ keys) =
    line env k (first_value (lookup k header)) (header_lines env header keys)

-- `SortHeaderMap`
unfoldable pub sort_header_map : Env → List (String × List String) → Checked (List String)
unfolding header_lines
sort_header_map env header = header_lines env header (env.sort_strings (map (λ x. x.0) header))

greeted : String → Checked (List String) → Checked Response
greeted greeting panicked = panicked
greeted greeting (returned lines) = returned (record { status = 200; body = greeting ∷ lines })

hosted : Env → Request → Result String → Checked Response
unfolding greeted sort_header_map
hosted env r (ok hostname) =
    greeted
      (String.◌++◌ "You've hit <" (
        String.◌++◌ hostname
          (String.◌++◌ "> from " (String.◌++◌ (env.quote r.remote_addr) "\n\n"))))
      (sort_header_map env r.header)
hosted env r (err e) =
    returned (record { status = 500; body = String.◌++◌ "error: " (message e) ∷ [] })

-- The handler behind the health count.
unfoldable pub respond : Env → Request → Checked Response
unfolding hosted
respond env r = hosted env r env.hostname

abbrev pub unhealthy : Response
unhealthy = record { status = 500; body = [] }

-- The handler, with the count before and after.
unfoldable pub handle : Env → ℤ → Request → Checked Response × ℤ
handle env (pos zero) r = (returned unhealthy, pos zero)
handle env (pos (suc n)) r = (respond env r, pos n)
handle env (negsuc n) r = (respond env r, negsuc n)

-- The handler on one request after the other.
unfoldable pub serve : Env → ℤ → List Request → List (Checked Response)
unfolding handle
serve env healthy [] = []
serve env healthy (r ∷ requests) =
    let (answer, healthy') = handle env healthy r in answer ∷ serve env healthy' requests
