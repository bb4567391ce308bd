-- ===== src/Thunk.antt =====
-- The thunks of dashboard-frontend/frontend/src/store as programs. A program is the tree of what a
-- thunk does up to its end: the actions that it dispatches, the requests that it awaits, its reads
-- of the state, the clock and the supply of ids. `run` carries it out against an environment, which
-- answers the requests and dispatches the actions of the rest of the dashboard at each wait; between
-- two waits nothing else runs, as in JavaScript.
pub mod Slices
pub mod Laws
pub mod Waiting
pub mod Clock
pub mod Requests
pub mod Always
pub mod Toolkit
use shareframe_board.Common.{
  ℕ, suc, ◌+◌, ◌*◌, min, Bool, Option, none, some, List, [], ◌∷◌, String, ltb, if◌then◌else◌,
}
use shareframe_board.Common.Text.{◌<>◌}
use shareframe_board.Board.{
  Endpoint, DataOf, ServerResponse, Thrown, error_of, other, Response, Body, malformed, json, Reply,
  failed, answered, Request, RequestBody, empty_body, Method, get, post,
}
use shareframe_board.Store.{RootState, Action, root_reducer}

-- The asynchronous thunks that other thunks start and do not await.
pub data Call : Type 0 where
  call_fetch_slideshow_images call_fetch_network_data : Call

pub data Prog (A : Type 0) : Type 0 where
  ret : A → Prog A
  raise : Thrown → Prog A
  dispatching : Action → Prog A → Prog A
  fetching : (r : Request) → (Reply (DataOf r.endpoint) → Prog A) → Prog A
  reading : (RootState → Prog A) → Prog A
  naming : (String → Prog A) → Prog A
  timing : (ℕ → Prog A) → Prog A
  sleeping : ℕ → Prog A → Prog A
  starting : Call → Prog A → Prog A
  navigating : String → Prog A → Prog A
  reloading : Prog A → Prog A

infixl 5 ◌>>=◌ ◌>>◌
abbrev pub ◌>>=◌ : {A B : Type 0} → Prog A → (A → Prog B) → Prog B
ret a >>= f = f a
raise e >>= f = raise e
dispatching a p >>= f = dispatching a (p >>= f)
fetching r k >>= f = fetching r (λ x. k x >>= f)
reading k >>= f = reading (λ x. k x >>= f)
naming k >>= f = naming (λ x. k x >>= f)
timing k >>= f = timing (λ x. k x >>= f)
sleeping n p >>= f = sleeping n (p >>= f)
starting c p >>= f = starting c (p >>= f)
navigating u p >>= f = navigating u (p >>= f)
reloading p >>= f = reloading (p >>= f)

abbrev pub ◌>>◌ : {B : Type 0} → Prog (Unit {0}) → Prog B → Prog B
p >> q = p >>= λ _. q

-- `try { p } catch (e) { handler(e) }`.
abbrev pub try_catch : {A : Type 0} → Prog A → (Thrown → Prog A) → Prog A
try_catch (ret a) h = ret a
try_catch (raise e) h = h e
try_catch (dispatching a p) h = dispatching a (try_catch p h)
try_catch (fetching r k) h = fetching r (λ x. try_catch (k x) h)
try_catch (reading k) h = reading (λ x. try_catch (k x) h)
try_catch (naming k) h = naming (λ x. try_catch (k x) h)
try_catch (timing k) h = timing (λ x. try_catch (k x) h)
try_catch (sleeping n p) h = sleeping n (try_catch p h)
try_catch (starting c p) h = starting c (try_catch p h)
try_catch (navigating u p) h = navigating u (try_catch p h)
try_catch (reloading p) h = reloading (try_catch p h)

-- `try { p } finally { last }`.
abbrev pub finally : {A : Type 0} → Prog A → Prog (Unit {0}) → Prog A
finally (ret a) last = last >> ret a
finally (raise e) last = last >> raise e
finally (dispatching a p) last = dispatching a (finally p last)
finally (fetching r k) last = fetching r (λ x. finally (k x) last)
finally (reading k) last = reading (λ x. finally (k x) last)
finally (naming k) last = naming (λ x. finally (k x) last)
finally (timing k) last = timing (λ x. finally (k x) last)
finally (sleeping n p) last = sleeping n (finally p last)
finally (starting c p) last = starting c (finally p last)
finally (navigating u p) last = navigating u (finally p last)
finally (reloading p) last = reloading (finally p last)

abbrev pub dispatch : Action → Prog (Unit {0})
dispatch a = dispatching a (ret tt)

abbrev pub get_state : Prog RootState
get_state = reading ret

abbrev pub uuid : Prog String
uuid = naming ret

abbrev pub date_now : Prog ℕ
date_now = timing ret

abbrev pub start : Call → Prog (Unit {0})
start c = starting c (ret tt)

abbrev pub when : Bool → Prog (Unit {0}) → Prog (Unit {0})
when b p = if b then p else ret tt

-- `fetchWithTimeout` of common/utils/fetch.ts: `run` aborts a request that takes too long.
abbrev pub fetch_with_timeout : (r : Request) → Prog (Response (DataOf r.endpoint))
fetch_with_timeout r =
    fetching r λ reply. elim reply [ failed e ↦ raise e | answered response ↦ ret response ]

-- `await response.json()`. The wait for the body counts as part of the wait for the answer.
abbrev pub read_json : {D : Type 0} → Response D → Prog (ServerResponse D)
read_json response = elim response.body [ malformed e ↦ raise e | json payload ↦ ret payload ]

abbrev pub throw_error : {A : Type 0} → String → Prog A
throw_error message = raise (error_of message)

-- A field `name` of the data of an answer: where there is no data the engine throws a `TypeError`.
abbrev pub data_of : {D : Type 0} → String → ServerResponse D → Prog D
data_of name payload = elim payload.content [
  | none ↦ throw_error ("Cannot read properties of null (reading '" <> name <> "')")
  | some d ↦ ret d
]

-- `error instanceof Error ? error.message : fallback`.
abbrev pub message_of : String → Thrown → String
message_of fallback (error_of message) = message
message_of fallback other = fallback

-- Ten minutes, the default of `fetchWithTimeout`.
abbrev pub default_timeout : ℕ
default_timeout = 10 * 60 * 1000

abbrev pub get_from : Endpoint → Request
get_from e = record { endpoint = e; method = get; content = empty_body; timeout = default_timeout }

abbrev pub post_to : Endpoint → RequestBody → Request
post_to e b = record { endpoint = e; method = post; content = b; timeout = default_timeout }

-- What a thunk meets. The n-th wait takes `latency n` milliseconds if nothing ends it sooner, and
-- `others n` is dispatched meanwhile by the rest of the dashboard. `on_start` holds the actions that
-- a started thunk dispatches before its first wait.
pub record Env : Type 0 where
  pub reply : ℕ → (r : Request) → Reply (DataOf r.endpoint)
  pub latency : ℕ → ℕ
  pub others : ℕ → List Action
  pub fresh_uuid : ℕ → String
  pub abort_error : Thrown
  pub on_start : Call → List Action

-- The dashboard while a thunk runs, with what the thunk has done so far, newest first.
pub record World : Type 0 where
  pub state : RootState
  pub clock : ℕ
  pub waits : ℕ
  pub uuids : ℕ
  pub log : List Action
  pub requests : List Request
  pub calls : List Call
  pub paths : List String
  pub reloads : ℕ

pub data Ending (A : Type 0) : Type 0 where
  finished : A → Ending A
  threw : Thrown → Ending A

unfoldable pub reduce_all : ℕ → RootState → List Action → RootState
reduce_all now s [] = s
reduce_all now s (a ∷ rest) = reduce_all now (root_reducer now s a) rest

unfoldable pub apply : Action → World → World
apply a w = record w { state = root_reducer w.clock w.state a; log = a ∷ w.log }

module _ (env : Env) where
  unfoldable pub elapse : ℕ → World → World
  elapse ms w = record w {
    state = reduce_all (w.clock + ms) w.state (env.others w.waits);
    clock = w.clock + ms;
    waits = suc w.waits;
  }

  unfoldable pub delivered : (r : Request) → ℕ → Reply (DataOf r.endpoint)
  delivered r n = if ltb (env.latency n) r.timeout then env.reply n r else failed env.abort_error

  unfoldable pub send : Request → World → World
  unfolding elapse
  send r w = elapse (min (env.latency w.waits) r.timeout) (record w { requests = r ∷ w.requests })

  unfoldable pub begin : Call → World → World
  begin c w = record w { state = reduce_all w.clock w.state (env.on_start c); calls = c ∷ w.calls }

  unfoldable pub run : {A : Type 0} → Prog A → World → World × Ending A
  run (ret a) w = (w, finished a)
  run (raise e) w = (w, threw e)
  run (dispatching a p) w = run p (apply a w)
  run (fetching r k) w = run (k (delivered r w.waits)) (send r w)
  run (reading k) w = run (k w.state) w
  run (naming k) w = run (k (env.fresh_uuid w.uuids)) (record w { uuids = suc w.uuids })
  run (timing k) w = run (k w.clock) w
  run (sleeping n p) w = run p (elapse (n + env.latency w.waits) w)
  run (starting c p) w = run p (begin c w)
  run (navigating u p) w = run p (record w { paths = u ∷ w.paths })
  run (reloading p) w = run p (record w { reloads = suc w.reloads })
