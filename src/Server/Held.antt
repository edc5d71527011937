-- ===== src/Server/Held.antt =====
-- The clients that a server holds, and what holds of a server between the steps of a tick.
use aca_bsim.Client.Known.{IsListed, Keeps, Keeps-trans}
use aca_bsim.Common.{
  ℕ, suc, ◌+◌, ◌-◌, ◌*◌, ◌^◌, ◌<◌, ◌≤◌, ◌≡◌, refl, ◌∙◌, List, [], ◌∷◌, ◌++◌, Option, none, some,
  ◌⊎◌, Result, ok, arith, length, Bool, true, false,
}
use aca_bsim.Common.Int.{ℤ, pos}
use aca_bsim.Platform.{Platform}
use aca_bsim.Client.{Client, Heap}
use aca_bsim.Queue.Layout.{IsValid, contents}
use aca_bsim.Server.Types.{
  BaseServer, StandardServer, RoboticServer, Server, standard, robotic, invalid, base, with_base,
}
use aca_bsim.Server.Table.{get_service_time, get_service_time-standard, get_service_time-robotic}

abbrev pub current_list : Option ℕ → List ℕ
current_list none = []
current_list (some c) = c ∷ []

-- The clients waiting at a server.
abbrev pub waiting : {p : Platform} → Server p → List ℕ
waiting (standard s) = contents s.client_queue
waiting (robotic s) = contents s.disable_client_queue ++ contents s.normal_client_queue
waiting (invalid b) = []

-- All clients of a server: finished, being served, waiting.
abbrev pub held : {p : Platform} → Server p → List ℕ
held s =
    contents (base s).finished_clients_queue ++ (current_list (base s).current_client ++ waiting s)

-- A server at which the service of such a client takes a positive time.
abbrev pub IsTimely : {p : Platform} → Server p → Type 0
IsTimely {p} s = (c : Client) → IsListed c → (n : ℕ) × (get_service_time p s c ≡ ok (pos (suc n)))

-- How many clients a server has counted as served against those in the queue of the finished: as many,
-- or, where a client may have been lost, no fewer.
abbrev pub Tally : Bool → ℕ → ℕ → Type 0
Tally true counted finished = counted ≡ finished
Tally false counted finished = finished ≤ counted

pub Tally-suc :
    (strict : Bool) (counted finished finished' : ℕ)
    → finished' ≡ finished + 1
    → Tally strict counted finished
    → Tally strict (counted + 1) finished'
Tally-suc true counted finished finished' e tally = omega (arith, e, tally)
Tally-suc false counted finished finished' e tally = omega (arith, e, tally)

-- As many clients and as many ticks as are enough for no sum of queue lengths to wrap:
-- 46340 * 46340 < 2 ^ 31.
abbrev pub most : ℕ
most = 46_340

-- A sum of the lengths of queues of at most `most` clients over the ticks so far: the statistics of the
-- last of the `t` ticks are still to be made where `low` is 0.
pub record Summed (low t : ℕ) (sum : ℤ) : Type 0 where
  pub size : ℕ
  pub is_size : sum ≡ pos size
  pub small : size + (1 - low) * most ≤ t * most

-- A mean that is one of an `int`.
pub record IsMean (mean : ℤ) : Type 0 where
  pub size : ℕ
  pub is_size : mean ≡ pos size
  pub small : size < 2 ^ 31

pub Summed-settled : {low t : ℕ} {sum : ℤ} → Summed low t sum → Summed 1 t sum
Summed-settled h = record { size = h.size; is_size = h.is_size; small = omega (arith, h.small) }

-- After `t` ticks: each tick was counted as active or idle, the clients counted as served are those in
-- the queue of the finished, exactly so if `strict`, a client being served has at least `low` ticks to go,
-- and the sum of the queue lengths and their mean have not wrapped.
pub record BaseInv {p : Platform} (strict : Bool) (low t : ℕ) (b : BaseServer p) : Type 0 where
  pub finished : IsValid b.finished_clients_queue
  pub served : Tally strict b.stat.client_served (length (contents b.finished_clients_queue))
  pub elapsed : b.stat.active_time + b.stat.idle_time ≡ t
  pub busy : (b.current_client ≡ none) ⊎ ((n : ℕ) × (b.to_serve ≡ pos n) × (low ≤ n))
  pub sum : Summed low t b.stat.sum_queue_lens
  pub mean : IsMean b.stat.mean_server_queue_len

abbrev pub QueuesValid : {p : Platform} → Server p → Type 0
QueuesValid (standard s) = IsValid s.client_queue
QueuesValid (robotic s) = IsValid s.disable_client_queue × IsValid s.normal_client_queue
QueuesValid (invalid b) = ⊥

pub record ServerInv {p : Platform} (strict : Bool) (low t : ℕ) (s : Server p) : Type 0 where
  pub based : BaseInv strict low t (base s)
  pub queues : QueuesValid s
  pub timely : IsTimely s

Tally-lenient :
    (strict : Bool) (counted finished : ℕ)
    → Tally true counted finished
    → Tally strict counted finished
Tally-lenient true counted finished tally = tally
Tally-lenient false counted finished tally = omega (arith, tally)

-- A server that has lost no client is one that may have lost one.
pub ServerInv-lenient :
    {p : Platform} (strict : Bool) {low t : ℕ} (s : Server p)
    → ServerInv true low t s
    → ServerInv strict low t s
ServerInv-lenient strict s inv = record {
  based = record {
    finished = inv.based.finished;
    served = Tally-lenient strict (base s).stat.client_served _ inv.based.served;
    elapsed = inv.based.elapsed;
    busy = inv.based.busy;
    sum = inv.based.sum;
    mean = inv.based.mean;
  };
  queues = inv.queues;
  timely = inv.timely;
}

pub standard-IsTimely :
    {p : Platform} (s s' : StandardServer p)
    → s'.base.service_time_table ≡ s.base.service_time_table
    → IsTimely (standard s)
    → IsTimely (standard s')
standard-IsTimely s s' e timely c listed =
    let (n, time) = timely c listed in (n, get_service_time-standard s s' c e ∙ time)

pub robotic-IsTimely :
    {p : Platform} (s s' : RoboticServer p)
    → s'.base.service_time_table ≡ s.base.service_time_table
    → s'.boost_rate ≡ s.boost_rate
    → IsTimely (robotic s)
    → IsTimely (robotic s')
robotic-IsTimely s s' e boost timely c listed =
    let (n, time) = timely c listed in (n, get_service_time-robotic s s' c e boost ∙ time)

-- Another base with the same table in its place.
pub with_base-ServerInv :
    {p : Platform} {strict : Bool} {low t low' t' : ℕ} (s : Server p) (b : BaseServer p)
    → ServerInv strict low t s
    → BaseInv strict low' t' b
    → b.service_time_table ≡ (base s).service_time_table
    → ServerInv strict low' t' (with_base s b)
with_base-ServerInv (standard s) b inv based e = record {
  based = based;
  queues = inv.queues;
  timely = standard-IsTimely s _ e inv.timely;
}
with_base-ServerInv (robotic s) b inv based e = record {
  based = based;
  queues = inv.queues;
  timely = robotic-IsTimely s _ e refl inv.timely;
}
with_base-ServerInv (invalid c) b inv based e = absurd inv.queues

pub held-with_base :
    {p : Platform} (s : Server p) (b : BaseServer p)
    → held (with_base s b)
      ≡ contents b.finished_clients_queue ++ (current_list b.current_client ++ waiting s)
held-with_base (standard s) b = refl
held-with_base (robotic s) b = refl
held-with_base (invalid c) b = refl

pub base-with_base : {p : Platform} (s : Server p) (b : BaseServer p) → base (with_base s b) ≡ b
base-with_base (standard s) b = refl
base-with_base (robotic s) b = refl
base-with_base (invalid c) b = refl

-- A step of a server that went through, with all its clients still there, in the same order.
pub record Good {p : Platform} (strict : Bool) (low t : ℕ) (heap : Heap) (s : Server p)
    (r : Result (Heap × Server p)) : Type 0 where
  pub heap' : Heap
  pub server' : Server p
  pub runs : r ≡ ok (heap', server')
  pub inv : ServerInv strict low t server'
  pub same : held server' ≡ held s
  pub keeps : Keeps heap heap'

-- A good step after changes that keep the clients.
pub Good-after :
    {p : Platform} {strict : Bool} {low t : ℕ} {heap heap1 : Heap} {s s1 : Server p}
    {r : Result (Heap × Server p)}
    → held s1 ≡ held s
    → Keeps heap heap1
    → Good strict low t heap1 s1 r
    → Good strict low t heap s r
Good-after same keeps g = record {
  heap' = g.heap';
  server' = g.server';
  runs = g.runs;
  inv = g.inv;
  same = g.same ∙ same;
  keeps = Keeps-trans keeps g.keeps;
}
