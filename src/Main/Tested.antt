-- ===== src/Main/Tested.antt =====
-- One test of src/main.c, from the arrivals to the freeing of the clients, with either setup.
use aca_bsim.Server.Held.{most}
use aca_bsim.Common.{
  ℕ, ◌<◌, ◌≡◌, refl, ap, ◌∙◌, subst, List, ◌++◌, some, Bool, true, Result, ok, ◌>>=◌, arith, length,
  SameItems-trans, SameItems-refl, SameItems-append, Remains, SameItems-Remains, Remains-trans, ◌≤◌,
}
use aca_bsim.Common.Int.{pos}
use aca_bsim.Platform.{Platform, TableLaws}
use aca_bsim.Client.{Heap}
use aca_bsim.Client.Schedule.{ids, length-ids, Regular}
use aca_bsim.Client.Arrivals.{Entry, clients_init}
use aca_bsim.Client.Loop.{clients_init-Arranged}
use aca_bsim.Queue.Ops.{Queue, queue_free}
use aca_bsim.Queue.Layout.{contents}
use aca_bsim.Server.Table.{init_table}
use aca_bsim.Server.Made.{Boosts}
use aca_bsim.Server.Release.{queue_free-Frees}
use aca_bsim.Stat.{SimStat}
use aca_bsim.Params.{SimParam}
use aca_bsim.Main.{Chance, Setup, setup0, setup1, run_test}
use aca_bsim.Main.Ended.{SameItems-swap, Fair, Ended}
use aca_bsim.Main.Setups.{Ends, setup0-Ends, setup1-Ends}

-- A test that came to its end: `clients_init` made `made` clients, those in its queue, and what was
-- freed is these, each once, or if not `strict` none but these and none twice.
pub record Tested {p : Platform} (strict : Bool) (params : SimParam p) (chance : Chance) (fuel : ℕ)
    (heap : Heap) (made : ℕ) (r : Result (SimStat × List ℕ)) : Type 0 where
  pub entry : Entry
  pub enters :
      clients_init p chance.granted chance.granted_items params.disability_prob params.p1_dest_prob
        params.simulation_time chance.draws fuel heap
      ≡ ok entry
  pub number : entry.id ≡ made
  pub entered : Queue ℕ
  pub clients : entry.clients ≡ some entered
  pub order : contents entered ≡ ids made
  pub stat : SimStat
  pub freed : List ℕ
  pub runs : r ≡ ok (stat, freed)
  pub remains : Remains strict freed (ids made)
  pub total : stat.total_clients ≡ pos made

module _ (p : Platform) (params : SimParam p) (chance : Chance) (strict : Bool)
    (fair : Fair strict chance) (bound : ℕ) (time : params.simulation_time ≡ pos bound)
    (setup : Setup p)
    (setup_ends : Ends strict bound
      (λ heap q. setup (init_table p) (some q) params chance heap)) where
  test_of :
      (fuel : ℕ) (heap : Heap) (entry : Entry) (q : Queue ℕ) (r : Result (SimStat × List ℕ))
      → clients_init p chance.granted chance.granted_items params.disability_prob
          params.p1_dest_prob params.simulation_time chance.draws fuel heap
        ≡ ok entry
      → entry.clients ≡ some q
      → contents q ≡ ids entry.id
      → (e : Ended strict q (setup (init_table p) (some q) params chance entry.heap))
      → r ≡ (queue_free (some e.queue) true >>= λ freed. ok (e.stat, e.freed ++ freed))
      → Tested strict params chance fuel heap entry.id r
  test_of fuel heap entry q r enters clients order e runs =
      let f = queue_free-Frees e.queue e.valid in
      record {
        entry = entry;
        enters = enters;
        number = refl;
        entered = q;
        clients = clients;
        order = order;
        stat = e.stat;
        freed = e.freed ++ f.freed;
        runs = runs ∙ rw f.runs refl;
        remains =
            Remains-trans
              (SameItems-Remains strict (
                SameItems-trans (SameItems-append (SameItems-refl e.freed) f.same)
                  (SameItems-swap e.freed (contents e.queue))))
              (subst (Remains strict (contents e.queue ++ e.freed)) order e.remains);
        total = e.total ∙ ap (λ k. pos k) (ap length order ∙ length-ids entry.id);
      }

  granted_clients :
      (fuel : ℕ) (heap : Heap) (e : Entry)
      → clients_init p true true params.disability_prob params.p1_dest_prob
          (pos bound)
          chance.draws
          fuel
          heap
        ≡ ok e
      → clients_init p chance.granted chance.granted_items params.disability_prob
          params.p1_dest_prob params.simulation_time chance.draws fuel heap
        ≡ ok e
  granted_clients fuel heap e runs =
      ap
        (λ g.
          clients_init p g chance.granted_items params.disability_prob params.p1_dest_prob
            params.simulation_time chance.draws fuel heap)
        fair.queue
      ∙ ap
          (λ g.
            clients_init p true g params.disability_prob params.p1_dest_prob params.simulation_time
              chance.draws fuel heap)
          fair.slots
      ∙ ap
          (λ z.
            clients_init p true true params.disability_prob params.p1_dest_prob z chance.draws fuel
              heap)
          time
      ∙ runs

  run_test_at :
      (fuel : ℕ) (heap : Heap) (e : Entry) (q q' : Queue ℕ) (stat : SimStat) (freed : List ℕ)
      → clients_init p chance.granted chance.granted_items params.disability_prob
          params.p1_dest_prob params.simulation_time chance.draws fuel heap
        ≡ ok e
      → e.clients ≡ some q
      → setup (init_table p) (some q) params chance e.heap ≡ ok (stat, some q', freed)
      → run_test p setup params (init_table p) chance fuel heap
        ≡ (queue_free (some q') true >>= λ xs. ok (stat, freed ++ xs))
  unfolding run_test
  run_test_at fuel heap e q q' stat freed made clients ran = rw (made, clients, ran) refl

  test-Tested :
      (fuel : ℕ) (heap : Heap)
      → bound ≤ most
      → bound < fuel
      → Regular p chance.draws
      → (made : ℕ) × Tested strict params chance fuel heap made
          (run_test p setup params (init_table p) chance fuel heap)
  test-Tested fuel heap small enough regular =
      let a =
        clients_init-Arranged p params.disability_prob params.p1_dest_prob chance.draws bound
          regular fuel heap (omega arith) enough in
      let e = setup_ends.ends a.entry.heap a.queue a.entry.id a.valid a.order a.schedule in
      (
        a.entry.id,
        test_of fuel heap a.entry a.queue _ (granted_clients fuel heap a.entry a.runs) a.clients
            a.order e
            (run_test_at fuel heap a.entry a.queue e.queue e.stat e.freed
              (granted_clients fuel heap a.entry a.runs) a.clients e.runs),
      )

module _ (p : Platform) (laws : TableLaws p) (params : SimParam p) (chance : Chance) (strict : Bool)
    (fair : Fair strict chance) (bound : ℕ) (time : params.simulation_time ≡ pos bound) (fuel : ℕ)
    (heap : Heap) (small : bound ≤ most) (enough : bound < fuel)
    (regular : Regular p chance.draws) where
  -- With a hash map that keeps its laws, a simulation time of at most 46340 and fuel above it,
  -- memory granted outside the ticks, positive times between arrivals and type samples from 0 to
  -- 2, `clients_init` makes some clients, and the test of `setup0` with them returns without a
  -- fault; `total_clients` is the number of these clients, and, if `strict`, where the pushes in
  -- the ticks must be granted as well, each of these has been freed exactly once, and otherwise,
  -- whatever the allocator answers in the ticks, none more than once and nothing else.
  pub run_test-Tested :
      (made : ℕ) × Tested strict params chance fuel heap made
        (run_test p (setup0 p) params (init_table p) chance fuel heap)
  run_test-Tested =
      test-Tested p params chance strict fair bound time (setup0 p)
        (setup0-Ends p laws params chance strict fair bound time small) fuel heap small enough
        regular

  -- With a hash map that keeps its laws, a boost that leaves at least one tick of each time from
  -- 4 to 18, a simulation time of at most 46340 and fuel above it, memory granted outside the
  -- ticks, positive times between arrivals and type samples from 0 to 2, `clients_init` makes
  -- some clients, and the test of `setup1`, of a standard and a robotic server, with them returns
  -- without a fault; `total_clients` is the number of these clients, and, if `strict`, where the
  -- pushes in the ticks must be granted as well, each of these has been freed exactly once, and
  -- otherwise, whatever the allocator answers in the ticks, none more than once and nothing else.
  pub run_test-Tested_robot :
      Boosts p params.robot_boost_coff
      → (made : ℕ) × Tested strict params chance fuel heap made
          (run_test p (setup1 p) params (init_table p) chance fuel heap)
  run_test-Tested_robot boosts =
      test-Tested p params chance strict fair bound time (setup1 p)
        (setup1-Ends p laws params chance strict fair bound time boosts small) fuel heap small
        enough regular
