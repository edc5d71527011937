-- ===== src/Server/Made.antt =====
-- What `standard_server_new` and `robotic_server_new` of src/server.c make.
use aca_bsim.Common.Int.{pos}
use aca_bsim.Common.{suc, ◌≤◌, ℕ, ◌≡◌, refl, inl, ap, ◌∙◌, [], Option, some, true, arith}
use aca_bsim.Platform.{Platform, TableLaws}
use aca_bsim.Queue.Ops.{Queue, base_size, queue_init}
use aca_bsim.Queue.Layout.{IsValid, contents, init-Layout, Layout-IsValid, Layout-contents}
use aca_bsim.Server.Types.{
  Server, standard, robotic, Memory, standard_server_new, robotic_server_new, new_base, new_queue,
}
use aca_bsim.Server.Table.{init_table}
use aca_bsim.Server.Held.{held, ServerInv, Summed, IsMean}
use aca_bsim.Server.Times.{standard-table-IsTimely, robotic-table-IsTimely}

-- Memory is granted for every request of a constructor.
pub record AllGranted (m : Memory) : Type 0 where
  pub server : m.granted ≡ true
  pub queues : (i : ℕ) → m.granted_queue i ≡ true
  pub slots : (i : ℕ) → m.granted_slots i ≡ true

pub zero_sum : Summed 1 0 (pos 0)
zero_sum = record { size = 0; is_size = refl; small = omega arith }

pub zero_mean : IsMean (pos 0)
zero_mean = record { size = 0; is_size = refl; small = omega arith }

-- A server made, as yet without clients.
pub record Made {p : Platform} {S : Type 0} (tag : S → Server p) (r : Option S) : Type 0 where
  pub server : S
  pub makes : r ≡ some server
  pub inv : ServerInv true 1 0 (tag server)
  pub nobody : held (tag server) ≡ []

module _ (p : Platform) (laws : TableLaws p) where
  new_queue-made :
      (m : Memory) (i : ℕ) (q : Queue ℕ)
      → AllGranted m
      → queue_init true true base_size ≡ some q
      → new_queue p m i ≡ some q
  unfolding new_queue
  new_queue-made m i q all made =
      ap (λ b. queue_init b (m.granted_slots i) base_size) (all.queues i)
      ∙ ap (λ b. queue_init true b base_size) (all.slots i)
      ∙ made

  new_server_lem :
      (id : ℕ) (error_prob : p.Double) (m : Memory) (q : Queue ℕ)
      → AllGranted m
      → queue_init true true base_size ≡ some q
      → IsValid q
      → contents q ≡ []
      → Made (λ s. standard s) (standard_server_new p id (init_table p) error_prob m)
  unfolding standard_server_new new_base
  new_server_lem id error_prob m q all made v empty = record {
    server = record { base = new_base p id (init_table p) error_prob m q; client_queue = q };
    makes = simp (all.server, new_queue-made m 0 q all made, new_queue-made m 1 q all made);
    inv = record {
      based = record {
        finished = v;
        served = rw empty refl;
        elapsed = refl;
        busy = inl refl;
        sum = zero_sum;
        mean = zero_mean;
      };
      queues = v;
      timely = λ c listed. standard-table-IsTimely p laws _ c refl listed;
    };
    nobody = rw empty refl;
  }

  -- With a hash map that keeps its laws and memory granted, `standard_server_new` on the table of
  -- `init_table` makes a well-formed server that holds no client.
  pub standard_server_new-Made :
      (id : ℕ) (error_prob : p.Double) (m : Memory)
      → AllGranted m
      → Made (λ s. standard s) (standard_server_new p id (init_table p) error_prob m)
  standard_server_new-Made id error_prob m all =
      let (q, made, w) = init-Layout base_size (omega arith) (omega arith) in
      new_server_lem id error_prob m q all made (Layout-IsValid w) (Layout-contents w)

-- The boost rates that leave at least one tick of each time from 4 to 18.
abbrev pub Boosts : (p : Platform) → p.Double → Type 0
Boosts p boost_rate =
    (n : ℕ)
    → 4 ≤ n
    → n ≤ 18
    → (m : ℕ) × (p.to_int (p.div (p.of_int (pos n)) boost_rate) ≡ pos (suc m))

module _ (p : Platform) (laws : TableLaws p) where
  new_robot_lem :
      (id : ℕ) (boost_rate error_prob : p.Double) (m : Memory) (q : Queue ℕ)
      → Boosts p boost_rate
      → AllGranted m
      → queue_init true true base_size ≡ some q
      → IsValid q
      → contents q ≡ []
      → Made (λ s. robotic s) (robotic_server_new p id (init_table p) boost_rate error_prob m)
  unfolding robotic_server_new new_base
  new_robot_lem id boost_rate error_prob m q boosts all made v empty = record {
    server = record {
      base = new_base p id (init_table p) error_prob m q;
      boost_rate = boost_rate;
      disable_client_queue = q;
      normal_client_queue = q;
    };
    makes = simp (
      all.server,
      new_queue-made p laws m 0 q all made,
      new_queue-made p laws m 1 q all made,
      new_queue-made p laws m 2 q all made,
    );
    inv = record {
      based = record {
        finished = v;
        served = rw empty refl;
        elapsed = refl;
        busy = inl refl;
        sum = zero_sum;
        mean = zero_mean;
      };
      queues = (v, v);
      timely = λ c listed. robotic-table-IsTimely p laws _ c refl boosts listed;
    };
    nobody = rw empty refl;
  }

  -- The same for a robotic server, whose boost leaves a tick of each time of the table.
  pub robotic_server_new-Made :
      (id : ℕ) (boost_rate error_prob : p.Double) (m : Memory)
      → Boosts p boost_rate
      → AllGranted m
      → Made (λ s. robotic s) (robotic_server_new p id (init_table p) boost_rate error_prob m)
  robotic_server_new-Made id boost_rate error_prob m boosts all =
      let (q, made, w) = init-Layout base_size (omega arith) (omega arith) in
      new_robot_lem id boost_rate error_prob m q boosts all made (Layout-IsValid w)
        (Layout-contents w)
