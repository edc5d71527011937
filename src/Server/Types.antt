-- ===== src/Server/Types.antt =====
-- The server types of include/server.h. The tag `type` of `base_server_t`, by which the code tells
-- what a `server_t` points to, is the constructor of `Server`; `invalid` is any other tag.
use aca_bsim.Common.{ℕ, Option, none, some, Bool, if◌then◌else◌}
use aca_bsim.Common.Int.{ℤ, pos}
use aca_bsim.Platform.{Platform}
use aca_bsim.Queue.Ops.{Queue, base_size, queue_init}

-- `server_stat_t`. The code only counts these up from 0 and divides them.
pub record ServerStat : Type 0 where
  pub active_time : ℕ
  pub idle_time : ℕ
  pub client_served : ℕ
  pub failure_count : ℕ
  pub sum_queue_lens : ℤ
  pub mean_server_queue_len : ℤ

abbrev pub zero_stat : ServerStat
zero_stat = record {
  active_time = 0;
  idle_time = 0;
  client_served = 0;
  failure_count = 0;
  sum_queue_lens = pos 0;
  mean_server_queue_len = pos 0;
}

-- `base_server_t`
pub record BaseServer (p : Platform) : Type 0 where
  pub id : ℕ
  pub service_time_table : p.Table
  pub current_client : Option ℕ
  pub to_serve : ℤ
  pub error_prob : p.Double
  pub stat : ServerStat
  pub finished_clients_queue : Queue ℕ

-- `standard_server_t`
pub record StandardServer (p : Platform) : Type 0 where
  pub base : BaseServer p
  pub client_queue : Queue ℕ

-- `robotic_server_t`
pub record RoboticServer (p : Platform) : Type 0 where
  pub base : BaseServer p
  pub boost_rate : p.Double
  pub disable_client_queue : Queue ℕ
  pub normal_client_queue : Queue ℕ

-- `server_t`
pub data Server (p : Platform) : Type 0 where
  standard : StandardServer p → Server p
  robotic : RoboticServer p → Server p
  invalid : BaseServer p → Server p

-- The cast to `base_server_t *`, read and written.
abbrev pub base : {p : Platform} → Server p → BaseServer p
base (standard s) = s.base
base (robotic s) = s.base
base (invalid b) = b

abbrev pub with_base : {p : Platform} → Server p → BaseServer p → Server p
with_base (standard s) b = standard (record s { base = b })
with_base (robotic s) b = robotic (record s { base = b })
with_base (invalid _) b = invalid b

-- What the allocator answers to the requests of a constructor, and what its memory holds where the
-- constructor writes nothing.
pub record Memory : Type 0 where
  pub granted : Bool
  pub granted_queue : ℕ → Bool
  pub granted_slots : ℕ → Bool
  pub to_serve : ℤ

module _ (p : Platform) where
  unfoldable pub new_base : ℕ → p.Table → p.Double → Memory → Queue ℕ → BaseServer p
  new_base server_id service_time_table error_prob m finished = record {
    id = server_id;
    service_time_table = service_time_table;
    current_client = none;
    to_serve = m.to_serve;
    error_prob = error_prob;
    stat = zero_stat;
    finished_clients_queue = finished;
  }

  -- The `i`-th queue that a constructor makes.
  unfoldable pub new_queue : Memory → ℕ → Option (Queue ℕ)
  unfolding queue_init
  new_queue m i = queue_init (m.granted_queue i) (m.granted_slots i) base_size

  unfoldable pub standard_server_new : ℕ → p.Table → p.Double → Memory → Option (StandardServer p)
  unfolding new_base new_queue
  standard_server_new server_id service_time_table error_prob m =
      if m.granted
      then (elim (new_queue m 0) [
        | some finished ↦ elim (new_queue m 1) [
          | some waiting ↦ some (record {
            base = new_base server_id service_time_table error_prob m finished;
            client_queue = waiting;
          })
          | none ↦ none
        ]
        | none ↦ none
      ])
      else none

  unfoldable pub robotic_server_new :
      ℕ → p.Table → p.Double → p.Double → Memory → Option (RoboticServer p)
  unfolding new_base new_queue
  robotic_server_new server_id service_time_table boost_rate error_prob m =
      if m.granted
      then (elim (new_queue m 0) [
        | some finished ↦ elim (new_queue m 1) [
          | some disabled ↦ elim (new_queue m 2) [
            | some normal ↦ some (record {
              base = new_base server_id service_time_table error_prob m finished;
              boost_rate = boost_rate;
              disable_client_queue = disabled;
              normal_client_queue = normal;
            })
            | none ↦ none
          ]
          | none ↦ none
        ]
        | none ↦ none
      ])
      else none
