-- ===== src/Client.antt =====
-- `client_t` of include/client.h and src/client.c. A `client_t *` is a number, the client's place on
-- a heap that all queues and servers share: what one holder of the pointer writes the others see.
pub mod Known
pub mod Arrivals
pub mod Schedule
pub mod Loop
pub mod Print
use aca_bsim.Common.{ℕ, ◌==◌, Bool, if◌then◌else◌}
use aca_bsim.Common.Int.{ℤ, pos, ◌-ℤ◌}
use aca_bsim.Platform.{DisabilityType, Destination}

-- `client_service_stat_t`
pub record ClientServiceStat : Type 0 where
  pub arrival_time : ℤ
  pub wait_time : ℤ
  pub start_service_time : ℤ
  pub finish_time : ℤ
  pub failure_count : ℕ
  pub total_time : ℤ

-- `client_t`
pub record Client : Type 0 where
  pub id : ℕ
  pub service_stat : ClientServiceStat
  pub disability_type : DisabilityType
  pub destination : Destination

abbrev pub Heap : Type 0
Heap = ℕ → Client

-- `*c = client`
abbrev pub write : Heap → ℕ → Client → Heap
write heap c client = λ d. if d == c then client else heap d

-- `client_new`: `block` is what the new memory holds, and what the code does not write keeps it.
unfoldable pub client_new : Client → Client
client_new block = record block {
  service_stat = record block.service_stat {
    failure_count = 0;
    arrival_time = pos 0;
    wait_time = pos 0;
    start_service_time = pos 0;
    finish_time = pos 0;
  };
}

unfoldable pub client_set_arrival : Client → ℤ → Client
client_set_arrival client time = record client {
  service_stat = record client.service_stat { arrival_time = time };
}

unfoldable pub client_set_wait_time : Client → ℤ → Client
client_set_wait_time client time = record client {
  service_stat = record client.service_stat { wait_time = time };
}

unfoldable pub client_set_start_service_time : Client → ℤ → Client
client_set_start_service_time client time = record client {
  service_stat = record client.service_stat { start_service_time = time };
}

unfoldable pub client_set_finish_time : Client → ℤ → Client
client_set_finish_time client time = record client {
  service_stat = record client.service_stat { finish_time = time };
}

unfoldable pub client_set_total_service_time : Client → ℤ → Client
client_set_total_service_time client time = record client {
  service_stat = record client.service_stat { total_time = time };
}

unfoldable pub client_finalize : Client → ℤ → Client
client_finalize client time =
    let finished = client_set_finish_time client time in
    client_set_total_service_time finished (time -ℤ finished.service_stat.arrival_time)
