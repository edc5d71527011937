-- ===== src/Tests/Desks.antt =====
-- The theorems on servers and on the table of service times, at concrete servers.
use aca_bsim.Queue.Ops.{queue_size}
use aca_bsim.Server.Accounts.{standard_server_update_stat}
use aca_bsim.Server.Overflow.{Counts, standard_server_update_stat-Counts}
use aca_bsim.Common.{
  ℕ, suc, ◌≤◌, ◌≡◌, refl, none, true, false, inl, inr, ok, arith, length, ◌-◌, ◌^◌,
}
use aca_bsim.Common.Int.{pos}
use aca_bsim.Queue.Layout.{contents}
use aca_bsim.Server.Types.{standard, robotic, StandardServer, zero_stat}
use aca_bsim.Server.Table.{entry, service_hash, service_compare, init_table, get_service_time}
use aca_bsim.Server.Load.{server_get_load, server_assign_client}
use aca_bsim.Server.Serve.{server_set_next_client}
use aca_bsim.Server.Held.{held}
use aca_bsim.Server.Next.{set_next-ServesFirst}
use aca_bsim.Server.First.{ServesFirst}
use aca_bsim.Server.Finish.{Finalized, finalize_lem}
use aca_bsim.Server.Ticked.{Ticked}
use aca_bsim.Server.Enter.{load, server_get_load-load, Entered, server_assign_client-Entered}
use aca_bsim.Server.Refused.{Assignment, server_assign_client-Assignment}
use aca_bsim.Server.Times.{
  find_entry, services, init_table-services, service_hash-Respects, robotic-table-IsTimely,
}
use aca_bsim.System.Tick.{update_server}
use aca_bsim.System.Follow.Served.{Follows, update_server-Follows}
use aca_bsim.Tests.Samples.{whole, whole_laws, people, people-AllListed}
use aca_bsim.Tests.Servers.{
  base_of, desk_of, robot_of, halved, idle_desk-ServerInv, served_desk, served_desk-ServerInv,
  idle_robot-ServerInv, fair_luck,
}

set_next-ServesFirst_example :
    ServesFirst true 0 people
      (standard (desk_of none 0))
      (server_set_next_client whole true people (standard (desk_of none 0)) 6)
set_next-ServesFirst_example =
    set_next-ServesFirst true people 6 0 1 (standard (desk_of none 0)) idle_desk-ServerInv refl
      (people-AllListed (held (standard (desk_of none 0))))

finalize_lem_example : Finalized true 1 (standard (served_desk 0)) 3
unfolding contents
finalize_lem_example =
    finalize_lem (standard (served_desk 0)) 3 (served_desk-ServerInv 0 0 (omega arith)) refl
      (omega arith)

update_server-Follows_example :
    Follows true 1 people
      (standard (served_desk 0))
      (update_server fair_luck people (standard (served_desk 0)) 6)
unfolding contents
update_server-Follows_example =
    update_server-Follows fair_luck people 6 1 (standard (served_desk 0))
      (served_desk-ServerInv 0 0 (omega arith)) (people-AllListed (held (standard (served_desk 0))))
      refl (omega arith) (omega arith)

server_get_load-load_example :
    (server_get_load (standard (served_desk 0)) 2 ≡ ok (pos (load 2 (standard (served_desk 0)))))
    × (load 2 (standard (served_desk 0)) ≤ length (held (standard (served_desk 0))))
unfolding contents
server_get_load-load_example =
    server_get_load-load (standard (served_desk 0)) 2 (served_desk-ServerInv 0 0 (omega arith))
      (omega arith)

server_assign_client-Entered_example : Entered true 1 0 people (robotic (robot_of none)) 4
unfolding contents
server_assign_client-Entered_example =
    server_assign_client-Entered people (robotic (robot_of none)) 4 idle_robot-ServerInv
      (omega arith)

server_assign_client-Assignment_example :
    Assignment true 1 0 people
      (robotic (robot_of none))
      4
      false
      (server_assign_client false people (robotic (robot_of none)) 4)
unfolding contents
server_assign_client-Assignment_example =
    server_assign_client-Assignment false people (robotic (robot_of none)) 4 idle_robot-ServerInv
      (omega arith)

init_table-services_example :
    whole.hashmap_get (init_table whole) (entry 3 1 0) ≡ find_entry (entry 3 1 0) services
init_table-services_example = init_table-services whole whole_laws (entry 3 1 0)

service_hash-Respects_example :
    service_hash whole (entry 3 1 0) 5 6 ≡ service_hash whole (entry 3 1 14) 5 6
unfolding service_compare
service_hash-Respects_example = service_hash-Respects whole (entry 3 1 0) (entry 3 1 14) 5 6 refl

robotic-table-IsTimely_example :
    (n : ℕ) × (get_service_time whole (robotic (robot_of none)) (people 0) ≡ ok (pos (suc n)))
robotic-table-IsTimely_example =
    robotic-table-IsTimely whole whole_laws (robot_of none) (people 0) refl halved
      (record { disability = inl refl; destination = inr refl })

-- A desk that has counted 2 ^ 31 - 1 clients in its queue, where one more waits.
abbrev long_day_desk : StandardServer whole
long_day_desk = record (desk_of none 0) {
  base = record (base_of none 0) { stat = record zero_stat { sum_queue_lens = pos (2 ^ 31 - 1) } };
}

standard_server_update_stat-Counts_example :
    Counts long_day_desk (2 ^ 31 - 1) 188_327 (standard_server_update_stat long_day_desk 188_327)
unfolding queue_size
standard_server_update_stat-Counts_example =
    standard_server_update_stat-Counts long_day_desk (2 ^ 31 - 1) 188_327 refl (omega arith)
      (omega arith)
