-- ===== src/Main/Setups.antt =====
-- The two setups of src/main.c: the servers they make, and their run.
use aca_bsim.Server.Held.{most}
use aca_bsim.Common.{
  ℕ, ◌≡◌, refl, sym, ap, subst, List, [], ◌∷◌, append-nil, Option, some, Result, arith, length,
  Bool, true, ◌≤◌,
}
use aca_bsim.Common.Int.{pos}
use aca_bsim.Platform.{Platform, TableLaws}
use aca_bsim.Client.{Heap}
use aca_bsim.Client.Schedule.{ids, length-ids, Scheduled}
use aca_bsim.Queue.Ops.{Queue}
use aca_bsim.Queue.Layout.{IsValid, contents}
use aca_bsim.Server.Types.{Server, standard, robotic, standard_server_new, robotic_server_new}
use aca_bsim.Server.Table.{init_table}
use aca_bsim.Server.Made.{Made, Boosts, standard_server_new-Made, robotic_server_new-Made}
use aca_bsim.Stat.{SimStat}
use aca_bsim.System.Types.{System}
use aca_bsim.System.Admit.{everyone, SystemInv}
use aca_bsim.Params.{SimParam}
use aca_bsim.Main.{Chance, run_setup, setup0, setup1}
use aca_bsim.Main.Ended.{Scheduled-few, Scheduled-AllListed, Fair, Ended, run_setup-Ended}

-- A setup that comes to its end with any clients that arrive one after the other by `bound`.
pub record Ends (strict : Bool) (bound : ℕ)
    (setup : Heap → Queue ℕ → Result (SimStat × Option (Queue ℕ) × List ℕ)) : Type 0 where
  pub ends :
      (heap : Heap) (q : Queue ℕ) (n : ℕ)
      → IsValid q
      → contents q ≡ ids n
      → Scheduled heap n bound
      → Ended strict q (setup heap q)

module _ (p : Platform) (laws : TableLaws p) (params : SimParam p) (chance : Chance) (strict : Bool)
    (fair : Fair strict chance) (bound : ℕ) (time : params.simulation_time ≡ pos bound) where
  -- The run of a system of idle servers, which hold no client.
  idle_run-Ended :
      (heap : Heap) (q : Queue ℕ) (n : ℕ) (y : System p) (s : Server p) (servers : List (Server p))
      → bound ≤ most
      → y.standard_servers ≡ s ∷ servers
      → y.system_clients ≡ some q
      → everyone y ≡ contents q
      → SystemInv true 0 y
      → contents q ≡ ids n
      → Scheduled heap n bound
      → Ended strict q (run_setup chance heap y params)
  idle_run-Ended heap q n y s servers small first its all inv order arrive =
      run_setup-Ended strict chance heap y params bound s servers q time first its all inv fair
        (rw order (Scheduled-AllListed heap n bound arrive))
        (omega (arith, ap length order, length-ids n, Scheduled-few heap n bound arrive)) small

  -- The servers of `setup0`, the one with `id` made from the `i`-th memory.
  desk :
      (id i : ℕ)
      → Made
          (λ s. standard s)
          (standard_server_new p id (init_table p) params.error_per_act_prob (chance.memory i))
  desk id i =
      standard_server_new-Made p laws id params.error_per_act_prob (chance.memory i)
        (fair.servers i)

  abbrev two_desks : Queue ℕ → System p
  two_desks q = record {
    system_clients = some q;
    standard_servers = standard (desk 1 0).server ∷ standard (desk 2 1).server ∷ [];
    robotic_servers = [];
  }

  setup0-two_desks :
      (heap : Heap) (q : Queue ℕ)
      → setup0 p (init_table p) (some q) params chance heap
        ≡ run_setup chance heap (two_desks q) params
  unfolding setup0
  setup0-two_desks heap q = rw (setup0, (desk 1 0).makes, (desk 2 1).makes) refl

  two_desks-SystemInv : (q : Queue ℕ) → IsValid q → SystemInv true 0 (two_desks q)
  two_desks-SystemInv q v = record {
    queue = q;
    clients = refl;
    valid = v;
    standard_inv = ((desk 1 0).inv, ((desk 2 1).inv, tt));
    robotic_inv = tt;
    servers = omega arith;
  }

  everyone-two_desks : (q : Queue ℕ) → everyone (two_desks q) ≡ contents q
  everyone-two_desks q = rw ((desk 1 0).nobody, (desk 2 1).nobody) (append-nil (contents q))

  pub setup0-Ends :
      bound ≤ most
      → Ends strict bound (λ heap q. setup0 p (init_table p) (some q) params chance heap)
  setup0-Ends small = record {
    ends = λ heap q n v order arrive. subst (Ended strict q) (sym (setup0-two_desks heap q)) (
        idle_run-Ended heap q n (two_desks q) _ _ small refl refl (everyone-two_desks q)
          (two_desks-SystemInv q v) order arrive);
  }

  -- The servers of `setup1`.
  module _ (boosts : Boosts p params.robot_boost_coff) where
    robot :
        Made
          (λ s. robotic s)
          (robotic_server_new p 1
            (init_table p)
            params.robot_boost_coff
            params.error_per_act_prob
            (chance.memory 1))
    robot =
        robotic_server_new-Made p laws 1 params.robot_boost_coff params.error_per_act_prob
          (chance.memory 1) boosts (fair.servers 1)

    abbrev desk_and_robot : Queue ℕ → System p
    desk_and_robot q = record {
      system_clients = some q;
      standard_servers = standard (desk 0 0).server ∷ [];
      robotic_servers = robotic robot.server ∷ [];
    }

    setup1-desk_and_robot :
        (heap : Heap) (q : Queue ℕ)
        → setup1 p (init_table p) (some q) params chance heap
          ≡ run_setup chance heap (desk_and_robot q) params
    unfolding setup1
    setup1-desk_and_robot heap q = rw (setup1, (desk 0 0).makes, robot.makes) refl

    desk_and_robot-SystemInv : (q : Queue ℕ) → IsValid q → SystemInv true 0 (desk_and_robot q)
    desk_and_robot-SystemInv q v = record {
      queue = q;
      clients = refl;
      valid = v;
      standard_inv = ((desk 0 0).inv, tt);
      robotic_inv = (robot.inv, tt);
      servers = omega arith;
    }

    everyone-desk_and_robot : (q : Queue ℕ) → everyone (desk_and_robot q) ≡ contents q
    everyone-desk_and_robot q = rw ((desk 0 0).nobody, robot.nobody) (append-nil (contents q))

    pub setup1-Ends :
        bound ≤ most
        → Ends strict bound (λ heap q. setup1 p (init_table p) (some q) params chance heap)
    setup1-Ends small = record {
      ends = λ heap q n v order arrive.
          subst (Ended strict q) (sym (setup1-desk_and_robot heap q)) (
            idle_run-Ended heap q n (desk_and_robot q) _ _ small refl refl
              (everyone-desk_and_robot q) (desk_and_robot-SystemInv q v) order arrive);
    }
