-- ===== src/Stat/Print.antt =====
-- `print_stats` of src/stat.c.
use Prim.Native.String.{String}
use aca_bsim.Common.{◌≡◌, refl, List, ◌∷◌, ◌++◌, some}
use aca_bsim.Platform.{Platform}
use aca_bsim.Output.{Piece, words, line, value_under}
use aca_bsim.Stat.{SimStat}
use aca_bsim.Stat.Averages.{
  Measure, measure, clients, queue_size, wait, serve, nd_wait, nd_serve, t1_wait, t1_serve, t2_wait,
  t2_serve, t3_wait, t3_serve,
}

unfoldable pub print_stats : {p : Platform} → SimStat → List (Piece p)
print_stats total =
    words "\nAverage Results:\n" ∷ line "Mean client size: " total.total_clients
    ++ line "Mean queue size: " total.mean_queue_size
    ++ line "Mean wait time: " total.mean_wait_time
    ++ line "Mean service time: " total.mean_serve_time
    ++ line "ND mean wait time: " total.nd_mean_wait_time
    ++ line "ND mean service time: " total.nd_mean_serve_time
    ++ line "T1 mean wait time: " total.t1_mean_wait_time
    ++ line "T1 mean service time: " total.t1_mean_serve_time
    ++ line "T2 mean wait time: " total.t2_mean_wait_time
    ++ line "T2 mean service time: " total.t2_mean_serve_time
    ++ line "T3 mean wait time: " total.t3_mean_wait_time
    ++ line "T3 mean service time: " total.t3_mean_serve_time

-- The text that introduces a field.
abbrev pub label : Measure → String
label clients = "Mean client size: "
label queue_size = "Mean queue size: "
label wait = "Mean wait time: "
label serve = "Mean service time: "
label nd_wait = "ND mean wait time: "
label nd_serve = "ND mean service time: "
label t1_wait = "T1 mean wait time: "
label t1_serve = "T1 mean service time: "
label t2_wait = "T2 mean wait time: "
label t2_serve = "T2 mean service time: "
label t3_wait = "T3 mean wait time: "
label t3_serve = "T3 mean service time: "

-- Under the text of each field, its value is printed.
pub value_under-print_stats :
    (p : Platform) (m : Measure) (stat : SimStat)
    → value_under (label m) (print_stats {p = p} stat) ≡ some (measure m stat)
unfolding value_under print_stats
value_under-print_stats p clients stat = refl
value_under-print_stats p queue_size stat = refl
value_under-print_stats p wait stat = refl
value_under-print_stats p serve stat = refl
value_under-print_stats p nd_wait stat = refl
value_under-print_stats p nd_serve stat = refl
value_under-print_stats p t1_wait stat = refl
value_under-print_stats p t1_serve stat = refl
value_under-print_stats p t2_wait stat = refl
value_under-print_stats p t2_serve stat = refl
value_under-print_stats p t3_wait stat = refl
value_under-print_stats p t3_serve stat = refl
