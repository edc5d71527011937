-- ===== src/Server/Kin.antt =====
-- A server of src/server.c before and after a step: its service times and its error probability.
use aca_bsim.Common.{ℕ, ◌≡◌, refl, ◌∙◌, Bool, true, false}
use aca_bsim.Platform.{Platform}
use aca_bsim.Client.{Client}
use aca_bsim.Server.Types.{
  BaseServer, StandardServer, RoboticServer, Server, standard, robotic, invalid, base, with_base,
}
use aca_bsim.Server.Table.{get_service_time, get_service_time-standard, get_service_time-robotic}
use aca_bsim.Server.Held.{waiting, ServerInv}

abbrev pub is_standard : {p : Platform} → Server p → Bool
is_standard (standard s) = true
is_standard (robotic s) = false
is_standard (invalid b) = false

-- Two states of one server, which serves everyone for the same time and fails as often.
pub record Kin {p : Platform} (s s' : Server p) : Type 0 where
  pub times : (c : Client) → get_service_time p s' c ≡ get_service_time p s c
  pub prob : (base s').error_prob ≡ (base s).error_prob
  pub kind : is_standard s' ≡ is_standard s

pub Kin-refl : {p : Platform} (s : Server p) → Kin s s
Kin-refl s = record { times = λ c. refl; prob = refl; kind = refl }

pub Kin-trans : {p : Platform} {s t u : Server p} → Kin s t → Kin t u → Kin s u
Kin-trans a b = record {
  times = λ c. b.times c ∙ a.times c;
  prob = b.prob ∙ a.prob;
  kind = b.kind ∙ a.kind;
}

pub standard-Kin :
    {p : Platform} (s s' : StandardServer p)
    → s'.base.service_time_table ≡ s.base.service_time_table
    → s'.base.error_prob ≡ s.base.error_prob
    → Kin (standard s) (standard s')
standard-Kin s s' e f = record {
  times = λ c. get_service_time-standard s s' c e;
  prob = f;
  kind = refl;
}

pub robotic-Kin :
    {p : Platform} (s s' : RoboticServer p)
    → s'.base.service_time_table ≡ s.base.service_time_table
    → s'.boost_rate ≡ s.boost_rate
    → s'.base.error_prob ≡ s.base.error_prob
    → Kin (robotic s) (robotic s')
robotic-Kin s s' e boost f = record {
  times = λ c. get_service_time-robotic s s' c e boost;
  prob = f;
  kind = refl;
}

-- Another base with the same table and error probability in its place.
pub with_base-Kin :
    {p : Platform} {strict : Bool} {low t : ℕ} (s : Server p) (b : BaseServer p)
    → ServerInv strict low t s
    → b.service_time_table ≡ (base s).service_time_table
    → b.error_prob ≡ (base s).error_prob
    → Kin s (with_base s b)
with_base-Kin (standard s) b inv e f = standard-Kin s _ e f
with_base-Kin (robotic s) b inv e f = robotic-Kin s _ e refl f
with_base-Kin (invalid c) b inv e f = absurd inv.queues

pub waiting-with_base :
    {p : Platform} (s : Server p) (b : BaseServer p) → waiting (with_base s b) ≡ waiting s
waiting-with_base (standard s) b = refl
waiting-with_base (robotic s) b = refl
waiting-with_base (invalid c) b = refl
