-- ===== src/System/Means.antt =====
-- The means that `compute_stats` of src/system.c reports, against averages over lists of clients.
use aca_bsim.Common.{
  ℕ, suc, ◌+◌, ◌≡◌, refl, sym, ap, ap₂, ◌∙◌, List, [], ◌∷◌, ◌++◌, reverse, reverse-cons, Bool, true,
  inl, inr, arith, ◌==◌, Bool-cases, if◌then◌else◌, length, length-append,
}
use mathlib.Core.List.{foldl, foldl-append}
use aca_bsim.Common.Int.{ℤ, pos, ◌+ℤ◌, ◌/ℤ◌, int_laws, add_assoc_ℤ, swap_ℤ}
use aca_bsim.Platform.{no_disability, type_1, type_2, type_3}
use aca_bsim.Client.{Client, Heap}
use aca_bsim.Stat.{SimStat}
use aca_bsim.System.Totals.{Totals, Sums, compute_client_stats, by_type, count_client}

-- The groups of clients that the statistics tell apart.
pub data Group : Type 0 where
  anyone able first second third : Group

abbrev pub member : Group → Client → Bool
member anyone c = true
member able c = c.disability_type == no_disability
member first c = c.disability_type == type_1
member second c = c.disability_type == type_2
member third c = c.disability_type == type_3

-- The clients of a group among some.
abbrev pub chosen : Group → Heap → List ℕ → List Client
chosen g heap [] = []
chosen g heap (c ∷ xs) = if member g (heap c) then heap c ∷ chosen g heap xs else chosen g heap xs

abbrev pub sum_by : (Client → ℤ) → List Client → ℤ
sum_by f [] = pos 0
sum_by f (c ∷ cs) = f c +ℤ sum_by f cs

-- The sum over the clients by their number, rounded towards zero, and 0 if there is none.
abbrev pub average : (Client → ℤ) → List Client → ℤ
average f [] = pos 0
average f (c ∷ cs) = sum_by f (c ∷ cs) /ℤ suc (length cs)

abbrev pub wait_time : Client → ℤ
wait_time c = c.service_stat.wait_time

abbrev pub total_time : Client → ℤ
total_time c = c.service_stat.total_time

-- The sums that the code keeps for a group, and the means that it reports.
abbrev pub sums_of : Group → Totals → Sums
sums_of anyone k = k.all
sums_of able k = k.nd
sums_of first k = k.t1
sums_of second k = k.t2
sums_of third k = k.t3

abbrev pub mean_wait_of : Group → SimStat → ℤ
mean_wait_of anyone s = s.mean_wait_time
mean_wait_of able s = s.nd_mean_wait_time
mean_wait_of first s = s.t1_mean_wait_time
mean_wait_of second s = s.t2_mean_wait_time
mean_wait_of third s = s.t3_mean_wait_time

abbrev pub mean_serve_of : Group → SimStat → ℤ
mean_serve_of anyone s = s.mean_serve_time
mean_serve_of able s = s.nd_mean_serve_time
mean_serve_of first s = s.t1_mean_serve_time
mean_serve_of second s = s.t2_mean_serve_time
mean_serve_of third s = s.t3_mean_serve_time

-- The sums `s'` are the sums `s` with those over the clients `cs` added.
pub record Adds (s s' : Sums) (cs : List Client) : Type 0 where
  pub total : s'.total ≡ s.total + length cs
  pub wait : s'.wait_time ≡ s.wait_time +ℤ sum_by wait_time cs
  pub service : s'.service_time ≡ s.service_time +ℤ sum_by total_time cs

sum_by-append :
    (f : Client → ℤ) (xs ys : List Client) → sum_by f (xs ++ ys) ≡ sum_by f xs +ℤ sum_by f ys
sum_by-append f [] ys = omega int_laws
sum_by-append f (x ∷ xs) ys = ap (λ z. f x +ℤ z) (sum_by-append f xs ys) ∙ omega int_laws

pub Adds-none : (s : Sums) → Adds s s []
Adds-none s = record { total = omega arith; wait = omega int_laws; service = omega int_laws }

pub Adds-append :
    (s t u : Sums) (xs ys : List Client) → Adds s t xs → Adds t u ys → Adds s u (xs ++ ys)
Adds-append s t u xs ys a b = record {
  total = omega (arith, a.total, b.total, length-append xs ys);
  wait = b.wait ∙ ap₂ (λ y z. y +ℤ z) a.wait refl ∙ added s.wait_time wait_time;
  service = b.service ∙ ap₂ (λ y z. y +ℤ z) a.service refl ∙ added s.service_time total_time;
}
  where
    added : (z : ℤ) (f : Client → ℤ) → (z +ℤ sum_by f xs) +ℤ sum_by f ys ≡ z +ℤ sum_by f (xs ++ ys)
    added z f =
        add_assoc_ℤ z (sum_by f xs) (sum_by f ys) ∙ ap (λ y. z +ℤ y) (sym (sum_by-append f xs ys))

Adds-one :
    (client : Client) (s t : Sums) (cs : List Client)
    → Adds s t cs
    → Adds s (compute_client_stats client t) (client ∷ cs)
unfolding compute_client_stats
Adds-one client s t cs a = record {
  total = omega (arith, a.total);
  wait =
      ap (λ z. z +ℤ wait_time client) a.wait
      ∙ swap_ℤ s.wait_time (sum_by wait_time cs) (wait_time client);
  service =
      ap (λ z. z +ℤ total_time client) a.service
      ∙ swap_ℤ s.service_time (sum_by total_time cs) (total_time client);
}

module _ (heap : Heap) where
  -- One client is added to the sums of its own groups.
  sums_of-count_client :
      (g : Group) (k : Totals) (c : ℕ)
      → sums_of g (count_client heap k c)
        ≡ (if member g (heap c) then compute_client_stats (heap c) (sums_of g k) else sums_of g k)
  unfolding count_client by_type
  sums_of-count_client anyone k c = refl
  sums_of-count_client able k c = ground arith
  sums_of-count_client first k c = ground arith
  sums_of-count_client second k c = ground arith
  sums_of-count_client third k c = ground arith

  Adds-client :
      (g : Group) (s : Sums) (k : Totals) (c : ℕ) (xs : List ℕ)
      → Adds s (sums_of g k) (chosen g heap xs)
      → Adds s (sums_of g (count_client heap k c)) (chosen g heap (c ∷ xs))
  Adds-client g s k c xs a = elim (Bool-cases (member g (heap c))) [
    | inl yes_member ↦
        rw (sums_of-count_client g k c, yes_member)
          (Adds-one (heap c) s (sums_of g k) (chosen g heap xs) a)
    | inr not_member ↦ rw (sums_of-count_client g k c, not_member) a
  ]

  -- The walk over one queue, newest first.
  pub Adds-walk :
      (g : Group) (k : Totals) (xs : List ℕ)
      → Adds (sums_of g k) (sums_of g (foldl (count_client heap) k (reverse xs))) (chosen g heap xs)
  Adds-walk g k [] = Adds-none (sums_of g k)
  Adds-walk g k (c ∷ xs) =
      rw (reverse-cons c xs, foldl-append)
        (Adds-client g (sums_of g k) (foldl (count_client heap) k (reverse xs)) c xs
          (Adds-walk g k xs))
