-- ===== src/System/Counts.antt =====
-- The loops of `compute_stats` of src/system.c over the servers and the clients that they served.
use aca_bsim.Common.Int.{ℤ, pos, ◌+ℤ◌, int_laws, add_assoc_ℤ}
use aca_bsim.Common.{
  ℕ, suc, ◌+◌, ◌≤◌, ◌≡◌, refl, ap, ◌∙◌, List, [], ◌∷◌, ◌++◌, reverse, some, Bool, true, false, inl,
  inr, ok, arith, Bool-cases, length, length-reverse, count, count-append, count-reverse,
}
use mathlib.Core.List.{foldl}
use aca_bsim.Platform.{Platform}
use aca_bsim.Client.{Client, Heap}
use aca_bsim.Queue.Ops.{Queue, queue_iterator_create, queue_iterator_has_next, queue_is_empty}
use aca_bsim.Queue.Layout.{IsValid, contents}
use aca_bsim.Queue.Iterate.{iterate, iterate-Layout}
use aca_bsim.Server.Types.{Server, base}
use aca_bsim.Client.Known.{IsListed, AllListed}
use aca_bsim.Server.Held.{held, current_list, waiting}
use aca_bsim.System.Totals.{Totals, compute_client_stats, by_type, count_client, count_servers}
use aca_bsim.System.Served.{held_all, AllInv, AllListed-right}

-- The clients counted by type.
abbrev pub typed_total : Totals → ℕ
typed_total k = k.nd.total + k.t1.total + (k.t2.total + k.t3.total)

-- `n` more clients are counted, each under its type too.
pub record Counted (k k' : Totals) (n : ℕ) : Type 0 where
  pub all : k'.all.total ≡ k.all.total + n
  pub typed : typed_total k' ≡ typed_total k + n

by_type-typed :
    (client : Client) (k : Totals)
    → IsListed client
    → (typed_total (by_type client k) ≡ typed_total k + 1)
unfolding by_type compute_client_stats
by_type-typed client k l = ground arith

count_client-Counted :
    (heap : Heap) (k : Totals) (c : ℕ) → IsListed (heap c) → Counted k (count_client heap k c) 1
unfolding count_client compute_client_stats
count_client-Counted heap k c l = record { all = refl; typed = by_type-typed (heap c) k l }

foldl-Counted :
    (heap : Heap) (xs : List ℕ) (k : Totals)
    → AllListed heap xs
    → Counted k (foldl (count_client heap) k xs) (length xs)
foldl-Counted heap [] k all = record { all = omega arith; typed = omega arith }
foldl-Counted heap (c ∷ xs) k all =
    let a = count_client-Counted heap k c (all c (omega (arith, self))) in
    let b = foldl-Counted heap xs (count_client heap k c) (λ d h. all d (ground arith)) in
    record { all = omega (arith, a.all, b.all); typed = omega (arith, a.typed, b.typed) }
  where
    self : count c (c ∷ xs) ≡ 1 + count c xs
    self = ground arith

-- The number of clients that servers have served, and the sum of their mean queue lengths.
abbrev pub served_total : {p : Platform} → List (Server p) → ℕ
served_total [] = 0
served_total (s ∷ servers) =
    length (contents (base s).finished_clients_queue) + served_total servers

abbrev pub mean_total : {p : Platform} → List (Server p) → ℤ
mean_total [] = pos 0
mean_total (s ∷ servers) = (base s).stat.mean_server_queue_len +ℤ mean_total servers

-- The walk over the finished clients of one server. A refused iterator skips them all.
pub visit :
    (heap : Heap) (granted : Bool) (q : Queue ℕ) (k : Totals)
    → IsValid q
    → (k' : Totals) × (iterate
          (count_client heap)
          (suc q.size)
          (queue_iterator_create granted (some q))
          k
        ≡ ok k')
      × (granted ≡ true → k' ≡ foldl (count_client heap) k (reverse (contents q)))
unfolding queue_iterator_create iterate queue_iterator_has_next
visit heap true q k v = (
  foldl (count_client heap) k (reverse (contents q)),
  ap (λ n. iterate (count_client heap) (suc n) (queue_iterator_create true (some q)) k) v.sized
      ∙ iterate-Layout (count_client heap) q (contents q) k v,
  λ g. refl,
)
visit heap false q k v = elim (Bool-cases (queue_is_empty q)) [
  | inl empty ↦ (k, rw (empty, iterate) refl, λ g. cc)
  | inr more ↦ (k, rw (more, iterate) refl, λ g. cc)
]

finished_count :
    {p : Platform} (c : ℕ) (s : Server p) (servers : List (Server p))
    → count c (contents (base s).finished_clients_queue) ≤ count c (held_all (s ∷ servers))
finished_count c s servers = omega (
  arith,
  count-append c (held s) (held_all servers),
  count-append c (contents (base s).finished_clients_queue)
      (current_list (base s).current_client ++ waiting s),
)

pub queue_len-foldl :
    (heap : Heap) (xs : List ℕ) (k : Totals)
    → (foldl (count_client heap) k xs).queue_len ≡ k.queue_len
unfolding count_client by_type
queue_len-foldl heap [] k = refl
queue_len-foldl heap (c ∷ xs) k = queue_len-foldl heap xs (count_client heap k c) ∙ ground arith

module _ {p : Platform} (heap : Heap) where
  abbrev pub add_mean : Totals → Server p → Totals
  add_mean k s = record k { queue_len = k.queue_len +ℤ (base s).stat.mean_server_queue_len }

  -- The loop over the servers never faults.
  pub count_servers_total :
      (strict : Bool) (low t : ℕ) (granted : ℕ → Bool) (i : ℕ) (servers : List (Server p))
      (k : Totals)
      → AllInv strict low t servers
      → (k' : Totals) × (count_servers heap granted i servers k ≡ ok k')
  unfolding count_servers
  count_servers_total strict low t granted i [] k inv = (k, refl)
  count_servers_total strict low t granted i (s ∷ servers) k inv =
      let (k1, visited, _) =
        visit heap (granted i) (base s).finished_clients_queue (add_mean k s)
          inv.0.based.finished in
      let (k2, rest) = count_servers_total strict low t granted (i + 1) servers k1 inv.1 in
      (k2, rw visited rest)

  -- With every iterator granted, well-formed servers and clients of known kinds, the loop of
  -- `compute_stats` passes without a fault; it counts each finished client once in the total and
  -- once under one of the four types, and adds up the mean queue lengths of the servers.
  pub count_servers-Counted :
      (strict : Bool) (low t : ℕ) (granted : ℕ → Bool) (i : ℕ) (servers : List (Server p))
      (k : Totals)
      → ((j : ℕ) → granted j ≡ true)
      → AllInv strict low t servers
      → AllListed heap (held_all servers)
      → (k' : Totals) × (count_servers heap granted i servers k ≡ ok k')
        × Counted k k' (served_total servers)
        × (k'.queue_len ≡ k.queue_len +ℤ mean_total servers)
  unfolding count_servers
  count_servers-Counted strict low t granted i [] k all inv listed =
      (k, refl, record { all = omega arith; typed = omega arith }, omega int_laws)
  count_servers-Counted strict low t granted i (s ∷ servers) k all inv listed =
      let q = (base s).finished_clients_queue in
      let (k1, visited, exact) = visit heap (granted i) q (add_mean k s) inv.0.based.finished in
      let counted = foldl-Counted heap (reverse (contents q)) (add_mean k s) (λ c h.
        listed c (omega (arith, count-reverse c (contents q), finished_count c s servers))) in
      let (k2, rest, more, lens) =
        count_servers-Counted strict low t granted (i + 1) servers k1 all inv.1
          (AllListed-right (held s) (held_all servers) listed) in
      let seen = exact (all i) in
      (
        k2,
        rw visited rest,
        record {
          all = omega (
            arith,
            more.all,
            counted.all,
            ap (λ (z : Totals). z.all.total) seen,
            length-reverse (contents q),
          );
          typed = omega (
            arith,
            more.typed,
            counted.typed,
            ap (λ (z : Totals). typed_total z) seen,
            length-reverse (contents q),
          );
        },
        lens
            ∙ ap (λ z. z +ℤ mean_total servers)
                (ap (λ (z : Totals). z.queue_len) seen
                  ∙ queue_len-foldl heap (reverse (contents q)) (add_mean k s))
            ∙ add_assoc_ℤ k.queue_len (base s).stat.mean_server_queue_len (mean_total servers),
      )
