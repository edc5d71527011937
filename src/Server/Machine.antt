-- ===== src/Server/Machine.antt =====
-- What a server of src/server.c promises, as a machine without queues, statistics and a heap: the
-- clients who are finished, who is served and for how many ticks more, and who waits, in order.
use aca_bsim.Common.{
  ℕ, suc, ◌-◌, ◌≡◌, refl, sym, ap, ◌∙◌, List, [], ◌∷◌, ◌++◌, append-nil, append_assoc, Option, none,
  some, Bool, true,
}
use aca_bsim.Platform.{Platform}
use aca_bsim.Client.{Heap}
use aca_bsim.Queue.Layout.{contents}
use aca_bsim.Server.Types.{Server, base}
use aca_bsim.Server.Table.{get_service_time}
use aca_bsim.Server.Held.{waiting, current_list}
use aca_bsim.Server.Left.{ticks_of, under_way}

pub record View : Type 0 where
  pub finished : List ℕ
  pub current : Option ℕ
  pub to_go : ℕ
  pub waiting : List ℕ

abbrev pub view : {p : Platform} → Server p → View
view s = record {
  finished = contents (base s).finished_clients_queue;
  current = (base s).current_client;
  to_go = under_way (base s).current_client (base s).to_serve;
  waiting = waiting s;
}

-- How long each client is served at a server.
abbrev pub time_at : {p : Platform} → Heap → Server p → ℕ → ℕ
time_at {p} heap s c = ticks_of (get_service_time p s (heap c))

-- Whoever waits first is served, if anyone does.
abbrev pub serve_next : (ℕ → ℕ) → List ℕ → List ℕ → View
serve_next time fs [] = record { finished = fs; current = none; to_go = 0; waiting = [] }
serve_next time fs (c ∷ xs) = record {
  finished = fs;
  current = some c;
  to_go = time c;
  waiting = xs;
}

-- What a server does once the tick is counted: an idle one takes the next client; a busy one goes on,
-- or, its time over, starts again or ends the service and takes the next client.
pub data Serves (time : ℕ → ℕ) (v w : View) : Type 0 where
  begins : v.current ≡ none → w ≡ serve_next time v.finished v.waiting → Serves time v w
  goes_on : (c n : ℕ) → v.current ≡ some c → v.to_go ≡ suc n → w ≡ v → Serves time v w
  retries :
      (c : ℕ) → v.current ≡ some c → v.to_go ≡ 0 → w ≡ record v { to_go = time c } → Serves time v w
  ends :
      (c : ℕ)
      → v.current ≡ some c
      → v.to_go ≡ 0
      → w ≡ serve_next time (v.finished ++ c ∷ []) v.waiting
      → Serves time v w

-- The tick itself.
abbrev pub ticked : View → View
ticked v = record v { to_go = v.to_go - 1 }

-- `n` ticks, between which the clients `joined` have come, in this order, to those who wait: behind all
-- of these, if `last`, and behind some of them otherwise.
pub data Reach (time : ℕ → ℕ) (last : Bool) (v : View) : ℕ → List ℕ → View → Type 0 where
  here : Reach time last v 0 [] v
  tick :
      {n : ℕ} {joined : List ℕ} {w u : View}
      → Reach time last v n joined w
      → Serves time (ticked w) u
      → Reach time last v (suc n) joined u
  join :
      {n : ℕ} {joined : List ℕ} {w : View} (c : ℕ) (xs ys : List ℕ)
      → w.waiting ≡ xs ++ ys
      → (last ≡ true → ys ≡ [])
      → Reach time last v n joined w
      → Reach time last v n (joined ++ c ∷ []) (record w { waiting = xs ++ c ∷ ys })

-- All clients, in the order in which they are or will be finished if no one joins.
abbrev pub all_of : View → List ℕ
all_of v = v.finished ++ (current_list v.current ++ v.waiting)

-- The service times matter only at the clients.
pub serve_next-time :
    (time time' : ℕ → ℕ) (fs xs : List ℕ)
    → ((c : ℕ) → time c ≡ time' c)
    → serve_next time fs xs ≡ serve_next time' fs xs
serve_next-time time time' fs [] same = refl
serve_next-time time time' fs (c ∷ xs) same =
    ap (λ n. record { finished = fs; current = some c; to_go = n; waiting = xs }) (same c)

pub Serves-time :
    {time time' : ℕ → ℕ} {v w : View}
    → ((c : ℕ) → time c ≡ time' c)
    → Serves time v w
    → Serves time' v w
Serves-time {v} same (begins idle e) =
    begins idle (e ∙ serve_next-time _ _ v.finished v.waiting same)
Serves-time same (goes_on c n busy left e) = goes_on c n busy left e
Serves-time {v} same (retries c busy left e) =
    retries c busy left (e ∙ ap (λ n. record v { to_go = n }) (same c))
Serves-time {v} same (ends c busy left e) =
    ends c busy left (e ∙ serve_next-time _ _ (v.finished ++ c ∷ []) v.waiting same)

finished-serve_next : (time : ℕ → ℕ) (fs xs : List ℕ) → (serve_next time fs xs).finished ≡ fs
finished-serve_next time fs [] = refl
finished-serve_next time fs (c ∷ xs) = refl

all_of-serve_next : (time : ℕ → ℕ) (fs xs : List ℕ) → all_of (serve_next time fs xs) ≡ fs ++ xs
all_of-serve_next time fs [] = refl
all_of-serve_next time fs (c ∷ xs) = refl

Serves-finished :
    {time : ℕ → ℕ} {v w : View} → Serves time v w → (ys : List ℕ) × (w.finished ≡ v.finished ++ ys)
Serves-finished {time} {v} (begins idle e) = (
  [],
  ap (λ u. u.finished) e
      ∙ finished-serve_next time v.finished v.waiting
      ∙ sym (append-nil v.finished),
)
Serves-finished {v} (goes_on c n busy left e) =
    ([], ap (λ u. u.finished) e ∙ sym (append-nil v.finished))
Serves-finished {v} (retries c busy left e) =
    ([], ap (λ u. u.finished) e ∙ sym (append-nil v.finished))
Serves-finished {time} {v} (ends c busy left e) =
    (c ∷ [], ap (λ u. u.finished) e ∙ finished-serve_next time (v.finished ++ c ∷ []) v.waiting)

Serves-all_of : {time : ℕ → ℕ} {v w : View} → Serves time v w → all_of w ≡ all_of v
Serves-all_of {time} {v} (begins idle e) =
    ap all_of e
    ∙ all_of-serve_next time v.finished v.waiting
    ∙ ap (λ o. v.finished ++ (current_list o ++ v.waiting)) (sym idle)
Serves-all_of (goes_on c n busy left e) = ap all_of e
Serves-all_of (retries c busy left e) = ap all_of e
Serves-all_of {time} {v} (ends c busy left e) =
    ap all_of e
    ∙ all_of-serve_next time (v.finished ++ c ∷ []) v.waiting
    ∙ append_assoc v.finished (c ∷ []) v.waiting
    ∙ ap (λ o. v.finished ++ (current_list o ++ v.waiting)) (sym busy)

-- Who is finished stays so, in this order.
pub Reach-finished :
    {time : ℕ → ℕ} {last : Bool} {v w : View} {n : ℕ} {joined : List ℕ}
    → Reach time last v n joined w
    → (ys : List ℕ) × (w.finished ≡ v.finished ++ ys)
Reach-finished {v} here = ([], sym (append-nil v.finished))
Reach-finished {v} (tick r s) =
    let (ys, e) = Reach-finished r in
    let (zs, f) = Serves-finished s in
    (ys ++ zs, f ∙ ap (λ fs. fs ++ zs) e ∙ append_assoc v.finished ys zs)
Reach-finished (join c xs ys waits order r) = Reach-finished r

join-all_of :
    (v w : View) (joined xs ys : List ℕ) (c : ℕ)
    → w.waiting ≡ xs ++ ys
    → ys ≡ []
    → all_of w ≡ all_of v ++ joined
    → all_of (record w { waiting = xs ++ c ∷ ys }) ≡ all_of v ++ (joined ++ c ∷ [])
join-all_of v w joined xs ys c waits none_behind e =
    ap (λ zs. w.finished ++ (current_list w.current ++ (xs ++ c ∷ zs))) none_behind
    ∙ behind w.finished (current_list w.current) xs
    ∙ ap (λ zs. (w.finished ++ (current_list w.current ++ zs)) ++ c ∷ []) (sym waits_xs)
    ∙ ap (λ zs. zs ++ c ∷ []) e
    ∙ append_assoc (all_of v) joined (c ∷ [])
  where
    waits_xs : w.waiting ≡ xs
    waits_xs = waits ∙ ap (λ zs. xs ++ zs) none_behind ∙ append-nil xs

    behind : (fs cs xs : List ℕ) → fs ++ (cs ++ (xs ++ c ∷ [])) ≡ (fs ++ (cs ++ xs)) ++ c ∷ []
    behind fs cs xs =
        ap (λ zs. fs ++ zs) (sym (append_assoc cs xs (c ∷ [])))
        ∙ sym (append_assoc fs (cs ++ xs) (c ∷ []))

-- Where those who join wait behind all others, first come is first served.
pub Reach-all_of :
    {time : ℕ → ℕ} {v w : View} {n : ℕ} {joined : List ℕ}
    → Reach time true v n joined w
    → all_of w ≡ all_of v ++ joined
Reach-all_of {v} here = sym (append-nil (all_of v))
Reach-all_of (tick r s) = Serves-all_of s ∙ Reach-all_of r
Reach-all_of {v} (join {joined} {w} c xs ys waits order r) =
    join-all_of v w joined xs ys c waits (order refl) (Reach-all_of r)
