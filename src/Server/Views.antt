-- ===== src/Server/Views.antt =====
-- The steps of a server of src/server.c on the view of Server.Machine.
use aca_bsim.Common.{ℕ, Bool, ◌≡◌, refl, sym, ap, ◌∙◌, List, [], ◌∷◌, some, Result, ok}
use aca_bsim.Platform.{Platform}
use aca_bsim.Client.{Heap}
use aca_bsim.Client.Known.{SameKind}
use aca_bsim.Queue.Layout.{contents}
use aca_bsim.Server.Types.{BaseServer, Server, base, with_base}
use aca_bsim.Server.Held.{waiting, base-with_base}
use aca_bsim.Server.Kin.{Kin, waiting-with_base}
use aca_bsim.Server.Left.{ticks_of, under_way, same_time}
use aca_bsim.Server.First.{first_of_list, rest_of_list, first_time, ServesFirst}
use aca_bsim.Server.Finish.{Retried}
use aca_bsim.Server.Stats.{StatKept}
use aca_bsim.Server.Ticked.{Ticked}
use aca_bsim.Server.Machine.{View, view, time_at, serve_next, ticked}

view_ext :
    {v w : View}
    → v.finished ≡ w.finished
    → v.current ≡ w.current
    → v.to_go ≡ w.to_go
    → v.waiting ≡ w.waiting
    → v ≡ w
view_ext {v} {w} e f g h =
    ap (λ fs. record v { finished = fs }) e
    ∙ ap (λ o. record v { finished = w.finished; current = o }) f
    ∙ ap (λ n. record v { finished = w.finished; current = w.current; to_go = n }) g
    ∙ ap (λ xs. record w { waiting = xs }) h

module _ {p : Platform} where
  -- Nothing that a tick changes makes a service longer or shorter.
  pub time_at-same :
      (heap heap' : Heap) (s s' : Server p)
      → SameKind heap heap'
      → Kin s s'
      → (c : ℕ) → time_at heap' s' c ≡ time_at heap s c
  time_at-same heap heap' s s' keeps kin c = ap ticks_of (same_time heap heap' s s' c keeps kin)

  view-serve_next :
      (heap : Heap) (s s' : Server p) (xs : List ℕ)
      → (base s').current_client ≡ first_of_list xs
      → waiting s' ≡ rest_of_list xs
      → first_time heap s xs ≡ ok (base s').to_serve
      → view s' ≡ serve_next (time_at heap s) (view s').finished xs
  view-serve_next heap s s' [] serves others ticks =
      view_ext refl serves (ap (λ o. under_way o (base s').to_serve) serves) others
  view-serve_next heap s s' (c ∷ xs) serves others ticks =
      view_ext refl serves
        (ap (λ o. under_way o (base s').to_serve) serves ∙ sym (ap ticks_of ticks)) others

  pub view-next :
      {strict : Bool} {t : ℕ} {heap : Heap} {s : Server p} {r : Result (Heap × Server p)}
      → (f : ServesFirst strict t heap s r)
      → view f.good.server' ≡ serve_next (time_at heap s) (view s).finished (waiting s)
  view-next {heap} {s} f =
      view-serve_next heap s f.good.server' (waiting s) f.serves f.others f.ticks
      ∙ ap (λ fs. serve_next (time_at heap s) fs (waiting s)) f.finished

  pub view-retry :
      {strict : Bool} {t c : ℕ} {heap : Heap} {s : Server p} {r : Result (Heap × Server p)}
      → (base s).current_client ≡ some c
      → (f : Retried strict t heap s c r)
      → view f.good.server' ≡ record (view s) { to_go = time_at heap s c }
  view-retry {c} {heap} {s} e f =
      view_ext f.finished (f.serves ∙ sym e)
        (ap (λ o. under_way o (base f.good.server').to_serve) f.serves ∙ sym (ap ticks_of f.ticks))
        f.waits

  pub view-stat :
      {strict : Bool} {low t : ℕ} {s : Server p} {r : Result (Server p)}
      → (k : StatKept strict low t s r) → view k.server ≡ view s
  view-stat {s} k =
      view_ext k.finished k.current
        (ap (λ o. under_way o (base k.server).to_serve) k.current
          ∙ ap (λ z. under_way (base s).current_client z) k.to_serve)
        k.waits

  pub view-tick :
      {strict : Bool} {t : ℕ} (s : Server p) (b : BaseServer p)
      → Ticked strict t (base s) b
      → view (with_base s b) ≡ ticked (view s)
  view-tick s b k =
      view_ext
        (ap (λ z. contents z.finished_clients_queue) (base-with_base s b) ∙ ap contents k.finished)
        (ap (λ z. z.current_client) (base-with_base s b) ∙ k.current)
        (ap (λ z. under_way z.current_client z.to_serve) (base-with_base s b) ∙ k.to_go)
        (waiting-with_base s b)
