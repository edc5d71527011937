-- ===== src/Server/Drain.antt =====
-- One round of a server of src/server.c whose services do not fail, in the ticks that it has left.
use aca_bsim.Common.{
  ℕ, ◌≡◌, refl, sym, ap, ◌∙◌, subst, List, [], ◌∷◌, none, Bool, Result, ok, arith, true,
}
use aca_bsim.Common.Int.{ℤ}
use aca_bsim.Platform.{Platform}
use aca_bsim.Client.{Heap}
use aca_bsim.Server.Types.{Server, base}
use aca_bsim.Server.Serve.{server_set_next_client}
use aca_bsim.Client.Known.{AllListed, Keeps, Keeps-trans}
use aca_bsim.Server.Held.{held, waiting, ServerInv, Good}
use aca_bsim.Server.Kin.{Kin, Kin-trans}
use aca_bsim.Server.Left.{ticks_of, ticks_for, left_at, left, ticks_for-same}
use aca_bsim.Server.Next.{set_next-ServesFirst}
use aca_bsim.Server.First.{first_of_list, rest_of_list, first_time}

-- A good step after which the server has so many ticks left.
pub record Drains {p : Platform} (t : ℕ) (heap : Heap) (s : Server p) (n : ℕ)
    (r : Result (Heap × Server p)) : Type 0 where
  pub good : Good true 1 t heap s r
  pub kin : Kin s good.server'
  pub ticks : left good.heap' good.server' ≡ n

module _ {p : Platform} where
  pub Drains-at :
      {t n : ℕ} {heap : Heap} {s : Server p} {r r' : Result (Heap × Server p)}
      → r ≡ r'
      → Drains t heap s n r'
      → Drains t heap s n r
  Drains-at {t} {n} {heap} {s} e d = subst (Drains t heap s n) (sym e) d

  -- A draining step after changes that keep the clients.
  pub Drains-after :
      {t n n' : ℕ} {heap heap1 : Heap} {s s1 : Server p} {r : Result (Heap × Server p)}
      → held s1 ≡ held s
      → Keeps heap heap1
      → Kin s s1
      → n ≡ n'
      → Drains t heap1 s1 n r
      → Drains t heap s n' r
  Drains-after same keeps kin e d = record {
    good = record {
      heap' = d.good.heap';
      server' = d.good.server';
      runs = d.good.runs;
      inv = d.good.inv;
      same = d.good.same ∙ same;
      keeps = Keeps-trans keeps d.good.keeps;
    };
    kin = Kin-trans kin d.kin;
    ticks = d.ticks ∙ e;
  }

  left_of_first :
      (heap heap' : Heap) (s s' : Server p) (xs : List ℕ) (to_serve : ℤ)
      → Keeps heap heap'
      → Kin s s'
      → first_time heap s xs ≡ ok to_serve
      → left_at heap' s' (first_of_list xs) to_serve (rest_of_list xs) ≡ ticks_for heap s xs
  left_of_first heap heap' s s' [] to_serve keeps kin e = refl
  left_of_first heap heap' s s' (c ∷ xs) to_serve keeps kin e =
      omega (arith, ap ticks_of e, ticks_for-same heap heap' s s' xs keeps kin)

  -- The next client: what is left are the times of all who waited.
  pub next-Drains :
      (granted : Bool) (heap : Heap) (now t low : ℕ) (s : Server p)
      → ServerInv true low t s
      → (base s).current_client ≡ none
      → AllListed heap (held s)
      → Drains t heap s (ticks_for heap s (waiting s)) (server_set_next_client p granted heap s now)
  next-Drains granted heap now t low s inv idle all =
      let f = set_next-ServesFirst granted heap now t low s inv idle all in
      let s' = f.good.server' in
      record {
        good = f.good;
        kin = f.kin;
        ticks =
            ap (λ c. left_at f.good.heap' s' c (base s').to_serve (waiting s')) f.serves
            ∙ ap (λ xs. left_at f.good.heap' s' (first_of_list (waiting s)) (base s').to_serve xs)
                f.others
            ∙ left_of_first heap f.good.heap' s s' (waiting s) (base s').to_serve f.good.keeps f.kin
                f.ticks;
      }
