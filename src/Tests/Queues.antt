-- ===== src/Tests/Queues.antt =====
-- Runs of the queue on concrete items, and its theorems at a queue of two clients.
use aca_bsim.Common.{ℕ, ◌≡◌, refl, List, [], ◌∷◌, none, some, true, false, ok, ◌>>=◌, arith}
use mathlib.Core.List.{foldl}
use aca_bsim.Queue.Array.{load, store, shift, enter}
use aca_bsim.Queue.Ops.{
  Queue, queue_top, queue_pop, push, resize, push_front, queue_is_empty, queue_free,
  queue_iterator_create,
}
use aca_bsim.Queue.Layout.{Layout, IsValid, contents}
use aca_bsim.Queue.Refine.{queue_pop-IsValid}
use aca_bsim.Queue.Refused.{Answered, push-Answered}
use aca_bsim.Queue.Fill.{fill, drain, drain-fill}
use aca_bsim.Queue.Script.{
  Call, pushes, pops, tops, sizes, done, item, count, answers, fifo, answers_refine,
}
use aca_bsim.Queue.Iterate.{iterate, iterate-Layout, queue_free-Layout}
use aca_bsim.Tests.Samples.{two_waiting, two_waiting-IsValid}

-- A full queue grows, and its items stay in order.
push_grows :
    push {A = ℕ} true (record { items = some 7 ∷ []; size = 1; capacity = 1 }) 8
    ≡ ok (record { items = some 8 ∷ some 7 ∷ []; size = 2; capacity = 2 }, true)
unfolding push push_front resize enter load store shift
push_grows = refl

pop_oldest : queue_top two_waiting ≡ ok (some 0)
unfolding queue_top queue_is_empty load
pop_oldest = refl

abbrev script : List (Call ℕ)
script = tops ∷ pushes 8 ∷ pops false ∷ tops ∷ pops true ∷ pops true ∷ pops true ∷ sizes ∷ []

script_run :
    fifo (0 ∷ 1 ∷ []) script
    ≡ item (some 0)
      ∷ done true
      ∷ done true
      ∷ item (some 1)
      ∷ done true
      ∷ done true
      ∷ done false
      ∷ count 0
      ∷ []
unfolding fifo
script_run = refl

answers_refine_example : answers two_waiting script ≡ ok (fifo (contents two_waiting) script)
unfolding contents
answers_refine_example = answers_refine script two_waiting two_waiting-IsValid (omega arith)

queue_pop-IsValid_example :
    (q' : Queue ℕ) × (queue_pop false two_waiting ≡ ok (q', true))
    × IsValid q'
    × (contents q' ≡ 1 ∷ [])
unfolding contents
queue_pop-IsValid_example = queue_pop-IsValid false two_waiting 0 (1 ∷ []) two_waiting-IsValid refl

-- One item in a block of four slots.
abbrev loose : Queue ℕ
loose = record { items = some 0 ∷ none ∷ none ∷ none ∷ []; size = 1; capacity = 4 }

loose-Layout : Layout loose (0 ∷ [])
loose-Layout = record {
  spare = none ∷ none ∷ none ∷ [];
  slots = refl;
  sized = refl;
  fits = refl;
  room = omega arith;
  word = omega arith;
}

two_waiting-Layout : Layout two_waiting (0 ∷ 1 ∷ [])
unfolding contents
two_waiting-Layout = two_waiting-IsValid

iterate-Layout_example :
    iterate (λ (xs : List ℕ) x. x ∷ xs) 3 (queue_iterator_create true (some two_waiting)) []
    ≡ ok (foldl (λ (xs : List ℕ) x. x ∷ xs) [] (1 ∷ 0 ∷ []))
iterate-Layout_example =
    iterate-Layout (λ (xs : List ℕ) x. x ∷ xs) two_waiting (0 ∷ 1 ∷ []) [] two_waiting-Layout

queue_free-Layout_example :
    (queue_free (some two_waiting) true ≡ ok (1 ∷ 0 ∷ []))
    × (queue_free (some two_waiting) false ≡ ok [])
queue_free-Layout_example = queue_free-Layout two_waiting (0 ∷ 1 ∷ []) two_waiting-Layout

-- A full block of one slot.
abbrev crowded : Queue ℕ
crowded = record { items = some 7 ∷ []; size = 1; capacity = 1 }

crowded-IsValid : IsValid crowded
unfolding contents
crowded-IsValid = record {
  spare = [];
  slots = refl;
  sized = refl;
  fits = refl;
  room = omega arith;
  word = omega arith;
}

push-Answered_example : Answered false crowded 8 (push false crowded 8)
unfolding contents
push-Answered_example = push-Answered false crowded 8 crowded-IsValid (omega arith)

drain-fill_example :
    (q' : Queue ℕ) × ((fill (8 ∷ 9 ∷ []) crowded >>= λ z. drain (λ i. true) 3 z)
      ≡ ok (q', some 7 ∷ some 8 ∷ some 9 ∷ []))
    × IsValid q'
    × (contents q' ≡ [])
unfolding contents
drain-fill_example = drain-fill (λ i. true) crowded (8 ∷ 9 ∷ []) crowded-IsValid (omega arith)
