-- ===== src/Queue/Refused.antt =====
-- `queue_push` of src/queue.c with every answer of the allocator, and `server_assign_client` over it.
use aca_bsim.Common.{
  ◌^◌, ◌≤◌, ◌<◌, ◌≡◌, refl, ◌∙◌, ap, ◌⊎◌, [], ◌∷◌, ◌++◌, Bool, true, false, inl, inr, Result, ok,
  length, leb, leb→le, Bool-cases,
}
use aca_bsim.Queue.Ops.{Queue, push}
use aca_bsim.Queue.Layout.{IsValid, contents}
use aca_bsim.Queue.Refine.{push-IsValid, push_refused}

-- What comes of a push: the item is stored, or it is refused for want of memory.
pub data Answered {ℓ} {A : Type ℓ} (granted : Bool) (q : Queue A) (x : A)
    (r : Result (Queue A × Bool)) : Type ℓ where
  stored :
      (q' : Queue A)
      → r ≡ ok (q', true)
      → IsValid q'
      → contents q' ≡ contents q ++ x ∷ []
      → Answered granted q x r
  refused : granted ≡ false → q.capacity ≤ q.size → r ≡ ok (q, false) → Answered granted q x r

module _ {ℓ} {A : Type ℓ} where
  -- A queue with a free slot asks for nothing.
  push_roomy :
      (granted : Bool) (q : Queue A) (x : A)
      → leb q.capacity q.size ≡ false
      → push granted q x ≡ push true q x
  unfolding push
  push_roomy granted q x roomy = rw roomy refl

  pub push-cases :
      (granted : Bool) (q : Queue A) (x : A)
      → (push granted q x ≡ push true q x) ⊎ ((granted ≡ false) × (q.capacity ≤ q.size))
  push-cases true q x = inl refl
  push-cases false q x = elim (Bool-cases (leb q.capacity q.size)) [
    | inl full ↦ inr (refl, leb→le q.capacity q.size full)
    | inr roomy ↦ inl (push_roomy false q x roomy)
  ]

  -- On a well-formed queue of fewer than 2 ^ 31 items and whatever the allocator answers, a push
  -- returns without a fault: either it succeeds, leaves the queue well formed and adds the item
  -- behind all others, or the request was refused, the queue was full, and the push reports
  -- failure and leaves the queue as it was.
  pub push-Answered :
      (granted : Bool) (q : Queue A) (x : A)
      → IsValid q
      → length (contents q) < 2 ^ 31
      → Answered granted q x (push granted q x)
  push-Answered granted q x v h = elim (push-cases granted q x) [
    | inl same ↦
        let (q', pushed, v', grown) = push-IsValid q x v h in stored q' (same ∙ pushed) v' grown
    | inr denied ↦
        refused denied.0 denied.1 (ap (λ g. push g q x) denied.0 ∙ push_refused q x denied.1)
  ]
