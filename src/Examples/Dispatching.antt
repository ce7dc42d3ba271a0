-- ===== src/Examples/Dispatching.antt =====
-- Runs of the dispatcher, with a `set_reserved` that marks a queued entry.
use cic_stack_v.Prelude.{◌≡◌, refl, List, [], ◌∷◌, arith, ◌==◌, if◌then◌else◌}
use cic_stack_v.Store.Rows.{Text, Otx}
use cic_stack_v.Store.{Db, Worker, Action, ⊤, err, name_error}
use cic_stack_v.Dispatch.{hash_of, dispatch, process}
use cic_stack_v.Dispatch.Once.{Standing, queued, unknown, other, answer, chosen, ends, process-once}
use cic_stack_v.Examples.{enc, queue, db, worker_on, queued_otx}

-- Status 2 is queued, and 32 is reserved.
stands : Text → List Otx → Standing
stands h [] = unknown
stands h (o ∷ os) =
    let rest = stands h os in
    if o.tx_hash == h then (if o.status == 2 then queued else other) else rest

mark : Text → Otx → Otx
mark h o = if o.tx_hash == h then record o { status = 32 } else o

mark_all : Text → List Otx → List Otx
unfolding mark
mark_all h [] = []
mark_all h (o ∷ os) = mark h o ∷ mark_all h os

stands-mark_all :
    (h : Text) (os : List Otx) → stands h os ≡ queued → stands h (mark_all h os) ≡ other
unfolding stands mark_all mark
stands-mark_all h [] there = cc
stands-mark_all h (o ∷ os) there = ground (arith, stands-mark_all h os)

stands-mark_other :
    (g h : Text) (os : List Otx) → stands g os ≡ other → stands g (mark_all h os) ≡ other
unfolding stands mark_all mark
stands-mark_other g h [] held = cc
stands-mark_other g h (o ∷ os) held = ground (arith, stands-mark_other g h os)

stands-mark_unknown :
    (g h : Text) (os : List Otx) → stands g os ≡ unknown → stands g (mark_all h os) ≡ unknown
unfolding stands mark_all mark
stands-mark_unknown g h [] gone = refl
stands-mark_unknown g h (o ∷ os) gone = ground (arith, stands-mark_unknown g h os)

standing : Text → Db → Standing
standing h d = stands h d.otxs

reserve : Text → Db → Db
reserve h d = record d { otxs = mark_all h d.otxs }

set_reserved : Text → Text → Action ⊤
set_reserved chain h w = answer (standing h w.work) (reserve h w.work) w

-- The second is not in the queue; the third is on its way already.
abbrev entries : List (Text × Text)
entries = (31, 31) ∷ (32, 32) ∷ (33, 33) ∷ (34, 34) ∷ []

abbrev queueing : Worker
queueing = worker_on (record db {
  otxs =
      record queued_otx { tx_hash = 34 }
      ∷ record queued_otx { tx_hash = 33; status = 8 }
      ∷ queued_otx
      ∷ [];
})

abbrev again : Worker
again = worker_on ((process enc queue 9 set_reserved entries queueing).1.committed)

process-once_example :
    let (r, w') = process enc queue 9 set_reserved entries queueing in
    (r ≡ err name_error)
    × (w'.submitted ≡ dispatch enc queue 9 31 ∷ [])
    × ((process enc queue 9 set_reserved entries again).1 ≡ again)
unfolding chosen ends standing stands reserve mark_all mark set_reserved hash_of queue
process-once_example =
    process-once enc queue 9 set_reserved standing reserve (λ h w. refl)
      (λ h d. stands-mark_all h d.otxs) (λ g h d held there. stands-mark_other g h d.otxs held)
      (λ g h d gone there. stands-mark_unknown g h d.otxs gone) entries queueing again refl
