-- ===== src/Maintainer/Collect.antt =====
-- What the maintainer leaves of the imps that ended.
use dungeon.Base.{
  ℕ, zero, suc, ◌<◌, ◌≡◌, refl, ap, ◌∙◌, false, Option, none, some, List, [], ◌∷◌, has, length,
  if◌then◌else◌, ℤ, minus_one, ◌+ℤ◌, ok, arith,
}
use dungeon.Queue.{Queue, queue_dequeue_nb}
use dungeon.Queue.Window.{contents, IsValid}
use dungeon.Queue.Fifo.{pop, queue_dequeue_nb-pop}
use dungeon.Llist.View.{View}
use dungeon.Llist.Ring.{Distinct}
use dungeon.Imp.{Imp, Request, Dungeon, store, imp_dismiss}
use dungeon.Maintainer.{dismiss_loop}

-- `atomic_decrease` `n` times.
abbrev pub lowered : ℕ → ℤ → ℤ
lowered zero z = z
lowered (suc n) z = lowered n (z +ℤ minus_one)

module _ {M : Type 0} where
  -- There is an imp at each of the addresses, with its list.
  abbrev pub AllImps : (ℕ → Option (Imp M)) → List ℕ → Type 0
  AllImps imps [] = Unit
  AllImps imps (i ∷ is) =
      ((m : Imp M) × (v : View Request) × (imps i ≡ some m) × (m.requested_events ≡ some v))
      × AllImps imps is

  AllImps-store :
      (imps : ℕ → Option (Imp M)) (i : ℕ) (is : List ℕ)
      → has i is ≡ false
      → AllImps imps is
      → AllImps (store imps i none) is
  AllImps-store imps i [] out all = tt
  AllImps-store imps i (j ∷ js) out ((m, v, there, listed), all) = (
    (m, v, ground (arith, there, out), listed),
    AllImps-store imps i js (ground (arith, out)) all,
  )

  dismissed : Dungeon M → Queue → ℕ → Dungeon M
  dismissed w q i = record w {
    terminated_queue = q;
    imps = store w.imps i none;
    nr_total = w.nr_total +ℤ minus_one;
  }

  dismiss_loop_empty :
      (fuel : ℕ) (w : Dungeon M)
      → IsValid w.terminated_queue
      → contents w.terminated_queue ≡ []
      → dismiss_loop (suc fuel) w ≡ some (ok w)
  unfolding dismiss_loop pop
  dismiss_loop_empty fuel w valid held =
      let taken = (queue_dequeue_nb-pop valid).0 ∙ ap pop held in ground (arith, taken)

  dismiss_loop_one :
      (fuel : ℕ) (w : Dungeon M) (i : ℕ) (is : List ℕ)
      → IsValid w.terminated_queue
      → contents w.terminated_queue ≡ i ∷ is
      → (m : Imp M) × (v : View Request) × (w.imps i ≡ some m) × (m.requested_events ≡ some v)
      → (q : Queue) × (dismiss_loop (suc fuel) w ≡ dismiss_loop fuel (dismissed w q i))
        × IsValid q
        × (contents q ≡ is)
  unfolding dismiss_loop imp_dismiss dismissed pop
  dismiss_loop_one fuel w i is valid held (m, v, there, listed) =
      let p = queue_dequeue_nb-pop valid in
      let taken = p.0 ∙ ap pop held in
      let out : (queue_dequeue_nb w.terminated_queue).0 ≡ some i = ap (λ r. r.0) taken in
      (
        (queue_dequeue_nb w.terminated_queue).1.queue,
        ground (arith, out, there, listed),
        p.1,
        ap (λ r. r.1) taken,
      )

  -- With more rounds of fuel than there are imps in a valid terminated queue, each a live imp and
  -- there once, the loop of the maintainer ends: the queue is empty and valid, exactly those imps
  -- are gone, the number of imps is lower by as many, and the run queue is unchanged.
  pub dismiss_loop-gone :
      (fuel : ℕ) (w : Dungeon M) (is : List ℕ)
      → IsValid w.terminated_queue
      → contents w.terminated_queue ≡ is
      → Distinct is
      → AllImps w.imps is
      → length is < fuel
      → (u : Dungeon M) × (dismiss_loop fuel w ≡ some (ok u))
        × IsValid u.terminated_queue
        × (contents u.terminated_queue ≡ [])
        × ((p : ℕ) → u.imps p ≡ (if has p is then none else w.imps p))
        × (u.nr_total ≡ lowered (length is) w.nr_total)
        × (u.run_queue ≡ w.run_queue)
  unfolding dismissed
  dismiss_loop-gone zero w is valid held distinct all h = absurd (omega arith)
  dismiss_loop-gone (suc fuel) w [] valid held distinct all h =
      (w, dismiss_loop_empty fuel w valid held, valid, held, λ p. refl, refl, refl)
  dismiss_loop-gone (suc fuel) w (i ∷ is) valid held distinct (one, all) h =
      let (q, step, left, rest) = dismiss_loop_one fuel w i is valid held one in
      let (u, run, done, empty, gone, count, same) =
        dismiss_loop-gone fuel (dismissed w q i) is left rest distinct.1
          (AllImps-store w.imps i is distinct.0 all) (omega arith) in
      (u, step ∙ run, done, empty, λ p. gone p ∙ ground arith, count, same)
