-- ===== src/Mq/Dispatch/Safe.antt =====
-- Every call that the program may make passes its asserts and keeps the scheduling invariant.
use skynet_server.Common.{
  ℕ, true, false, some, List, [], ◌∷◌, ◌++◌, ◌≡◌, arith, ◌∙◌, sym, ℕ_discrete, refl, ==_iff, ◌+◌,
}
use skynet_server.Mq.Dispatch.Steps.{
  push-Inv, store-Holds, store-Each, member-snoc_other, member-snoc_self, IsPlaced-at, move-Each,
  free-Inv, take-Each,
}
use skynet_server.Mq.{Message, Queue, mq_overload, pop, size}
use skynet_server.Mq.Dispatch.{hold, step, Node, World, marks, puts_back, releases, takes, pops}
use skynet_server.Mq.Global.{
  World, globalmq_push, store, mq_pop, mark_release-scheduled, mq_release-kept, free,
  mq_release-dropped, mark_release-idle, drop_queue-free,
}
use skynet_server.Mq.Dispatch.Inv.{
  Inv, IsPlaced, idle_place, IsPlaced-SameFlags, held_place, IsPlaced-mark, IsPlaced-empty,
  IsPlaced-mark_idle, IsPlaced-put_back,
}
use skynet_server.Mq.Global.Chain.{member}
use skynet_server.Mq.Inv.{pop-IsValid}
use skynet_server.Mq.Global.Ops.{globalmq_pop-empty, globalmq_pop-Holds}
use skynet_server.Mq.Refine.{pop-empty, pop-some}
use skynet_server.Mq.Overload.{drop_all_lem}
use skynet_server.Mq.Dispatch.Posting.{hold_other, hold_self, push_safe, Goes}

pub takes_safe : (junk : Message) (s : Node) (ids : List ℕ) → Inv s ids → Goes junk takes s
unfolding step
takes_safe junk s [] v = (s, [], rw (globalmq_pop-empty s.world v.holds), v)
takes_safe junk s (p ∷ ids) v =
    let (w, q, run, held, linked, c, n) = globalmq_pop-Holds s.world p ids v.holds in
    (
      record { world = w; busy = hold p true s.busy },
      ids,
      rw run,
      record {
        holds = held;
        each = take-Each s.world w s.busy p ids q linked v.each v.holds.distinct.0 c n;
      },
    )

pub pops_safe :
    (junk : Message) (p : ℕ) (s : Node) (ids : List ℕ) (q : Queue)
    → Inv s ids
    → s.world.cell p ≡ some q
    → q.release ≡ 0
    → s.busy p ≡ true
    → Goes junk (pops p) s
unfolding step mq_pop
pops_safe junk p s ids q v c alive b = elim (ℕ_discrete q.head q.tail) [
  | yes e ↦ (
    record {
      world = store p (record q { overload_threshold = mq_overload; in_global = 0 }) s.world;
      busy = hold p false s.busy;
    },
    ids,
    rw (c, pop-empty junk q e),
    record {
      holds = store-Holds s.world ids p q _ v.holds c refl;
      each =
          store-Each s.world s.busy (hold p false s.busy) ids ids p _ v.each
            (λ k o. (hold_other p k false s.busy o, refl))
            (rw (hold_self p false s.busy) (IsPlaced-empty held alive e));
    },
  )
  | no ne ↦
      let (out, same) = pop-some junk q ne in
      (
        record s { world = store p (pop junk q).1 s.world },
        ids,
        rw (c, out),
        record {
          holds = store-Holds s.world ids p q _ v.holds c same.next;
          each =
              store-Each s.world s.busy s.busy ids ids p _ v.each (λ k o. (refl, refl))
                (rw b (
                  IsPlaced-SameFlags held (pop-IsValid junk q held.valid)
                    (record {
                      handle = same.handle;
                      in_global = same.in_global;
                      release = same.release;
                      next = same.next;
                    })
                    (held_place held).2));
        },
      )
]
  where
    held : IsPlaced (member p ids) true q
    held = rw b at (IsPlaced-at s ids p v c)

-- The queue in the worker's hands goes to the end of the global queue.
put_back :
    (p : ℕ) (s : Node) (ids : List ℕ) (q : Queue)
    → Inv s ids
    → s.world.cell p ≡ some q
    → s.busy p ≡ true
    → (w : World) × (globalmq_push p s.world ≡ some w)
      × Inv (record { world = w; busy = hold p false s.busy }) (ids ++ p ∷ [])
put_back p s ids q v c b =
    push-Inv s.world (hold p false s.busy) ids p q v.holds c (held_place held).1 (held_place held).0
      (move-Each s.world s.busy (hold p false s.busy) ids (ids ++ p ∷ []) p v.each
        (λ k e. (hold_other p k false s.busy e, member-snoc_other p k ids e))
        (rw (c, member-snoc_self p ids, hold_self p false s.busy) (IsPlaced-put_back held)))
  where
    held : IsPlaced (member p ids) true q
    held = rw b at (IsPlaced-at s ids p v c)

pub puts_back_safe :
    (junk : Message) (p : ℕ) (s : Node) (ids : List ℕ) (q : Queue)
    → Inv s ids
    → s.world.cell p ≡ some q
    → s.busy p ≡ true
    → Goes junk (puts_back p) s
unfolding step
puts_back_safe junk p s ids q v c b =
    let (w, run, inv) = put_back p s ids q v c b in
    (record { world = w; busy = hold p false s.busy }, ids ++ p ∷ [], rw run, inv)

pub marks_safe :
    (junk : Message) (p : ℕ) (s : Node) (ids : List ℕ) (q : Queue)
    → Inv s ids
    → s.world.cell p ≡ some q
    → q.release ≡ 0
    → Goes junk (marks p) s
unfolding step
marks_safe junk p s ids q v c alive = elim (ℕ_discrete q.in_global 1) [
  | yes e ↦ (
    record s { world = store p (record q { release = 1 }) s.world },
    ids,
    rw (mark_release-scheduled p s.world q c alive e),
    record {
      holds = store-Holds s.world ids p q _ v.holds c refl;
      each =
          store-Each s.world s.busy s.busy ids ids p _ v.each (λ k o. (refl, refl))
            (IsPlaced-mark at_p (sym at_p.placed ∙ rw ((==_iff q.in_global 1).1 e)));
    },
  )
  | no ne ↦
      let (out, free, n, _) = idle_place at_p (omega (arith, at_p.in_global_flag)) alive in
      let (w, run, inv) =
        push_safe junk p q (record q { release = 1 }) s s.busy ids v c n n out (λ k e. refl)
          (rw free (IsPlaced-mark_idle at_p)) in
      (
        record s { world = w },
        ids ++ p ∷ [],
        rw (mark_release-idle p s.world q c alive ne, run),
        inv,
      )
]
  where
    at_p : IsPlaced (member p ids) (s.busy p) q
    at_p = IsPlaced-at s ids p v c

pub releases_safe :
    (junk : Message) (p : ℕ) (s : Node) (ids : List ℕ) (q : Queue)
    → Inv s ids
    → s.world.cell p ≡ some q
    → s.busy p ≡ true
    → Goes junk (releases p) s
unfolding step
releases_safe junk p s ids q v c b = elim (ℕ_discrete q.release 0) [
  | yes e ↦
      let (w, run, inv) = put_back p s ids q v c b in
      (
        record { world = w; busy = hold p false s.busy },
        ids ++ p ∷ [],
        rw (mq_release-kept junk p s.world w q c e run),
        inv,
      )
  | no ne ↦ (
    record { world = free p s.world; busy = hold p false s.busy },
    ids,
    rw (mq_release-dropped junk p s.world q c ne) (
        rw (
          drop_queue-free junk p q s.world
            ((drop_all_lem (size q + 1) junk q held.valid (omega arith)).1 ∙ (held_place held).1))),
    free-Inv s.world s.busy ids p v.holds v.each (held_place held).0,
  )
]
  where
    held : IsPlaced (member p ids) true q
    held = rw b at (IsPlaced-at s ids p v c)
