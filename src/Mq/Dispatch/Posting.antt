-- ===== src/Mq/Dispatch/Posting.antt =====
-- Creating a queue and posting to one pass the asserts and keep the scheduling invariant.
use skynet_server.Common.{
  ℕ, Bool, true, false, none, some, ◌==◌, List, [], ◌∷◌, ◌++◌, ◌≡◌, arith, eq_refl, inl, ◌∙◌, sym,
  ℕ_discrete, refl,
}
use skynet_server.Mq.Dispatch.Steps.{
  push-Inv, store-Holds, store-Each, member-snoc_other, member-snoc_self, IsPlaced-at,
}
use skynet_server.Mq.{Message, Queue, create, put}
use skynet_server.Mq.Dispatch.{hold, step, Event, mq_create, Node, World, creates, posts}
use skynet_server.Mq.Global.{
  mq_create, World, globalmq_push, store, mq_push-idle, mq_push-scheduled, free,
}
use skynet_server.Mq.Dispatch.Inv.{Inv, IsPlaced, create-IsPlaced, idle_place, IsPlaced-SameFlags}
use skynet_server.Mq.Global.Chain.{member, Linked-update}
use skynet_server.Mq.Inv.{SameFlags, put-SameFlags, IsValid, put-IsValid}

-- The call succeeds, and the invariant holds of the state after it.
abbrev pub Goes : Message → Event → Node → Type 0
Goes junk e s = (s' : Node) × (ids : List ℕ) × (step junk e s ≡ some s') × Inv s' ids

pub hold_other :
    (p k : ℕ) (b : Bool) (busy : ℕ → Bool) → (p == k) ≡ false → hold p b busy k ≡ busy k
hold_other p k b busy e = rw e

pub hold_self : (p : ℕ) (b : Bool) (busy : ℕ → Bool) → hold p b busy p ≡ b
hold_self p b busy = rw (eq_refl p)

pub creates_safe :
    (junk : Message) (p handle : ℕ) (s : Node) (ids : List ℕ)
    → Inv s ids
    → s.world.cell p ≡ none
    → Goes junk (creates p handle) s
unfolding step mq_create
creates_safe junk p handle s ids v free = (
  record { world = store p (create junk handle) s.world; busy = hold p true s.busy },
  ids,
  refl,
  record {
    holds = record {
      linked = Linked-update s.world.cell p _ ids out v.holds.linked;
      from = v.holds.from;
      to = v.holds.to;
      distinct = v.holds.distinct;
    };
    each =
        store-Each s.world s.busy (hold p true s.busy) ids ids p (create junk handle) v.each
          (λ k e. (hold_other p k true s.busy e, refl))
          (rw (out, hold_self p true s.busy) (create-IsPlaced junk handle));
  },
)
  where
    out : member p ids ≡ false
    out = (rw free at (v.each p)).0

-- A queue that is not scheduled is linked in, with the flags of `r`.
pub push_safe :
    (junk : Message) (p : ℕ) (q r : Queue) (s : Node) (busy : ℕ → Bool) (ids : List ℕ)
    → Inv s ids
    → s.world.cell p ≡ some q
    → r.next ≡ none
    → q.next ≡ none
    → member p ids ≡ false
    → ((k : ℕ) → (p == k) ≡ false → busy k ≡ s.busy k)
    → IsPlaced true (busy p) r
    → (w : World) × (globalmq_push p (store p r s.world) ≡ some w)
      × Inv (record { world = w; busy = busy }) (ids ++ p ∷ [])
push_safe junk p q r s busy ids v c n n' out same placed =
    push-Inv (store p r s.world) busy ids p r (store-Holds s.world ids p q r v.holds c (n ∙ sym n'))
      (rw (eq_refl p)) n out
      (store-Each s.world s.busy busy ids (ids ++ p ∷ []) p r v.each
        (λ k e. (same k e, member-snoc_other p k ids e)) (rw (member-snoc_self p ids) placed))

pub posts_safe :
    (junk : Message) (p : ℕ) (m : Message) (s : Node) (ids : List ℕ) (q : Queue)
    → Inv s ids
    → s.world.cell p ≡ some q
    → q.release ≡ 0
    → Goes junk (posts p m) s
unfolding step
posts_safe junk p m s ids q v c alive = elim (ℕ_discrete q.in_global 0) [
  | yes idle ↦
      let (out, free, n, _) = idle_place at_p idle alive in
      let (w, run, inv) =
        push_safe junk p q (record (put junk q m) { in_global = 1 }) s s.busy ids v c
          (flags.next ∙ n) n out (λ k e. refl)
          (rw free (record {
            valid = record {
              cells = ok.cells;
              head_in = ok.head_in;
              tail_in = ok.tail_in;
              threshold_pos = ok.threshold_pos;
            };
            in_global_flag = omega arith;
            release_flag = omega (arith, flags.release);
            placed = refl;
            once = refl;
            unlinked = λ e. cc;
            awake = λ e. cc;
          })) in
      (
        record s { world = w },
        ids ++ p ∷ [],
        rw (mq_push-idle junk p m s.world q c (flags.in_global ∙ idle), run),
        inv,
      )
  | no there ↦ (
    record s { world = store p (put junk q m) s.world },
    ids,
    rw (mq_push-scheduled junk p m s.world q c (λ e. there (sym flags.in_global ∙ e))),
    record {
      holds = store-Holds s.world ids p q (put junk q m) v.holds c flags.next;
      each =
          store-Each s.world s.busy s.busy ids ids p (put junk q m) v.each (λ k e. (refl, refl))
            (IsPlaced-SameFlags at_p ok flags (inl there));
    },
  )
]
  where
    at_p : IsPlaced (member p ids) (s.busy p) q
    at_p = IsPlaced-at s ids p v c

    flags : SameFlags q (put junk q m)
    flags = put-SameFlags junk q m

    ok : IsValid (put junk q m)
    ok = put-IsValid junk q m at_p.valid
