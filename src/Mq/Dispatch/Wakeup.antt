-- ===== src/Mq/Dispatch/Wakeup.antt =====
-- Histories of calls: no assert fails, and no queue with messages is forgotten.
use skynet_server.Mq.Dispatch.Posting.{Goes, creates_safe, posts_safe}
use skynet_server.Mq.Dispatch.Safe.{
  takes_safe, pops_safe, puts_back_safe, marks_safe, releases_safe,
}
use skynet_server.Mq.Dispatch.{
  Event, Node, creates, enabled, marks, pops, posts, puts_back, releases, step, takes,
}
use skynet_server.Mq.{Message, Queue}
use skynet_server.Mq.Global.{init}
use skynet_server.Common.{
  List, none, subst, ℕ, false, ◌≡◌, some, true, ◌≢◌, Option-cases, [], inl, inr, ◌⊎◌, Bool, ==_iff,
  arith, and_true, refl,
}
use skynet_server.Mq.Dispatch.Inv.{Inv, IsPlaced}
use skynet_server.Mq.Window.{contents}
use skynet_server.Mq.Global.Chain.{Holds, member}
use skynet_server.Mq.Dispatch.Steps.{IsPlaced-at}
use skynet_server.Mq.Refine.{contents-empty}

-- The state of the queues agrees with some content of the global queue.
abbrev pub IsConsistent : Node → Type 0
IsConsistent s = (ids : List ℕ) × Inv s ids

-- A call that is allowed never fails an assert nor reads a dangling pointer, and keeps the
-- scheduling invariant: every queue is in the global queue or in a worker's hands, never in both,
-- and in one of them exactly when one of its flags is set.
pub step_safe :
    (junk : Message) (e : Event) (s : Node)
    → IsConsistent s
    → enabled s e ≡ true
    → (s' : Node) × (step junk e s ≡ some s') × IsConsistent s'
step_safe junk e s (ids, v) on = let (s', ids', run, v') = go e on in (s', run, (ids', v'))
  where
    go : (e : Event) → enabled s e ≡ true → Goes junk e s
    go (creates p handle) on = elim (Option-cases (s.world.cell p)) [
      | inl c ↦ creates_safe junk p handle s ids v c
      | inr (q, c) ↦ cc (rw c at on)
    ]
    go (posts p m) on = elim (Option-cases (s.world.cell p)) [
      | inl c ↦ cc (rw c at on)
      | inr (q, c) ↦ posts_safe junk p m s ids q v c ((==_iff q.release 0).0 (rw c at on))
    ]
    go takes on = takes_safe junk s ids v
    go (pops p) on = elim (Option-cases (s.world.cell p)) [
      | inl c ↦ cc (rw c at on)
      | inr (q, c) ↦
          let (alive, held) = and_true (rw c at on) in
          pops_safe junk p s ids q v c ((==_iff q.release 0).0 alive) held
    ]
    go (puts_back p) on = elim (Option-cases (s.world.cell p)) [
      | inl c ↦ cc (rw c at on)
      | inr (q, c) ↦ puts_back_safe junk p s ids q v c (rw c at on)
    ]
    go (marks p) on = elim (Option-cases (s.world.cell p)) [
      | inl c ↦ cc (rw c at on)
      | inr (q, c) ↦ marks_safe junk p s ids q v c ((==_iff q.release 0).0 (rw c at on))
    ]
    go (releases p) on = elim (Option-cases (s.world.cell p)) [
      | inl c ↦ cc (rw c at on)
      | inr (q, c) ↦ releases_safe junk p s ids q v c (rw c at on)
    ]

-- The states that a history of allowed calls reaches from the start of the program.
pub data Reach (junk : Message) : Node → Type 0 where
  start : Reach junk (record { world = init (λ p. none); busy = λ p. false })
  next :
      {s s' : Node} (e : Event)
      → Reach junk s
      → enabled s e ≡ true
      → step junk e s ≡ some s'
      → Reach junk s'

start-IsConsistent : IsConsistent (record { world = init (λ p. none); busy = λ p. false })
unfolding init
start-IsConsistent = (
  [],
  record {
    holds = record { linked = tt; from = refl; to = refl; distinct = tt };
    each = λ k. (refl, refl);
  },
)

pub Reach-IsConsistent : (junk : Message) {s : Node} → Reach junk s → IsConsistent s
Reach-IsConsistent junk start = start-IsConsistent
Reach-IsConsistent junk (next {s} {s'} e r on run) =
    let (t, run', ok) = step_safe junk e s (Reach-IsConsistent junk r) on in
    let same : t ≡ s' = cc (run', run) in subst IsConsistent same ok

-- After any history, a queue that holds a message is in a worker's hands, or the global queue
-- holds it, once, and so a worker will take it; and a queue in a worker's hands is not in the
-- global queue, so no two workers take the same queue.
pub no_lost_wakeup :
    (junk : Message) {s : Node} (p : ℕ) (q : Queue)
    → Reach junk s
    → s.world.cell p ≡ some q
    → contents junk q ≢ []
    → (ids : List ℕ) × Holds s.world ids
      × ((member p ids ≡ true) × (s.busy p ≡ false) ⊎ (member p ids ≡ false) × (s.busy p ≡ true))
no_lost_wakeup junk {s} p q r c full =
    let (ids, v) = Reach-IsConsistent junk r in
    (ids, v.holds, somewhere (IsPlaced-at s ids p v c) (λ e. full (contents-empty junk q e)))
  where
    somewhere :
        {listed held : Bool}
        → IsPlaced listed held q
        → q.head ≢ q.tail
        → (listed ≡ true) × (held ≡ false) ⊎ (listed ≡ false) × (held ≡ true)
    somewhere v ne = ground arith
