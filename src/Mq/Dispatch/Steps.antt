-- ===== src/Mq/Dispatch/Steps.antt =====
-- What writing a queue, linking it in and taking it out do to the scheduling invariant.
use skynet_server.Common.{
  ℕ, Bool, true, false, Option, none, some, ◌==◌, List, [], ◌∷◌, ◌++◌, ◌≡◌, arith, Bool-cases, inl,
  ==_iff, inr, eq_refl, refl,
}
use skynet_server.Mq.Global.Ops.{Relinked, SameButNext, globalmq_push-Holds}
use skynet_server.Mq.Global.Chain.{member, member-append, Holds, Linked-same, Linked-free}
use skynet_server.Mq.Global.{World, globalmq_push, store, free}
use skynet_server.Mq.{Queue}
use skynet_server.Mq.Dispatch.{Node, globalmq_push, store, hold}
use skynet_server.Mq.Dispatch.Inv.{Inv, IsPlaced, Placed, IsPlaced-take}

abbrev pub Each : World → (ℕ → Bool) → List ℕ → Type 0
Each w busy ids = (k : ℕ) → Placed (member k ids) (busy k) (w.cell k)

pub store-Holds :
    (w : World) (ids : List ℕ) (p : ℕ) (q r : Queue)
    → Holds w ids
    → w.cell p ≡ some q
    → r.next ≡ q.next
    → Holds (store p r w) ids
store-Holds w ids p q r h c n = record {
  linked = Linked-same w.cell p r ids (rw (c, n)) h.linked;
  from = h.from;
  to = h.to;
  distinct = h.distinct;
}

-- One queue is written, and only its own place changes.
pub store-Each :
    (w : World) (busy busy' : ℕ → Bool) (ids ids' : List ℕ) (p : ℕ) (r : Queue)
    → Each w busy ids
    → ((k : ℕ) → (p == k) ≡ false → (busy' k ≡ busy k) × (member k ids' ≡ member k ids))
    → IsPlaced (member p ids') (busy' p) r
    → Each (store p r w) busy' ids'
store-Each w busy busy' ids ids' p r each same placed k = elim (Bool-cases (p == k)) [
  | inl e ↦ rw (e, ← (==_iff p k).0 e) placed
  | inr e ↦ rw (e, (same k e).0, (same k e).1) (each k)
]

-- Linking and unlinking move no queue from its place.
relink-Placed :
    (listed held : Bool) (o o' : Option Queue)
    → SameButNext o o'
    → (listed ≡ false → o' ≡ o)
    → Placed listed held o
    → Placed listed held o'
relink-Placed listed held none none s e v = v
relink-Placed listed held none (some r) s e v = absurd s
relink-Placed listed held (some q) none s e v = absurd s
relink-Placed listed held (some q) (some r) s e v = ground arith

pub relink-Each :
    (w w' : World) (busy : ℕ → Bool) (ids : List ℕ)
    → Relinked ids w w'
    → Each w busy ids
    → Each w' busy ids
relink-Each w w' busy ids l each k =
    relink-Placed _ _ (w.cell k) (w'.cell k) (l.keeps k) (l.others k) (each k)

-- A queue that is out of the list, with its place already counted as the list, is linked in.
pub push-Inv :
    (w : World) (busy : ℕ → Bool) (ids : List ℕ) (p : ℕ) (q : Queue)
    → Holds w ids
    → w.cell p ≡ some q
    → q.next ≡ none
    → member p ids ≡ false
    → Each w busy (ids ++ p ∷ [])
    → (w' : World) × (globalmq_push p w ≡ some w')
      × Inv (record { world = w'; busy = busy }) (ids ++ p ∷ [])
push-Inv w busy ids p q h c n m each =
    let (w', run, held, linked) = globalmq_push-Holds w ids p q h c n m in
    (w', run, record { holds = held; each = relink-Each w w' busy (ids ++ p ∷ []) linked each })

pub member-snoc_other :
    (p k : ℕ) (ids : List ℕ) → (p == k) ≡ false → member k (ids ++ p ∷ []) ≡ member k ids
member-snoc_other p k ids e = ground (arith, member-append k p ids)

pub member-snoc_self : (p : ℕ) (ids : List ℕ) → member p (ids ++ p ∷ []) ≡ true
member-snoc_self p ids = ground (arith, member-append p p ids)

-- What the invariant says of an allocated queue.
pub IsPlaced-at :
    (s : Node) (ids : List ℕ) (p : ℕ) {q : Queue}
    → Inv s ids
    → s.world.cell p ≡ some q
    → IsPlaced (member p ids) (s.busy p) q
IsPlaced-at s ids p v c = rw c at (v.each p)

-- A queue changes its place, and no memory.
pub move-Each :
    (w : World) (busy busy' : ℕ → Bool) (ids ids' : List ℕ) (p : ℕ)
    → Each w busy ids
    → ((k : ℕ) → (p == k) ≡ false → (busy' k ≡ busy k) × (member k ids' ≡ member k ids))
    → Placed (member p ids') (busy' p) (w.cell p)
    → Each w busy' ids'
move-Each w busy busy' ids ids' p each same placed k = elim (Bool-cases (p == k)) [
  | inl e ↦ rw (← (==_iff p k).0 e) placed
  | inr e ↦ rw ((same k e).0, (same k e).1) (each k)
]

-- `_release`: a queue that is out of the list leaves the memory.
pub free-Inv :
    (w : World) (busy : ℕ → Bool) (ids : List ℕ) (p : ℕ)
    → Holds w ids
    → Each w busy ids
    → member p ids ≡ false
    → Inv (record { world = free p w; busy = hold p false busy }) ids
unfolding free
free-Inv w busy ids p h each out = record {
  holds = record {
    linked = Linked-free w.cell p ids out h.linked;
    from = h.from;
    to = h.to;
    distinct = h.distinct;
  };
  each = λ k. elim (Bool-cases (p == k)) [
    | inl e ↦ rw (e, ← (==_iff p k).0 e) (out, refl)
    | inr e ↦ rw e (each k)
  ];
}

-- The first queue of the list goes to the worker that took it.
pub take-Each :
    (w w' : World) (busy : ℕ → Bool) (p : ℕ) (ids : List ℕ) (q : Queue)
    → Relinked (p ∷ ids) w w'
    → Each w busy (p ∷ ids)
    → member p ids ≡ false
    → w'.cell p ≡ some q
    → q.next ≡ none
    → Each w' (hold p true busy) ids
take-Each w w' busy p ids q linked each out c n k = elim (Bool-cases (p == k)) [
  | inl e ↦ rw (← (==_iff p k).0 e, eq_refl p, out, c) (IsPlaced-take {held = busy p} at_p n)
  | inr e ↦ rw e (rw e at (after k))
]
  where
    after : Each w' busy (p ∷ ids)
    after = relink-Each w w' busy (p ∷ ids) linked each

    at_p : IsPlaced true (busy p) q
    at_p = rw (eq_refl p, c) at (after p)
