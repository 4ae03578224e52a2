-- ===== src/Mq/Global/Ops.antt =====
-- The operations of the global queue against the list that it holds.
use skynet_server.Common.{
  ℕ, ◌≡◌, refl, true, false, Option, none, some, List, [], ◌∷◌, ◌++◌, ◌==◌, Bool-cases, inl, sym,
  ap, inr, ==_iff, eq_refl, ◌∙◌,
}
use skynet_server.Mq.{Queue}
use skynet_server.Mq.Global.{World, update, globalmq_push, globalmq_pop, take_first}
use skynet_server.Common.Options.{update}
use skynet_server.Mq.Global.Chain.{
  Holds, member, next_of, Linked-update, allocated_of_member, last_from, member-last, Linked-append,
  last-snoc, Distinct-append, member-append,
}

-- The same queue but for its `next`.
abbrev pub SameButNext : Option Queue → Option Queue → Type 0
SameButNext none none = Unit {0}
SameButNext (some q) (some r) = r ≡ record q { next = r.next }
SameButNext none (some r) = ⊥
SameButNext (some q) none = ⊥

-- A change of memory that only links and unlinks, and only the queues of `ids`.
pub record Relinked (ids : List ℕ) (w w' : World) : Type 0 where
  pub keeps : (k : ℕ) → SameButNext (w.cell k) (w'.cell k)
  pub others : (k : ℕ) → member k ids ≡ false → w'.cell k ≡ w.cell k

SameButNext-refl : (o : Option Queue) → SameButNext o o
SameButNext-refl none = tt
SameButNext-refl (some q) = refl

Relinked-update :
    (ids : List ℕ) (w w' : World) (p : ℕ) (q r : Queue)
    → w.cell p ≡ some q
    → r ≡ record q { next = r.next }
    → member p ids ≡ true
    → w'.cell ≡ update w.cell p r
    → Relinked ids w w'
Relinked-update ids w w' p q r c e m u = record {
  keeps = λ k. rw u (elim (Bool-cases (p == k)) [
    | inl same ↦ rw (same, ← (==_iff p k).0 same, c) e
    | inr other ↦ rw other (SameButNext-refl (w.cell k))
  ]);
  others = λ k out. rw u (elim (Bool-cases (p == k)) [
    | inl same ↦ absurd (cc (sym m, ap (λ j. member j ids) ((==_iff p k).0 same), out))
    | inr other ↦ rw other
  ]);
}

-- `skynet_globalmq_push` of a queue that is not in the list passes its assert and puts it last.
-- Nothing of any queue changes but the `next` of the queue that was last.
pub globalmq_push-Holds :
    (w : World) (ids : List ℕ) (p : ℕ) (q : Queue)
    → Holds w ids
    → w.cell p ≡ some q
    → q.next ≡ none
    → member p ids ≡ false
    → (w' : World) × (globalmq_push p w ≡ some w')
      × Holds w' (ids ++ p ∷ [])
      × Relinked (ids ++ p ∷ []) w w'
unfolding globalmq_push
globalmq_push-Holds w [] p q h c n m = (
  record w { head = some p; tail = some p },
  rw (c, n, h.to),
  record { linked = (rw (c, n), tt); from = refl; to = refl; distinct = (refl, tt) },
  record { keeps = λ k. SameButNext-refl (w.cell k); others = λ k out. refl },
)
globalmq_push-Holds w (i ∷ is) p q h c n m =
    let (r, found) =
      allocated_of_member w.cell (last_from i is) (i ∷ is) h.linked (member-last i is) in
    let r' : Queue = record r { next = some p } in
    let w' : World = record w { cell = update w.cell (last_from i is) r'; tail = some p } in
    (
      w',
      rw (c, n, h.to, found),
      record {
        linked = Linked-append w.cell i is p r' h.linked h.distinct m (rw (c, n)) refl;
        from = h.from;
        to = ap some (sym (last-snoc i is p));
        distinct = Distinct-append p (i ∷ is) m h.distinct;
      },
      Relinked-update ((i ∷ is) ++ p ∷ []) w w' (last_from i is) r r' found refl
          (rw (member-append (last_from i is) p (i ∷ is), member-last i is)) refl,
    )

-- `skynet_globalmq_pop` on the empty list returns NULL and changes nothing.
pub globalmq_pop-empty : (w : World) → Holds w [] → globalmq_pop w ≡ some (none, w)
unfolding globalmq_pop
globalmq_pop-empty w h = rw h.from

next_of-some :
    (o : Option Queue) (n : Option ℕ)
    → next_of o ≡ some n
    → (q : Queue) × (o ≡ some q) × (q.next ≡ n)
next_of-some none n e = absurd (cc)
next_of-some (some q) n e = (q, refl, cc)

-- `skynet_globalmq_pop` passes its assert, returns the first queue, with its `next` cleared, and
-- leaves the others in order. Nothing else of any queue changes.
pub globalmq_pop-Holds :
    (w : World) (p : ℕ) (ids : List ℕ)
    → Holds w (p ∷ ids)
    → (w' : World) × (q : Queue) × (globalmq_pop w ≡ some (some p, w'))
      × Holds w' ids
      × Relinked (p ∷ ids) w w'
      × (w'.cell p ≡ some q)
      × (q.next ≡ none)
unfolding globalmq_pop
globalmq_pop-Holds w p [] h =
    let (q, c, n) = next_of-some (w.cell p) none h.linked.0 in
    let q' : Queue = record q { next = none } in
    let w' : World = record { cell = update w.cell p q'; head = none; tail = none } in
    (
      w',
      q',
      ap (λ o. take_first o w) h.from ∙ rw (c, n, h.to, eq_refl p),
      record { linked = tt; from = refl; to = refl; distinct = tt },
      Relinked-update (p ∷ []) w w' p q q' c refl (rw (eq_refl p)) refl,
      rw (eq_refl p),
      refl,
    )
globalmq_pop-Holds w p (j ∷ is) h =
    let (q, c, n) = next_of-some (w.cell p) (some j) h.linked.0 in
    let q' : Queue = record q { next = none } in
    let w' : World = record w { cell = update w.cell p q'; head = some j } in
    (
      w',
      q',
      ap (λ o. take_first o w) h.from ∙ rw (c, n),
      record {
        linked = Linked-update w.cell p q' (j ∷ is) h.distinct.0 h.linked.1;
        from = refl;
        to = h.to;
        distinct = h.distinct.1;
      },
      Relinked-update (p ∷ j ∷ is) w w' p q q' c refl (rw (eq_refl p)) refl,
      rw (eq_refl p),
      refl,
    )
