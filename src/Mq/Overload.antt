-- ===== src/Mq/Overload.antt =====
-- The overload warning, the capacity and the emptying of a queue.
use skynet_server.Common.{
  ℕ, zero, suc, ◌+◌, ◌*◌, ◌^◌, ◌≤◌, ◌<◌, ◌≡◌, ◌≢◌, refl, arith, Bool-cases, ◌==◌, [], inl, ==_iff,
  ℕ_discrete, inr, ◌∷◌, ◌∙◌, ap, none, some, sym, get_or,
}
use skynet_server.Mq.{
  Message, Queue, size, raise_overload, pop, put, drop_all, expand_queue, mq_overload,
}
use skynet_server.Mq.Inv.{IsValid, raise_overload-SameRing, pop-IsValid}
use skynet_server.Mq.Refine.{
  pop-some, taken, size-SameRing, pop-empty, contents-empty, size-distance, size-taken,
  contents-taken, contents-SameRing,
}
use skynet_server.Mq.Window.{contents}

-- The loop ends with the threshold at or above the length. It warns exactly when the length was
-- above the threshold, and then the new threshold is less than twice the length.
pub raise_overload_lem :
    (fuel len : ℕ) (q : Queue)
    → 0 < q.overload_threshold
    → len ≤ fuel + q.overload_threshold
    → let r = raise_overload fuel len q in
      (len ≤ r.overload_threshold)
      × (len ≤ q.overload_threshold → r ≡ q)
      × (q.overload_threshold < len → (r.overload ≡ len) × (r.overload_threshold < 2 * len))
unfolding raise_overload
raise_overload_lem zero len q p h = ground arith
raise_overload_lem (suc fuel) len q p h = ground (
  arith,
  raise_overload_lem fuel len
      (record q { overload = len; overload_threshold = q.overload_threshold * 2 }),
)

pop-raise :
    (junk : Message) (q : Queue)
    → q.head ≢ q.tail
    → (pop junk q).1 ≡ raise_overload (size (taken q)) (size (taken q)) (taken q)
unfolding pop
pop-raise junk q ne = elim (Bool-cases (q.head == q.tail)) [
  | inl e ↦ absurd (ne ((==_iff q.head q.tail).0 e))
  | inr e ↦ rw (e, size-distance (taken q))
]

-- `skynet_mq_pop` on a queue that holds messages: what is left is within the threshold. A length
-- above the old threshold is recorded as the pending warning, and any other changes neither the
-- warning nor the threshold.
pub pop_warns :
    (junk : Message) (q : Queue)
    → IsValid q
    → q.head ≢ q.tail
    → let r = (pop junk q).1 in
      (size r ≤ r.overload_threshold)
      × (size r ≤ q.overload_threshold
          → (r.overload ≡ q.overload) × (r.overload_threshold ≡ q.overload_threshold))
      × (q.overload_threshold < size r → r.overload ≡ size r)
pop_warns junk q v ne =
    rw (pop-raise junk q ne, size-SameRing (raise_overload-SameRing len len (taken q)))
      (ground (arith, raise_overload_lem len len (taken q) v.threshold_pos))
  where
    len : ℕ
    len = size (taken q)

-- The ring doubles only when its last free cell is taken, so `cap` stays in the range of int while
-- a queue holds fewer than 2 ^ 30 - 1 messages.
pub capacity-put :
    (junk : Message) (q : Queue) (m : Message)
    → IsValid q
    → q.cap < 2 ^ 31
    → size q + 1 < 2 ^ 30
    → (put junk q m).cap < 2 ^ 31
unfolding put expand_queue size
capacity-put junk q m v c h = ground arith

drop_all-none :
    (fuel : ℕ) (junk : Message) (q : Queue)
    → (pop junk q).0 ≡ none
    → drop_all (suc fuel) junk q ≡ ([], (pop junk q).1)
unfolding drop_all
drop_all-none fuel junk q e = rw (e, drop_all)

drop_all-some :
    (fuel : ℕ) (junk : Message) (q : Queue) {m : Message}
    → (pop junk q).0 ≡ some m
    → drop_all (suc fuel) junk q
      ≡ (m ∷ (drop_all fuel junk (pop junk q).1).0, (drop_all fuel junk (pop junk q).1).1)
unfolding drop_all
drop_all-some fuel junk q e = rw (e, drop_all)

-- `_drop_queue` hands every message of the queue to `drop_func`, oldest first, and leaves none.
pub drop_all_lem :
    (fuel : ℕ) (junk : Message) (q : Queue)
    → IsValid q
    → size q < fuel
    → ((drop_all fuel junk q).0 ≡ contents junk q)
      × ((drop_all fuel junk q).1.next ≡ q.next)
      × (contents junk (drop_all fuel junk q).1 ≡ [])
drop_all_lem zero junk q v h = absurd (omega arith)
drop_all_lem (suc fuel) junk q v h = elim (ℕ_discrete q.head q.tail) [
  | yes e ↦
      rw (drop_all-none fuel junk q (ap (λ r. r.0) (pop-empty junk q e)), pop-empty junk q e)
        (
          sym (contents-empty junk q e),
          refl,
          contents-empty junk (record q { overload_threshold = mq_overload; in_global = 0 }) e,
        )
  | no ne ↦
      let (out, same) = pop-some junk q ne in
      let ih =
        drop_all_lem fuel junk (pop junk q).1 (pop-IsValid junk q v)
          (omega (arith, size-SameRing same, size-taken q v ne)) in
      rw (drop_all-some fuel junk q out, contents-taken junk q v ne)
        (
          ap (λ ms. get_or q.queue q.head junk ∷ ms) (ih.0 ∙ contents-SameRing junk same),
          ih.1 ∙ same.next,
          ih.2,
        )
]
