-- ===== src/Mq/Refine.antt =====
-- A valid ring behaves as the list of its messages, oldest first, also when it grows.
use skynet_server.Common.{
  suc, ◌+◌, ◌%◌, ◌<◌, ◌≡◌, ◌≢◌, refl, sym, ap, ap₂, ◌∙◌, inl, inr, Option, none, some, List, [],
  ◌∷◌, ◌++◌, arith, get_or, set, replicate, ◌==◌, Bool-cases, mod-eq_of_lt, add-zero, ==_iff, ◌⊎◌,
  ℕ_discrete,
}
use skynet_server.Mq.{
  Message, Queue, size, pop, copy_cells, expand_queue, put, advance, distance, mq_overload,
}
use skynet_server.Mq.Inv.{
  IsValid, SameRing, raise_overload-SameRing, length-copy_cells, put-IsValid, pop-IsValid,
}
use skynet_server.Mq.Window.{
  contents, size-lt-cap, tail-mod, copy_cells-advance, copy_cells-cong, copy_cells-set,
  copy_cells-middle,
}

size-expand_queue : (junk : Message) (q : Queue) → size (expand_queue junk q) ≡ q.cap
unfolding size expand_queue
size-expand_queue junk q = ground arith

contents-expand_queue :
    (junk : Message) (q : Queue)
    → 0 < q.cap
    → contents junk (expand_queue junk q) ≡ copy_cells junk q 0 q.cap
unfolding expand_queue
contents-expand_queue junk q p =
    ap (copy_cells junk (expand_queue junk q) 0)
      (size-expand_queue junk q ∙ sym (length-copy_cells junk q 0 q.cap))
    ∙ copy_cells-middle junk (expand_queue junk q) 0 [] (copy_cells junk q 0 q.cap)
        (replicate q.cap junk) refl refl refl (omega (arith, length-copy_cells junk q 0 q.cap))

-- The queue in `put` with the message written and `tail` moved on.
abbrev stored : Queue → Message → Queue
stored q m = record q { queue = set q.queue q.tail m; tail = advance q.cap q.tail }

copy_cells-stored :
    (junk : Message) (q : Queue) (m : Message)
    → IsValid q
    → copy_cells junk (stored q m) 0 (suc (size q)) ≡ contents junk q ++ m ∷ []
copy_cells-stored junk q m v =
    copy_cells-cong junk (record q { queue = set q.queue q.tail m }) (stored q m) 0 (suc (size q))
      refl refl refl
    ∙ copy_cells-set junk q m q.tail 0 (size q) v.cells v.head_in (omega (arith, size-lt-cap q v))
        (sym (tail-mod q v) ∙ ap (λ k. (q.head + k) % q.cap) (omega arith))

size-stored :
    (q : Queue) (m : Message)
    → IsValid q
    → ((q.head ≡ advance q.cap q.tail) × (suc (size q) ≡ q.cap))
      ⊎ ((q.head ≢ advance q.cap q.tail) × (size (stored q m) ≡ suc (size q)))
unfolding size
size-stored q m v = ground arith

put-full :
    (junk : Message) (q : Queue) (m : Message)
    → q.head ≡ advance q.cap q.tail
    → put junk q m ≡ expand_queue junk (stored q m)
unfolding put
put-full junk q m e = rw ((==_iff q.head (advance q.cap q.tail)).1 e)

put-room :
    (junk : Message) (q : Queue) (m : Message)
    → q.head ≢ advance q.cap q.tail
    → put junk q m ≡ stored q m
unfolding put
put-room junk q m ne = elim (Bool-cases (q.head == advance q.cap q.tail)) [
  | inl e ↦ absurd (ne ((==_iff q.head (advance q.cap q.tail)).0 e))
  | inr e ↦ rw e
]

-- `skynet_mq_push` appends its message to the queue's contents, also when the ring is full and
-- its cells are copied to one of twice the size.
pub put-contents :
    (junk : Message) (q : Queue) (m : Message)
    → IsValid q
    → contents junk (put junk q m) ≡ contents junk q ++ m ∷ []
put-contents junk q m v = elim (size-stored q m v) [
  | inl (full, n) ↦
      ap (contents junk) (put-full junk q m full)
      ∙ contents-expand_queue junk (stored q m) (omega arith)
      ∙ ap (copy_cells junk (stored q m) 0) (sym n)
      ∙ copy_cells-stored junk q m v
  | inr (room, n) ↦
      ap (contents junk) (put-room junk q m room)
      ∙ ap (copy_cells junk (stored q m) 0) n
      ∙ copy_cells-stored junk q m v
]

-- What `skynet_mq_pop` returns for the messages that a queue holds, oldest first.
abbrev pub first : List Message → Option Message
first [] = none
first (m ∷ ms) = some m

abbrev pub rest : List Message → List Message
rest [] = []
rest (m ∷ ms) = ms

-- The queue in `pop` with `head` moved on.
abbrev pub taken : Queue → Queue
taken q = record q { head = advance q.cap q.head }

pub size-taken : (q : Queue) → IsValid q → q.head ≢ q.tail → size q ≡ suc (size (taken q))
unfolding size
size-taken q v ne = ground arith

pub size-distance : (q : Queue) → size q ≡ distance q.cap q.head q.tail
unfolding size
size-distance q = ground arith

pub size-SameRing : {q r : Queue} → SameRing q r → size r ≡ size q
size-SameRing {q} {r} s = rw (size-distance r, size-distance q, s.head, s.cap, s.tail)

pub contents-SameRing :
    (junk : Message) {q r : Queue} → SameRing q r → contents junk r ≡ contents junk q
contents-SameRing junk {q} {r} s =
    copy_cells-cong junk q r 0 (size r) s.head s.cap s.queue
    ∙ ap (copy_cells junk q 0) (size-SameRing s)

pub contents-taken :
    (junk : Message) (q : Queue)
    → IsValid q
    → q.head ≢ q.tail
    → contents junk q ≡ get_or q.queue q.head junk ∷ contents junk (taken q)
unfolding copy_cells
contents-taken junk q v ne =
    ap (copy_cells junk q 0) (size-taken q v ne)
    ∙ ap₂ ◌∷◌ (ap (λ k. get_or q.queue k junk) (mod-eq_of_lt (omega arith) ∙ add-zero q.head))
        (copy_cells-advance junk q 0 (size (taken q)) v.head_in)

pub size-empty : (q : Queue) → q.head ≡ q.tail → size q ≡ 0
unfolding size
size-empty q e = ground arith

pub contents-empty : (junk : Message) (q : Queue) → q.head ≡ q.tail → contents junk q ≡ []
unfolding copy_cells
contents-empty junk q e = ap (copy_cells junk q 0) (size-empty q e)

-- The two branches of `skynet_mq_pop`.
pub pop-empty :
    (junk : Message) (q : Queue)
    → q.head ≡ q.tail
    → pop junk q ≡ (none, record q { overload_threshold = mq_overload; in_global = 0 })
unfolding pop
pop-empty junk q e = rw ((==_iff q.head q.tail).1 e)

pub pop-some :
    (junk : Message) (q : Queue)
    → q.head ≢ q.tail
    → ((pop junk q).0 ≡ some (get_or q.queue q.head junk)) × SameRing (taken q) (pop junk q).1
unfolding pop
pop-some junk q ne = elim (Bool-cases (q.head == q.tail)) [
  | inl e ↦ absurd (ne ((==_iff q.head q.tail).0 e))
  | inr e ↦ rw e (refl, raise_overload-SameRing _ _ (taken q))
]

-- `skynet_mq_pop` returns the oldest message and leaves the others, in order; on an empty queue it
-- returns 1 and the queue stays empty.
pub pop-contents :
    (junk : Message) (q : Queue)
    → IsValid q
    → ((pop junk q).0 ≡ first (contents junk q))
      × (contents junk (pop junk q).1 ≡ rest (contents junk q))
pop-contents junk q v = elim (ℕ_discrete q.head q.tail) [
  | yes e ↦
      rw (pop-empty junk q e, contents-empty junk q e)
        (refl, contents-empty junk (record q { overload_threshold = mq_overload; in_global = 0 }) e)
  | no ne ↦
      rw (contents-taken junk q v ne)
        ((pop-some junk q ne).0, contents-SameRing junk (pop-some junk q ne).1)
]

-- A client's calls in order, and what each `skynet_mq_pop` returns.
pub data Call : Type 0 where
  push : Message → Call
  pull : Call

unfoldable pub run : Message → Queue → List Call → List (Option Message)
run junk q [] = []
run junk q (push m ∷ cs) = run junk (put junk q m) cs
run junk q (pull ∷ cs) = (pop junk q).0 ∷ run junk (pop junk q).1 cs

-- The same over a list of messages.
unfoldable pub run_fifo : List Message → List Call → List (Option Message)
run_fifo ms [] = []
run_fifo ms (push m ∷ cs) = run_fifo (ms ++ m ∷ []) cs
run_fifo ms (pull ∷ cs) = first ms ∷ run_fifo (rest ms) cs

-- No sequence of pushes and pops tells a valid queue from the unbounded FIFO list of its messages.
pub run_refines :
    (junk : Message) (q : Queue) (cs : List Call)
    → IsValid q
    → run junk q cs ≡ run_fifo (contents junk q) cs
unfolding run run_fifo
run_refines junk q [] v = refl
run_refines junk q (push m ∷ cs) v =
    run_refines junk (put junk q m) cs (put-IsValid junk q m v)
    ∙ ap (λ ms. run_fifo ms cs) (put-contents junk q m v)
run_refines junk q (pull ∷ cs) v = ap₂ ◌∷◌ (pop-contents junk q v).0 (
    run_refines junk (pop junk q).1 cs (pop-IsValid junk q v)
    ∙ ap (λ ms. run_fifo ms cs) (pop-contents junk q v).1)
