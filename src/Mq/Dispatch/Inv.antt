-- ===== src/Mq/Dispatch/Inv.antt =====
-- The scheduling invariant: a queue is in the global queue or in a worker's hands, never both, and
-- it is in one of them exactly when its flags say so. A queue with messages is in one of them.
use skynet_server.Common.{
  ℕ, Bool, false, ◌||◌, ◌&&◌, Option, none, some, ◌==◌, List, ◌≡◌, ◌≤◌, true, arith, refl, ◌≢◌, ◌⊎◌,
  ◌∙◌,
}
use skynet_server.Mq.{Queue, create, Message, mq_overload}
use skynet_server.Mq.Inv.{IsValid, create-IsValid, SameFlags}
use skynet_server.Mq.Global.Chain.{member, Holds}
use skynet_server.Mq.Dispatch.{Node}

abbrev pub scheduled : Queue → Bool
scheduled q = q.in_global == 1 || q.release == 1

-- Of one queue, by whether it is in the global queue and whether a worker holds it.
pub record IsPlaced (listed held : Bool) (q : Queue) : Type 0 where
  pub valid : IsValid q
  pub in_global_flag : q.in_global ≤ 1
  pub release_flag : q.release ≤ 1
  pub placed : scheduled q ≡ (listed || held)
  pub once : (listed && held) ≡ false
  pub unlinked : listed ≡ false → q.next ≡ none
  pub awake : scheduled q ≡ false → q.head ≡ q.tail

abbrev pub Placed : Bool → Bool → Option Queue → Type 0
Placed listed held none = (listed ≡ false) × (held ≡ false)
Placed listed held (some q) = IsPlaced listed held q

pub record Inv (s : Node) (ids : List ℕ) : Type 0 where
  pub holds : Holds s.world ids
  pub each : (k : ℕ) → Placed (member k ids) (s.busy k) (s.world.cell k)

-- A new queue is in the hands of its creator.
pub create-IsPlaced : (junk : Message) (handle : ℕ) → IsPlaced false true (create junk handle)
unfolding create
create-IsPlaced junk handle = record {
  valid = create-IsValid junk handle;
  in_global_flag = omega arith;
  release_flag = omega arith;
  placed = refl;
  once = refl;
  unlinked = λ e. refl;
  awake = λ e. refl;
}

-- A scheduled queue stays placed while its flags and its link stay.
pub IsPlaced-SameFlags :
    {listed held : Bool} {q r : Queue}
    → IsPlaced listed held q
    → IsValid r
    → SameFlags q r
    → q.in_global ≢ 0 ⊎ q.release ≢ 0
    → IsPlaced listed held r
IsPlaced-SameFlags {listed} {held} {q} {r} v ok f on = record {
  valid = ok;
  in_global_flag = ground arith;
  release_flag = ground arith;
  placed = ground arith;
  once = v.once;
  unlinked = λ e. f.next ∙ v.unlinked e;
  awake = λ e. ground arith;
}

-- A queue with neither flag set is nowhere.
pub idle_place :
    {listed held : Bool} {q : Queue}
    → IsPlaced listed held q
    → q.in_global ≡ 0
    → q.release ≡ 0
    → (listed ≡ false) × (held ≡ false) × (q.next ≡ none) × (q.head ≡ q.tail)
idle_place v a b = ground arith

-- A queue in a worker's hands is not in the global queue.
pub held_place :
    {listed : Bool} {q : Queue}
    → IsPlaced listed true q
    → (listed ≡ false) × (q.next ≡ none) × (q.in_global ≢ 0 ⊎ q.release ≢ 0)
held_place v = ground arith

-- A queue taken from the global queue goes to the worker.
pub IsPlaced-take :
    {held : Bool} {q : Queue} → IsPlaced true held q → q.next ≡ none → IsPlaced false true q
IsPlaced-take v n = record {
  valid = v.valid;
  in_global_flag = v.in_global_flag;
  release_flag = v.release_flag;
  placed = v.placed;
  once = refl;
  unlinked = λ e. n;
  awake = v.awake;
}

-- A queue that the worker puts back goes to the global queue.
pub IsPlaced-put_back : {listed : Bool} {q : Queue} → IsPlaced listed true q → IsPlaced true false q
IsPlaced-put_back v = record {
  valid = v.valid;
  in_global_flag = v.in_global_flag;
  release_flag = v.release_flag;
  placed = ground arith;
  once = refl;
  unlinked = λ e. cc;
  awake = v.awake;
}

-- A worker that finds the queue empty gives it up.
pub IsPlaced-empty :
    {listed : Bool} {q : Queue}
    → IsPlaced listed true q
    → q.release ≡ 0
    → q.head ≡ q.tail
    → IsPlaced listed false (record q { overload_threshold = mq_overload; in_global = 0 })
IsPlaced-empty {listed} {q} v r e = record {
  valid = record {
    cells = v.valid.cells;
    head_in = v.valid.head_in;
    tail_in = v.valid.tail_in;
    threshold_pos = omega arith;
  };
  in_global_flag = omega arith;
  release_flag = v.release_flag;
  placed = ground arith;
  once = ground arith;
  unlinked = v.unlinked;
  awake = λ _. e;
}

-- `skynet_mq_mark_release`: the release flag schedules a queue like the other one.
pub IsPlaced-mark :
    {listed held : Bool} {q : Queue}
    → IsPlaced listed held q
    → (listed || held) ≡ true
    → IsPlaced listed held (record q { release = 1 })
IsPlaced-mark {listed} {held} {q} v e = record {
  valid = record {
    cells = v.valid.cells;
    head_in = v.valid.head_in;
    tail_in = v.valid.tail_in;
    threshold_pos = v.valid.threshold_pos;
  };
  in_global_flag = v.in_global_flag;
  release_flag = omega arith;
  placed = ground arith;
  once = v.once;
  unlinked = v.unlinked;
  awake = λ h. ground arith;
}

pub IsPlaced-mark_idle :
    {listed held : Bool} {q : Queue}
    → IsPlaced listed held q
    → IsPlaced true false (record q { release = 1 })
IsPlaced-mark_idle {listed} {held} {q} v = record {
  valid = record {
    cells = v.valid.cells;
    head_in = v.valid.head_in;
    tail_in = v.valid.tail_in;
    threshold_pos = v.valid.threshold_pos;
  };
  in_global_flag = v.in_global_flag;
  release_flag = omega arith;
  placed = ground arith;
  once = refl;
  unlinked = λ e. cc;
  awake = λ h. ground arith;
}
