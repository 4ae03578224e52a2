-- ===== src/Mq/Tests.antt =====
-- The message queues on concrete inputs, and the theorems applied to them.
use skynet_server.Mq.Dispatch.{Node, creates, posts, step, puts_back}
use skynet_server.Mq.{Message, Queue, copy_cells, pop, put, raise_overload, size, create, drop_all}
use skynet_server.Mq.Dispatch.Wakeup.{next}
use skynet_server.Common.{
  List, Option, ℕ, arith, if◌then◌else◌, none, some, ◌<◌, ◌∷◌, ◌≡◌, ◌≤◌, [], false, ◌==◌, ◌^◌, refl,
  ◌+◌, true, ◌⊎◌,
}
use skynet_server.Mq.Inv.{IsValid}
use skynet_server.Mq.Refine.{
  run, Call, push, run_fifo, pop-contents, put-contents, run_refines, pull,
}
use skynet_server.Mq.Global.{World, init, mq_create, mq_push}
use skynet_server.Mq.Global.Chain.{Holds, member}
use skynet_server.Common.Int.{pos}
use skynet_server.Mq.Window.{contents}
use skynet_server.Mq.Overload.{pop_warns, raise_overload_lem, drop_all_lem}
use skynet_server.Mq.Dispatch.Wakeup.{
  IsConsistent, Reach, step_safe, Reach-IsConsistent, start, no_lost_wakeup,
}

abbrev junk : Message
junk = record { source = 0; session = pos 0; payload = none; sz = 0 }

abbrev message : ℕ → Message
message n = record { source = n; session = pos n; payload = some n; sz = 2 ^ 56 + n }

-- A ring of two cells that holds one message, with its next free cell the last.
abbrev small : Queue
small = record {
  handle = 7;
  cap = 2;
  head = 1;
  tail = 0;
  release = 0;
  in_global = 1;
  overload = 0;
  overload_threshold = 1;
  queue = message 9 ∷ message 1 ∷ [];
  next = none;
}

small-IsValid : IsValid small
small-IsValid = omega arith

-- The second message fills the ring, which doubles.
put_grows :
    put junk small (message 2)
    ≡ record small { cap = 4; head = 0; tail = 2; queue = message 1 ∷ message 2 ∷ junk ∷ junk ∷ [] }
unfolding put
put_grows = refl

abbrev calls : List Call
calls = push (message 2) ∷ push (message 3) ∷ pull ∷ pull ∷ pull ∷ pull ∷ []

run-small :
    run junk small calls ≡ some (message 1) ∷ some (message 2) ∷ some (message 3) ∷ none ∷ []
unfolding run put pop
run-small = refl

run_refines_example : run junk small calls ≡ run_fifo (message 1 ∷ []) calls
unfolding copy_cells size
run_refines_example = run_refines junk small calls small-IsValid

put-contents_example : contents junk (put junk small (message 2)) ≡ message 1 ∷ message 2 ∷ []
unfolding copy_cells size
put-contents_example = put-contents junk small (message 2) small-IsValid

pop-contents_example :
    ((pop junk small).0 ≡ some (message 1)) × (contents junk (pop junk small).1 ≡ [])
unfolding copy_cells size
pop-contents_example = pop-contents junk small small-IsValid

-- Three messages are waiting, and the threshold is one.
abbrev crowded : Queue
crowded = record small {
  cap = 4;
  head = 0;
  tail = 3;
  queue = message 1 ∷ message 2 ∷ message 3 ∷ junk ∷ [];
}

pop_warns_example :
    let r = (pop junk crowded).1 in
    (size r ≤ r.overload_threshold)
    × (size r ≤ 1 → (r.overload ≡ 0) × (r.overload_threshold ≡ 1))
    × (1 < size r → r.overload ≡ size r)
pop_warns_example = pop_warns junk crowded (omega arith) (omega arith)

raise_overload_lem_example :
    let r = raise_overload 5 5 small in
    (5 ≤ r.overload_threshold)
    × (5 ≤ 1 → r ≡ small)
    × (1 < 5 → (r.overload ≡ 5) × (r.overload_threshold < 10))
raise_overload_lem_example = raise_overload_lem 5 5 small (omega arith) (omega arith)

drop_all_lem_example :
    ((drop_all 5 junk crowded).0 ≡ contents junk crowded)
    × ((drop_all 5 junk crowded).1.next ≡ none)
    × (contents junk (drop_all 5 junk crowded).1 ≡ [])
unfolding size
drop_all_lem_example = drop_all_lem 5 junk crowded (omega arith) (omega arith)

-- Queue 0 is created and gets a message; its creator then schedules it.
abbrev begin_node : Node
begin_node = record { world = init (λ p. none); busy = λ p. false }

abbrev get_node : Option Node → Node
get_node none = begin_node
get_node (some s) = s

abbrev created : Node
created = get_node (step junk (creates 0 7) begin_node)

abbrev posted : Node
posted = get_node (step junk (posts 0 (message 1)) created)

abbrev posted_queue : Queue
posted_queue = put junk (create junk 7) (message 1)

posted-Reach : Reach junk posted
unfolding step init mq_create mq_push create put size
posted-Reach = next (posts 0 (message 1)) (next (creates 0 7) start refl refl) refl refl

no_lost_wakeup_example :
    (ids : List ℕ) × Holds posted.world ids
    × ((member 0 ids ≡ true) × (posted.busy 0 ≡ false)
        ⊎ (member 0 ids ≡ false) × (posted.busy 0 ≡ true))
unfolding step init mq_create mq_push create put size copy_cells
no_lost_wakeup_example = no_lost_wakeup junk 0 posted_queue posted-Reach refl (λ e. cc)

step_safe_example : (s' : Node) × (step junk (puts_back 0) posted ≡ some s') × IsConsistent s'
unfolding step init mq_create mq_push create put size
step_safe_example = step_safe junk (puts_back 0) posted (Reach-IsConsistent junk posted-Reach) refl

-- Two queues, the first of them in the global queue.
abbrev two : World
two = record {
  cell = λ k. if k == 1 then some small else if k == 2 then some crowded else none;
  head = some 1;
  tail = some 1;
}

two-Holds : Holds two (1 ∷ [])
two-Holds = record { linked = (refl, tt); from = refl; to = refl; distinct = (refl, tt) }
