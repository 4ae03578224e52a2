-- ===== src/Context/Lifetime.antt =====
-- skynet/skynet-src/skynet_server.c: a context lives exactly as long as there are references to it.
use skynet_server.Common.{ℕ, Bool, true, false, ◌+◌, ◌<◌, ◌≡◌, refl, arith, ap, ◌⊎◌, inl, inr}
use skynet_server.Common.Int.{pos_part, neg_part}
use skynet_server.Context.Refs.{living, one_if}
use skynet_server.Context.Threads.{System, Run, first, next, Counted, held_alive, table_alive}
use skynet_server.Context.Counted.{Step-Counted}

Run-Counted : (s : System) → Run s → Counted s
Run-Counted s' first = record {
  fine = λ c. (λ on. absurd (let g : false ≡ true = on in cc), λ off. (refl, refl));
  unmade = λ c above. refl;
  total = refl;
}
Run-Counted s' (next s s'' run step) = Step-Counted s (Run-Counted s run) s'' step

-- However the threads make, find, reserve, retire and give back contexts: a thread that holds a
-- reference, and the table of handles, always lead to a context that has not been freed.
pub no_use_after_free :
    (s : System) (c : ℕ)
    → Run s
    → (0 < s.held c) ⊎ (s.world.table c ≡ true)
    → s.world.alive c ≡ true
no_use_after_free s c run (inl lt) =
    held_alive (s.world.alive c) (s.world.table c) (s.world.ref c) (s.held c)
      ((Run-Counted s run).fine c) lt
no_use_after_free s c run (inr e) =
    table_alive (s.world.alive c) (s.world.table c) (s.world.ref c) (s.held c)
      ((Run-Counted s run).fine c) e

-- However the threads make, find, reserve, retire and give back contexts: one without a handle to
-- which no thread holds a reference has been freed, and the total is the number of the contexts that
-- are not freed without the reservations that have been made.
pub no_leak :
    (s : System) (c : ℕ)
    → Run s
    → s.held c ≡ 0
    → s.world.table c ≡ false
    → (s.world.alive c ≡ false)
      × (pos_part s.world.total + s.reserved
          ≡ living s.world.next s.world.alive + neg_part s.world.total)
no_leak s c run none gone = let v = Run-Counted s run in (freed (s.world.alive c) refl, v.total)
  where
    freed : (b : Bool) → s.world.alive c ≡ b → s.world.alive c ≡ false
    freed true e =
        let (same, positive) = ((Run-Counted s run).fine c).0 e in
        let zero_ref : one_if (s.world.table c) ≡ 0 = ap one_if gone in absurd (omega arith)
    freed false e = e
