-- ===== src/Context/Tests.antt =====
-- Runs of skynet/skynet-src/skynet_server.c: sessions, handles as text, and sending.
use skynet_server.Common.{
  [], ◌∷◌, ℕ, true, false, some, ◌≡◌, ◌≢◌, ◌/◌, ◌^◌, ◌<◌, refl, arith, drop, ◌-◌, inl, ◌+◌,
}
use skynet_server.Common.Int.{pos, negsuc, pos_part, neg_part}
use skynet_server.Gate.Control.{strtoul}
use skynet_server.Context.{
  Context, Node, freed, pushed, id_to_hex, newsession, send, sendname, message_isremote,
  message_type_shift, message_type_mask,
}
use skynet_server.Context.Session.{session_after, newsession_fresh}
use skynet_server.Context.Hex.{strtoul-id_to_hex}
use skynet_server.Context.Sizes.{send_local}
use skynet_server.Context.Disposal.{disposed}
use skynet_server.Context.Refs.{
  context_new, context_release, delete_context, handle_remove, put, living,
}
use skynet_server.Context.Threads.{System, start, Run, first, next, made, removed, released}
use skynet_server.Context.Lifetime.{no_use_after_free, no_leak}
use skynet_server.Context.Owner.{send-owned, sendname-owned, owned}

-- A context that has given the greatest session, in the harbor 1.
abbrev last : Context
last = record { handle = 0x1000002; session_id = 2 ^ 31 - 1 }

abbrev node : Node
node = record { harbor = 0x1000000; remote = true; lives = λ h. true }

newsession_fresh_example :
    (0 < session_after 0 last)
    × (session_after 0 last < 2 ^ 31)
    × (session_after 0 last ≢ session_after 5 last)
newsession_fresh_example = newsession_fresh last 0 5 (omega arith) (omega arith) (omega arith)

-- After the greatest session there follows 1.
wraps : (newsession last).0 ≡ 1
unfolding newsession
wraps = refl

strtoul-id_to_hex_example : strtoul (drop 1 (id_to_hex 0x100002a)) ≡ 0x100002a
strtoul-id_to_hex_example = strtoul-id_to_hex 0x100002a (omega arith)

printed : id_to_hex 0x100002a ≡ 58 ∷ 48 ∷ 49 ∷ 48 ∷ 48 ∷ 48 ∷ 48 ∷ 50 ∷ 65 ∷ []
unfolding id_to_hex
printed = refl

here : message_isremote node.harbor 0x1000003 ≡ some false
unfolding message_isremote
here = refl

send_local_example :
    (carried : ℕ) × (send node 77 0 0x1000003 3 (pos 9) 55 20 last
      ≡ some (pos 9, last, pushed 0x1000003 0x1000002 (pos 9) 77 carried ∷ []))
    × (carried / 2 ^ message_type_shift ≡ 3)
    × (Prim.Native.Nat.bit_and carried message_type_mask ≡ 20)
send_local_example =
    send_local node 77 0 0x1000003 3 55 20 (pos 9) last (omega arith) refl (omega arith) here refl

-- A message to nobody is freed.
to_nobody : send node 77 0 0 0x10003 (pos 9) 55 20 last ≡ some (negsuc 0, last, freed 55 ∷ [])
unfolding send
to_nobody = refl

send-owned_example : disposed 55 (freed 55 ∷ []) ≡ owned 77 0x10003 55 20 55
send-owned_example =
    send-owned 55 node 77 0 0 0x10003 55 20 (pos 9) (negsuc 0) last last (freed 55 ∷ [])
      (omega arith) (omega arith) to_nobody

unnamed :
    sendname (λ name. 0) node 77 0 (46 ∷ 97 ∷ []) 0x10003 (pos 9) 55 20 last
    ≡ some (negsuc 0, last, freed 55 ∷ [])
unfolding sendname
unnamed = refl

sendname-owned_example : disposed 55 (freed 55 ∷ []) ≡ 1
sendname-owned_example =
    sendname-owned (λ name. 0) node 77 0 (46 ∷ 97 ∷ []) 0x10003 55 20 (pos 9) (negsuc 0) last last
      (freed 55 ∷ []) (omega arith) (omega arith) refl unnamed

-- The main thread makes a context, its handle is retired, and both references are given back.
abbrev after_made : System
after_made = record start { world = context_new start.world; held = put 0 1 start.held }

abbrev after_removed : System
after_removed = record {
  world = handle_remove 0 after_made.world;
  held = put 0 2 after_made.held;
  reserved = 0;
}

abbrev after_release : System
after_release = record {
  world = context_release 0 after_removed.world;
  held = put 0 1 after_removed.held;
  reserved = 0;
}

abbrev after_both : System
after_both = record {
  world = context_release 0 after_release.world;
  held = put 0 0 after_release.held;
  reserved = 0;
}

run_made : Run after_made
run_made = next start after_made first made

run_release : Run after_release
unfolding context_new handle_remove context_release delete_context
run_release =
    next after_removed after_release (next after_made after_removed run_made (removed 0 refl))
      (released 0 (omega arith))

run_both : Run after_both
unfolding context_new handle_remove context_release delete_context
run_both = next after_release after_both run_release (released 0 (omega arith))

no_use_after_free_example : after_release.world.alive 0 ≡ true
no_use_after_free_example = no_use_after_free after_release 0 run_release (inl (omega arith))

gone : after_both.world.table 0 ≡ false
unfolding context_new handle_remove context_release delete_context
gone = refl

no_leak_example :
    (after_both.world.alive 0 ≡ false)
    × (pos_part after_both.world.total + after_both.reserved
        ≡ living after_both.world.next after_both.world.alive + neg_part after_both.world.total)
no_leak_example = no_leak after_both 0 run_both refl gone
