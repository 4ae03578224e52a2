-- ===== src/Gate/Run.antt =====
-- skynet/service-src/service_gate.c: the gate from its beginning on.
use skynet_server.Common.{
  List, [], ◌∷◌, ℕ, Bool, true, false, Option, none, some, ◌==◌, ◌≤◌, ◌<◌, ◌≡◌, inl, refl, arith,
  ap, ◌∙◌, sym, subst, if◌then◌else◌, not, ◌&&◌, ltb, leb, length,
}
use skynet_server.Common.Int.{ℤ, pos, negsuc, ltb_ℤ, pos_part}
use skynet_server.Common.Options.{◌>>=◌}
use skynet_server.Hashid.{Hashid, lookup, find}
use skynet_server.Hashid as Hashid
use skynet_server.Hashid.Init.{init_lem}
use skynet_server.Gate.{Gate, Call, socket_start, error}
use skynet_server.Gate.Control.{ctrl}
use skynet_server.Gate.Socket.{
  Message, text, client, socket, ignored, cb, to_client, client_id, freed, Parm, gate_set,
  gate_init, start_listen, first_byte,
}
use skynet_server.Gate.Sound.{IsSound, CanArrive}
use skynet_server.Gate.Places.{dispatch_socket_message-IsSound}
use skynet_server.Gate.Commands.{ctrl-SoundIf, SoundIf}

-- A message that may come.
abbrev pub CanCome : Gate → Message → Type 0
CanCome g (socket m) = CanArrive g m
CanCome g (text bytes) = Unit {0}
CanCome g (client bytes) = Unit {0}
CanCome g ignored = Unit {0}

abbrev KeptIf : Option (Bool × List Call × Gate) → Type 0
KeptIf none = ⊥
KeptIf (some (kept, calls, g)) = IsSound g

KeptIf-freed : (o : Option (List Call × Gate)) → SoundIf o → KeptIf (o >>= freed)
KeptIf-freed none v = absurd v
KeptIf-freed (some (calls, g)) v = v

KeptIf-if :
    (b : Bool) (r s : Option (Bool × List Call × Gate))
    → KeptIf r
    → KeptIf s
    → KeptIf (if b then r else s)
KeptIf-if true r s v w = v
KeptIf-if false r s v w = w

to_client-KeptIf :
    (g : Gate) (bytes : List ℕ) (o : Option ℕ) → IsSound g → KeptIf (to_client g bytes o)
to_client-KeptIf g bytes none v = v
to_client-KeptIf g bytes (some i) v = v

cb-KeptIf :
    (queryname : List ℕ → ℕ) (g : Gate) (m : Message)
    → IsSound g
    → CanCome g m
    → KeptIf (cb queryname g m)
unfolding cb
cb-KeptIf queryname g (text bytes) v can =
    KeptIf-freed (ctrl queryname g bytes) (ctrl-SoundIf queryname g bytes v)
cb-KeptIf queryname g (client bytes) v can =
    KeptIf-if (leb (length bytes) 4) (some (false, error ∷ [], g))
      (to_client g bytes (lookup g.hash (client_id bytes))) v
      (to_client-KeptIf g bytes (lookup g.hash (client_id bytes)) v)
cb-KeptIf queryname g (socket m) v can =
    let (calls', h, run, w) = dispatch_socket_message-IsSound g m v can in
    subst KeptIf (ap (λ o. o >>= freed) (sym run)) w
cb-KeptIf queryname g ignored v can = v

-- The gate as `gate_init` sets it up.
lookup-init : (max x : ℕ) → lookup (Hashid.init max) x ≡ none
unfolding Hashid.lookup Hashid.init Hashid.find
lookup-init max x = refl

gate_set-IsSound :
    (p : Parm) (watchdog max : ℕ) (listen : ℤ) (g : Gate)
    → IsSound (record (gate_set p watchdog max g) { listen_id = listen })
gate_set-IsSound p watchdog max listen g = record {
  valid = (init_lem max).4;
  known = λ x i e. absurd (let h : none ≡ some i = sym (lookup-init max x) ∙ e in cc);
  used = λ x i e. absurd (let h : negsuc 0 ≡ pos x = e in cc);
  received = λ i.
      ([], record { valid = record { within = refl; sized = refl }; since = inl (refl, refl) });
  headed = sizes (p.header == 83);
}
  where
    sizes : (b : Bool) → (0 < (if b then 2 else 4)) × ((if b then 2 else 4) ≤ 4)
    sizes true = (omega arith, omega arith)
    sizes false = (omega arith, omega arith)

abbrev Started : Bool × List Call × Gate → Type 0
Started (true, calls, g) = Unit {0}
Started (false, calls, g) = IsSound g

Started-if :
    (b : Bool) (r s : Bool × List Call × Gate)
    → Started r
    → Started s
    → Started (if b then r else s)
Started-if true r s v w = v
Started-if false r s v w = w

start_listen-Started :
    (port listen : ℤ) (p : Parm) (watchdog max : ℕ) (g : Gate)
    → Started (start_listen port listen (gate_set p watchdog max g))
start_listen-Started port listen p watchdog max g =
    Started-if (not (ltb_ℤ (pos 0) port)) (true, error ∷ [], gate_set p watchdog max g) _ tt
      (Started-if (ltb_ℤ listen (pos 0))
        (true, [], record (gate_set p watchdog max g) { listen_id = listen })
        (false, socket_start listen ∷ [], record (gate_set p watchdog max g) { listen_id = listen })
        tt (gate_set-IsSound p watchdog max listen g))

gate_init-Started :
    (queryname : List ℕ → ℕ) (port listen : ℤ) (p : Parm) (g : Gate)
    → Started (gate_init queryname port listen p g)
unfolding gate_init
gate_init-Started queryname port listen p g =
    Started-if (ltb p.fields 4) (true, error ∷ [], g) _ tt
      (Started-if (not (ltb_ℤ (pos 0) p.max)) (true, error ∷ [], g) _ tt
        (Started-if (not (p.header == 83) && not (p.header == 76)) (true, error ∷ [], g) _ tt
          (Started-if (first_byte p.watchdog == 33)
            (start_listen port listen (gate_set p 0 (pos_part p.max) g)) _
            (start_listen-Started port listen p 0 (pos_part p.max) g)
            (Started-if (queryname p.watchdog == 0) (true, error ∷ [], record g { watchdog = 0 })
              (start_listen port listen (gate_set p (queryname p.watchdog) (pos_part p.max) g)) tt
              (start_listen-Started port listen p (queryname p.watchdog) (pos_part p.max) g)))))

-- The gates that there are: one that `gate_init` has set up without an error, and what `_cb` makes of
-- one with a message that may come. A gate asks for names as `queryname` answers.
pub data Reached (queryname : List ℕ → ℕ) : Gate → Type 0 where
  begun :
      (port listen : ℤ) (p : Parm) (g g' : Gate) (calls : List Call)
      → gate_init queryname port listen p g ≡ (false, calls, g')
      → Reached queryname g'
  received :
      (g g' : Gate) (m : Message) (kept : Bool) (calls : List Call)
      → Reached queryname g
      → CanCome g m
      → cb queryname g m ≡ some (kept, calls, g')
      → Reached queryname g'

sound : (queryname : List ℕ → ℕ) (g : Gate) → Reached queryname g → IsSound g
sound queryname g (begun port listen p g₀ g' calls e) =
    subst Started e (gate_init-Started queryname port listen p g₀)
sound queryname g (received g₀ g' m kept calls before can e) =
    subst KeptIf e (cb-KeptIf queryname g₀ m (sound queryname g₀ before) can)

ends :
    (o : Option (Bool × List Call × Gate))
    → KeptIf o
    → (kept : Bool) × (calls : List Call) × (g' : Gate) × (o ≡ some (kept, calls, g'))
ends none v = absurd v
ends (some (kept, calls, g')) v = (kept, calls, g', refl)

-- In every gate that is reached the table of numbers and the connections agree: the table leads from
-- each number to the place of the connection with this number, and no other place has it. Each
-- buffer is a valid chain of messages. And `_cb` ends on every message that may come: one that is
-- accepted comes from the listening socket, with a number that is not in use, and that stays within
-- 31 bits when the greatest number of connections is added.
pub Reached-IsSound :
    (queryname : List ℕ → ℕ) (g : Gate)
    → Reached queryname g
    → IsSound g
      × ((m : Message)
          → CanCome g m
          → (kept : Bool) × (calls : List Call) × (g' : Gate) × (cb queryname g m
              ≡ some (kept, calls, g')))
Reached-IsSound queryname g reached = (
  sound queryname g reached,
  λ m can. ends (cb queryname g m) (cb-KeptIf queryname g m (sound queryname g reached) can),
)
