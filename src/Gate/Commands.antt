-- ===== src/Gate/Commands.antt =====
-- skynet/service-src/service_gate.c: the commands in text on a sound gate.
use skynet_server.Common.{
  List, [], ◌∷◌, ℕ, Bool, true, false, Option, none, some, refl, if◌then◌else◌, length,
}
use skynet_server.Common.Int.{ℤ, pos, negsuc, ltb_ℤ}
use skynet_server.Gate.{Gate, Call, socket_close, socket_start}
use skynet_server.Gate.Control.{
  ctrl, parm, strtol, strsep, word, fits, kick_word, forward_word, broker_word, start_word,
  close_word, if_known, forward_words, forward_to, handle_of, behind, forward_agent, set_agent,
  lookup_int,
}
use skynet_server.Gate.Sound.{IsSound, keeps_conn}

-- A handler ends, and leaves the gate sound.
abbrev pub SoundIf : Option (List Call × Gate) → Type 0
SoundIf none = ⊥
SoundIf (some (calls, g)) = IsSound g

SoundIf-if :
    (b : Bool) (r s : Option (List Call × Gate))
    → SoundIf r
    → SoundIf s
    → SoundIf (if b then r else s)
SoundIf-if true r s v w = v
SoundIf-if false r s v w = w

-- Only the socket it listens on and the broker are different.
same_places :
    (g : Gate) (listen : ℤ) (broker : ℕ)
    → IsSound g
    → IsSound (record g { listen_id = listen; broker = broker })
same_places g listen broker v = record {
  valid = v.valid;
  known = v.known;
  used = v.used;
  received = v.received;
  headed = v.headed;
}

set_agent-IsSound : (a c : ℕ) (g : Gate) (o : Option ℕ) → IsSound g → IsSound (set_agent a c g o)
set_agent-IsSound a c g none v = v
set_agent-IsSound a c g (some i) v =
    let (s, h) = v.received i in
    keeps_conn g v i (record (g.conn i) { agent = a; client = c }) g.mp s refl h

if_known-SoundIf :
    (g : Gate) (call : ℤ → Call) (uid : ℤ) → IsSound g → SoundIf (if_known g call uid)
if_known-SoundIf g call uid v =
    elim (lookup_int g.hash uid)
      as (λ o. SoundIf (elim o [ none ↦ some ([], g) | some i ↦ some (call uid ∷ [], g) ])) [
        | none ↦ v
        | some i ↦ v
      ]

forward_to-SoundIf :
    (g : Gate) (after idstr : List ℕ) (r : List ℕ × Option (List ℕ))
    → IsSound g
    → SoundIf (forward_to g after idstr r)
unfolding forward_agent
forward_to-SoundIf g after idstr (agent, none) v = v
forward_to-SoundIf g after idstr (agent, some client) v =
    set_agent-IsSound (handle_of agent client) (handle_of client after) g
      (lookup_int g.hash (strtol idstr)) v

forward_words-SoundIf :
    (g : Gate) (after : List ℕ) (r : List ℕ × Option (List ℕ))
    → IsSound g
    → SoundIf (forward_words g after r)
forward_words-SoundIf g after (idstr, none) v = v
forward_words-SoundIf g after (idstr, some rest) v =
    forward_to-SoundIf g after idstr (strsep rest) v

pub ctrl-SoundIf :
    (queryname : List ℕ → ℕ) (g : Gate) (msg : List ℕ) → IsSound g → SoundIf (ctrl queryname g msg)
unfolding ctrl
ctrl-SoundIf queryname g [] v = v
ctrl-SoundIf queryname g (b ∷ bs) v =
    let msg = b ∷ bs in
    let command = word msg in
    let rest = parm msg (length command) in
    SoundIf-if (fits command kick_word) _ _ (if_known-SoundIf g socket_close (strtol rest) v) (
      SoundIf-if (fits command forward_word) _ _
        (forward_words-SoundIf g (behind msg (length command)) (strsep rest) v)
        (SoundIf-if (fits command broker_word) _ _ (same_places g g.listen_id (queryname rest) v) (
          SoundIf-if (fits command start_word) _ _ (if_known-SoundIf g socket_start (strtol rest) v)
            (SoundIf-if (fits command close_word) _ _
              (SoundIf-if (ltb_ℤ g.listen_id (pos 0)) _ _ v (same_places g (negsuc 0) g.broker v))
              v))))
