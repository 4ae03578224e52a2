-- ===== src/Gate/Sound.antt =====
-- skynet/service-src/service_gate.c: what makes the connections and the table of numbers agree.
use skynet_server.Common.{
  List, ℕ, true, Option, none, some, some-injective, ◌≤◌, ◌<◌, ◌≡◌, ◌≢◌, refl, ap, ◌∙◌, sym, subst,
  ℕ_discrete, ==_of_ne, eq_refl, ◌+◌, ◌^◌,
}
use skynet_server.Common.Int.{pos}
use skynet_server.Buffer.{Pool}
use skynet_server.Hashid.{Hashid, lookup}
use skynet_server.Hashid.Chains.{IsValid, lookup-holds}
use skynet_server.Gate.{Gate, Connection, Call}
use skynet_server.Gate.Header.{Holds}
use skynet_server.Gate.Control.{set_conn}
use skynet_server.Gate.Socket.{
  SocketMessage, Kind, arrived, connected, closed, accepted, failed, warned, udp, is_id,
}

-- The place of a number is that of the connection with this number, and every buffer is valid.
pub record IsSound (g : Gate) : Type 0 where
  pub valid : IsValid g.hash
  pub known : (x i : ℕ) → lookup g.hash x ≡ some i → (g.conn i).id ≡ pos x
  pub used : (x i : ℕ) → (g.conn i).id ≡ pos x → lookup g.hash x ≡ some i
  pub received : (i : ℕ) → (s : List ℕ) × Holds g.header_size (g.conn i).buffer s
  pub headed : (0 < g.header_size) × (g.header_size ≤ 4)

-- A message that the sockets may send: a connection that is accepted comes from the socket that the
-- gate listens on, and its number is not in use and stays within 31 bits when the greatest number of
-- connections is added.
abbrev pub CanArriveAs : Gate → SocketMessage → Kind → Type 0
CanArriveAs g m accepted =
    (is_id g.listen_id m.id ≡ true) × (lookup g.hash m.ud ≡ none) × (m.ud + g.hash.cap ≤ 2 ^ 31)
CanArriveAs g m arrived = Unit {0}
CanArriveAs g m connected = Unit {0}
CanArriveAs g m closed = Unit {0}
CanArriveAs g m failed = Unit {0}
CanArriveAs g m warned = Unit {0}
CanArriveAs g m udp = Unit {0}

abbrev pub CanArrive : Gate → SocketMessage → Type 0
CanArrive g m = CanArriveAs g m m.kind

pub set_conn_self : (i : ℕ) (c : Connection) (conn : ℕ → Connection) → set_conn i c conn i ≡ c
set_conn_self i c conn = rw (eq_refl i) refl

pub set_conn-ne :
    (i k : ℕ) (c : Connection) (conn : ℕ → Connection) → i ≢ k → set_conn i c conn k ≡ conn k
set_conn-ne i k c conn ne = rw (==_of_ne ne) refl

-- A place holds one number.
pub one_number :
    (hi : Hashid) (x y i : ℕ) → IsValid hi → lookup hi x ≡ some i → lookup hi y ≡ some i → x ≡ y
one_number hi x y i v e f =
    some-injective x y (sym (lookup-holds hi i x v e).1 ∙ (lookup-holds hi i y v f).1)

-- The handler ends, and the gate is sound again.
abbrev pub Keeps : Option (List Call × Gate) → Type 0
Keeps run = (calls : List Call) × (g' : Gate) × (run ≡ some (calls, g')) × IsSound g'

module _ (g : Gate) (v : IsSound g) where
  -- A connection keeps its number, and its buffer stays valid.
  pub keeps_conn :
      (i : ℕ) (c : Connection) (mp : Pool) (s : List ℕ)
      → c.id ≡ (g.conn i).id
      → Holds g.header_size c.buffer s
      → IsSound (record g { conn = set_conn i c g.conn; mp = mp })
  keeps_conn i c mp s same holds = record {
    valid = v.valid;
    known = λ x k e. numbers k ∙ v.known x k e;
    used = λ x k e. v.used x k (sym (numbers k) ∙ e);
    received = λ k. elim (ℕ_discrete i k) [
      | yes e ↦ (
        s,
        subst (λ b. Holds g.header_size b s)
            (ap (λ c. c.buffer) (sym (set_conn_self i c g.conn) ∙ ap (set_conn i c g.conn) e))
            holds,
      )
      | no ne ↦
          let (t, h) = v.received k in
          (
            t,
            subst (λ b. Holds g.header_size b t)
                (ap (λ c. c.buffer) (sym (set_conn-ne i k c g.conn ne))) h,
          )
    ];
    headed = v.headed;
  }
    where
      numbers : (k : ℕ) → (set_conn i c g.conn k).id ≡ (g.conn k).id
      numbers k = elim (ℕ_discrete i k) [
        | yes e ↦
            ap (λ k. (set_conn i c g.conn k).id) (sym e)
            ∙ ap (λ c. c.id) (set_conn_self i c g.conn)
            ∙ same
            ∙ ap (λ k. (g.conn k).id) e
        | no ne ↦ ap (λ c. c.id) (set_conn-ne i k c g.conn ne)
      ]
