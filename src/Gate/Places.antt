-- ===== src/Gate/Places.antt =====
-- skynet/service-src/service_gate.c: the connections of the gate and the numbers in its table agree.
use skynet_server.Common.{
  List, [], ◌∷◌, ℕ, false, Option, none, some, some-injective, ◌<◌, ◌≡◌, ◌≢◌, inl, inr, refl, arith,
  ap, ◌∙◌, sym, subst, Option-cases, Bool-cases, ℕ_discrete, take, ◌+◌, ◌≤◌, ◌^◌,
}
use skynet_server.Common.Int.{pos, negsuc, pos_part}
use skynet_server.Common.Options.{◌>>=◌}
use skynet_server.Buffer.{DataBuffer, Pool}
use skynet_server.Buffer as Buffer
use skynet_server.Hashid.{lookup, full, insert, remove}
use skynet_server.Hashid.Places.{used-le}
use skynet_server.Hashid.Chains.{lookup-at}
use skynet_server.Hashid.Update.{insert_lem}
use skynet_server.Hashid.Remove.{remove_lem, remove_missing}
use skynet_server.Gate.{Gate, Call, socket_close}
use skynet_server.Gate.Header.{Holds}
use skynet_server.Gate.Total.{dispatch_message-Finishes}
use skynet_server.Gate.Control.{set_conn}
use skynet_server.Gate.Socket.{
  SocketMessage, Kind, arrived, connected, closed, accepted, failed, warned, udp,
  dispatch_socket_message, on_kind, on_data, on_connect, on_close, on_accept, is_id, no_connection,
}
use skynet_server.Gate.Sound.{
  IsSound, keeps_conn, set_conn_self, set_conn-ne, one_number, CanArriveAs, CanArrive, Keeps,
}

module _ (g : Gate) (m : SocketMessage) (v : IsSound g) where
  on_data-Keeps : (o : Option ℕ) → Keeps (on_data g m o)
  on_data-Keeps none = (_, g, refl, v)
  on_data-Keeps (some i) =
      let (s, h) = v.received i in
      let (calls, db, mp, t, run, holds) =
        dispatch_message-Finishes g m.id (g.conn i) s m.buffer v.headed.0 v.headed.1 h in
      (
        calls,
        _,
        ap
            (λ o. o >>= λ (calls, c, mp).
              some (calls, record g { conn = set_conn i c g.conn; mp = mp }))
            run,
        keeps_conn g v i (record (g.conn i) { buffer = db }) mp t refl holds,
      )

  on_connect-Keeps : (o : Option ℕ) → Keeps (on_connect g m o)
  on_connect-Keeps none = (_, g, refl, v)
  on_connect-Keeps (some i) = (_, g, refl, v)

  on_close-Keeps : Keeps (on_close g m (remove g.hash m.id))
  unfolding Buffer.clear
  on_close-Keeps = elim (Option-cases (lookup g.hash m.id)) [
    | inl missing ↦ ([], g, ap (on_close g m) (remove_missing g.hash m.id missing), v)
    | inr (i, e) ↦
        let (found, valid, _, gone, others) = remove_lem g.hash m.id i v.valid e in
        (
          _,
          _,
          ap (λ o. on_close g m (o, (remove g.hash m.id).1)) found,
          record {
            valid = valid;
            known = λ x k f.
                let ne : x ≢ m.id = (λ same.
                  let h : none ≡ some k =
                    sym gone ∙ ap (lookup (remove g.hash m.id).1) (sym same) ∙ f in
                  cc) in
                let kept = sym (others x ne) ∙ f in
                let apart : i ≢ k =
                  (λ same. ne (one_number g.hash x m.id k v.valid kept (e ∙ ap some same))) in
                ap (λ c. c.id) (set_conn-ne i k no_connection g.conn apart) ∙ v.known x k kept;
            used = λ x k f. elim (ℕ_discrete i k) [
              | yes same ↦
                  let h : negsuc 0 ≡ pos x =
                    ap (λ c. c.id) (sym (set_conn_self i no_connection g.conn))
                    ∙ ap (λ k. (set_conn i no_connection g.conn k).id) same
                    ∙ f in
                  cc
              | no apart ↦
                  let was =
                    v.used x k
                      (ap (λ c. c.id) (sym (set_conn-ne i k no_connection g.conn apart)) ∙ f) in
                  let ne : x ≢ m.id = (λ same.
                    apart (some-injective i k (sym e ∙ ap (lookup g.hash) (sym same) ∙ was))) in
                  others x ne ∙ was
            ];
            received = λ k. elim (ℕ_discrete i k) [
              | yes same ↦ (
                [],
                subst (λ b. Holds g.header_size b [])
                    (ap (λ c. c.buffer)
                      (sym (set_conn_self i no_connection g.conn)
                        ∙ ap (set_conn i no_connection g.conn) same))
                    (record {
                      valid = record { within = refl; sized = refl };
                      since = inl (refl, refl);
                    }),
              )
              | no ne ↦
                  let (t, h) = v.received k in
                  (
                    t,
                    subst (λ b. Holds g.header_size b t)
                        (ap (λ c. c.buffer) (sym (set_conn-ne i k no_connection g.conn ne))) h,
                  )
            ];
            headed = v.headed;
          },
        )
  ]

  on_accept-Keeps :
      lookup g.hash m.ud ≡ none
      → m.ud + g.hash.cap ≤ 2 ^ 31
      → full g.hash ≡ false
      → Keeps (insert g.hash m.ud >>= on_accept g m)
  on_accept-Keeps fresh range room =
      let below = used-le g.hash.cap g.hash.id in
      let counted = v.valid.counted in
      let lt : g.hash.count < g.hash.cap = ground arith in
      let absent : (k : ℕ) → k < g.hash.cap → g.hash.id k ≢ some m.ud = (λ k lt e.
        let h : none ≡ some k = sym fresh ∙ lookup-at g.hash k m.ud v.valid lt e in cc) in
      let (i, hi, run, valid, _, here, others) = insert_lem g.hash m.ud v.valid range lt absent in
      let c = record (g.conn i) { id = pos m.ud; remote_name = take 31 m.name } in
      let (s, h) = v.received i in
      (
        _,
        _,
        ap (λ o. o >>= on_accept g m) run,
        record {
          valid = valid;
          known = λ x k f. elim (ℕ_discrete x m.ud) [
            | yes same ↦
                let at : i ≡ k = some-injective i k (sym here ∙ ap (lookup hi) (sym same) ∙ f) in
                ap (λ k. (set_conn i c g.conn k).id) (sym at)
                ∙ ap (λ c. c.id) (set_conn_self i c g.conn)
                ∙ ap pos (sym same)
            | no ne ↦
                let apart : i ≢ k =
                  (λ same. ne (one_number hi x m.ud k valid f (here ∙ ap some same))) in
                ap (λ c. c.id) (set_conn-ne i k c g.conn apart)
                ∙ v.known x k (sym (others x ne) ∙ f)
          ];
          used = λ x k f. elim (ℕ_discrete i k) [
            | yes same ↦
                let h : pos m.ud ≡ pos x =
                  ap (λ c. c.id) (sym (set_conn_self i c g.conn))
                  ∙ ap (λ k. (set_conn i c g.conn k).id) same
                  ∙ f in
                let num : m.ud ≡ x = ap pos_part h in ap (lookup hi) (sym num) ∙ here ∙ ap some same
            | no apart ↦
                let was = v.used x k (ap (λ c. c.id) (sym (set_conn-ne i k c g.conn apart)) ∙ f) in
                let ne : x ≢ m.ud = (λ same.
                  let h : none ≡ some k = sym fresh ∙ ap (lookup g.hash) (sym same) ∙ was in cc) in
                others x ne ∙ was
          ];
          received = λ k. elim (ℕ_discrete i k) [
            | yes same ↦ (
              s,
              subst (λ b. Holds g.header_size b s)
                  (ap (λ c. c.buffer)
                    (sym (set_conn_self i c g.conn) ∙ ap (set_conn i c g.conn) same))
                  h,
            )
            | no ne ↦
                let (t, h) = v.received k in
                (
                  t,
                  subst (λ b. Holds g.header_size b t)
                      (ap (λ c. c.buffer) (sym (set_conn-ne i k c g.conn ne))) h,
                )
          ];
          headed = v.headed;
        },
      )

on_kind-Keeps :
    (g : Gate) (m : SocketMessage) (k : Kind)
    → IsSound g
    → CanArriveAs g m k
    → Keeps (on_kind g m k)
unfolding on_kind
on_kind-Keeps g m arrived v can = on_data-Keeps g m v (lookup g.hash m.id)
on_kind-Keeps g m connected v can = elim (Bool-cases (is_id g.listen_id m.id)) [
  | inl listening ↦ ([], g, rw listening refl, v)
  | inr other ↦
      let (calls, g', run, v') = on_connect-Keeps g m v (lookup g.hash m.id) in
      (calls, g', rw other run, v')
]
on_kind-Keeps g m closed v can = on_close-Keeps g m v
on_kind-Keeps g m failed v can = on_close-Keeps g m v
on_kind-Keeps g m accepted v (listening, fresh, range) = elim (Bool-cases (full g.hash)) [
  | inl none_free ↦ (socket_close (pos m.ud) ∷ [], g, rw (listening, none_free) refl, v)
  | inr room ↦
      let (calls, g', run, v') = on_accept-Keeps g m v fresh range room in
      (calls, g', rw (listening, room) run, v')
]
on_kind-Keeps g m warned v can = (_, g, refl, v)
on_kind-Keeps g m udp v can = (_, g, refl, v)

-- `dispatch_socket_message` ends on every message that may arrive, and keeps the gate sound: the
-- table leads from each number to the place of the connection with this number, and no other place
-- has it; and each buffer is a valid chain of messages.
pub dispatch_socket_message-IsSound :
    (g : Gate) (m : SocketMessage)
    → IsSound g
    → CanArrive g m
    → (calls : List Call) × (g' : Gate) × (dispatch_socket_message g m ≡ some (calls, g'))
      × IsSound g'
dispatch_socket_message-IsSound g m v can = on_kind-Keeps g m m.kind v can
