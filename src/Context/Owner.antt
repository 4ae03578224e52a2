-- ===== src/Context/Owner.antt =====
-- skynet/skynet-src/skynet_server.c: the data of a message that is sent has one owner.
use Prim.Native.Nat.{bit_and, bit_or}
use skynet_server.Common.{
  List, ℕ, true, false, Option, none, some, if◌then◌else◌, ◌*◌, ◌/◌, ◌^◌, ◌==◌, ◌≡◌, ◌≢◌, ◌&&◌, not,
  refl, sym, subst, Bool-cases, ==_of_ne, eq_refl, inl, inr, get_or, drop,
}
use skynet_server.Common.Int.{ℤ, negsuc}
use skynet_server.Common.Options.{◌>>=◌}
use skynet_server.Gate.Control.{strtoul}
use skynet_server.Context.{
  Context, Node, Event, Sent, send, sendname, filter_args, allocate, has_tag, tag_dontcopy,
  tag_allocsession, message_type_mask, message_type_shift, deliver, to_name, give_back,
}
use skynet_server.Context.Disposal.{
  Disposes-if, one, harbored-Disposes, deliver-Disposes, once, disposed, Disposes,
}

-- What is done with the data, and with a copy of it.
abbrev pub owned : ℕ → ℕ → ℕ → ℕ → ℕ → ℕ
owned copy type message sz p =
    if has_tag type tag_dontcopy
    then once (message == p)
    else if bit_and sz message_type_mask == sz
    then once (copy == p)
    else 0

module _ (p copy type message sz : ℕ) (given : message ≢ 0) (made : copy ≢ 0) where
  abbrev sent : ℕ
  sent = if not (has_tag type tag_dontcopy) && not (message == 0) then copy else message

  sent_one : sent ≡ (if has_tag type tag_dontcopy then message else copy)
  sent_one = elim (Bool-cases (has_tag type tag_dontcopy)) [
    | inl tag ↦ rw tag refl
    | inr no_tag ↦ rw (no_tag, ==_of_ne given) refl
  ]

  sent_owned :
      (bit_and sz message_type_mask == sz) ≡ true
      → (sent ≢ 0) × (once (sent == p) ≡ owned copy type message sz p)
  sent_owned fits = elim (Bool-cases (has_tag type tag_dontcopy)) [
    | inl tag ↦ rw tag (given, refl)
    | inr no_tag ↦ rw (no_tag, ==_of_ne given, fits) (made, refl)
  ]

  too_large :
      (bit_and sz message_type_mask == sz) ≡ false
      → disposed p (give_back type message) ≡ owned copy type message sz p
  too_large large = elim (Bool-cases (has_tag type tag_dontcopy)) [
    | inl tag ↦ rw tag (one p message)
    | inr no_tag ↦ rw (no_tag, large) refl
  ]

  -- After the filtering of the arguments.
  filtered-Disposes :
      (n : ℕ) (session : ℤ) (ctx : Context) (next : ℤ × ℕ × ℕ × Context → Sent)
      → ((s : ℤ) (z : ℕ) (c : Context) → Disposes p n (next (s, sent, z, c)))
      → Disposes p n (filter_args copy type session message sz ctx >>= next)
  unfolding filter_args
  filtered-Disposes n session ctx next all =
      by_session (allocate (has_tag type tag_allocsession) session ctx)
    where
      by_session :
          (o : Option (ℤ × Context))
          → Disposes p n (
              (o >>= λ (s, c).
              some (s, sent, bit_or sz (bit_and type 0xff * 2 ^ message_type_shift), c))
              >>= next)
      by_session none = tt
      by_session (some (s, c)) = all s (bit_or sz (bit_and type 0xff * 2 ^ message_type_shift)) c

  -- The two ways through `skynet_send`.
  send_large :
      (node : Node) (source destination : ℕ) (session : ℤ) (ctx : Context)
      → (bit_and sz message_type_mask == sz) ≡ false
      → send node copy source destination type session message sz ctx
        ≡ some (negsuc 1, ctx, give_back type message)
  unfolding send
  send_large node source destination session ctx large = rw large refl

  send_fits :
      (node : Node) (source destination : ℕ) (session : ℤ) (ctx : Context)
      → (bit_and sz message_type_mask == sz) ≡ true
      → send node copy source destination type session message sz ctx
        ≡ (filter_args copy type session message sz ctx >>= deliver node source destination)
  unfolding send
  send_fits node source destination session ctx fits = rw fits refl

  filtered_then :
      (session : ℤ) (ctx : Context) (next : ℤ × ℕ × ℕ × Context → Sent)
      → (bit_and sz message_type_mask == sz) ≡ true
      → ((s : ℤ) (z : ℕ) (c : Context)
          → sent ≢ 0
          → Disposes p (once (sent == p)) (next (s, sent, z, c)))
      → Disposes p
          (owned copy type message sz p)
          (filter_args copy type session message sz ctx >>= next)
  filtered_then session ctx next fits all =
      let (ne, e) = sent_owned fits in
      subst (λ n. Disposes p n (filter_args copy type session message sz ctx >>= next)) e
        (filtered-Disposes (once (sent == p)) session ctx next (λ s z c. all s z c ne))

  send-Disposes :
      (node : Node) (source destination : ℕ) (session : ℤ) (ctx : Context)
      → Disposes p
          (owned copy type message sz p)
          (send node copy source destination type session message sz ctx)
  send-Disposes node source destination session ctx =
      elim (Bool-cases (bit_and sz message_type_mask == sz)) [
        | inr large ↦
            subst (Disposes p (owned copy type message sz p))
              (sym (send_large node source destination session ctx large)) (too_large large)
        | inl fits ↦
            subst (Disposes p (owned copy type message sz p))
              (sym (send_fits node source destination session ctx fits))
              (filtered_then session ctx (deliver node source destination) fits
                (λ s z c ne. deliver-Disposes p node source destination s sent z c ne))
      ]

  -- The name that only the harbor knows.
  global-Disposes :
      (node : Node) (from : ℕ) (addr : List ℕ) (session : ℤ) (ctx : Context)
      → Disposes p (owned copy type message sz p) (
          if not (bit_and sz message_type_mask == sz)
          then some (negsuc 1, ctx, give_back type message)
          else (filter_args copy type session message sz ctx >>= to_name node from addr))
  global-Disposes node from addr session ctx =
      elim (Bool-cases (bit_and sz message_type_mask == sz)) [
        | inr large ↦
            subst
              (λ b. Disposes p (owned copy type message sz p) (
                if not b
                then some (negsuc 1, ctx, give_back type message)
                else (filter_args copy type session message sz ctx >>= to_name node from addr)))
              (sym large) (too_large large)
        | inl fits ↦
            subst
              (λ b. Disposes p (owned copy type message sz p) (
                if not b
                then some (negsuc 1, ctx, give_back type message)
                else (filter_args copy type session message sz ctx >>= to_name node from addr)))
              (sym fits)
              (filtered_then session ctx (to_name node from addr) fits (λ s z c ne.
                harbored-Disposes p node.remote 0 _ from s sent (bit_and z message_type_mask)
                  (z / 2 ^ message_type_shift) s c))
      ]

-- On every way through `skynet_send`, also where it returns an error: data that the caller gives away
-- (a type with PTYPE_TAG_DONTCOPY) is freed or handed to a service or the harbor, in all exactly once.
-- Other data is left alone, and the copy that is made of it is disposed of exactly once; none is
-- made of data that is too large. Neither the data nor the copy is NULL.
pub send-owned :
    (p : ℕ) (node : Node) (copy source destination type message sz : ℕ) (session r : ℤ)
    (ctx ctx' : Context) (es : List Event)
    → message ≢ 0
    → copy ≢ 0
    → send node copy source destination type session message sz ctx ≡ some (r, ctx', es)
    → disposed p es ≡ owned copy type message sz p
send-owned p node copy source destination type message sz session r ctx ctx' es given made e =
    subst (Disposes p (owned copy type message sz p)) e
      (send-Disposes p copy type message sz given made node source destination session ctx)

-- `skynet_sendname` frees data that the caller gives away, or hands it on, exactly once, whatever the
-- name is and whether there is a service with it.
pub sendname-owned :
    (findname : List ℕ → ℕ) (node : Node) (copy source : ℕ) (addr : List ℕ) (type message sz : ℕ)
    (session r : ℤ) (ctx ctx' : Context) (es : List Event)
    → message ≢ 0
    → copy ≢ 0
    → has_tag type tag_dontcopy ≡ true
    → sendname findname node copy source addr type session message sz ctx ≡ some (r, ctx', es)
    → disposed message es ≡ 1
unfolding sendname
sendname-owned findname node copy source addr type message sz session r ctx ctx' es given made tag
      e =
    subst (Disposes message 1) e (
      Disposes-if message 1 (get_or addr 0 0 == 58) _ _ (to (strtoul (drop 1 addr))) (
        Disposes-if message 1 (get_or addr 0 0 == 46) _ _
          (Disposes-if message 1 (findname (drop 1 addr) == 0) _ _ missing
            (to (findname (drop 1 addr))))
          (subst
            (λ n. Disposes message n (
              if not (bit_and sz message_type_mask == sz)
              then some (negsuc 1, ctx, give_back type message)
              else (filter_args copy type session message sz ctx >>= to_name node from addr)))
            mine
            (global-Disposes message copy type message sz given made node from addr session ctx))))
  where
    from : ℕ
    from = if source == 0 then ctx.handle else source

    mine : owned copy type message sz message ≡ 1
    mine = rw (tag, eq_refl message) refl

    to : (d : ℕ) → Disposes message 1 (send node copy from d type session message sz ctx)
    to d =
        subst (λ n. Disposes message n (send node copy from d type session message sz ctx)) mine
          (send-Disposes message copy type message sz given made node from d session ctx)

    missing : disposed message (give_back type message) ≡ 1
    missing = rw (tag, eq_refl message) refl
