-- ===== src/Context/Sizes.antt =====
-- skynet/skynet-src/skynet_server.c: what a message to a service carries.
use Prim.Native.Nat.{bit_and, bit_or}
use skynet_server.Common.{
  [], ◌∷◌, ℕ, true, false, some, if◌then◌else◌, ◌+◌, ◌*◌, ◌/◌, ◌%◌, ◌^◌, ◌==◌, ◌<◌, ◌≡◌, ◌≢◌, ◌&&◌,
  not, refl, arith, ap, ◌∙◌, ==_of_ne, eq_refl,
}
use skynet_server.Common.Int.{ℤ}
use skynet_server.Common.Bits.{and-mask, or-below}
use skynet_server.Context.{
  Context, Node, pushed, send, filter_args, has_tag, tag_dontcopy, tag_allocsession,
  message_type_mask, message_type_shift, message_isremote,
}

-- The size with the type, as one number.
with_type :
    (sz type : ℕ)
    → sz < 2 ^ 56
    → bit_or sz (bit_and type 0xff * 2 ^ 56) ≡ type % 2 ^ 8 * 2 ^ 56 + sz
with_type sz type lt =
    or-below 56 (bit_and type 0xff) sz lt ∙ ap (λ t. t * 2 ^ 56 + sz) (and-mask 8 type)

fits_mask : (sz : ℕ) → sz < 2 ^ 56 → (bit_and sz message_type_mask == sz) ≡ true
fits_mask sz lt =
    ap (λ n. n == sz) (and-mask 56 sz ∙ let e : sz % 2 ^ 56 ≡ sz = omega arith in e) ∙ eq_refl sz

-- A message that is sent to a service of this node that is there, without a request of a new
-- session: it is put on the queue of the service, with the source or else the sender, and
-- `dispatch_message` reads the type without its tags and the size back from the number it carries. The
-- data is a copy unless the caller has given it away.
pub send_local :
    (node : Node) (copy source destination type message sz : ℕ) (session : ℤ) (ctx : Context)
    → sz < 2 ^ 56
    → has_tag type tag_allocsession ≡ false
    → destination ≢ 0
    → message_isremote node.harbor destination ≡ some false
    → node.lives destination ≡ true
    → (carried : ℕ) × (send node copy source destination type session message sz ctx
        ≡ some (
          session,
          ctx,
          pushed destination
                (if source == 0 then ctx.handle else source)
                session
                (if not (has_tag type tag_dontcopy) && not (message == 0) then copy else message)
                carried
              ∷ [],
        ))
      × (carried / 2 ^ message_type_shift ≡ type % 2 ^ 8)
      × (bit_and carried message_type_mask ≡ sz)
unfolding send filter_args
send_local node copy source destination type message sz session ctx lt no_session ne local lives =
    let carried = bit_or sz (bit_and type 0xff * 2 ^ message_type_shift) in
    let e = with_type sz type lt in
    (
      carried,
      rw (fits_mask sz lt, no_session, ==_of_ne ne, local, lives) refl,
      omega arith,
      and-mask 56 carried ∙ omega arith,
    )
