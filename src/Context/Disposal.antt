-- ===== src/Context/Disposal.antt =====
-- skynet/skynet-src/skynet_server.c: what becomes of the data of a message, behind the filtering.
use Prim.Native.Nat.{bit_and}
use skynet_server.Common.{
  List, [], ◌∷◌, ℕ, Bool, true, false, Option, none, some, if◌then◌else◌, ◌+◌, ◌/◌, ◌^◌, ◌==◌, ◌≡◌,
  ◌≢◌, ◌&&◌, not, arith, ==_of_ne,
}
use skynet_server.Common.Int.{ℤ, negsuc}
use skynet_server.Common.Options.{◌>>=◌, assert}
use skynet_server.Context.{
  Context, Node, Event, freed, pushed, harbored, Sent, message_type_mask, message_type_shift,
  deliver, hand_over, harbor_send, message_isremote,
}

-- How often memory is freed or given to another owner.
abbrev pub once : Bool → ℕ
once true = 1
once false = 0

abbrev pub disposed : ℕ → List Event → ℕ
disposed p [] = 0
disposed p (freed q ∷ es) = once (q == p) + disposed p es
disposed p (pushed d s n q z ∷ es) = once (q == p) + disposed p es
disposed p (harbored d name s n q z t ∷ es) = once (q == p) + disposed p es

-- Sending disposes of memory so many times, if no assert fails.
abbrev pub Disposes : ℕ → ℕ → Sent → Type 0
Disposes p n none = Unit {0}
Disposes p n (some (r, ctx, es)) = disposed p es ≡ n

pub Disposes-if :
    (p n : ℕ) (b : Bool) (r s : Sent)
    → Disposes p n r
    → Disposes p n s
    → Disposes p n (if b then r else s)
Disposes-if p n true r s e f = e
Disposes-if p n false r s e f = f

-- One event that disposes of `q`.
pub one : (p q : ℕ) → once (q == p) + 0 ≡ once (q == p)
one p q = omega arith

pub harbored-Disposes :
    (p : ℕ) (remote : Bool) (handle : ℕ) (name : List ℕ) (source : ℕ) (session : ℤ) (q sz type : ℕ)
    (r : ℤ) (ctx : Context)
    → Disposes p
        (once (q == p))
        (harbor_send remote handle name source session q sz type >>= λ e. some (r, ctx, e ∷ []))
harbored-Disposes p remote handle name source session q sz type r ctx =
    by_assert ((not (type == 4) && not (type == 5)) && remote)
  where
    by_assert :
        (b : Bool)
        → Disposes p (once (q == p)) (
            (assert b >>= λ _. some (harbored handle name source session q sz type)) >>= λ e.
            some (r, ctx, e ∷ []))
    by_assert true = one p q
    by_assert false = tt

hand_over-Disposes :
    (p : ℕ) (node : Node) (source destination : ℕ) (session : ℤ) (q sz : ℕ) (ctx : Context)
    (b : Bool)
    → Disposes p (once (q == p)) (hand_over node source destination (session, q, sz, ctx) b)
hand_over-Disposes p node source destination session q sz ctx true =
    harbored-Disposes p node.remote destination [] source session q (bit_and sz message_type_mask)
      (sz / 2 ^ message_type_shift) session ctx
hand_over-Disposes p node source destination session q sz ctx false =
    Disposes-if p (once (q == p)) (node.lives destination)
      (some (session, ctx, pushed destination source session q sz ∷ []))
      (some (negsuc 0, ctx, freed q ∷ [])) (one p q) (one p q)

remote-Disposes :
    (p : ℕ) (node : Node) (source destination : ℕ) (session : ℤ) (q sz : ℕ) (ctx : Context)
    (o : Option Bool)
    → Disposes p (once (q == p)) (o >>= hand_over node source destination (session, q, sz, ctx))
remote-Disposes p node source destination session q sz ctx none = tt
remote-Disposes p node source destination session q sz ctx (some b) =
    hand_over-Disposes p node source destination session q sz ctx b

pub deliver-Disposes :
    (p : ℕ) (node : Node) (source destination : ℕ) (session : ℤ) (q sz : ℕ) (ctx : Context)
    → q ≢ 0
    → Disposes p (once (q == p)) (deliver node source destination (session, q, sz, ctx))
deliver-Disposes p node source destination session q sz ctx ne =
    Disposes-if p (once (q == p)) (destination == 0) _ _ (rw (==_of_ne ne) (one p q)) (
      remote-Disposes p node (if source == 0 then ctx.handle else source) destination session q sz
        ctx (message_isremote node.harbor destination))
