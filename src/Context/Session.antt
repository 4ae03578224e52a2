-- ===== src/Context/Session.antt =====
-- skynet/skynet-src/skynet_server.c: the numbers of requests do not come again for a long time.
use skynet_server.Common.{
  ℕ, zero, suc, true, false, ◌+◌, ◌-◌, ◌%◌, ◌^◌, ◌==◌, ◌<◌, ◌≡◌, ◌≢◌, leb, arith, ◌∙◌, dec_lt,
}
use skynet_server.Context.{Context, newsession}

-- The number after `k` others.
abbrev pub session_after : ℕ → Context → ℕ
session_after zero ctx = (newsession ctx).0
session_after (suc k) ctx = session_after k (newsession ctx).1

newsession-next :
    (ctx : Context)
    → ctx.session_id < 2 ^ 31
    → ((newsession ctx).0 ≡ ctx.session_id % (2 ^ 31 - 1) + 1)
      × ((newsession ctx).1.session_id ≡ ctx.session_id % (2 ^ 31 - 1) + 1)
unfolding newsession
newsession-next ctx lt = elim (dec_lt (ctx.session_id + 1) (2 ^ 31)) [
  | yes inside ↦
      let e : (ctx.session_id + 1) % 2 ^ 32 ≡ ctx.session_id + 1 = omega arith in
      let a : (ctx.session_id + 1 == 0) ≡ false = ground arith in
      let b : leb (2 ^ 31) (ctx.session_id + 1) ≡ false = ground arith in
      rw (e, a, b) (omega arith, omega arith)
  | no over ↦
      let e : (ctx.session_id + 1) % 2 ^ 32 ≡ ctx.session_id + 1 = omega arith in
      let a : (ctx.session_id + 1 == 0) ≡ false = ground arith in
      let b : leb (2 ^ 31) (ctx.session_id + 1) ≡ true = ground arith in
      rw (e, a, b) (omega arith, omega arith)
]

pub session_after_lem :
    (k : ℕ) (ctx : Context)
    → ctx.session_id < 2 ^ 31
    → session_after k ctx ≡ (ctx.session_id + k) % (2 ^ 31 - 1) + 1
session_after_lem zero ctx lt = (newsession-next ctx lt).0 ∙ omega arith
session_after_lem (suc k) ctx lt =
    let next = (newsession-next ctx lt).1 in
    session_after_lem k (newsession ctx).1 (omega arith) ∙ omega arith

-- The numbers that `skynet_context_newsession` gives one after the other are positive as an `int`,
-- from any state that it can be in, and none comes again within 2^31 - 2 calls.
pub newsession_fresh :
    (ctx : Context) (i j : ℕ)
    → ctx.session_id < 2 ^ 31
    → i < j
    → j < i + (2 ^ 31 - 1)
    → (0 < session_after i ctx)
      × (session_after i ctx < 2 ^ 31)
      × (session_after i ctx ≢ session_after j ctx)
newsession_fresh ctx i j lt before near =
    let a = session_after_lem i ctx lt in
    let b = session_after_lem j ctx lt in (omega arith, omega arith, λ e. omega arith)
