-- ===== src/Context/Refs.antt =====
-- skynet/skynet-src/skynet_server.c: the counts of references to contexts, with the table of handles
-- as far as it holds references, and the threads that hold the others.
use skynet_server.Common.{
  ℕ, zero, suc, Bool, true, false, if◌then◌else◌, ◌+◌, ◌-◌, ◌==◌, ◌<◌, ◌≡◌, ◌≢◌, refl, arith, ap,
  ◌∙◌, sym, ap₂, ℕ_discrete, ==_of_ne, eq_refl,
}
use skynet_server.Common.Int.{ℤ, pos, ◌+ℤ◌, ◌-ℤ◌}

-- The contexts are numbered in the order in which they are made. `table` tells which have a handle,
-- `ref` is the field of each, and `total` that of `G_NODE`.
pub record Contexts : Type 0 where
  pub next : ℕ
  pub alive : ℕ → Bool
  pub table : ℕ → Bool
  pub ref : ℕ → ℕ
  pub total : ℤ

abbrev pub put {ℓ} : {A : Type ℓ} → ℕ → A → (ℕ → A) → ℕ → A
put c v f k = if c == k then v else f k

-- `skynet_context_new`, whose module has an instance, up to the call of its init function: one
-- reference is that of the table, and one
-- that of the caller.
unfoldable pub context_new : Contexts → Contexts
context_new w = record {
  next = suc w.next;
  alive = put w.next true w.alive;
  table = put w.next true w.table;
  ref = put w.next 2 w.ref;
  total = w.total +ℤ pos 1;
}

-- `skynet_context_grab`
unfoldable pub context_grab : ℕ → Contexts → Contexts
context_grab c w = record w { ref = put c (w.ref c + 1) w.ref }

-- `skynet_context_reserve`
unfoldable pub context_reserve : ℕ → Contexts → Contexts
unfolding context_grab
context_reserve c w = let w' = context_grab c w in record w' { total = w'.total -ℤ pos 1 }

-- `delete_context`
unfoldable pub delete_context : ℕ → Contexts → Contexts
delete_context c w = record w { alive = put c false w.alive; total = w.total -ℤ pos 1 }

-- `skynet_context_release`
unfoldable pub context_release : ℕ → Contexts → Contexts
unfolding delete_context
context_release c w =
    let w' = record w { ref = put c (w.ref c - 1) w.ref } in
    if w'.ref c == 0 then delete_context c w' else w'

-- What a retired handle leaves: its reference is now that of the thread.
unfoldable pub handle_remove : ℕ → Contexts → Contexts
handle_remove c w = record w { table = put c false w.table }

-- How many of the first `n` contexts are alive.
abbrev pub one_if : Bool → ℕ
one_if true = 1
one_if false = 0

abbrev pub living : ℕ → (ℕ → Bool) → ℕ
living zero alive = 0
living (suc n) alive = one_if (alive n) + living n alive

pub put_self {ℓ} : {A : Type ℓ} (c : ℕ) (v : A) (f : ℕ → A) → put c v f c ≡ v
put_self c v f = rw (eq_refl c) refl

pub put-ne {ℓ} : {A : Type ℓ} (c k : ℕ) (v : A) (f : ℕ → A) → c ≢ k → put c v f k ≡ f k
put-ne c k v f ne = rw (==_of_ne ne) refl

pub living-above :
    (n c : ℕ) (v : Bool) (alive : ℕ → Bool) → ¬ c < n → living n (put c v alive) ≡ living n alive
living-above zero c v alive above = refl
living-above (suc n) c v alive above =
    ap₂ (λ b m. one_if b + m) (put-ne c n v alive (omega arith))
      (living-above n c v alive (omega arith))

pub living-remove :
    (n c : ℕ) (alive : ℕ → Bool)
    → c < n
    → alive c ≡ true
    → living n (put c false alive) + 1 ≡ living n alive
living-remove zero c alive lt e = absurd (omega arith)
living-remove (suc n) c alive lt e = elim (ℕ_discrete c n) [
  | yes same ↦
      let off : put c false alive n ≡ false =
        ap (put c false alive) (sym same) ∙ put_self c false alive in
      let on : alive n ≡ true = ap alive (sym same) ∙ e in
      let low = living-above n c false alive (omega arith) in
      ap₂ (λ a b. one_if a + b + 1) off low
      ∙ omega arith
      ∙ ap (λ a. one_if a + living n alive) (sym on)
  | no ne ↦
      let ih = living-remove n c alive (omega arith) e in
      ap (λ b. one_if b + living n (put c false alive) + 1) (put-ne c n false alive ne)
      ∙ omega arith
]
