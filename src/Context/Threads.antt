-- ===== src/Context/Threads.antt =====
-- skynet/skynet-src/skynet_server.c: the steps of the threads with the contexts, and what is counted.
use skynet_server.Common.{
  ℕ, Bool, true, false, ◌+◌, ◌-◌, ◌==◌, ◌<◌, ◌≡◌, ◌≢◌, refl, arith, ap, ◌∙◌, sym, subst, dec_lt,
  ℕ_discrete, ==_of_ne,
}
use skynet_server.Common.Int.{pos, ◌-ℤ◌, pos_part, neg_part}
use skynet_server.Context.Refs.{
  Contexts, put, context_new, context_grab, context_reserve, delete_context, context_release,
  handle_remove, living, one_if, put_self,
}

-- The contexts, with the references that the threads hold to each, and how many of the contexts have
-- been reserved in all.
pub record System : Type 0 where
  pub world : Contexts
  pub held : ℕ → ℕ
  pub reserved : ℕ

abbrev pub start : System
start = record {
  world = record { next = 0; alive = λ c. false; table = λ c. false; ref = λ c. 0; total = pos 0 };
  held = λ c. 0;
  reserved = 0;
}

-- The steps of the threads: a context is made; `skynet_handle_grab` finds one in the table; a thread
-- that holds a context reserves it; a handle is taken out of the table; a reference is given back.
-- Finding and retiring are critical sections of the table's lock. The other steps are one atomic access
-- to `ref` each, taken together with the count of the total, and with the deletion after the last one.
pub data Step (s : System) : System → Type 0 where
  made : Step s (record s {
    world = context_new s.world;
    held = put s.world.next (s.held s.world.next + 1) s.held;
  })
  grabbed :
      (c : ℕ)
      → s.world.table c ≡ true
      → Step s (record s { world = context_grab c s.world; held = put c (s.held c + 1) s.held })
  kept :
      (c : ℕ)
      → 0 < s.held c
      → Step s (record {
        world = context_reserve c s.world;
        held = put c (s.held c + 1) s.held;
        reserved = s.reserved + 1;
      })
  removed :
      (c : ℕ)
      → s.world.table c ≡ true
      → Step s (record s { world = handle_remove c s.world; held = put c (s.held c + 1) s.held })
  released :
      (c : ℕ)
      → 0 < s.held c
      → Step s (record s { world = context_release c s.world; held = put c (s.held c - 1) s.held })

pub data Run : System → Type 0 where
  first : Run start
  next : (s s' : System) → Run s → Step s s' → Run s'

-- A context that is alive counts the references of the threads and of the table, and there is one; to
-- another there is none. The total counts the contexts that are alive, but for those reserved.
abbrev pub Fine : Bool → Bool → ℕ → ℕ → Type 0
Fine alive table ref held =
    (alive ≡ true → (ref ≡ held + one_if table) × (0 < ref))
    × (alive ≡ false → (held ≡ 0) × (table ≡ false))

pub record Counted (s : System) : Type 0 where
  pub fine : (c : ℕ) → Fine (s.world.alive c) (s.world.table c) (s.world.ref c) (s.held c)
  pub unmade : (c : ℕ) → ¬ c < s.world.next → s.world.alive c ≡ false
  pub total :
      pos_part s.world.total + s.reserved
      ≡ living s.world.next s.world.alive + neg_part s.world.total

pub Fine-cong :
    (a t : Bool) (r h : ℕ) (a' t' : Bool) (r' h' : ℕ)
    → a' ≡ a
    → t' ≡ t
    → r' ≡ r
    → h' ≡ h
    → Fine a t r h
    → Fine a' t' r' h'
Fine-cong a t r h a' t' r' h' ea et er eh f = rw (ea, et, er, eh) f

-- A step changes what belongs to one context.
pub Fine-everywhere :
    (c : ℕ) (a a' t t' : ℕ → Bool) (r r' h h' : ℕ → ℕ)
    → ((k : ℕ) → c ≢ k → (a' k ≡ a k) × (t' k ≡ t k) × (r' k ≡ r k) × (h' k ≡ h k))
    → Fine (a' c) (t' c) (r' c) (h' c)
    → ((k : ℕ) → Fine (a k) (t k) (r k) (h k))
    → (k : ℕ) → Fine (a' k) (t' k) (r' k) (h' k)
Fine-everywhere c a a' t t' r r' h h' off here all k = elim (ℕ_discrete c k) [
  | yes e ↦ subst (λ k. Fine (a' k) (t' k) (r' k) (h' k)) e here
  | no ne ↦
      let (ea, et, er, eh) = off k ne in
      Fine-cong (a k) (t k) (r k) (h k) (a' k) (t' k) (r' k) (h' k) ea et er eh (all k)
]

-- A context to which there is a reference is alive.
pub held_alive : (a t : Bool) (r h : ℕ) → Fine a t r h → 0 < h → a ≡ true
held_alive true t r h f lt = refl
held_alive false t r h f lt = let (none, _) = f.1 refl in absurd (omega arith)

pub table_alive : (a t : Bool) (r h : ℕ) → Fine a t r h → t ≡ true → a ≡ true
table_alive true t r h f e = refl
table_alive false t r h f e = absurd (let g : true ≡ false = sym e ∙ (f.1 refl).1 in cc)

pub alive_made : (s : System) (c : ℕ) → Counted s → s.world.alive c ≡ true → c < s.world.next
alive_made s c v e = elim (dec_lt c s.world.next) [
  | yes lt ↦ lt
  | no above ↦ absurd (let g : true ≡ false = sym e ∙ v.unmade c above in cc)
]

-- One more reference to a context that is alive.
pub Fine-more : (t : Bool) (r h : ℕ) (a : Bool) → a ≡ true → Fine a t r h → Fine a t (r + 1) (h + 1)
Fine-more t r h a e f =
    let (same, some_left) = f.0 e in
    (λ on. (omega arith, omega arith), λ off. absurd (let g : true ≡ false = sym e ∙ off in cc))

pub one_if-zero : (b : Bool) → one_if b ≡ 0 → b ≡ false
one_if-zero true e = absurd (omega arith)
one_if-zero false e = refl

-- The two ends of `skynet_context_release`.
module _ (c : ℕ) (w : Contexts) where
  abbrev pub less : Contexts
  less = record w { ref = put c (w.ref c - 1) w.ref }

  pub release_last :
      w.ref c - 1 ≡ 0
      → context_release c w ≡ record less { alive = put c false w.alive; total = w.total -ℤ pos 1 }
  unfolding context_release delete_context
  release_last e =
      let z : (put c (w.ref c - 1) w.ref c == 0) ≡ true =
        ap (λ n. n == 0) (put_self c (w.ref c - 1) w.ref ∙ e) in
      rw z refl

  pub release_more : w.ref c - 1 ≢ 0 → context_release c w ≡ less
  unfolding context_release
  release_more ne =
      let z : (put c (w.ref c - 1) w.ref c == 0) ≡ false =
        ap (λ n. n == 0) (put_self c (w.ref c - 1) w.ref) ∙ ==_of_ne ne in
      rw z refl
