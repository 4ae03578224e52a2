-- ===== src/Mq/Global/Chain.antt =====
-- The global queue as a list of queue numbers: the pointers of the memory spell out the list.
use skynet_server.Common.{
  ℕ, ◌≡◌, refl, Bool, true, false, Option, none, some, List, [], ◌∷◌, ◌++◌, arith, ◌==◌, ◌||◌,
  ℕ_discrete, Bool-cases, Option-cases, inl, sym, ap, inr, ==_iff, if◌then◌else◌,
}
use skynet_server.Mq.{Queue}
use skynet_server.Mq.Global.{World, update}
use skynet_server.Common.Options.{update}

abbrev pub member : ℕ → List ℕ → Bool
member p [] = false
member p (i ∷ is) = i == p || member p is

abbrev pub Distinct : List ℕ → Type 0
Distinct [] = Unit {0}
Distinct (i ∷ is) = (member i is ≡ false) × Distinct is

abbrev pub first_id : List ℕ → Option ℕ
first_id [] = none
first_id (i ∷ is) = some i

abbrev pub last_from : ℕ → List ℕ → ℕ
last_from i [] = i
last_from i (j ∷ is) = last_from j is

abbrev pub last_id : List ℕ → Option ℕ
last_id [] = none
last_id (i ∷ is) = some (last_from i is)

abbrev pub next_of : Option Queue → Option (Option ℕ)
next_of none = none
next_of (some q) = some q.next

-- Each queue of the list points to the following one, and the last to none.
abbrev pub Linked : (ℕ → Option Queue) → List ℕ → Type 0
Linked cell [] = Unit {0}
Linked cell (i ∷ is) = (next_of (cell i) ≡ some (first_id is)) × Linked cell is

-- `struct global_queue` holds the queues `ids`, oldest first.
pub record Holds (w : World) (ids : List ℕ) : Type 0 where
  pub linked : Linked w.cell ids
  pub from : w.head ≡ first_id ids
  pub to : w.tail ≡ last_id ids
  pub distinct : Distinct ids

pub member-append : (p i : ℕ) (is : List ℕ) → member p (is ++ i ∷ []) ≡ (member p is || i == p)
member-append p i [] = ground arith
member-append p i (j ∷ is) = ground (arith, member-append p i is)

pub Distinct-append :
    (p : ℕ) (is : List ℕ) → member p is ≡ false → Distinct is → Distinct (is ++ p ∷ [])
Distinct-append p [] m d = (refl, tt)
Distinct-append p (i ∷ is) m d = ground (arith, member-append i p is, Distinct-append p is)

pub Linked-update :
    (cell : ℕ → Option Queue) (p : ℕ) (q : Queue) (is : List ℕ)
    → member p is ≡ false
    → Linked cell is
    → Linked (update cell p q) is
Linked-update cell p q [] m l = tt
Linked-update cell p q (i ∷ is) m l = ground (arith, Linked-update cell p q is)

-- A write that keeps a queue's `next` keeps the list.
pub Linked-same :
    (cell : ℕ → Option Queue) (p : ℕ) (q : Queue) (is : List ℕ)
    → next_of (cell p) ≡ some q.next
    → Linked cell is
    → Linked (update cell p q) is
Linked-same cell p q [] e l = tt
Linked-same cell p q (i ∷ is) e l = (
  elim (ℕ_discrete p i) [ yes h ↦ ground arith | no h ↦ ground arith ],
  Linked-same cell p q is e l.1,
)

pub member-last : (i : ℕ) (is : List ℕ) → member (last_from i is) (i ∷ is) ≡ true
member-last i [] = ground arith
member-last i (j ∷ is) = ground (arith, member-last j is)

last-ne : (i j : ℕ) (is : List ℕ) → member i (j ∷ is) ≡ false → (last_from j is == i) ≡ false
last-ne i j is m = elim (Bool-cases (last_from j is == i)) [
  | inl e ↦ cc (sym m, ap (λ k. member k (j ∷ is)) (sym ((==_iff _ i).0 e)), member-last j is)
  | inr e ↦ e
]

pub last-snoc : (i : ℕ) (is : List ℕ) (p : ℕ) → last_from i (is ++ p ∷ []) ≡ p
last-snoc i [] p = refl
last-snoc i (j ∷ is) p = last-snoc j is p

-- Setting the last pointer extends the list.
pub Linked-append :
    (cell : ℕ → Option Queue) (i : ℕ) (is : List ℕ) (p : ℕ) (q : Queue)
    → Linked cell (i ∷ is)
    → Distinct (i ∷ is)
    → member p (i ∷ is) ≡ false
    → next_of (cell p) ≡ some none
    → q.next ≡ some p
    → Linked (update cell (last_from i is) q) ((i ∷ is) ++ p ∷ [])
Linked-append cell i [] p q l d m n e = ground arith
Linked-append cell i (j ∷ is) p q l d m n e =
    (rw (last-ne i j is d.0) l.0, Linked-append cell j is p q l.1 d.1 (ground arith) n e)

Linked-unallocated :
    (cell : ℕ → Option Queue) (p : ℕ) (is : List ℕ)
    → cell p ≡ none
    → Linked cell is
    → member p is ≡ false
Linked-unallocated cell p [] e l = refl
Linked-unallocated cell p (i ∷ is) e l = ground (arith, Linked-unallocated cell p is e l.1)

pub allocated_of_member :
    (cell : ℕ → Option Queue) (p : ℕ) (is : List ℕ)
    → Linked cell is
    → member p is ≡ true
    → (q : Queue) × (cell p ≡ some q)
allocated_of_member cell p is l m = elim (Option-cases (cell p)) [
  | inl e ↦ absurd (cc (sym m, Linked-unallocated cell p is e l))
  | inr found ↦ found
]

pub Linked-free :
    (cell : ℕ → Option Queue) (p : ℕ) (is : List ℕ)
    → member p is ≡ false
    → Linked cell is
    → Linked (λ k. if p == k then none else cell k) is
Linked-free cell p [] m l = tt
Linked-free cell p (i ∷ is) m l = ground (arith, Linked-free cell p is)
