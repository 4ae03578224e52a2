-- ===== src/Mq/Window.antt =====
-- Reading a ring cell by cell: what moving `head`, writing a cell and copying the cells change.
use skynet_server.Common.{
  ℕ, zero, suc, ◌+◌, ◌-◌, ◌%◌, ◌<◌, ◌≡◌, ◌≢◌, refl, sym, ap, ap₂, ◌∙◌, List, [], ◌∷◌, ◌++◌,
  append_assoc, arith, length, length-append, get_or, set, mod-add-mod, mod-eq_of_lt,
  mod-eq-sub-mod, dec_lt, mod-lt, add-zero, get_or-set_self, get_or-set_ne,
}
use skynet_server.Mq.{Message, Queue, size, copy_cells, advance}
use skynet_server.Mq.Inv.{IsValid, length-copy_cells}

pub get_or-middle :
    (xs ys : List Message) (y : Message) (d : Message) → get_or (xs ++ y ∷ ys) (length xs) d ≡ y
get_or-middle [] ys y d = refl
get_or-middle (x ∷ xs) ys y d = get_or-middle xs ys y d

-- The messages that a queue holds.
abbrev pub contents : Message → Queue → List Message
contents junk q = copy_cells junk q 0 (size q)

pub length-contents : (junk : Message) (q : Queue) → length (contents junk q) ≡ size q
length-contents junk q = length-copy_cells junk q 0 (size q)

-- One step round the ring.
pub advance-mod : (cap h : ℕ) → h < cap → advance cap h ≡ (h + 1) % cap
advance-mod cap h p = elim (dec_lt (h + 1) cap) [
  | yes q ↦ ground (arith, mod-eq_of_lt q)
  | no q ↦ ground (
    arith,
    mod-eq-sub-mod {n = h + 1} {m = cap} (omega arith),
    mod-eq_of_lt {n = h + 1 - cap} {m = cap} (omega arith),
  )
]

pub size-lt-cap : (q : Queue) → IsValid q → size q < q.cap
unfolding size
size-lt-cap q v = ground arith

-- Fewer than `cap` steps round the ring do not come back to where they started.
pub mod_ne : (cap h i n : ℕ) → h < cap → i < n → n < cap → (h + i) % cap ≢ (h + n) % cap
mod_ne cap h i n p q r = elim (dec_lt (h + i) cap) [
  | yes a ↦ elim (dec_lt (h + n) cap) [
    | yes b ↦ omega (arith, mod-eq_of_lt a, mod-eq_of_lt b)
    | no b ↦ omega (
      arith,
      mod-eq_of_lt a,
      mod-eq-sub-mod {n = h + n} {m = cap} (omega arith),
      mod-eq_of_lt {n = h + n - cap} {m = cap} (omega arith),
    )
  ]
  | no a ↦ omega (
    arith,
    mod-eq-sub-mod {n = h + i} {m = cap} (omega arith),
    mod-eq_of_lt {n = h + i - cap} {m = cap} (omega arith),
    mod-eq-sub-mod {n = h + n} {m = cap} (omega arith),
    mod-eq_of_lt {n = h + n - cap} {m = cap} (omega arith),
  )
]

pub tail-mod : (q : Queue) → IsValid q → (q.head + size q) % q.cap ≡ q.tail
unfolding size
tail-mod q v = elim (dec_lt q.tail q.head) [
  | yes p ↦ ground (
    arith,
    mod-eq-sub-mod {n = q.head + (q.tail + q.cap - q.head)} {m = q.cap} (omega arith),
    mod-eq_of_lt {n = q.head + (q.tail + q.cap - q.head) - q.cap} {m = q.cap} (omega arith),
  )
  | no p ↦ ground (arith, mod-eq_of_lt {n = q.head + (q.tail - q.head)} {m = q.cap} (omega arith))
]

-- The ring read from one cell further on.
pub copy_cells-advance :
    (junk : Message) (q : Queue) (i n : ℕ)
    → q.head < q.cap
    → copy_cells junk q (i + 1) n ≡ copy_cells junk (record q { head = advance q.cap q.head }) i n
unfolding copy_cells
copy_cells-advance junk q i zero h = refl
copy_cells-advance junk q i (suc n) h =
    ap₂ ◌∷◌ (ap (λ k. get_or q.queue k junk) shift) (copy_cells-advance junk q (i + 1) n h)
  where
    shift : (q.head + (i + 1)) % q.cap ≡ (advance q.cap q.head + i) % q.cap
    shift = rw (advance-mod q.cap q.head h, mod-add-mod) (ap (λ k. k % q.cap) (omega arith))

pub copy_cells-cong :
    (junk : Message) (q r : Queue) (i n : ℕ)
    → r.head ≡ q.head
    → r.cap ≡ q.cap
    → r.queue ≡ q.queue
    → copy_cells junk r i n ≡ copy_cells junk q i n
unfolding copy_cells
copy_cells-cong junk q r i zero a b c = refl
copy_cells-cong junk q r i (suc n) a b c =
    ap₂ ◌∷◌ (rw (a, b, c)) (copy_cells-cong junk q r (i + 1) n a b c)

-- A message stored just past `n` messages extends them.
pub copy_cells-set :
    (junk : Message) (q : Queue) (m : Message) (t i n : ℕ)
    → length q.queue ≡ q.cap
    → q.head < q.cap
    → i + n < q.cap
    → t ≡ (q.head + (i + n)) % q.cap
    → copy_cells junk (record q { queue = set q.queue t m }) i (suc n)
      ≡ copy_cells junk q i n ++ m ∷ []
unfolding copy_cells
copy_cells-set junk q m t i zero l h b e = ap (λ x. x ∷ []) (rw (add-zero) at found)
  where
    found : get_or (set q.queue t m) ((q.head + (i + zero)) % q.cap) junk ≡ m
    found = rw (← e) (
        get_or-set_self q.queue t m junk
          (omega (arith, mod-lt (q.head + (i + zero)) {m = q.cap} (omega arith))))
copy_cells-set junk q m t i (suc n) l h b e =
    ap₂ ◌∷◌ (get_or-set_ne q.queue t ((q.head + i) % q.cap) m junk apart) (
      copy_cells-set junk q m t (i + 1) n l h (omega arith)
        (e ∙ ap (λ k. (q.head + k) % q.cap) (omega arith)))
  where
    apart : t ≢ (q.head + i) % q.cap
    apart p = mod_ne q.cap q.head i (i + suc n) h (omega arith) b (sym p ∙ e)

-- The fresh half of a grown ring is never read: its first cells hold the old messages in order.
pub copy_cells-middle :
    (junk : Message) (q : Queue) (i : ℕ) (xs ys zs : List Message)
    → q.head ≡ 0
    → q.queue ≡ xs ++ (ys ++ zs)
    → i ≡ length xs
    → i + length ys < q.cap
    → copy_cells junk q i (length ys) ≡ ys
unfolding copy_cells
copy_cells-middle junk q i xs [] zs h e n b = refl
copy_cells-middle junk q i xs (y ∷ ys) zs h e n b =
    ap₂ ◌∷◌ (rw (e, h, at_i, n) (get_or-middle xs (ys ++ zs) y junk)) (
      copy_cells-middle junk q (i + 1) (xs ++ y ∷ []) ys zs h
        (e ∙ sym (append_assoc xs (y ∷ []) (ys ++ zs))) (omega (arith, length-append xs (y ∷ [])))
        (omega arith))
  where
    at_i : (0 + i) % q.cap ≡ i
    at_i = mod-eq_of_lt (omega arith) ∙ omega arith
