-- ===== src/Seri/Total.antt =====
-- skynet/lualib-src/lua-seri.c: unpacking ends on any bytes.
use skynet_server.Common.{
  List, [], ◌∷◌, true, false, ℕ, zero, suc, Bool, if◌then◌else◌, length, ◌<◌, ◌≤◌, ◌+◌, ◌-◌, ◌*◌,
  ◌==◌, ltb, arith, drop, take, ◌&&◌, not, ◌^◌,
}
use skynet_server.Common.Int.{ℤ, pos}
use skynet_server.Seri.{
  Value, Items, Pairs, integer, real, pointer, str, table, empty, cons, end, pair,
}
use skynet_server.Seri.Bytes.{of_bytes, int32, int64}
use skynet_server.Seri.Unpack.{
  Result, ok, invalid, too_big, stuck, ◌>>=◌, Read, rb_read, int_of, as_value, get_integer,
  get_bytes, get_buffer, get_text, rounds, Body, make_table, sized_table, long_table, unpack_table,
  push_value, is_nil, pair_of, unpack_one, unpack_array, unpack_pairs, type_of, cookie_of,
}

-- A read ends, with an error or with at most `k` bytes left.
abbrev Ends {ℓ} : {A : Type ℓ} → ℕ → Result (A × List ℕ) → Type 0
Ends k (ok (a, rest)) = length rest ≤ k
Ends k invalid = Unit {0}
Ends k too_big = Unit {0}
Ends k stuck = ⊥

Ends-if {ℓ} :
    {A : Type ℓ} (k : ℕ) (b : Bool) (m m' : Result (A × List ℕ))
    → Ends k m
    → Ends k m'
    → Ends k (if b then m else m')
Ends-if k true m m' e e' = e
Ends-if k false m m' e e' = e'

Ends-weaken {ℓ} : {A : Type ℓ} (k k' : ℕ) (m : Result (A × List ℕ)) → k ≤ k' → Ends k m → Ends k' m
Ends-weaken k k' (ok (a, rest)) le e = omega arith
Ends-weaken k k' invalid le e = e
Ends-weaken k k' too_big le e = e
Ends-weaken k k' stuck le e = e

Ends-bind {ℓ κ} :
    {A : Type ℓ} {B : Type κ} (k k' : ℕ) (m : Result (A × List ℕ))
    (f : A × List ℕ → Result (B × List ℕ))
    → Ends k m
    → ((a : A) (rest : List ℕ) → length rest ≤ k → Ends k' (f (a, rest)))
    → Ends k' (m >>= f)
Ends-bind k k' (ok (a, rest)) f e next = next a rest e
Ends-bind k k' invalid f e next = tt
Ends-bind k k' too_big f e next = tt
Ends-bind k k' stuck f e next = absurd e

length-drop_le {ℓ} : {A : Type ℓ} (n : ℕ) (xs : List A) → length (drop n xs) ≤ length xs
length-drop_le zero xs = ground arith
length-drop_le (suc n) [] = ground arith
length-drop_le (suc n) (x ∷ xs) = let ih = length-drop_le n xs in omega arith

rb_read-Ends : (k sz : ℕ) (rb : List ℕ) → length rb ≤ k → Ends k (rb_read sz rb)
unfolding rb_read
rb_read-Ends k sz rb le =
    let low = length-drop_le sz rb in
    Ends-if k (ltb (length rb) sz) invalid (ok (take sz rb, drop sz rb)) tt (omega arith)

read-Ends :
    (k sz : ℕ) (f : ℕ → ℤ) (rb : List ℕ) → length rb ≤ k → Ends k (rb_read sz rb >>= int_of f)
read-Ends k sz f rb le =
    Ends-bind k k (rb_read sz rb) (int_of f) (rb_read-Ends k sz rb le) (λ b rest low. low)

get_integer-Ends : (k c : ℕ) (rb : List ℕ) → length rb ≤ k → Ends k (get_integer c rb)
unfolding get_integer
get_integer-Ends k c rb le = Ends-if k (c == 0) _ _ le (
    Ends-if k (c == 1) _ _ (read-Ends k 1 pos rb le) (
      Ends-if k (c == 2) _ _ (read-Ends k 2 pos rb le) (
        Ends-if k (c == 4) _ _ (read-Ends k 4 int32 rb le)
          (Ends-if k (c == 6) _ _ (read-Ends k 8 int64 rb le) tt))))

get_bytes-Ends :
    (make : List ℕ → Value) (k sz : ℕ) (rb : List ℕ) → length rb ≤ k → Ends k (get_bytes make sz rb)
unfolding get_bytes
get_bytes-Ends make k sz rb le =
    Ends-bind k k (rb_read sz rb) (as_value make) (rb_read-Ends k sz rb le) (λ b rest low. low)

get_buffer-Ends : (k len : ℕ) (rb : List ℕ) → length rb ≤ k → Ends k (get_buffer len rb)
unfolding get_buffer
get_buffer-Ends k len rb le =
    Ends-if k (ltb len (2 ^ 31)) (get_bytes str len rb) too_big (get_bytes-Ends str k len rb le) tt

text-Ends : (k sz : ℕ) (rb : List ℕ) → length rb ≤ k → Ends k (rb_read sz rb >>= get_text)
text-Ends k sz rb le =
    Ends-bind k k (rb_read sz rb) get_text (rb_read-Ends k sz rb le)
      (λ b rest low. get_buffer-Ends k (of_bytes b) rest low)

module _ (k : ℕ) (body : Body)
    (good : (n : ℕ) (r : List ℕ) → length r ≤ k → Ends k (body n r)) where
  make_table-Ends : (r : Read (Items × Pairs)) → Ends k r → Ends k (make_table r)
  make_table-Ends r e =
      Ends-bind k k r (λ ((xs, ps), rest). ok (table xs ps, rest)) e (λ a rest low. low)

  long_table-Ends : (b r : List ℕ) → length r ≤ k → Ends k (long_table body (b, r))
  long_table-Ends b r le =
      Ends-if k (type_of (of_bytes b) == 2 && not (cookie_of (of_bytes b) == 8))
        (get_integer (cookie_of (of_bytes b)) r >>= sized_table body) invalid
        (Ends-bind k k (get_integer (cookie_of (of_bytes b)) r) (sized_table body)
          (get_integer-Ends k (cookie_of (of_bytes b)) r le)
          (λ n rest low. make_table-Ends (body (rounds n) rest) (good (rounds n) rest low)))
        tt

  push_value-Ends : (t c : ℕ) (rb : List ℕ) → length rb ≤ k → Ends k (push_value body t c rb)
  unfolding push_value unpack_table
  push_value-Ends t c rb le = Ends-if k (t == 0) _ _ le (
      Ends-if k (t == 1) _ _ le (
        Ends-if k (t == 2) _ _
          (Ends-if k (c == 8) _ _ (get_bytes-Ends real k 8 rb le) (
            Ends-bind k k (get_integer c rb) (as_value integer) (get_integer-Ends k c rb le)
              (λ a rest low. low)))
          (Ends-if k (t == 3) _ _ (get_bytes-Ends pointer k 8 rb le) (
            Ends-if k (t == 4) _ _ (get_buffer-Ends k c rb le) (
              Ends-if k (t == 5) _ _
                (Ends-if k (c == 2) _ _ (text-Ends k 2 rb le)
                  (Ends-if k (c == 4) _ _ (text-Ends k 4 rb le) tt))
                (Ends-if k (t == 6) _ _
                  (Ends-if k (c == 31) _ _
                    (Ends-bind k k (rb_read 1 rb) (long_table body) (rb_read-Ends k 1 rb le)
                      long_table-Ends)
                    (make_table-Ends (body c rb) (good c rb le)))
                  tt))))))

mutual
  unfolding unpack_one

  one-Ends :
      (k f : ℕ) (rb : List ℕ) → length rb ≤ suc k → 3 * length rb < f → Ends k (unpack_one f rb)
  one-Ends k zero rb le fuel = absurd (omega arith)
  one-Ends k (suc f) [] le fuel = tt
  one-Ends k (suc f) (t ∷ rb) le fuel =
      Ends-weaken (length rb) k (unpack_one (suc f) (t ∷ rb)) (omega arith) (
        push_value-Ends (length rb) (unpack_array f)
          (λ n r low. array-Ends (length rb) f n r low (omega arith)) (type_of t) (cookie_of t) rb
          (omega arith))

  array-Ends :
      (k f n : ℕ) (rb : List ℕ)
      → length rb ≤ k
      → 3 * length rb + 2 < f
      → Ends k (unpack_array f n rb)
  array-Ends k zero n rb le fuel = absurd (omega arith)
  array-Ends k (suc f) zero rb le fuel =
      Ends-bind k k (unpack_pairs f rb) (λ (ps, r). ok ((empty, ps), r))
        (pairs-Ends k f rb le (omega arith)) (λ a rest low. low)
  array-Ends k (suc zero) (suc n) rb le fuel = absurd (omega arith)
  array-Ends k (suc (suc f)) (suc n) [] le fuel = tt
  array-Ends k (suc (suc f)) (suc n) (t ∷ rb) le fuel =
      Ends-bind (length rb) k (unpack_one (suc f) (t ∷ rb))
        (λ (v, r). unpack_array (suc f) n r >>= λ ((xs, ps), r'). ok ((cons v xs, ps), r'))
        (one-Ends (length rb) (suc f) (t ∷ rb) (omega arith) (omega arith))
        (λ v r low.
          Ends-bind k k (unpack_array (suc f) n r) (λ ((xs, ps), r'). ok ((cons v xs, ps), r'))
            (array-Ends k (suc f) n r (omega arith) (omega arith)) (λ a rest low. low))

  pairs-Ends :
      (k f : ℕ) (rb : List ℕ) → length rb ≤ k → 3 * length rb + 1 < f → Ends k (unpack_pairs f rb)
  pairs-Ends k zero rb le fuel = absurd (omega arith)
  pairs-Ends k (suc zero) rb le fuel = absurd (omega arith)
  pairs-Ends k (suc (suc f)) [] le fuel = tt
  pairs-Ends k (suc (suc f)) (t ∷ rb) le fuel =
      Ends-bind (length rb) k (unpack_one (suc f) (t ∷ rb))
        (pair_of (unpack_one (suc f)) (unpack_pairs (suc f)))
        (one-Ends (length rb) (suc f) (t ∷ rb) (omega arith) (omega arith))
        (λ x r low.
          elim (is_nil x)
            as (λ b. Ends k (elim b as (λ _. Read Pairs) [
              | true ↦ ok (end, r)
              | false ↦ unpack_one (suc f) r >>= λ (v, r').
                  unpack_pairs (suc f) r' >>= λ (ps, r''). ok (pair x v ps, r'')
            ])) [
              | true ↦ omega arith
              | false ↦
                  Ends-bind (length rb - 1) k (unpack_one (suc f) r)
                    (λ (v, r'). unpack_pairs (suc f) r' >>= λ (ps, r''). ok (pair x v ps, r''))
                    (one-Ends (length rb - 1) (suc f) r (omega arith) (omega arith))
                    (λ v r' low'.
                      Ends-bind k k (unpack_pairs (suc f) r') (λ (ps, r''). ok (pair x v ps, r''))
                        (pairs-Ends k (suc f) r' (omega arith) (omega arith)) (λ a rest low. low))
            ])

-- Reading values to the end of the bytes ends.
abbrev IsFinished {ℓ} : {A : Type ℓ} → Result A → Type 0
IsFinished (ok a) = Unit {0}
IsFinished invalid = Unit {0}
IsFinished too_big = Unit {0}
IsFinished stuck = ⊥
