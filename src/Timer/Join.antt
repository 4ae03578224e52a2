-- ===== src/Timer/Join.antt =====
-- `add_node` and the loop of `move_list`: the nodes join the wheel, and none is lost.
use skynet_server.Common.{
  ℕ, inl, inr, List, [], ◌∷◌, ◌++◌, ◌<◌, ◌≡◌, ◌⊎◌, subst, ◌^◌, eq_refl, if◌then◌else◌, ap, ◌==◌,
  refl, ◌∙◌, sym, Bool, true, ==_iff, false, ◌&&◌, and_true, ap₂,
}
use skynet_server.Timer.{TimerNode, Timer, add_node, add_all}
use mathlib.Core.Bool.{false≢true}
use skynet_server.Timer.Placed.{Among, DueNear, DueLevel, IsPlaced, Waits, IsDue}
use skynet_server.Timer.Add.{add_node-cases, nearer, farther}

pub Among-front : (n : TimerNode) (xs ys : List TimerNode) → Among n xs → Among n (xs ++ ys)
Among-front n [] ys h = absurd h
Among-front n (x ∷ xs) ys (inl e) = inl e
Among-front n (x ∷ xs) ys (inr h) = inr (Among-front n xs ys h)

pub Among-back : (n : TimerNode) (xs ys : List TimerNode) → Among n ys → Among n (xs ++ ys)
Among-back n [] ys h = h
Among-back n (x ∷ xs) ys h = inr (Among-back n xs ys h)

pub Among-split :
    (n : TimerNode) (xs ys : List TimerNode) → Among n (xs ++ ys) → Among n xs ⊎ Among n ys
Among-split n [] ys h = inr h
Among-split n (x ∷ xs) ys (inl e) = inl (inl e)
Among-split n (x ∷ xs) ys (inr h) = elim (Among-split n xs ys h) [
  | inl a ↦ inl (inr a)
  | inr b ↦ inr b
]

-- The nodes have joined the wheel.
pub record Joined (nodes : List TimerNode) (w w' : Timer) : Type 0 where
  pub placed : IsPlaced w'
  pub same_time : w'.time ≡ w.time
  pub adds : (n : TimerNode) → Among n nodes → Waits n w'
  pub keeps : (n : TimerNode) → Waits n w → Waits n w'
  pub only : (n : TimerNode) → Waits n w' → Waits n w ⊎ Among n nodes

-- One cell of an array, when the node has joined the list `xs` of the cell with the test `b`.
module _ (n node : TimerNode) where
  cell_split :
      (b : Bool) (xs ys : List TimerNode)
      → (b ≡ true → xs ≡ ys)
      → Among n (if b then xs ++ node ∷ [] else ys)
      → Among n ys ⊎ ((b ≡ true) × (node ≡ n))
  cell_split true xs ys e h = elim (Among-split n xs (node ∷ []) h) [
    | inl a ↦ inl (subst (Among n) (e refl) a)
    | inr (inl f) ↦ inr (refl, f)
    | inr (inr none) ↦ absurd none
  ]
  cell_split false xs ys e h = inl h

  cell_keep :
      (b : Bool) (xs ys : List TimerNode)
      → (b ≡ true → xs ≡ ys)
      → Among n ys
      → Among n (if b then xs ++ node ∷ [] else ys)
  cell_keep true xs ys e h = Among-front n xs (node ∷ []) (subst (Among n) (sym (e refl)) h)
  cell_keep false xs ys e h = h

  cell_add :
      (b : Bool) (xs ys : List TimerNode)
      → b ≡ true
      → Among n (node ∷ [])
      → Among n (if b then xs ++ node ∷ [] else ys)
  cell_add true xs ys e h = Among-back n xs (node ∷ []) h
  cell_add false xs ys e h = absurd (false≢true e)

module _ (node : TimerNode) (w : Timer) (v : IsPlaced w) where
  nearer-Joined :
      (i : ℕ)
      → DueNear w.time i node.expire
      → node.expire < 2 ^ 32
      → Joined (node ∷ []) w (nearer node w i)
  nearer-Joined i due small = record {
    placed = record {
      tick = v.tick;
      near = λ k n h. elim (cell_split n node (k == i) (w.near i) (w.near k) (same k) h) [
        | inl a ↦ v.near k n a
        | inr (e, f) ↦
            subst (λ m. DueNear w.time k m.expire × (m.expire < 2 ^ 32)) f
              (subst (λ j. DueNear w.time j node.expire) (sym ((==_iff k i).0 e)) due, small)
      ];
      level = v.level;
    };
    same_time = refl;
    adds = λ n h. inl (i, cell_add n node (i == i) (w.near i) (w.near i) (eq_refl i) h);
    keeps = λ n h. elim h [
      | inl (k, a) ↦ inl (k, cell_keep n node (k == i) (w.near i) (w.near k) (same k) a)
      | inr far ↦ inr far
    ];
    only = λ n h. elim h [
      | inl (k, a) ↦ elim (cell_split n node (k == i) (w.near i) (w.near k) (same k) a) [
        | inl old ↦ inl (inl (k, old))
        | inr (e, f) ↦ inr (inl f)
      ]
      | inr far ↦ inl (inr far)
    ];
  }
    where
      same : (k : ℕ) → (k == i) ≡ true → w.near i ≡ w.near k
      same k e = ap w.near (sym ((==_iff k i).0 e))

  farther-Joined :
      (l i : ℕ)
      → DueLevel w.time l i node.expire
      → node.expire < 2 ^ 32
      → Joined (node ∷ []) w (farther node w l i)
  farther-Joined l i due small = record {
    placed = record {
      tick = v.tick;
      near = v.near;
      level = λ m k n h. elim (cell_split n node (test m k) (w.t l i) (w.t m k) (same m k) h) [
        | inl a ↦ v.level m k n a
        | inr (e, f) ↦
            subst (λ x. DueLevel w.time m k x.expire × (x.expire < 2 ^ 32)) f
              (
                subst (λ a. DueLevel w.time a k node.expire) (sym (ends m k e).0)
                    (subst (λ b. DueLevel w.time l b node.expire) (sym (ends m k e).1) due),
                small,
              )
      ];
    };
    same_time = refl;
    adds = λ n h. inr (l, i, cell_add n node (test l i) (w.t l i) (w.t l i) itself h);
    keeps = λ n h. elim h [
      | inl close ↦ inl close
      | inr (m, k, a) ↦ inr (m, k, cell_keep n node (test m k) (w.t l i) (w.t m k) (same m k) a)
    ];
    only = λ n h. elim h [
      | inl close ↦ inl (inl close)
      | inr (m, k, a) ↦ elim (cell_split n node (test m k) (w.t l i) (w.t m k) (same m k) a) [
        | inl old ↦ inl (inr (m, k, old))
        | inr (e, f) ↦ inr (inl f)
      ]
    ];
  }
    where
      test : ℕ → ℕ → Bool
      test m k = (m == l) && (k == i)

      itself : test l i ≡ true
      itself = rw (eq_refl l, eq_refl i) refl

      ends : (m k : ℕ) → test m k ≡ true → (m ≡ l) × (k ≡ i)
      ends m k e = let (a, b) = and_true e in ((==_iff m l).0 a, (==_iff k i).0 b)

      same : (m k : ℕ) → test m k ≡ true → w.t l i ≡ w.t m k
      same m k e = let (a, b) = ends m k e in ap₂ w.t (sym a) (sym b)

  -- In a wheel where every node stands where its time belongs, `add_node` of a node that is not in
  -- the past of the last level's turn adds it to the wheel, and nothing else, and every node still
  -- stands where its time belongs.
  pub add_node-Joined : IsDue w.time node.expire → Joined (node ∷ []) w (add_node node w)
  add_node-Joined due = elim (add_node-cases node w v.tick due) [
    | inl (i, d, e) ↦ subst (Joined (node ∷ []) w) (sym e) (nearer-Joined i d due.0)
    | inr (l, i, d, e) ↦ subst (Joined (node ∷ []) w) (sym e) (farther-Joined l i d due.0)
  ]

Joined-cons :
    (node : TimerNode) (nodes : List TimerNode) (w w₁ w₂ : Timer)
    → Joined (node ∷ []) w w₁
    → Joined nodes w₁ w₂
    → Joined (node ∷ nodes) w w₂
Joined-cons node nodes w w₁ w₂ one rest = record {
  placed = rest.placed;
  same_time = rest.same_time ∙ one.same_time;
  adds = λ n h. elim h [ inl e ↦ rest.keeps n (one.adds n (inl e)) | inr a ↦ rest.adds n a ];
  keeps = λ n h. rest.keeps n (one.keeps n h);
  only = λ n h. elim (rest.only n h) [
    | inl a ↦ elim (one.only n a) [
      | inl old ↦ inl old
      | inr (inl e) ↦ inr (inl e)
      | inr (inr none) ↦ absurd none
    ]
    | inr a ↦ inr (inr a)
  ];
}

-- The loop of `move_list`, over nodes that are all due.
pub add_all-Joined :
    (nodes : List TimerNode) (w : Timer)
    → IsPlaced w
    → ((n : TimerNode) → Among n nodes → IsDue w.time n.expire)
    → Joined nodes w (add_all nodes w)
unfolding add_all
add_all-Joined [] w v due = record {
  placed = v;
  same_time = refl;
  adds = λ n h. absurd h;
  keeps = λ n h. h;
  only = λ n h. inl h;
}
add_all-Joined (node ∷ nodes) w v due =
    let one = add_node-Joined node w v (due node (inl refl)) in
    Joined-cons node nodes w (add_node node w) (add_all nodes (add_node node w)) one (
      add_all-Joined nodes (add_node node w) one.placed
        (λ n h. subst (λ c. IsDue c n.expire) (sym one.same_time) (due n (inr h))))
