-- ===== src/Context/Counted.antt =====
-- skynet/skynet-src/skynet_server.c: each step of the threads keeps the counts of references right.
use skynet_server.Common.{
  ℕ, true, false, ◌+◌, ◌-◌, ◌<◌, ◌≡◌, ◌≢◌, refl, arith, ap, ◌∙◌, sym, subst, ℕ_discrete,
}
use skynet_server.Common.Int.{pos, ◌+ℤ◌, pos_part, neg_part, +ℤ_parts, -ℤ_parts}
use skynet_server.Context.Refs.{
  put, context_new, context_grab, context_reserve, context_release, handle_remove, living, one_if,
  put_self, put-ne, living-above, living-remove,
}
use skynet_server.Context.Threads.{
  System, Step, made, grabbed, kept, removed, released, Fine, Counted, Fine-cong, Fine-everywhere,
  Fine-more, held_alive, table_alive, alive_made, one_if-zero, release_last, release_more,
}

module _ (s : System) (v : Counted s) where
  grab-Fine :
      (c : ℕ)
      → s.world.alive c ≡ true
      → (k : ℕ)
      → Fine
          (s.world.alive k)
          (s.world.table k)
          (put c (s.world.ref c + 1) s.world.ref k)
          (put c (s.held c + 1) s.held k)
  grab-Fine c on =
      Fine-everywhere c s.world.alive s.world.alive s.world.table s.world.table s.world.ref
        (put c (s.world.ref c + 1) s.world.ref) s.held (put c (s.held c + 1) s.held)
        (λ k ne. (
          refl,
          refl,
          put-ne c k (s.world.ref c + 1) s.world.ref ne,
          put-ne c k (s.held c + 1) s.held ne,
        ))
        (Fine-cong (s.world.alive c) (s.world.table c) (s.world.ref c + 1) (s.held c + 1) _ _ _ _
          refl refl (put_self c (s.world.ref c + 1) s.world.ref) (put_self c (s.held c + 1) s.held)
          (Fine-more (s.world.table c) (s.world.ref c) (s.held c) (s.world.alive c) on (v.fine c)))
        v.fine

  made-Fine :
      (k : ℕ)
      → Fine
          (put s.world.next true s.world.alive k)
          (put s.world.next true s.world.table k)
          (put s.world.next 2 s.world.ref k)
          (put s.world.next (s.held s.world.next + 1) s.held k)
  made-Fine =
      let n = s.world.next in
      let (none, _) = (v.fine n).1 (v.unmade n (λ lt. omega arith)) in
      Fine-everywhere n s.world.alive (put n true s.world.alive) s.world.table
        (put n true s.world.table) s.world.ref (put n 2 s.world.ref) s.held
        (put n (s.held n + 1) s.held)
        (λ k ne. (
          put-ne n k true s.world.alive ne,
          put-ne n k true s.world.table ne,
          put-ne n k 2 s.world.ref ne,
          put-ne n k (s.held n + 1) s.held ne,
        ))
        (Fine-cong true true 2 (s.held n + 1) _ _ _ _ (put_self n true s.world.alive)
          (put_self n true s.world.table) (put_self n 2 s.world.ref)
          (put_self n (s.held n + 1) s.held)
          (λ on. (omega arith, omega arith), λ off. absurd (let g : true ≡ false = off in cc)))
        v.fine

  remove-Fine :
      (c : ℕ)
      → s.world.table c ≡ true
      → (k : ℕ)
      → Fine
          (s.world.alive k)
          (put c false s.world.table k)
          (s.world.ref k)
          (put c (s.held c + 1) s.held k)
  remove-Fine c found =
      let on =
        table_alive (s.world.alive c) (s.world.table c) (s.world.ref c) (s.held c) (v.fine c)
          found in
      let (same, positive) = (v.fine c).0 on in
      let one : one_if (s.world.table c) ≡ 1 = ap one_if found in
      Fine-everywhere c s.world.alive s.world.alive s.world.table (put c false s.world.table)
        s.world.ref s.world.ref s.held (put c (s.held c + 1) s.held)
        (λ k ne.
          (refl, put-ne c k false s.world.table ne, refl, put-ne c k (s.held c + 1) s.held ne))
        (Fine-cong (s.world.alive c) false (s.world.ref c) (s.held c + 1) _ _ _ _ refl
          (put_self c false s.world.table) refl (put_self c (s.held c + 1) s.held)
          (
            λ _. (omega arith, omega arith),
            λ off. absurd (let g : true ≡ false = sym on ∙ off in cc),
          ))
        v.fine

  -- A reference that is not the last is given back.
  less-Fine :
      (c : ℕ)
      → s.world.alive c ≡ true
      → 0 < s.held c
      → s.world.ref c - 1 ≢ 0
      → (k : ℕ)
      → Fine
          (s.world.alive k)
          (s.world.table k)
          (put c (s.world.ref c - 1) s.world.ref k)
          (put c (s.held c - 1) s.held k)
  less-Fine c on some_held left =
      let (same, positive) = (v.fine c).0 on in
      Fine-everywhere c s.world.alive s.world.alive s.world.table s.world.table s.world.ref
        (put c (s.world.ref c - 1) s.world.ref) s.held (put c (s.held c - 1) s.held)
        (λ k ne. (
          refl,
          refl,
          put-ne c k (s.world.ref c - 1) s.world.ref ne,
          put-ne c k (s.held c - 1) s.held ne,
        ))
        (Fine-cong (s.world.alive c) (s.world.table c) (s.world.ref c - 1) (s.held c - 1) _ _ _ _
          refl refl (put_self c (s.world.ref c - 1) s.world.ref) (put_self c (s.held c - 1) s.held)
          (
            λ _. (omega arith, omega arith),
            λ off. absurd (let g : true ≡ false = sym on ∙ off in cc),
          ))
        v.fine

  last-Fine :
      (c : ℕ)
      → s.world.alive c ≡ true
      → 0 < s.held c
      → s.world.ref c - 1 ≡ 0
      → (k : ℕ)
      → Fine
          (put c false s.world.alive k)
          (s.world.table k)
          (put c (s.world.ref c - 1) s.world.ref k)
          (put c (s.held c - 1) s.held k)
  last-Fine c on some_held last =
      let (same, positive) = (v.fine c).0 on in
      let gone = one_if-zero (s.world.table c) (omega arith) in
      Fine-everywhere c s.world.alive (put c false s.world.alive) s.world.table s.world.table
        s.world.ref (put c (s.world.ref c - 1) s.world.ref) s.held (put c (s.held c - 1) s.held)
        (λ k ne. (
          put-ne c k false s.world.alive ne,
          refl,
          put-ne c k (s.world.ref c - 1) s.world.ref ne,
          put-ne c k (s.held c - 1) s.held ne,
        ))
        (Fine-cong false (s.world.table c) (s.world.ref c - 1) (s.held c - 1) _ _ _ _
          (put_self c false s.world.alive) refl (put_self c (s.world.ref c - 1) s.world.ref)
          (put_self c (s.held c - 1) s.held)
          (λ on. absurd (let g : false ≡ true = on in cc), λ off. (omega arith, gone)))
        v.fine

  release-Counted :
      (c : ℕ)
      → 0 < s.held c
      → Counted (record s { world = context_release c s.world; held = put c (s.held c - 1) s.held })
  release-Counted c some_held =
      let on =
        held_alive (s.world.alive c) (s.world.table c) (s.world.ref c) (s.held c) (v.fine c)
          some_held in
      elim (ℕ_discrete (s.world.ref c - 1) 0) [
        | no left ↦
            subst (λ w. Counted (record s { world = w; held = put c (s.held c - 1) s.held }))
              (sym (release_more c s.world left))
              (record { fine = less-Fine c on some_held left; unmade = v.unmade; total = v.total })
        | yes last ↦
            subst (λ w. Counted (record s { world = w; held = put c (s.held c - 1) s.held }))
              (sym (release_last c s.world last))
              (record {
                fine = last-Fine c on some_held last;
                unmade = λ k above. elim (ℕ_discrete c k) [
                  | yes same ↦
                      ap (put c false s.world.alive) (sym same) ∙ put_self c false s.world.alive
                  | no ne ↦ put-ne c k false s.world.alive ne ∙ v.unmade k above
                ];
                total =
                    let t = v.total in
                    let p = -ℤ_parts s.world.total (pos 1) in
                    let l = living-remove s.world.next c s.world.alive (alive_made s c v on) on in
                    omega arith;
              })
      ]

  pub Step-Counted : (s' : System) → Step s s' → Counted s'
  unfolding context_new context_grab context_reserve handle_remove
  Step-Counted s' made = record {
    fine = made-Fine;
    unmade = λ k above.
        put-ne s.world.next k true s.world.alive (λ e. omega arith)
        ∙ v.unmade k (λ lt. omega arith);
    total =
        let t = v.total in
        let p = +ℤ_parts s.world.total (pos 1) in
        let same = living-above s.world.next s.world.next true s.world.alive (λ lt. omega arith) in
        let new : one_if (put s.world.next true s.world.alive s.world.next) ≡ 1 =
          ap one_if (put_self s.world.next true s.world.alive) in
        let goal : pos_part (s.world.total +ℤ pos 1) + s.reserved
            ≡ one_if (put s.world.next true s.world.alive s.world.next)
              + living s.world.next (put s.world.next true s.world.alive)
              + neg_part (s.world.total +ℤ pos 1) =
          omega arith in
        goal;
  }
  Step-Counted s' (grabbed c found) = record {
    fine = grab-Fine c (
        table_alive (s.world.alive c) (s.world.table c) (s.world.ref c) (s.held c) (v.fine c)
          found);
    unmade = v.unmade;
    total = v.total;
  }
  Step-Counted s' (kept c some_held) = record {
    fine = grab-Fine c (
        held_alive (s.world.alive c) (s.world.table c) (s.world.ref c) (s.held c) (v.fine c)
          some_held);
    unmade = v.unmade;
    total = let t = v.total in let p = -ℤ_parts s.world.total (pos 1) in omega arith;
  }
  Step-Counted s' (removed c found) = record {
    fine = remove-Fine c found;
    unmade = v.unmade;
    total = v.total;
  }
  Step-Counted s' (released c some_held) = release-Counted c some_held
