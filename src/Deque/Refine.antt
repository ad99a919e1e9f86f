-- ===== src/Deque/Refine.antt =====
-- The adapter against the bounded list: through `contents`, each operation is that of `Spec`.
use native.Mathlib.Nat.{mod-eq_of_lt}
use native.Mathlib.Decide.{dec_lt}
use substrate_stablecoin.Prelude.{
  ℕ, zero, suc, ◌+◌, ◌-◌, ◌%◌, ◌≤◌, ◌<◌, ◌≡◌, refl, ap, Option, none, some, List, [], ◌∷◌, length,
  tail, tail-append, ◌∙◌, last?-append, drop_last, drop_last-append, arith,
}
use substrate_stablecoin.Deque.Defs.{
  Deque, update, get_or, push_back, push_front, pop_back, pop_front, step, run,
}
use substrate_stablecoin.Deque.Spec
use substrate_stablecoin.Deque.Spec.{Op}
use substrate_stablecoin.Deque.Window.{
  window, length-window, window-snoc, window-update_out, tail-window, window-zero, window-push,
  window-push_front, drop_last-window, window-clear_front, last-slot, next-ne, next-eq,
}

module _ {ℓ} {A : Type ℓ} (m : ℕ) (default : A) where
  -- What the deque holds, front first.
  abbrev pub contents : Deque A → List A
  contents q = window m default q.items q.start q.length

  -- The bounds are indices, and the ring keeps one slot free.
  pub record IsValid (q : Deque A) : Type 0 where
    pub start_in : q.start < m
    pub length_in : q.length < m
    pub wide : 2 ≤ m

  pub length-contents : (q : Deque A) → length (contents q) ≡ q.length
  length-contents q = length-window m default q.items q.start q.length

  pub push_back-IsValid : (q : Deque A) (x : A) → IsValid q → IsValid (push_back m q x)
  unfolding push_back
  push_back-IsValid q x v = ground arith

  pub push_front-IsValid : (q : Deque A) (x : A) → IsValid q → IsValid (push_front m q x)
  unfolding push_front
  push_front-IsValid q x v = ground arith

  pub pop_back-IsValid : (q : Deque A) → IsValid q → IsValid (pop_back m default q).1
  unfolding pop_back
  pop_back-IsValid q v = ground arith

  pub pop_front-IsValid : (q : Deque A) → IsValid q → IsValid (pop_front m default q).1
  unfolding pop_front
  pop_front-IsValid q v = ground arith

  -- The bounds after a push at the back, with room and without.
  push_back_room :
      (q : Deque A) (x : A)
      → IsValid q
      → suc q.length < m
      → ((push_back m q x).start ≡ q.start) × ((push_back m q x).length ≡ suc q.length)
  unfolding push_back
  push_back_room q x v h =
      ground (arith, next-ne v.start_in h, mod-eq_of_lt {n = q.length + 1} {m = m})

  push_back_full :
      (q : Deque A) (x : A)
      → IsValid q
      → suc q.length ≡ m
      → ((push_back m q x).start ≡ (q.start + 1) % m) × ((push_back m q x).length ≡ q.length)
  unfolding push_back
  push_back_full q x v h = ground (arith, next-eq v.start_in h)

  items-push_back :
      (q : Deque A) (x : A)
      → (push_back m q x).items ≡ update q.items ((q.start + q.length) % m) (some x)
  unfolding push_back
  items-push_back q x = refl

  -- `push_back` appends, and drops the front item of a full deque.
  pub push_back_refines :
      (q : Deque A) (x : A)
      → IsValid q
      → contents (push_back m q x) ≡ Spec.push_back (m - 1) (contents q) x
  unfolding Spec.push_back
  push_back_refines q x v = elim (dec_lt (suc q.length) m) [
    | yes h ↦
        let (s, l) = push_back_room q x v h in
        rw
          (
            s,
            l,
            items-push_back,
            window-push m default q.items x q.start q.length v.start_in v.length_in,
          )
          (ground (arith, length-contents q))
    | no h ↦
        let full : suc q.length ≡ m = omega arith in
        let (s, l) = push_back_full q x v full in
        rw (s, l, items-push_back)
          (tail-window m default _ q.start q.length
            ∙ ap tail (window-push m default q.items x q.start q.length v.start_in v.length_in)
            ∙ ground (arith, length-contents q, tail-append (contents q) (x ∷ [])))
  ]

  push_front_bounds :
      (q : Deque A) (x : A)
      → IsValid q
      → ((push_front m q x).start ≡ (q.start + m - 1) % m)
        × ((push_front m q x).items ≡ update q.items ((q.start + m - 1) % m) (some x))
        × ((suc q.length < m → (push_front m q x).length ≡ suc q.length)
            × (suc q.length ≡ m → (push_front m q x).length ≡ q.length))
  unfolding push_front
  push_front_bounds q x v = (
    refl,
    refl,
    (λ h. omega (arith, mod-eq_of_lt {n = q.length + 1} {m = m} (omega arith)), λ h. omega arith),
  )

  -- `push_front` prepends, and drops the back item of a full deque.
  pub push_front_refines :
      (q : Deque A) (x : A)
      → IsValid q
      → contents (push_front m q x) ≡ Spec.push_front (m - 1) (contents q) x
  unfolding Spec.push_front
  push_front_refines q x v = elim (dec_lt (suc q.length) m) [
    | yes h ↦
        let (s, i, l) = push_front_bounds q x v in
        rw
          (
            s,
            i,
            l.0 h,
            window-push_front m default q.items x q.start q.length v.start_in v.length_in,
          )
          (ground (arith, length-contents q))
    | no h ↦
        let (s, i, l) = push_front_bounds q x v in
        let k : q.length ≡ suc (q.length - 1) = omega arith in
        rw (s, i, l.1 (omega arith))
          (ap
              (λ n.
                window m default (update q.items ((q.start + m - 1) % m) (some x))
                  ((q.start + m - 1) % m) n)
              k
            ∙ window-push_front m default q.items x q.start (q.length - 1) v.start_in (omega arith)
            ∙ ground (
              arith,
              length-contents q,
              ap (λ n. drop_last (window m default q.items q.start n)) k,
              drop_last-window m default q.items q.start (q.length - 1) v.start_in,
            ))
  ]

  -- Both pops on explicit bounds, so that the length can be matched.
  pop_front_at :
      (f : ℕ → Option A) (s n : ℕ)
      → s < m
      → n < m
      → let (out, q') = pop_front m default (record { start = s; length = n; items = f }) in
        (out, contents q') ≡ Spec.pop_front (window m default f s n)
  unfolding pop_front Spec.pop_front window
  pop_front_at f s zero hs hn = refl
  pop_front_at f s (suc n) hs hn = ground (arith, window-clear_front m default f s n hs)

  pop_back_at :
      (f : ℕ → Option A) (s n : ℕ)
      → s < m
      → n < m
      → let (out, q') = pop_back m default (record { start = s; length = n; items = f }) in
        (out, contents q') ≡ Spec.pop_back (window m default f s n)
  unfolding pop_back Spec.pop_back
  pop_back_at f s zero hs hn = rw (window-zero m default)
  pop_back_at f s (suc n) hs hn = ground (
    arith,
    last-slot m s n,
    window-snoc m default f s n hs,
    window-update_out m default f ((s + n) % m) none s n n hs,
    drop_last-append (window m default f s n) (get_or (f ((s + n) % m)) default),
    last?-append (window m default f s n) (get_or (f ((s + n) % m)) default),
  )

  -- `pop_front` takes the front item, and nothing from an empty deque.
  pub pop_front_refines :
      (q : Deque A)
      → IsValid q
      → let (out, q') = pop_front m default q in (out, contents q') ≡ Spec.pop_front (contents q)
  pop_front_refines q v = pop_front_at q.items q.start q.length v.start_in v.length_in

  -- `pop_back` takes the back item, and nothing from an empty deque.
  pub pop_back_refines :
      (q : Deque A)
      → IsValid q
      → let (out, q') = pop_back m default q in (out, contents q') ≡ Spec.pop_back (contents q)
  pop_back_refines q v = pop_back_at q.items q.start q.length v.start_in v.length_in

  step-IsValid : (q : Deque A) (op : Op A) → IsValid q → IsValid (step m default q op).1
  unfolding step
  step-IsValid q (Op.pushes_back x) v = push_back-IsValid q x v
  step-IsValid q (Op.pushes_front x) v = push_front-IsValid q x v
  step-IsValid q Op.pops_back v = pop_back-IsValid q v
  step-IsValid q Op.pops_front v = pop_front-IsValid q v

  step_refines :
      (q : Deque A) (op : Op A)
      → IsValid q
      → let (out, q') = step m default q op in
        (out, contents q') ≡ Spec.step (m - 1) (contents q) op
  unfolding step Spec.step
  step_refines q (Op.pushes_back x) v = ap (λ t. (none, t)) (push_back_refines q x v)
  step_refines q (Op.pushes_front x) v = ap (λ t. (none, t)) (push_front_refines q x v)
  step_refines q Op.pops_back v = pop_back_refines q v
  step_refines q Op.pops_front v = pop_front_refines q v

  -- No sequence of calls tells a valid deque from the bounded list of its contents.
  pub run_refines :
      (ops : List (Op A)) (q : Deque A)
      → IsValid q
      → run m default q ops ≡ Spec.run (m - 1) (contents q) ops
  unfolding run Spec.run
  run_refines [] q v = refl
  run_refines (op ∷ ops) q v =
      rw (run_refines ops (step m default q op).1 (step-IsValid q op v), ← step_refines q op v)
