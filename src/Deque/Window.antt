-- ===== src/Deque/Window.antt =====
-- The part of the storage map that a deque holds: `n` slots from an index on, going round.
use native.Mathlib.Nat.{
  mod-add-mod, mod-eq_of_lt, mod-eq-sub-mod, add-zero, add_assoc, add-mod_right,
}
use native.Mathlib.Numerals.{add-one}
use native.Mathlib.Decide.{dec_lt}
use substrate_stablecoin.Prelude.{
  ℕ, zero, suc, ◌+◌, ◌-◌, ◌%◌, ◌≤◌, ◌<◌, ◌≡◌, refl, ◌∙◌, ap, ap₂, ◌≢◌, Option, some, List, [], ◌∷◌,
  ◌++◌, length, tail, drop_last, drop_last-append, sym, none, arith,
}
use substrate_stablecoin.Deque.Defs.{update, get_or}

-- Fewer than `m` steps round the ring do not come back to the start.
pub add-mod-ne : {m s k : ℕ} → s < m → suc k < m → (s + suc k) % m ≢ s
add-mod-ne {m} {s} {k} hs hk = elim (dec_lt (s + suc k) m) [
  | yes p ↦ omega (arith, mod-eq_of_lt p)
  | no p ↦ omega (
    arith,
    mod-eq-sub-mod {n = s + suc k} {m = m} (omega arith),
    mod-eq_of_lt {n = s + suc k - m} {m = m} (omega arith),
  )
]

-- A step after `s` and a step before: the sum of the two offsets.
pub mod-step : (m s j : ℕ) → (s + suc j) % m ≡ ((s + 1) % m + j) % m
mod-step m s j = rw mod-add-mod (ap (λ k. k % m) (omega arith))

-- The slot behind that of offset `l`: it is the start again exactly when the ring is full.
pub next-ne : {m s l : ℕ} → s < m → suc l < m → ((s + l) % m + 1) % m ≢ s
next-ne {m} {s} {l} hs hl = rw (mod-add-mod, add_assoc, add-one) (add-mod-ne hs hl)

pub next-eq : {m s l : ℕ} → s < m → suc l ≡ m → ((s + l) % m + 1) % m ≡ s
next-eq {m} {s} {l} hs hl = rw mod-add-mod (
    omega (
      arith,
      mod-eq-sub-mod {n = s + l + 1} {m = m} (omega arith),
      mod-eq_of_lt {n = s + l + 1 - m} {m = m} (omega arith),
    ))

-- Round the ring by `m`.
pub add-mod_self : {m s : ℕ} → s < m → (s + m) % m ≡ s
add-mod_self {m} {s} h = add-mod_right s m ∙ mod-eq_of_lt h

-- One slot back and one slot on, and the other way round.
pub back-on : {m s : ℕ} → s < m → ((s + m - 1) % m + 1) % m ≡ s
back-on {m} {s} h = rw mod-add-mod (ap (λ k. k % m) (omega arith) ∙ add-mod_self h)

pub on-around : {m s : ℕ} → s < m → ((s + 1) % m + (m - 1)) % m ≡ s
on-around {m} {s} h = rw mod-add-mod (ap (λ k. k % m) (omega arith) ∙ add-mod_self h)

-- The last slot of `suc l` from `s` on, as `end() - 1`.
pub last-slot : (m s l : ℕ) → 0 < m → ((s + suc l) % m + m - 1) % m ≡ (s + l) % m
last-slot m s l h =
    ap (λ k. k % m) (omega arith)
    ∙ mod-add-mod (s + suc l) m (m - 1)
    ∙ ap (λ k. k % m) (omega arith)
    ∙ add-mod_right (s + l) m

module _ {ℓ} {A : Type ℓ} (m : ℕ) (default : A) where
  unfoldable pub window : (ℕ → Option A) → ℕ → ℕ → List A
  window f s zero = []
  window f s (suc n) = get_or (f s) default ∷ window f ((s + 1) % m) n

  pub length-window : (f : ℕ → Option A) (s n : ℕ) → length (window f s n) ≡ n
  unfolding window
  length-window f s zero = refl
  length-window f s (suc n) = ap suc (length-window f ((s + 1) % m) n)

  pub window-snoc :
      (f : ℕ → Option A) (s n : ℕ)
      → s < m
      → window f s (suc n) ≡ window f s n ++ (get_or (f ((s + n) % m)) default ∷ [])
  unfolding window
  window-snoc f s zero h = rw (add-zero, mod-eq_of_lt h)
  window-snoc f s (suc n) h =
      rw (mod-step m s n)
        (ap (λ t. get_or (f s) default ∷ t) (window-snoc f ((s + 1) % m) n (omega arith)))

  -- A write outside the window does not change it.
  pub window-update_out :
      (f : ℕ → Option A) (i : ℕ) (v : Option A) (s n j : ℕ)
      → s < m
      → n ≤ j
      → j < m
      → i ≡ (s + j) % m
      → window (update f i v) s n ≡ window f s n
  unfolding window
  window-update_out f i v s zero j hs hn hj e = refl
  window-update_out f i v s (suc n) zero hs hn hj e = absurd (omega arith)
  window-update_out f i v s (suc n) (suc j) hs hn hj e =
      ap₂ ◌∷◌ (ground (arith, add-mod-ne hs hj)) (
        window-update_out f i v ((s + 1) % m) n j (omega arith) (omega arith) (omega arith)
          (e ∙ mod-step m s j))

  -- A write just behind the window extends it by that item.
  pub window-push :
      (f : ℕ → Option A) (x : A) (s n : ℕ)
      → s < m
      → n < m
      → window (update f ((s + n) % m) (some x)) s (suc n) ≡ window f s n ++ (x ∷ [])
  window-push f x s n hs hn =
      rw
        (
          window-snoc (update f ((s + n) % m) (some x)) s n hs,
          window-update_out f ((s + n) % m) (some x) s n n hs (omega arith) hn refl,
        )
        (ap (λ t. window f s n ++ (t ∷ [])) (ground arith))

  -- A window that begins one slot later.
  pub tail-window :
      (f : ℕ → Option A) (s n : ℕ) → window f ((s + 1) % m) n ≡ tail (window f s (suc n))
  unfolding window
  tail-window f s n = refl

  pub window-push_front :
      (f : ℕ → Option A) (x : A) (s n : ℕ)
      → s < m
      → n < m
      → window (update f ((s + m - 1) % m) (some x)) ((s + m - 1) % m) (suc n) ≡ x ∷ window f s n
  unfolding window
  window-push_front f x s n hs hn =
      let i = (s + m - 1) % m in
      ap₂ ◌∷◌ (ground arith) (
        rw (back-on hs) (
          window-update_out f i (some x) s n (m - 1) hs (omega arith) (omega arith)
            (ap (λ k. k % m) (omega arith))))

  pub drop_last-window :
      (f : ℕ → Option A) (s n : ℕ) → s < m → drop_last (window f s (suc n)) ≡ window f s n
  drop_last-window f s n h = rw (window-snoc f s n h) (drop_last-append (window f s n) _)

  -- Clearing the slot before a window leaves it alone.
  pub window-clear_front :
      (f : ℕ → Option A) (s n : ℕ)
      → s < m
      → n < m
      → window (update f s none) ((s + 1) % m) n ≡ window f ((s + 1) % m) n
  window-clear_front f s n hs hn =
      window-update_out f s none ((s + 1) % m) n (m - 1) (omega arith) (omega arith) (omega arith)
        (sym (on-around hs))

  pub window-zero : (f : ℕ → Option A) (s : ℕ) → window f s zero ≡ []
  unfolding window
  window-zero f s = refl
