-- ===== src/Queue/Window.antt =====
-- The occupied part of a queue's ring: its indices, and the pointers that it holds, oldest first.
use dungeon.Base.{
  ℕ, zero, suc, ◌+◌, ◌-◌, ◌^◌, ◌≤◌, ◌<◌, ◌≡◌, refl, sym, ap, ◌∙◌, List, [], ◌∷◌, ◌++◌, ltb,
  if◌then◌else◌, arith, length,
}
use dungeon.Queue.{Queue, update, next}

-- An index past the end, brought back into the ring once.
abbrev pub wrap : ℕ → ℕ → ℕ
wrap max i = if ltb i max then i else i - max

unfoldable pub window : ℕ → (ℕ → ℕ) → ℕ → ℕ → List ℕ
window max b i zero = []
window max b i (suc n) = b i ∷ window max b (next i max) n

-- What the queue holds, oldest first.
abbrev pub contents : Queue → List ℕ
contents q = window q.max q.bucket q.rindex q.nr

-- The ring is not empty and fits an `int`; the occupied part ends at the write index.
pub record IsValid (q : Queue) : Type 0 where
  pub small : q.max < 2 ^ 31
  pub inside : q.rindex < q.max
  pub filled : q.nr ≤ q.max
  pub placed : q.windex ≡ wrap q.max (q.rindex + q.nr)

pub next-wrap : (i max : ℕ) → i < max → max < 2 ^ 31 → next i max ≡ wrap max (i + 1)
unfolding next
next-wrap i max h s = ground arith

pub next-lt : (i max : ℕ) → 0 < max → next i max < max
unfolding next
next-lt i max h = ground arith

pub length-window : (max : ℕ) (b : ℕ → ℕ) (i n : ℕ) → length (window max b i n) ≡ n
unfolding window
length-window max b i zero = refl
length-window max b i (suc n) = ap suc (length-window max b (next i max) n)

module _ (max : ℕ) (small : max < 2 ^ 31) (b : ℕ → ℕ) where
  pub window-snoc :
      (i n : ℕ)
      → i < max
      → n < max
      → window max b i (suc n) ≡ window max b i n ++ b (wrap max (i + n)) ∷ []
  unfolding window
  window-snoc i zero h k = ap (λ j. b j ∷ []) (ground arith)
  window-snoc i (suc n) h k =
      let e = next-wrap i max h small in
      let same : wrap max (next i max + n) ≡ wrap max (i + suc n) = ground arith in
      ap (λ xs. b i ∷ xs)
        (window-snoc (next i max) n (next-lt i max (omega arith)) (omega arith)
          ∙ ap (λ j. window max b (next i max) n ++ b j ∷ []) same)

  -- A write at the index `k` places on leaves the `n` places before it alone.
  pub window-update :
      (x i n k : ℕ)
      → i < max
      → n ≤ k
      → k < max
      → window max (update b (wrap max (i + k)) x) i n ≡ window max b i n
  unfolding window
  window-update x i zero k h le lt = refl
  window-update x i (suc n) zero h le lt = absurd (omega arith)
  window-update x i (suc n) (suc k) h le lt =
      let e = next-wrap i max h small in
      let same : wrap max (next i max + k) ≡ wrap max (i + suc k) = ground arith in
      let rest =
        window-update x (next i max) n k (next-lt i max (omega arith)) (omega arith)
          (omega arith) in
      let here : update b (wrap max (i + suc k)) x i ≡ b i = ground arith in
      rw here
        (ap (λ xs. b i ∷ xs) (ap (λ j. window max (update b j x) (next i max) n) (sym same) ∙ rest))
