-- ===== src/Llist/Ring.antt =====
-- The ring of nodes behind a list, and what writes to single fields leave of it.
use dungeon.Base.{
  ℕ, ◌+◌, ◌≡◌, refl, ◌≢◌, Bool, true, false, List, [], ◌∷◌, ◌++◌, has, has-append, length, arith,
  ap,
}
use dungeon.Llist.{Llist, update}

-- From `a` the `next` pointers lead through the nodes `xs` to `b`, and the `prev` pointers back.
abbrev pub Linked : (next prev : ℕ → ℕ) → ℕ → List ℕ → ℕ → Type 0
Linked next prev a [] b = (next a ≡ b) × (prev b ≡ a)
Linked next prev a (x ∷ xs) b = (next a ≡ x) × (prev x ≡ a) × Linked next prev x xs b

abbrev pub Distinct : List ℕ → Type 0
Distinct [] = Unit
Distinct (x ∷ xs) = (has x xs ≡ false) × Distinct xs

abbrev pub AllLive : (ℕ → Bool) → List ℕ → Type 0
AllLive live [] = Unit
AllLive live (x ∷ xs) = (live x ≡ true) × AllLive live xs

-- The nodes of `s` are `xs`, in order: they are linked from the head node round to it, are nodes,
-- and are distinct; the list counts `extra` more than there are, which for a sound list is 0.
pub record IsRing (s : Llist) (extra : ℕ) (xs : List ℕ) : Type 0 where
  pub linked : Linked s.next s.prev s.dumb xs s.dumb
  pub distinct : Distinct (s.dumb ∷ xs)
  pub nodes : AllLive s.live (s.dumb ∷ xs)
  pub counted : s.nr_nodes ≡ length xs + extra

-- The data that a list of nodes points at.
abbrev pub values : (ℕ → ℕ) → List ℕ → List ℕ
values ptr [] = []
values ptr (x ∷ xs) = ptr x ∷ values ptr xs

-- The last node, or the one before the first.
abbrev pub last : ℕ → List ℕ → ℕ
last a [] = a
last a (x ∷ xs) = last x xs

pub last-has : (a : ℕ) (xs : List ℕ) → has (last a xs) (a ∷ xs) ≡ true
last-has a [] = ground arith
last-has a (x ∷ xs) = ground (arith, last-has x xs)

module _ (next prev : ℕ → ℕ) where
  pub Linked-prev : (b a : ℕ) (xs : List ℕ) → Linked next prev a xs b → prev b ≡ last a xs
  Linked-prev b a [] l = l.1
  Linked-prev b a (x ∷ xs) l = Linked-prev b x xs l.2

  pub Linked-set_next :
      (b a : ℕ) (xs : List ℕ) (p q : ℕ)
      → has p (a ∷ xs) ≡ false
      → Linked next prev a xs b
      → Linked (update next p q) prev a xs b
  Linked-set_next b a [] p q out l = ground arith
  Linked-set_next b a (x ∷ xs) p q out l =
      (ground arith, l.1, Linked-set_next b x xs p q (ground arith) l.2)

  pub Linked-set_prev :
      (b a : ℕ) (xs : List ℕ) (p q : ℕ)
      → has p xs ≡ false
      → p ≢ b
      → Linked next prev a xs b
      → Linked next (update prev p q) a xs b
  Linked-set_prev b a [] p q out ne l = ground arith
  Linked-set_prev b a (x ∷ xs) p q out ne l =
      (l.0, ground arith, Linked-set_prev b x xs p q (ground arith) ne l.2)

  -- A segment goes on through its end.
  pub Linked-snoc :
      (a : ℕ) (xs : List ℕ) (n c : ℕ)
      → Linked next prev a xs n
      → next n ≡ c
      → prev c ≡ n
      → Linked next prev a (xs ++ n ∷ []) c
  Linked-snoc a [] n c l f g = (l.0, l.1, (f, g))
  Linked-snoc a (x ∷ xs) n c l f g = (l.0, l.1, Linked-snoc x xs n c l.2 f g)

  -- The last node of a segment is linked to another end.
  pub Linked-retarget :
      (b a : ℕ) (xs : List ℕ) (n : ℕ)
      → Distinct (a ∷ xs)
      → prev n ≡ last a xs
      → Linked next prev a xs b
      → Linked (update next (last a xs) n) prev a xs n
  Linked-retarget b a [] n d e l = ground arith
  Linked-retarget b a (x ∷ xs) n d e l =
      (ground (arith, last-has x xs), l.1, Linked-retarget b x xs n d.1 e l.2)

-- What is live, and what is not in a list of nodes.
pub not-has_of_dead :
    (live : ℕ → Bool) (n : ℕ) (xs : List ℕ) → live n ≡ false → AllLive live xs → has n xs ≡ false
not-has_of_dead live n [] dead all = refl
not-has_of_dead live n (x ∷ xs) dead all = ground (arith, not-has_of_dead live n xs dead all.1)

pub live_of_has :
    (live : ℕ → Bool) (p : ℕ) (xs : List ℕ) → AllLive live xs → has p xs ≡ true → live p ≡ true
live_of_has live p [] all h = ground arith
live_of_has live p (x ∷ xs) all h = ground (arith, live_of_has live p xs all.1)

pub AllLive-update :
    (live : ℕ → Bool) (p : ℕ) (v : Bool) (xs : List ℕ)
    → has p xs ≡ false
    → AllLive live xs
    → AllLive (update live p v) xs
AllLive-update live p v [] out all = tt
AllLive-update live p v (x ∷ xs) out all =
    (ground arith, AllLive-update live p v xs (ground arith) all.1)

pub AllLive-snoc :
    (live : ℕ → Bool) (xs : List ℕ) (n : ℕ)
    → AllLive live xs
    → live n ≡ true
    → AllLive live (xs ++ n ∷ [])
AllLive-snoc live [] n all h = (h, tt)
AllLive-snoc live (x ∷ xs) n all h = (all.0, AllLive-snoc live xs n all.1 h)

pub Distinct-snoc : (xs : List ℕ) (n : ℕ) → Distinct xs → has n xs ≡ false → Distinct (xs ++ n ∷ [])
Distinct-snoc [] n d out = (refl, tt)
Distinct-snoc (x ∷ xs) n d out =
    (ground (arith, has-append x xs (n ∷ [])), Distinct-snoc xs n d.1 (ground arith))

pub values-update :
    (ptr : ℕ → ℕ) (p v : ℕ) (xs : List ℕ)
    → has p xs ≡ false
    → values (update ptr p v) xs ≡ values ptr xs
values-update ptr p v [] out = refl
values-update ptr p v (x ∷ xs) out = ground (arith, values-update ptr p v xs)

pub values-append :
    (ptr : ℕ → ℕ) (xs ys : List ℕ) → values ptr (xs ++ ys) ≡ values ptr xs ++ values ptr ys
values-append ptr [] ys = refl
values-append ptr (x ∷ xs) ys = ap (λ zs. ptr x ∷ zs) (values-append ptr xs ys)
