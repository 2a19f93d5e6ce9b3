-- ===== src/System/Housing.antt =====
-- Where the imps are: each live imp is in the run queue, in the terminated queue, or sleeps.
use dungeon.Base.{
  ℕ, suc, ◌+◌, ◌≡◌, ◌≢◌, refl, Bool, true, false, Option, none, some, List, [], ◌∷◌, ◌++◌, has,
  has-append, length, ◌==◌, if◌then◌else◌, Bool-cases, inl, inr, arith,
}
use dungeon.Llist.Ring.{Distinct}
use dungeon.Imp.{Imp, store}

abbrev pub bit : Bool → ℕ
bit true = 1
bit false = 0

abbrev pub remove : ℕ → List ℕ → List ℕ
remove i [] = []
remove i (x ∷ xs) = if x == i then xs else x ∷ remove i xs

pub has-remove_self : (i : ℕ) (xs : List ℕ) → Distinct xs → has i (remove i xs) ≡ false
has-remove_self i [] d = refl
has-remove_self i (x ∷ xs) d = ground (arith, has-remove_self i xs)

pub has-remove : (i j : ℕ) (xs : List ℕ) → j ≢ i → has j (remove i xs) ≡ has j xs
has-remove i j [] ne = refl
has-remove i j (x ∷ xs) ne = ground (arith, has-remove i j xs)

has-remove_out : (i j : ℕ) (xs : List ℕ) → has j xs ≡ false → has j (remove i xs) ≡ false
has-remove_out i j [] out = refl
has-remove_out i j (x ∷ xs) out = ground (arith, has-remove_out i j xs)

pub Distinct-remove : (i : ℕ) (xs : List ℕ) → Distinct xs → Distinct (remove i xs)
Distinct-remove i [] d = tt
Distinct-remove i (x ∷ xs) d = ground (arith, Distinct-remove i xs d.1, has-remove_out i x xs)

pub length-remove : (i : ℕ) (xs : List ℕ) → has i xs ≡ true → length xs ≡ suc (length (remove i xs))
length-remove i [] there = absurd (cc)
length-remove i (x ∷ xs) there = ground (arith, length-remove i xs)

pub Distinct-snoc : (i : ℕ) (xs : List ℕ) → Distinct xs → has i xs ≡ false → Distinct (xs ++ i ∷ [])
Distinct-snoc i [] d out = (refl, tt)
Distinct-snoc i (x ∷ xs) d out = ground (arith, Distinct-snoc i xs d.1, has-append x xs (i ∷ []))

module _ {M : Type 0} where
  abbrev pub lives : Option (Imp M) → Bool
  lives none = false
  lives (some m) = true

  abbrev pub sleeps : Option (Imp M) → Bool
  sleeps none = false
  sleeps (some m) = m.waitio

  -- An imp that is live is in exactly one place, and its flag says whether it sleeps; an address
  -- without an imp is in none.
  abbrev pub Place : Option (Imp M) → (run ended asleep : Bool) → Type 0
  Place o r e a = (sleeps o ≡ a) × (bit r + bit e + bit a ≡ bit (lives o))

  pub record Houses (imps : ℕ → Option (Imp M)) (run ended asleep : List ℕ) : Type 0 where
    pub distinct_run : Distinct run
    pub distinct_ended : Distinct ended
    pub distinct_asleep : Distinct asleep
    pub placed : (j : ℕ) → Place (imps j) (has j run) (has j ended) (has j asleep)

  -- The same, but for one address that is in none of the places.
  pub record Away (i : ℕ) (imps : ℕ → Option (Imp M)) (run ended asleep : List ℕ) : Type 0 where
    pub distinct_run : Distinct run
    pub distinct_ended : Distinct ended
    pub distinct_asleep : Distinct asleep
    pub not_run : has i run ≡ false
    pub not_ended : has i ended ≡ false
    pub not_asleep : has i asleep ≡ false
    pub placed : (j : ℕ) → j ≢ i → Place (imps j) (has j run) (has j ended) (has j asleep)

  module _ {imps : ℕ → Option (Imp M)} {run ended asleep : List ℕ} (i : ℕ) where
    pub run_out : Houses imps (i ∷ run) ended asleep → Away i imps run ended asleep
    run_out h = record {
      distinct_run = h.distinct_run.1;
      distinct_ended = h.distinct_ended;
      distinct_asleep = h.distinct_asleep;
      not_run = h.distinct_run.0;
      not_ended = ground (arith, h.placed i);
      not_asleep = ground (arith, h.placed i);
      placed = λ j ne. ground (arith, h.placed j);
    }

    pub ended_out : Houses imps run (i ∷ ended) asleep → Away i imps run ended asleep
    ended_out h = record {
      distinct_run = h.distinct_run;
      distinct_ended = h.distinct_ended.1;
      distinct_asleep = h.distinct_asleep;
      not_run = ground (arith, h.placed i);
      not_ended = h.distinct_ended.0;
      not_asleep = ground (arith, h.placed i);
      placed = λ j ne. ground (arith, h.placed j);
    }

    pub asleep_out :
        has i asleep ≡ true → Houses imps run ended asleep → Away i imps run ended (remove i asleep)
    asleep_out there h = record {
      distinct_run = h.distinct_run;
      distinct_ended = h.distinct_ended;
      distinct_asleep = Distinct-remove i asleep h.distinct_asleep;
      not_run = ground (arith, h.placed i);
      not_ended = ground (arith, h.placed i);
      not_asleep = has-remove_self i asleep h.distinct_asleep;
      placed = λ j ne. ground (arith, h.placed j, has-remove i j asleep ne);
    }

    pub fresh : imps i ≡ none → Houses imps run ended asleep → Away i imps run ended asleep
    fresh unused h = record {
      distinct_run = h.distinct_run;
      distinct_ended = h.distinct_ended;
      distinct_asleep = h.distinct_asleep;
      not_run = ground (arith, h.placed i, unused);
      not_ended = ground (arith, h.placed i, unused);
      not_asleep = ground (arith, h.placed i, unused);
      placed = λ j ne. h.placed j;
    }

    pub Away-store :
        (x : Option (Imp M))
        → Away i imps run ended asleep
        → Away i (store imps i x) run ended asleep
    Away-store x h = record {
      distinct_run = h.distinct_run;
      distinct_ended = h.distinct_ended;
      distinct_asleep = h.distinct_asleep;
      not_run = h.not_run;
      not_ended = h.not_ended;
      not_asleep = h.not_asleep;
      placed = λ j ne. ground (arith, h.placed j ne);
    }

    pub run_in :
        {m : Imp M}
        → imps i ≡ some m
        → m.waitio ≡ false
        → Away i imps run ended asleep
        → Houses imps (run ++ i ∷ []) ended asleep
    run_in there awake h = record {
      distinct_run = Distinct-snoc i run h.distinct_run h.not_run;
      distinct_ended = h.distinct_ended;
      distinct_asleep = h.distinct_asleep;
      placed = λ j.
          ground
            (arith, h.placed j, has-append j run (i ∷ []), h.not_run, h.not_ended, h.not_asleep);
    }

    pub ended_in :
        {m : Imp M}
        → imps i ≡ some m
        → m.waitio ≡ false
        → Away i imps run ended asleep
        → Houses imps run (ended ++ i ∷ []) asleep
    ended_in there awake h = record {
      distinct_run = h.distinct_run;
      distinct_ended = Distinct-snoc i ended h.distinct_ended h.not_ended;
      distinct_asleep = h.distinct_asleep;
      placed = λ j.
          ground
            (arith, h.placed j, has-append j ended (i ∷ []), h.not_run, h.not_ended, h.not_asleep);
    }

    pub asleep_in :
        {m : Imp M}
        → imps i ≡ some m
        → m.waitio ≡ true
        → Away i imps run ended asleep
        → Houses imps run ended (i ∷ asleep)
    asleep_in there waits h = record {
      distinct_run = h.distinct_run;
      distinct_ended = h.distinct_ended;
      distinct_asleep = (h.not_asleep, h.distinct_asleep);
      placed = λ j. ground (arith, h.placed j, h.not_run, h.not_ended, h.not_asleep);
    }

    pub gone : imps i ≡ none → Away i imps run ended asleep → Houses imps run ended asleep
    gone nobody h = record {
      distinct_run = h.distinct_run;
      distinct_ended = h.distinct_ended;
      distinct_asleep = h.distinct_asleep;
      placed = λ j. elim (Bool-cases (j == i)) [
        | inl same ↦
            let e : j ≡ i = ground (arith, same) in
            rw e (ground (arith, nobody, h.not_run, h.not_ended, h.not_asleep))
        | inr other ↦ h.placed j (λ e. ground (arith, other, e))
      ];
    }
