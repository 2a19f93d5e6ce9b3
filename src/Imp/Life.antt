-- ===== src/Imp/Life.antt =====
-- The summoning, the waking, the killing and the end of an imp.
use dungeon.Base.{
  ℕ, ◌≡◌, sym, ap, ◌∙◌, fun_ext, Bool, true, Option, none, some, Option-cases, leb_ℤ, ok, inl, inr,
  arith,
}
use dungeon.Imp.{
  Imp, Soul, Dungeon, Ctl, store, imp_run, imp_new, imp_summon, imp_kill, imp_wake, imp_driver,
  driven, keep,
}

module _ {M : Type 0} where
  store-store :
      (f : ℕ → Option (Imp M)) (i : ℕ) (x y : Option (Imp M))
      → store (store f i x) i y ≡ store f i y
  store-store f i x y = fun_ext (λ j. ground arith)

  store_self : (f : ℕ → Option (Imp M)) (i : ℕ) (x : Option (Imp M)) → store f i x i ≡ x
  store_self f i x = ground arith

  killed : Imp M → Imp M
  killed m = record m { event_mask = record (m.event_mask) { kill = true } }

  kill_none : (w v : Dungeon M) (i : ℕ) → w.imps i ≡ none → imp_kill w i ≡ ok v → ⊥
  unfolding imp_kill
  kill_none w v i none_there e = ground arith

  kill_some :
      (w v : Dungeon M) (i : ℕ) (m : Imp M)
      → w.imps i ≡ some m
      → imp_kill w i ≡ ok v
      → v ≡ keep w i (killed m)
  unfolding imp_kill killed
  kill_some w v i m there e = ground arith

  keep-keep : (w : Dungeon M) (i : ℕ) (x : Imp M) → keep (keep w i x) i ≡ keep w i
  keep-keep w i x =
      fun_ext (λ y. ap (λ f. record w { imps = f }) (store-store w.imps i (some x) (some y)))

  imp_driver_at :
      (soul : Soul M) (ctl : Ctl) (timer event : Bool) (w : Dungeon M) (i : ℕ) (m : Imp M)
      → w.imps i ≡ some m
      → imp_driver soul ctl timer event w i ≡ driven soul ctl timer event (keep w i) i m
  unfolding imp_driver
  imp_driver_at soul ctl timer event w i m there = ground arith

  driver_kept :
      (soul : Soul M) (ctl : Ctl) (timer event : Bool) (w : Dungeon M) (i : ℕ) (m : Imp M)
      → w.imps i ≡ some m
      → imp_driver soul ctl timer event (keep w i (killed m)) i
        ≡ imp_driver soul ctl timer event w i
  unfolding driven killed
  driver_kept soul ctl timer event w i m there =
      imp_driver_at soul ctl timer event (keep w i (killed m)) i (killed m)
        (store_self w.imps i (some (killed m)))
      ∙ ap (λ put. driven soul ctl timer event put i m) (keep-keep w i (killed m))
      ∙ sym (imp_driver_at soul ctl timer event w i m there)

  -- A kill is never seen: where `imp_kill` returns, a round of `imp_driver` behind it is the same
  -- as one without it.
  pub imp_driver-imp_kill :
      (soul : Soul M) (ctl : Ctl) (timer event : Bool) (w v : Dungeon M) (i : ℕ)
      → imp_kill w i ≡ ok v
      → imp_driver soul ctl timer event v i ≡ imp_driver soul ctl timer event w i
  imp_driver-imp_kill soul ctl timer event w v i e = elim (Option-cases (w.imps i)) [
    | inl none_there ↦ absurd (kill_none w v i none_there e)
    | inr (m, there) ↦
        let same = kill_some w v i m there e in
        rw same (driver_kept soul ctl timer event w i m there)
  ]

  -- After a call of `imp_wake` that returned, a second call for the same imp returns and changes
  -- nothing.
  pub imp_wake_twice : (w v : Dungeon M) (i : ℕ) → imp_wake w i ≡ ok v → imp_wake v i ≡ ok v
  unfolding imp_wake imp_run
  imp_wake_twice w v i e = ground arith

  -- From a number of imps within the limit, a call of `imp_summon` that returns keeps it within
  -- the limit; at the limit it answers NULL and changes nothing.
  pub imp_summon-bounded :
      (soul : Soul M) (w : Dungeon M) (block : Option ℕ) (body : Option (ℕ × ℕ)) (list : Bool)
      (memory : M) (r : Option ℕ × Dungeon M)
      → leb_ℤ w.nr_total w.nr_max ≡ true
      → imp_summon soul w block body list memory ≡ ok r
      → (leb_ℤ r.1.nr_total r.1.nr_max ≡ true) × (leb_ℤ w.nr_max w.nr_total ≡ true → r ≡ (none, w))
  unfolding imp_summon imp_new imp_run
  imp_summon-bounded soul w block body list memory r h e = ground arith
