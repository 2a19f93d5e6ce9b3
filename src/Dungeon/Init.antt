-- ===== src/Dungeon/Init.antt =====
-- What `dungeon_init` leaves behind.
use dungeon.Base.{
  ℕ, ◌^◌, ◌<◌, ◌≡◌, ◌≢◌, refl, true, false, ◌&&◌, some, [], ℤ, pos, pos_part, ltb_ℤ, length, ap,
  arith,
}
use dungeon.Queue.{Queue}
use dungeon.Queue.Window.{contents, IsValid}
use dungeon.Queue.Fifo.{queue_new-empty, length-contents}
use dungeon.Worker.{thr_worker_create}
use dungeon.System.Accounts.{IsHoused}
use dungeon.Dungeon.{Setup, beats, dangling, eagain, newborn, dungeon_init}

newborn-IsHoused :
    (M : Type 0) (k n : ℕ) (run ended : Queue)
    → IsValid run
    → IsValid ended
    → contents run ≡ []
    → contents ended ≡ []
    → run.max ≡ k
    → ended.max ≡ k
    → IsHoused {M = M} (newborn (pos k) run ended n)
newborn-IsHoused M k n run ended valid valid' none_in none_in' max max' =
    let empty : run.nr ≡ 0 = omega (arith, length-contents run, ap length none_in) in
    let empty' : ended.nr ≡ 0 = omega (arith, length-contents ended, ap length none_in') in
    record {
      asleep = [];
      balanced = record {
        run_valid = valid;
        ended_valid = valid';
        run_max = ap pos max;
        ended_max = omega (arith, max, max');
        nr_waitio = refl;
        nr_total = ap pos (omega (arith, empty, empty'));
        bounded = omega (arith, empty, empty');
      };
      houses =
          rw (none_in, none_in')
            (record {
              distinct_run = tt;
              distinct_ended = tt;
              distinct_asleep = tt;
              placed = λ j. (refl, refl);
            });
    }

module _ (s : Setup) (rooms nr_workers nr_imp_max : ℤ) where
  -- If `dungeon_init` answers 0, and memory was given for both queues, the number of imps is within an
  -- `int`, and `errno` is not 0 where it is what a `pipe` that failed left, then at least one worker
  -- and both other threads run, and the dungeon that they find is one in which each live imp is in
  -- exactly one place and the counters are right, without imps.
  pub dungeon_init-IsHoused :
      (M : Type 0) (k n : ℕ)
      → nr_imp_max ≡ pos k
      → k < 2 ^ 31
      → s.errno ≢ 0
      → s.run_memory ≡ true
      → s.ended_memory ≡ true
      → (dungeon_init s rooms nr_workers nr_imp_max).0 ≡ pos 0
      → let started = (dungeon_init s rooms nr_workers nr_imp_max).1 in
        (run : Queue) × (ended : Queue) × (started.heart ≡ beats (pos k) (some run) (some ended))
        × (ltb_ℤ started.workers (pos 1) ≡ false)
        × (started.maintainer ≡ true)
        × (started.monitor ≡ true)
        × IsHoused {M = M} (newborn (pos k) run ended n)
  unfolding dungeon_init
  dungeon_init-IsHoused M k n most small set run_given ended_given answer =
      let some_room : 0 < k = ground (arith, most) in
      let (run, made, _, valid, none_in, max) = queue_new-empty s.garbage k some_room small in
      (
        run,
        run,
        ground (arith, most, made, run_given, ended_given),
        ground arith,
        ground arith,
        ground arith,
        newborn-IsHoused M k n run run valid valid none_in none_in max max,
      )

  -- If the maintainer or the monitor thread cannot be created behind workers that were, `dungeon_init`
  -- answers EAGAIN with the dungeon given back while the workers run on it.
  pub dungeon_init_dangling :
      ltb_ℤ nr_workers (pos 1) ≡ false
      → ltb_ℤ nr_imp_max (pos 1) ≡ false
      → s.calloc ≡ true
      → s.pipe ≡ true
      → ltb_ℤ
          (thr_worker_create s.epoller s.table s.isset s.created (pos_part nr_workers)).0
          (pos 1)
        ≡ false
      → (s.maintainer && s.monitor) ≡ false
      → let (ret, started) = dungeon_init s rooms nr_workers nr_imp_max in
        (ret ≡ eagain) × (started.heart ≡ dangling) × (ltb_ℤ started.workers (pos 1) ≡ false)
  unfolding dungeon_init
  dungeon_init_dangling workers imps memory piped some_made none_made = ground arith
