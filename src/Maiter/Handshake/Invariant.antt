-- ===== src/Maiter/Handshake/Invariant.antt =====
-- What holds of the threads of src/kernel/kernel.h in every state that they reach, as long as
-- `pthread_cond_wait` returns only after a broadcast.
use maiter_p.Base.{ℕ, ◌<◌, refl, sym, ◌∙◌, false, arith}
use maiter_p.Maiter.Handshake.{
  starting, waiting, passed, Handshake, Step, obtain, obtain_null, pass, broadcast, sleep, delete,
  finish, count, read, leave, arrive, open_barrier, signal, wake_early, schedule_early, started,
  Reach, here, next,
}
use maiter_p.Maiter.Handshake.Families.{tally-change, tally-none, tally-full}
use maiter_p.Maiter.Handshake.Phases.{
  is_waiting, Linked, BetweenRounds, AtBroadcast, InRound, Phase, between_rounds, at_broadcast,
  in_round, Sound, started-Sound,
}

module _ {n : ℕ} {s : Handshake} (some_worker : 0 < n) where
  Step-Linked : {t : Handshake} → Step n false s t → Linked s → Linked t
  Step-Linked (obtain at) l = ground (arith, l.pointed)
  Step-Linked (obtain_null at) l = ground (arith, l.pointed)
  Step-Linked (pass at full) l = ground (arith, l.pointed)
  Step-Linked (broadcast at) l = ground (arith, l.pointed)
  Step-Linked (sleep at) l = ground (arith, l.pointed)
  Step-Linked (delete at) l = ground (arith, l.pointed)
  Step-Linked (finish at full) l = ground (arith, l.pointed)
  Step-Linked (signal i lt at) l = ground (arith, l.pointed)
  Step-Linked (wake_early i false_true lt at) l = absurd (cc false_true)
  Step-Linked (schedule_early false_true at) l = absurd (cc false_true)
  Step-Linked (count i lt at) l = ground (arith, l.pointed)
  Step-Linked (read i r lt at it) l = ground (arith, l.pointed)
  Step-Linked (leave i lt at it) l = ground (arith, l.pointed)
  Step-Linked (arrive i r lt at) l = ground (arith, l.pointed)
  Step-Linked (open_barrier all) l = ground (arith, l.pointed)

  Step-between : {t : Handshake} → Step n false s t → Linked s → BetweenRounds n s → Phase n t
  Step-between (obtain at) l b = between_rounds (record {
    calm_there = refl;
    outside = λ i lt. ground (arith, b.outside i lt);
    counted = b.counted;
    full_at_end = λ h. cc;
  })
  Step-between (obtain_null at) l b = between_rounds (record {
    calm_there = refl;
    outside = λ i lt. ground (arith, b.outside i lt);
    counted = b.counted;
    full_at_end = λ h. cc;
  })
  Step-between (pass at full) l b = at_broadcast (record {
    broadcasts = refl;
    all_wait = λ i lt.
        ground
          (arith, b.outside i lt, tally-full is_waiting n s.worker (omega (arith, b.counted)) i lt);
    reset_there = refl;
  })
  Step-between (broadcast at) l b = absurd (ground (arith, b.calm_there))
  Step-between (sleep at) l b = between_rounds (record {
    calm_there = refl;
    outside = λ i lt. ground (arith, b.outside i lt);
    counted = b.counted;
    full_at_end = λ h. cc;
  })
  Step-between (delete at) l b = between_rounds (record {
    calm_there = refl;
    outside = λ i lt. ground (arith, b.outside i lt);
    counted = b.counted;
    full_at_end = λ h. cc;
  })
  Step-between (finish at full) l b = between_rounds (record {
    calm_there = refl;
    outside = λ i lt. ground (arith, b.outside i lt);
    counted = b.counted;
    full_at_end = λ h. full;
  })
  Step-between (signal i lt at) l b = between_rounds (record {
    calm_there = ground (arith, b.calm_there);
    outside = λ j below. ground (arith, b.outside j below, b.outside i lt);
    counted = ground (arith, tally-change is_waiting n s.worker i starting lt, b.counted);
    full_at_end = λ h. ground (arith, b.full_at_end, h);
  })
  Step-between (wake_early i false_true lt at) l b = absurd (cc false_true)
  Step-between (schedule_early false_true at) l b = absurd (cc false_true)
  Step-between (count i lt at) l b = between_rounds (record {
    calm_there = b.calm_there;
    outside = λ j below. ground (arith, b.outside j below, b.outside i lt);
    counted = ground (arith, tally-change is_waiting n s.worker i waiting lt, b.counted);
    full_at_end = λ h. ground (arith, b.full_at_end h);
  })
  Step-between (read i r lt at it) l b = absurd (ground (arith, b.outside i lt))
  Step-between (leave i lt at it) l b = absurd (ground (arith, b.outside i lt))
  Step-between (arrive i r lt at) l b = absurd (ground (arith, b.outside i lt))
  Step-between (open_barrier all) l b =
      absurd (ground (arith, b.outside 0 some_worker, all 0 some_worker))

  -- All workers wait for the broadcast that comes now.
  Step-at : {t : Handshake} → Step n false s t → Linked s → AtBroadcast n s → Phase n t
  Step-at (broadcast at) l b = in_round (record {
    waited_for = refl;
    inside = λ i lt. ground (arith, b.all_wait i lt);
    none_waits = b.reset_there;
  })
  Step-at (obtain at) l b = absurd (ground (arith, b.broadcasts))
  Step-at (obtain_null at) l b = absurd (ground (arith, b.broadcasts))
  Step-at (pass at full) l b = absurd (ground (arith, b.broadcasts))
  Step-at (sleep at) l b = absurd (ground (arith, b.broadcasts))
  Step-at (delete at) l b = absurd (ground (arith, b.broadcasts))
  Step-at (finish at full) l b = absurd (ground (arith, b.broadcasts))
  Step-at (signal i lt at) l b = absurd (ground (arith, b.all_wait i lt))
  Step-at (wake_early i false_true lt at) l b = absurd (cc false_true)
  Step-at (schedule_early false_true at) l b = absurd (cc false_true)
  Step-at (count i lt at) l b = absurd (ground (arith, b.all_wait i lt))
  Step-at (read i r lt at it) l b = absurd (ground (arith, b.all_wait i lt))
  Step-at (leave i lt at it) l b = absurd (ground (arith, b.all_wait i lt))
  Step-at (arrive i r lt at) l b = absurd (ground (arith, b.all_wait i lt))
  Step-at (open_barrier all) l b =
      absurd (ground (arith, b.all_wait 0 some_worker, all 0 some_worker))

  Step-in : {t : Handshake} → Step n false s t → Linked s → InRound n s → Phase n t
  Step-in (sleep at) l b =
      in_round (record { waited_for = refl; inside = b.inside; none_waits = b.none_waits })
  Step-in (read i r lt at it) l b = in_round (record {
    waited_for = b.waited_for;
    inside = λ j below. ground (arith, b.inside j below, b.inside i lt, b.waited_for, l.pointed);
    none_waits = b.none_waits;
  })
  Step-in (arrive i r lt at) l b = in_round (record {
    waited_for = b.waited_for;
    inside = λ j below. ground (arith, b.inside j below, b.inside i lt);
    none_waits = b.none_waits;
  })
  Step-in (open_barrier all) l b = between_rounds (record {
    calm_there = ground (arith, b.waited_for);
    outside = λ i lt. ground (arith, b.inside i lt, all i lt, b.waited_for);
    counted = tally-none is_waiting n (λ j. passed) (λ i lt. refl) ∙ sym b.none_waits;
    full_at_end = λ h. absurd (ground (arith, b.waited_for, h));
  })
  Step-in (leave i lt at it) l b = absurd (ground (arith, b.waited_for, l.pointed))
  Step-in (obtain at) l b = absurd (ground (arith, b.waited_for))
  Step-in (obtain_null at) l b = absurd (ground (arith, b.waited_for))
  Step-in (pass at full) l b = absurd (ground (arith, b.waited_for))
  Step-in (broadcast at) l b = absurd (ground (arith, b.waited_for))
  Step-in (delete at) l b = absurd (ground (arith, b.waited_for))
  Step-in (finish at full) l b = absurd (ground (arith, b.waited_for))
  Step-in (signal i lt at) l b = absurd (ground (arith, b.inside i lt))
  Step-in (wake_early i false_true lt at) l b = absurd (cc false_true)
  Step-in (schedule_early false_true at) l b = absurd (cc false_true)
  Step-in (count i lt at) l b = absurd (ground (arith, b.inside i lt))

  Step-Phase : {t : Handshake} → Step n false s t → Linked s → Phase n s → Phase n t
  Step-Phase st l (between_rounds b) = Step-between st l b
  Step-Phase st l (at_broadcast b) = Step-at st l b
  Step-Phase st l (in_round b) = Step-in st l b

  Step-Sound : {t : Handshake} → Step n false s t → Sound n s → Sound n t
  Step-Sound st sound = record {
    linked = Step-Linked st sound.linked;
    phase = Step-Phase st sound.linked sound.phase;
  }

pub Reach-Sound : {n : ℕ} {s : Handshake} → 0 < n → Reach n false started s → Sound n s
Reach-Sound {n} some_worker here = started-Sound n
Reach-Sound some_worker (next r st) = Step-Sound some_worker st (Reach-Sound some_worker r)
