-- ===== src/Maiter/Handshake/Phases.antt =====
-- The states that the threads of src/kernel/kernel.h pass through (`obtain_iterator`, `run_loop`): between
-- the rounds, at the broadcast, and in a round.
use maiter_p.Base.{ℕ, suc, ◌+◌, ◌≤◌, ◌<◌, ◌≡◌, refl, Bool, true, false, some, arith}
use maiter_p.Maiter.Handshake.{
  Scheduler, obtaining, broadcasting, locking, sleeping, deleting, closing, ended, Worker, starting,
  waiting, woken, running, arrived, passed, Handshake, started,
}
use maiter_p.Maiter.Handshake.Families.{tally, tally-none}

abbrev pub is_waiting : Worker → Bool
is_waiting waiting = true
is_waiting w = false

-- Whether an iterator is there to be used or deleted.
abbrev pub in_hand : Scheduler → ℕ
in_hand obtaining = 0
in_hand closing = 0
in_hand ended = 0
in_hand s = 1

-- Whether the workers have been through the iterator in hand, where no round is under way.
abbrev pub rounds_ahead : Scheduler → ℕ
rounds_ahead locking = 1
rounds_ahead sleeping = 1
rounds_ahead deleting = 1
rounds_ahead s = 0

abbrev pub waits_for_round : Scheduler → Bool
waits_for_round locking = true
waits_for_round sleeping = true
waits_for_round s = false

-- The schedule thread is not between its test of `count_wait` and its broadcast.
abbrev pub calm : Scheduler → Bool
calm broadcasting = false
calm s = true

-- A worker that has done `k` rounds and is in none.
abbrev pub Outside : ℕ → Worker → ℕ → Type 0
Outside k starting done = done ≡ k
Outside k waiting done = done ≡ k
Outside k passed done = done ≡ k
Outside k w done = ⊥

-- A worker in the round of iterator `k`.
abbrev pub Inside : ℕ → Worker → ℕ → Type 0
Inside k woken done = done ≡ k
Inside k (running r) done = (r ≡ k) × (done ≡ k)
Inside k arrived done = done ≡ suc k
Inside k w done = ⊥

pub record Linked (s : Handshake) : Type 0 where
  pub numbered : s.obtained ≡ s.deleted + in_hand s.scheduler
  pub pointed : in_hand s.scheduler ≡ 1 → s.it2 ≡ some s.deleted

pub record BetweenRounds (n : ℕ) (s : Handshake) : Type 0 where
  pub calm_there : calm s.scheduler ≡ true
  pub outside :
      (i : ℕ) → i < n → Outside (s.deleted + rounds_ahead s.scheduler) (s.worker i) (s.rounds i)
  pub counted : tally is_waiting n s.worker ≡ s.count_wait
  pub full_at_end : s.scheduler ≡ ended → n ≤ s.count_wait

-- Between the test of `count_wait` and the broadcast.
pub record AtBroadcast (n : ℕ) (s : Handshake) : Type 0 where
  pub broadcasts : s.scheduler ≡ broadcasting
  pub all_wait : (i : ℕ) → i < n → (s.worker i ≡ waiting) × (s.rounds i ≡ s.deleted)
  pub reset_there : s.count_wait ≡ 0

pub record InRound (n : ℕ) (s : Handshake) : Type 0 where
  pub waited_for : waits_for_round s.scheduler ≡ true
  pub inside : (i : ℕ) → i < n → Inside s.deleted (s.worker i) (s.rounds i)
  pub none_waits : s.count_wait ≡ 0

pub data Phase (n : ℕ) (s : Handshake) : Type 0 where
  between_rounds : BetweenRounds n s → Phase n s
  at_broadcast : AtBroadcast n s → Phase n s
  in_round : InRound n s → Phase n s

pub record Sound (n : ℕ) (s : Handshake) : Type 0 where
  pub linked : Linked s
  pub phase : Phase n s

pub started-Sound : (n : ℕ) → Sound n started
started-Sound n = record {
  linked = record { numbered = refl; pointed = λ h. absurd (omega arith) };
  phase = between_rounds (record {
    calm_there = refl;
    outside = λ i lt. refl;
    counted = tally-none is_waiting n (λ i. starting) (λ i lt. refl);
    full_at_end = λ h. cc;
  });
}
