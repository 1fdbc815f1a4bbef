-- ===== src/Sched/Housekeeping/Pass.antt =====
-- fm160d/src/sched.c: one pass over the items, by what the requests do to the scheduler.
use mathlib.Core.Path.{subst}
use openwrt_fm.Sched.Breaker.{Consistent}
use openwrt_fm.Sched.Timing.{note_result-due}
use openwrt_fm.Sched.Housekeeping.{
  Polls, item_enabled, item_at, put_item, fired_item, rearmed, run_fire, rearm_at, poll_one,
  poll_loop,
}
use openwrt_fm.Sched.{PollItem, Sched, item_base_ms, fm160_sched_note_result}
use openwrt_fm.Base.{
  ℕ, zero, suc, ◌+◌, ◌≤◌, ◌<◌, true, false, ◌≡◌, refl, sym, ap, ◌∙◌, inl, inr, List, [], ◌∷◌,
  Option, none, some, arith, All, ltb, leb, ◌==◌, if◌then◌else◌, set, Bool-cases, Option-cases,
}

-- Every item is due later than now.
abbrev pub AllLater : ℕ → List PollItem → Type 0
AllLater now its = All (λ (it : PollItem). now < it.next_ms) its

item_at-All :
    (now : ℕ) (its : List PollItem) (i : ℕ) (it : PollItem)
    → AllLater now its
    → item_at its i ≡ some it
    → now < it.next_ms
item_at-All now [] i it h e = absurd (cc)
item_at-All now (x ∷ its) zero it h e =
    let same : x ≡ it = cc in subst (λ (t : PollItem). now < t.next_ms) same h.0
item_at-All now (x ∷ its) (suc i) it h e = item_at-All now its i it h.1 e

All-set :
    (now : ℕ) (its : List PollItem) (i : ℕ) (it : PollItem)
    → AllLater now its
    → now < it.next_ms
    → AllLater now (set its i it)
All-set now [] i it h lt = tt
All-set now (x ∷ its) zero it h lt = (lt, h.1)
All-set now (x ∷ its) (suc i) it h lt = (h.0, All-set now its i it h.1 lt)

poll_one_later :
    (jitter depth : ℕ → ℕ) (fire : ℕ → Sched → Sched) (now i : ℕ) (it : PollItem) (w : Polls)
    → now < it.next_ms
    → poll_one jitter depth fire now i it w ≡ w
unfolding poll_one
poll_one_later jitter depth fire now i it w lt =
    let test : ltb now it.next_ms ≡ true = ground arith in
    elim (Bool-cases (item_enabled w.sched it)) [
      | inl enabled ↦ rw (enabled, test) refl
      | inr off ↦ rw off refl
    ]

-- With every item due later the loop does nothing.
poll_loop_later :
    (jitter depth : ℕ → ℕ) (fire : ℕ → Sched → Sched) (now count i : ℕ) (w : Polls)
    → AllLater now w.sched.items
    → poll_loop jitter depth fire now count i w ≡ w
unfolding poll_loop
poll_loop_later jitter depth fire now zero i w h = refl
poll_loop_later jitter depth fire now (suc count) i w h =
    elim (Option-cases (item_at w.sched.items i)) [
      | inl gone ↦ rw (gone, poll_loop) refl
      | inr (it, here) ↦
          let idle =
            poll_one_later jitter depth fire now i it w
              (item_at-All now w.sched.items i it h here) in
          rw (here, poll_loop)
            (ap (poll_loop jitter depth fire now count (i + 1)) idle
              ∙ poll_loop_later jitter depth fire now count (i + 1) w h)
    ]

rearm_at-All :
    (now i next : ℕ) (o : Option PollItem) (w : Polls)
    → AllLater now w.sched.items
    → now < next
    → AllLater now (rearm_at i next o w).sched.items
rearm_at-All now i next none w h lt = h
rearm_at-All now i next (some it) w h lt = All-set now w.sched.items i (rearmed next it) h lt

soon : (base : ℕ) → 0 < (if base == 0 then 1000 else base)
soon zero = omega arith
soon (suc b) = ground arith

equal_later :
    (now until : ℕ) (its : List PollItem)
    → now < until
    → All (λ (it : PollItem). it.next_ms ≡ until) its
    → AllLater now its
equal_later now until [] lt h = tt
equal_later now until (x ∷ its) lt h = (omega (arith, lt, h.0), equal_later now until its lt h.1)

-- The third timeout in a row, met by an item of the pass, ends the polling of that pass: no item behind
-- it is fired, skipped or put off again.
pub poll_one-suspends :
    (jitter depth : ℕ → ℕ) (fire : ℕ → Sched → Sched) (now count i : ℕ) (it : PollItem) (w : Polls)
    → item_enabled w.sched it ≡ true
    → it.next_ms ≤ now
    → depth i < 3
    → Consistent 2 w.sched
    → ((s : Sched) → fire it.key s ≡ fm160_sched_note_result now false true s)
    → poll_loop jitter depth fire now count (i + 1) (poll_one jitter depth fire now i it w)
      ≡ poll_one jitter depth fire now i it w
unfolding poll_one
poll_one-suspends jitter depth fire now count i it w enabled due shallow c timeout =
    let base = item_base_ms jitter w.sched it in
    let next = now + (if base == 0 then 1000 else base) in
    let begun = put_item i (fired_item now it) w in
    let done = run_fire fire it.key begun in
    let begun_Consistent : Consistent 2 begun.sched = record {
      count = c.count;
      state = c.state;
      speed = c.speed;
    } in
    let after = ((note_result-due now 2 begun.sched begun_Consistent).0 refl).1 in
    let off : AllLater now (fire it.key begun.sched).items =
      subst (λ (s : Sched). AllLater now s.items) (sym (timeout begun.sched))
        (equal_later now (now + 60000) _ (omega arith) after) in
    let all =
      rearm_at-All now i next (item_at done.sched.items i) done off (omega (arith, soon base)) in
    let not_later : ltb now it.next_ms ≡ false = ground arith in
    let room : leb 3 (depth i) ≡ false = ground arith in
    rw (enabled, not_later, room)
      (poll_loop_later jitter depth fire now count (i + 1)
        (rearm_at i next (item_at done.sched.items i) done) all)
