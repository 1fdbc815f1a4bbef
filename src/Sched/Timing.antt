-- ===== src/Sched/Timing.antt =====
-- fm160d/src/sched.c: when the items of the scheduler are due.
use openwrt_fm.Base.{
  ℕ, zero, suc, ◌+◌, ◌*◌, ◌≤◌, ◌<◌, true, false, not, ◌&&◌, ◌≡◌, refl, ap, ◌∙◌, List, [], ◌∷◌, map,
  ◌==◌, ltb, if◌then◌else◌, arith, All,
}
use openwrt_fm.Sched.Breaker.{Consistent, slowdown}
use openwrt_fm.Sched.{
  PollItem, Sched, item_base_ms, item_arm, kick_item, fm160_sched_suspend, fm160_sched_kick,
  fm160_sched_note_result, breaker_soft_limit,
}

-- The product with a number from 0.8 to 1.2, cast to an integer.
pub record IsJitter (jitter : ℕ → ℕ) : Type 0 where
  pub low : (b : ℕ) → 4 * b < 5 * jitter b + 5
  pub high : (b : ℕ) → 5 * jitter b ≤ 6 * b

-- The interval that applies, without jitter and slowdown.
abbrev pub interval : Sched → PollItem → ℕ
interval s it =
    (if s.foreground && not (it.active_ms == 0) then it.active_ms else it.idle_ms)
    * (if ltb 0 s.tier_scale then s.tier_scale else 1)

-- An item is due in its interval times the slowdown, a fifth more or less.
pub record IsArmed (now b k next : ℕ) : Type 0 where
  pub wait : ℕ
  pub due : next ≡ now + wait * k
  pub low : 4 * b < 5 * wait + 5
  pub high : 5 * wait ≤ 6 * b

no_product : (b c : ℕ) → 2 ≤ b * c → (b == 0) ≡ false
no_product zero c h = absurd (omega arith)
no_product (suc b) c h = ground arith

item_base_ms-interval :
    (jitter : ℕ → ℕ) (n : ℕ) (s : Sched) (it : PollItem)
    → Consistent n s
    → 2 ≤ interval s it
    → item_base_ms jitter s it ≡ jitter (interval s it) * slowdown n
unfolding item_base_ms
item_base_ms-interval jitter n s it c some_interval =
    rw (no_product _ _ some_interval, c.speed) refl

item_arm-base :
    (jitter : ℕ → ℕ) (now : ℕ) (s : Sched) (it : PollItem)
    → 0 < item_base_ms jitter s it
    → (item_arm jitter now s it).next_ms ≡ now + item_base_ms jitter s it
unfolding item_arm
item_arm-base jitter now s it pos =
    let test : (item_base_ms jitter s it == 0) ≡ false = ground arith in rw test refl

slow_down : (n wait : ℕ) → 0 < wait → 0 < wait * slowdown n
slow_down n wait pos = ground arith

-- With the breaker at the level of `n` timeouts, an item with an interval of two milliseconds or
-- more is due after its interval times the slowdown, a fifth more or less, and not at once.
pub item_arm-IsArmed :
    (jitter : ℕ → ℕ) (now n : ℕ) (s : Sched) (it : PollItem)
    → IsJitter jitter
    → Consistent n s
    → 2 ≤ interval s it
    → IsArmed now (interval s it) (slowdown n) (item_arm jitter now s it).next_ms
      × (now < (item_arm jitter now s it).next_ms)
item_arm-IsArmed jitter now n s it j c some_interval =
    let wait = jitter (interval s it) in
    let low = j.low (interval s it) in
    let high = j.high (interval s it) in
    let base = item_base_ms-interval jitter n s it c some_interval in
    let pos = slow_down n wait (omega (arith, low, some_interval)) in
    let due =
      item_arm-base jitter now s it (omega (arith, base, pos)) ∙ ap (λ (t : ℕ). now + t) base in
    (record { wait = wait; due = due; low = low; high = high }, omega (arith, due, pos))

All-map {ℓ} :
    (P : PollItem → Type ℓ) (f : PollItem → PollItem) (its : List PollItem)
    → ((it : PollItem) → P (f it))
    → All P (map f its)
All-map P f [] h = tt
All-map P f (it ∷ its) h = (h it, All-map P f its h)

kick_item-due : (now : ℕ) (it : PollItem) → (kick_item now it).next_ms ≤ now
unfolding kick_item
kick_item-due now it = ground arith

-- The third timeout in a row puts every item off by a minute, and the pass with them; the answer
-- that follows three timeouts or more makes every item due.
pub note_result-due :
    (now n : ℕ) (s : Sched)
    → Consistent n s
    → (n ≡ 2
        → ((fm160_sched_note_result now false true s).poll_suspend_until_ms ≡ now + 60000)
          × All
              (λ (it : PollItem). it.next_ms ≡ now + 60000)
              (fm160_sched_note_result now false true s).items)
      × (3 ≤ n
          → All
              (λ (it : PollItem). it.next_ms ≤ now)
              (fm160_sched_note_result now true false s).items)
unfolding fm160_sched_note_result fm160_sched_suspend fm160_sched_kick
note_result-due now n s c = (
  λ two.
      let soft : (s.consec_timeout + 1 == breaker_soft_limit && ltb s.at_state 1) ≡ true =
        ground (arith, c.count, c.state) in
      rw soft (refl, All-map _ _ s.items (λ it. refl)),
  λ many.
      let slow : (s.speed_factor == 1) ≡ false = ground (arith, c.speed) in
      rw slow (All-map _ (kick_item now) s.items (kick_item-due now)),
)
