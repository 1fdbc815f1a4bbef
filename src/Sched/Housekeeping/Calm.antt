-- ===== src/Sched/Housekeeping/Calm.antt =====
-- fm160d/src/sched.c: a pass over the items whose requests leave the polling as it is.
use mathlib.Core.Path.{subst}
use mathlib.Core.List.{append-nil, append_assoc}
use openwrt_fm.Sched.Housekeeping.Expected.{
  takes_part, period_ms, fires, passed, passed_all, fired_keys, key_of,
}
use openwrt_fm.Sched.Housekeeping.{
  Polls, item_enabled, item_at, put_item, fired_item, rearmed, run_fire, rearm_at, poll_one,
  poll_loop, poll_all, Outside,
}
use openwrt_fm.Sched.{PollItem, Sched, item_base_ms}
use openwrt_fm.Base.{
  ◌*◌, ◌/◌, ℕ, zero, suc, ◌+◌, true, false, not, ◌&&◌, ◌≡◌, refl, sym, ap, ◌∙◌, inl, inr, List, [],
  ◌∷◌, ◌++◌, Option, some, arith, ltb, leb, ◌==◌, if◌then◌else◌, length, length-append, set,
  Bool-cases,
}

-- What the polling reads of the scheduler, beside the items, is the same.
pub record SameView (s s' : Sched) : Type 0 where
  pub foreground : s'.foreground ≡ s.foreground
  pub speed : s'.speed_factor ≡ s.speed_factor
  pub scale : s'.tier_scale ≡ s.tier_scale

-- Requests that change nothing of this and none of the items.
pub record IsCalm (fire : ℕ → Sched → Sched) : Type 0 where
  pub items : (key : ℕ) (s : Sched) → (fire key s).items ≡ s.items
  pub view : (key : ℕ) (s : Sched) → SameView s (fire key s)

item_at-append :
    (done : List PollItem) (it : PollItem) (rest : List PollItem)
    → item_at (done ++ (it ∷ rest)) (length done) ≡ some it
item_at-append [] it rest = refl
item_at-append (d ∷ done) it rest = item_at-append done it rest

set-append :
    (done : List PollItem) (it v : PollItem) (rest : List PollItem)
    → set (done ++ (it ∷ rest)) (length done) v ≡ done ++ (v ∷ rest)
set-append [] it v rest = refl
set-append (d ∷ done) it v rest = ap (λ (t : List PollItem). d ∷ t) (set-append done it v rest)

item_enabled-view :
    (s s' : Sched) (it : PollItem) → SameView s s' → item_enabled s' it ≡ takes_part s it
unfolding item_enabled
item_enabled-view s s' it v = ground (arith, v.foreground)

if_zero {ℓ} :
    {A : Type ℓ} (n : ℕ) (a b : A) → (if n == 0 then a else b) ≡ (if ltb 0 n then b else a)
if_zero n a b = elim (Bool-cases (n == 0)) [
  | inl e ↦ let test : ltb 0 n ≡ false = ground arith in rw (e, test) refl
  | inr e ↦ let test : ltb 0 n ≡ true = ground arith in rw (e, test) refl
]

every_case :
    (jitter : ℕ → ℕ) (every scale speed : ℕ)
    → (if every == 0 then 0 else jitter (every * (if ltb 0 scale then scale else 1)) * speed)
      ≡ (if ltb 0 every then jitter (every * (if scale == 0 then 1 else scale)) * speed else 0)
every_case jitter every scale speed =
    rw (if_zero scale 1 scale)
      (if_zero every 0 (jitter (every * (if ltb 0 scale then scale else 1)) * speed))

base-view :
    (jitter : ℕ → ℕ) (s s' : Sched) (it : PollItem)
    → SameView s s'
    → item_base_ms jitter s' it ≡ period_ms jitter s it
unfolding item_base_ms
base-view jitter s s' it v =
    let nonzero : not (it.active_ms == 0) ≡ ltb 0 it.active_ms = ground arith in
    rw (v.foreground, v.speed, v.scale)
      (rw nonzero (
        every_case jitter (if s.foreground && ltb 0 it.active_ms then it.active_ms else it.idle_ms)
          s.tier_scale s.speed_factor))

-- The pass has reached `rest`: the items, and what the polling reads, as at its start.
pub record Reached (s : Sched) (its : List PollItem) (keys : List ℕ) (w : Polls) : Type 0 where
  pub items : w.sched.items ≡ its
  pub view : SameView s w.sched
  pub fired : w.fired ≡ keys

put_item-Reached :
    (s : Sched) (done rest : List PollItem) (it v : PollItem) (keys : List ℕ) (w : Polls)
    → Reached s (done ++ (it ∷ rest)) keys w
    → Reached s (done ++ (v ∷ rest)) keys (put_item (length done) v w)
put_item-Reached s done rest it v keys w r = record {
  items = ap (λ (t : List PollItem). set t (length done) v) r.items ∙ set-append done it v rest;
  view = record { foreground = r.view.foreground; speed = r.view.speed; scale = r.view.scale };
  fired = r.fired;
}

run_fire-Reached :
    (fire : ℕ → Sched → Sched) (key : ℕ) (s : Sched) (items : List PollItem) (keys : List ℕ)
    (w : Polls)
    → IsCalm fire
    → Reached s items keys w
    → Reached s items (keys ++ (key ∷ [])) (run_fire fire key w)
run_fire-Reached fire key s items keys w calm r =
    let v = calm.view key w.sched in
    record {
      items = calm.items key w.sched ∙ r.items;
      view = record {
        foreground = v.foreground ∙ r.view.foreground;
        speed = v.speed ∙ r.view.speed;
        scale = v.scale ∙ r.view.scale;
      };
      fired = ap (λ (t : List ℕ). t ++ (key ∷ [])) r.fired;
    }

rearm_at-some :
    (i next : ℕ) (o : Option PollItem) (it : PollItem) (w : Polls)
    → o ≡ some it
    → rearm_at i next o w ≡ put_item i (rearmed next it) w
rearm_at-some i next o it w e = rw e refl

-- An item that is fired.
fire-Reached :
    (fire : ℕ → Sched → Sched) (now next : ℕ) (s : Sched) (done rest : List PollItem)
    (it : PollItem) (keys : List ℕ) (w : Polls)
    → IsCalm fire
    → Reached s (done ++ (it ∷ rest)) keys w
    → Reached s (done ++ (rearmed next (fired_item now it) ∷ rest)) (keys ++ (it.key ∷ [])) (
        rearm_at
          (length done)
          next
          (item_at
            (run_fire fire it.key (put_item (length done) (fired_item now it) w)).sched.items
            (length done))
          (run_fire fire it.key (put_item (length done) (fired_item now it) w)))
fire-Reached fire now next s done rest it keys w calm r =
    let begun = put_item-Reached s done rest it (fired_item now it) keys w r in
    let ran =
      run_fire-Reached fire it.key s (done ++ (fired_item now it ∷ rest)) keys
        (put_item (length done) (fired_item now it) w) calm begun in
    let v = run_fire fire it.key (put_item (length done) (fired_item now it) w) in
    let there : item_at v.sched.items (length done) ≡ some (fired_item now it) =
      ap (λ (t : List PollItem). item_at t (length done)) ran.items
      ∙ item_at-append done (fired_item now it) rest in
    rw
      (rearm_at-some (length done) next (item_at v.sched.items (length done)) (fired_item now it) v
        there)
      (put_item-Reached s done rest (fired_item now it) (rearmed next (fired_item now it))
        (keys ++ (it.key ∷ [])) v ran)

put_nothing :
    (s : Sched) (its : List PollItem) (keys : List ℕ) (w : Polls)
    → Reached s its keys w
    → Reached s its (keys ++ []) w
put_nothing s its keys w r = record {
  items = r.items;
  view = r.view;
  fired = r.fired ∙ sym (append-nil keys);
}

-- One round of a calm pass.
poll_one-Reached :
    (jitter depth : ℕ → ℕ) (fire : ℕ → Sched → Sched) (now : ℕ) (s : Sched)
    (done rest : List PollItem) (it : PollItem) (keys : List ℕ) (w : Polls)
    → IsCalm fire
    → Reached s (done ++ (it ∷ rest)) keys w
    → Reached s
        (done ++ (passed jitter now (depth (length done)) s it ∷ rest))
        (keys ++ key_of now (depth (length done)) s it)
        (poll_one jitter depth fire now (length done) it w)
unfolding poll_one
poll_one-Reached jitter depth fire now s done rest it keys w calm r =
    let i = length done in
    let en = item_enabled-view s w.sched it r.view in
    let bs = base-view jitter s w.sched it r.view in
    let base = period_ms jitter s it in
    let same = put_nothing s (done ++ (it ∷ rest)) keys w r in
    elim (Bool-cases (takes_part s it)) [
      | inr off ↦ rw (en, off) same
      | inl enabled ↦ elim (Bool-cases (leb it.next_ms now)) [
        | inr later ↦
            let test : ltb now it.next_ms ≡ true = ground arith in
            rw (en, enabled, later, test) same
        | inl due ↦
            let test : ltb now it.next_ms ≡ false = ground arith in
            elim (Bool-cases (ltb (depth i) 3)) [
              | inl shallow ↦
                  let room : leb 3 (depth i) ≡ false = ground arith in
                  rw (en, enabled, due)
                    (rw (test, shallow, room)
                      (rw (bs, if_zero base 1000 base)
                        (fire-Reached fire now (now + (if ltb 0 base then base else 1000)) s done
                          rest it keys w calm r)))
              | inr deep ↦
                  let full : leb 3 (depth i) ≡ true = ground arith in
                  rw (en, enabled, due)
                    (rw (test, deep, full)
                      (rw (bs, if_zero base 1000 (base / 2))
                        (put_nothing s _ keys _ (
                          put_item-Reached s done rest it
                            (record it {
                              skips = it.skips + 1;
                              next_ms = now + (if ltb 0 base then base / 2 else 1000);
                            })
                            keys w r))))
            ]
      ]
    ]

fired_keys-cons :
    (depth : ℕ → ℕ) (now : ℕ) (s : Sched) (i : ℕ) (it : PollItem) (its : List PollItem)
    → fired_keys depth now s i (it ∷ its)
      ≡ key_of now (depth i) s it ++ fired_keys depth now s (i + 1) its
fired_keys-cons depth now s i it its = elim (Bool-cases (fires now (depth i) s it)) [
  | inl on ↦ rw on refl
  | inr off ↦ rw off refl
]

poll_loop_step :
    (jitter depth : ℕ → ℕ) (fire : ℕ → Sched → Sched) (now count i : ℕ) (it : PollItem) (w : Polls)
    → item_at w.sched.items i ≡ some it
    → poll_loop jitter depth fire now (suc count) i w
      ≡ poll_loop jitter depth fire now count (i + 1) (poll_one jitter depth fire now i it w)
unfolding poll_loop
poll_loop_step jitter depth fire now count i it w e = rw (e, poll_loop) refl

poll_loop_done :
    (jitter depth : ℕ → ℕ) (fire : ℕ → Sched → Sched) (now i : ℕ) (w : Polls)
    → poll_loop jitter depth fire now zero i w ≡ w
unfolding poll_loop
poll_loop_done jitter depth fire now i w = refl

poll_loop-Reached :
    (jitter depth : ℕ → ℕ) (fire : ℕ → Sched → Sched) (now : ℕ) (s : Sched)
    (done rest : List PollItem) (i : ℕ) (keys : List ℕ) (w : Polls)
    → i ≡ length done
    → IsCalm fire
    → Reached s (done ++ rest) keys w
    → Reached s
        (done ++ passed_all jitter depth now s i rest)
        (keys ++ fired_keys depth now s i rest)
        (poll_loop jitter depth fire now (length rest) i w)
poll_loop-Reached jitter depth fire now s done [] i keys w e calm r =
    rw (poll_loop_done jitter depth fire now i w) (put_nothing s (done ++ []) keys w r)
poll_loop-Reached jitter depth fire now s done (it ∷ rest) i keys w e calm r =
    let v = passed jitter now (depth i) s it in
    let there : item_at w.sched.items i ≡ some it =
      ap (λ (t : List PollItem). item_at t i) r.items
      ∙ ap (item_at (done ++ (it ∷ rest))) e
      ∙ item_at-append done it rest in
    let step : Reached s (done ++ (v ∷ rest)) (keys ++ key_of now (depth i) s it)
        (poll_one jitter depth fire now i it w) =
      subst
        (λ (n : ℕ).
          Reached s (done ++ (passed jitter now (depth n) s it ∷ rest))
            (keys ++ key_of now (depth n) s it) (poll_one jitter depth fire now n it w))
        (sym e) (poll_one-Reached jitter depth fire now s done rest it keys w calm r) in
    let later =
      poll_loop-Reached jitter depth fire now s (done ++ (v ∷ [])) rest (i + 1)
        (keys ++ key_of now (depth i) s it) (poll_one jitter depth fire now i it w)
        (omega (arith, e, length-append done (v ∷ []))) calm
        (record {
          items = step.items ∙ sym (append_assoc done (v ∷ []) rest);
          view = step.view;
          fired = step.fired;
        }) in
    rw (poll_loop_step jitter depth fire now (length rest) i it w there) (record {
      items = later.items ∙ append_assoc done (v ∷ []) (passed_all jitter depth now s (i + 1) rest);
      view = later.view;
      fired =
          later.fired
          ∙ append_assoc keys (key_of now (depth i) s it) (fired_keys depth now s (i + 1) rest)
          ∙ ap (λ (t : List ℕ). keys ++ t) (sym (fired_keys-cons depth now s i it rest));
    })

-- Where the requests leave items and timing as they are, a pass fires exactly the items that are
-- enabled and due while fewer than three requests are queued, each once and in their order; these are
-- counted, dated and due again after their interval, those met by a longer queue are counted as put
-- off and due after half of it, either after a second where there is no interval now, and no other
-- item changes.
pub poll_all-Reached :
    (out : Outside) (now : ℕ) (s : Sched) (fired : List ℕ)
    → IsCalm out.fire
    → Reached s
        (passed_all out.jitter out.depth now s 0 s.items)
        (fired ++ fired_keys out.depth now s 0 s.items)
        (poll_all out now s fired)
unfolding poll_all
poll_all-Reached out now s fired calm =
    poll_loop-Reached out.jitter out.depth out.fire now s [] s.items 0 fired
      (record { sched = s; fired = fired }) refl calm
      (record {
        items = refl;
        view = record { foreground = refl; speed = refl; scale = refl };
        fired = refl;
      })
