-- ===== src/Dial/Ledger.antt =====
-- fm160d/src/dialer.c: the ledger of resets, as one process writes it and the next one loads it, and the
-- limit on resets.
pub mod Printed
use openwrt_fm.Dial.{step_failed, DialWorld, Clock, ledger_note_reset, dial_escalate}
use openwrt_fm.Dial.Calls.{fm160_dial_init}
use openwrt_fm.Dial.Stamps.{ledger_count, ledger_max, read_stamps, noted_stamps}
use openwrt_fm.Dial.Ledger.Printed.{
  IsRecent, printed, count-printed, read_stamps-printed, noted_stamps-printed,
}
use openwrt_fm.Dial.Budget.Runs.{DialReach, DialReach-Paid}
use openwrt_fm.Net.{fm160_net_reset_allowed}
use openwrt_fm.Base.{
  ℕ, ◌+◌, ◌-◌, ◌≤◌, ◌<◌, true, false, not, ◌≡◌, ◌^◌, ◌⊎◌, Bytes, refl, sym, ap, ◌∙◌, inl, inr, List,
  ◌∷◌, arith, ltb, length, Bool-cases, All,
}

-- A reset is noted in an option that holds up to seven numbers in decimal with commas between them, all
-- of the last 24 hours: it is put in front of them. A process that starts while they and the new
-- one are still of the last 24 hours counts them all, as the one that noted the reset does if it had
-- counted those before. The clock does not reach 2^63.
pub ledger_note-init :
    (k later : Clock) (w : DialWorld) (ts : List ℕ) (total : ℕ)
    → w.stamps ≡ printed ts
    → length ts ≤ 7
    → All (IsRecent k.wall_s) ts
    → All (IsRecent later.wall_s) (k.wall_s ∷ ts)
    → later.wall_s < 2 ^ 63
    → w.st.resets_in_window ≡ length ts
    → ((ledger_note_reset k w).stamps ≡ printed (k.wall_s ∷ ts))
      × ((fm160_dial_init later (ledger_note_reset k w).stamps total).resets_in_window
          ≡ (ledger_note_reset k w).st.resets_in_window)
unfolding ledger_note_reset fm160_dial_init
ledger_note-init k later w ts total option le recent still clock counted =
    let written =
      ap (noted_stamps k.wall_s) option
      ∙ noted_stamps-printed k.wall_s ts le recent (omega (arith, still.0.1.0, clock)) in
    let all = k.wall_s ∷ ts in
    let eight : length all ≤ 8 = omega (arith, le) in
    let fits : later.wall_s ≤ 9223372036854775807 = omega (arith, clock) in
    (
      written,
      ap (λ (s : Bytes). ledger_count 8 later.wall_s (read_stamps s)) written
          ∙ ap (ledger_count 8 later.wall_s) (read_stamps-printed later.wall_s all eight still fits)
          ∙ count-printed 8 later.wall_s all eight still fits
          ∙ omega (arith, counted),
    )

-- In every state that is reached, an escalation resets the module exactly where resets are permitted
-- and those in the ledger at the start of the process and those since are fewer than three, at
-- whatever time; otherwise no reset is submitted, and the healing is stopped in the step FAILED.
pub DialReach-dial_escalate :
    {r0 : ℕ} {w : DialWorld}
    → (k : Clock) → DialReach r0 w
    → ((w.st.allow_reset ≡ true)
        × ((r0 + w.resets < 3) × ((dial_escalate k w).resets ≡ w.resets + 1)))
      ⊎ (((w.st.allow_reset ≡ false) ⊎ (3 ≤ r0 + w.resets))
          × (((dial_escalate k w).resets ≡ w.resets)
              × (((dial_escalate k w).st.healing_stopped ≡ true)
                  × ((dial_escalate k w).st.step ≡ step_failed))))
unfolding dial_escalate fm160_net_reset_allowed ledger_note_reset
DialReach-dial_escalate {w = w} k r =
    let counted = (DialReach-Paid r).counted in
    elim (Bool-cases w.st.allow_reset) [
      | inr forbidden ↦
          let test : not w.st.allow_reset ≡ true = ground arith in
          inr (inl forbidden, rw test (refl, (refl, refl)))
      | inl permitted ↦
          let test : not w.st.allow_reset ≡ false = ground arith in
          elim (Bool-cases (ltb w.st.resets_in_window 3)) [
            | inl room ↦
                let free : not (ltb w.st.resets_in_window 3) ≡ false = ground arith in
                inl (permitted, (ground (arith, counted), rw (test, free) refl))
            | inr full ↦
                let spent : not (ltb w.st.resets_in_window 3) ≡ true = ground arith in
                inr (inr (ground (arith, counted)), rw (test, spent) (refl, (refl, refl)))
          ]
    ]
