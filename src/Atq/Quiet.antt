-- ===== src/Atq/Quiet.antt =====
-- fm160d/src/atq.c: the quiet window, `atq_quiet_active`, `atq_set_quiet` and `atq_clear_quiet`. The
-- kinds are numbers, 0 for `QUIET_NONE`; the reason, a text for the page, is left out.
use openwrt_fm.Base.{
  ℕ, ◌+◌, ◌*◌, ◌≤◌, ◌<◌, Bool, true, not, ◌&&◌, ◌≡◌, ◌↔◌, ◌⊎◌, refl, inl, inr, arith, ltb, ◌==◌,
  if◌then◌else◌, Bool-cases,
}

pub record Quiet : Type 0 where
  pub kind : ℕ
  pub until_ms : ℕ

unfoldable pub atq_quiet_active : ℕ → Quiet → Bool
atq_quiet_active now q = not (q.kind == 0) && ltb now q.until_ms

unfoldable pub atq_set_quiet : ℕ → ℕ → ℕ → Quiet → Quiet
atq_set_quiet now kind seconds q =
    let until = now + seconds * 1000 in
    if atq_quiet_active now q && q.kind == kind && ltb until q.until_ms
    then q
    else record { kind = kind; until_ms = until }

unfoldable pub atq_clear_quiet : Quiet → Quiet
atq_clear_quiet q = if q.kind == 0 then q else record { kind = 0; until_ms = 0 }

-- A window that is set is open for the seconds asked for, and longer only where one of the same kind
-- was open that ends later; its kind is the one asked for in both cases.
pub set_quiet-active :
    (now later kind seconds : ℕ) (q : Quiet)
    → 0 < kind
    → now ≤ later
    → ((atq_set_quiet now kind seconds q).kind ≡ kind)
      × ((atq_quiet_active later (atq_set_quiet now kind seconds q) ≡ true)
          ↔ ((later < now + seconds * 1000) ⊎ ((q.kind ≡ kind) × (later < q.until_ms))))
unfolding atq_set_quiet atq_quiet_active
set_quiet-active now later kind seconds q some_kind after =
    elim (Bool-cases (
      not (q.kind == 0)
      && ltb now q.until_ms
      && q.kind == kind
      && ltb (now + seconds * 1000) q.until_ms)) [
        | inl keeps ↦
            rw keeps (ground arith, (λ h. inr (ground arith, ground arith), λ h. ground arith))
        | inr sets ↦ rw sets (refl, (λ h. inl (ground arith), λ h. ground arith))
      ]
