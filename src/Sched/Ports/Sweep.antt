-- ===== src/Sched/Ports/Sweep.antt =====
-- fm160d/src/sched.c: the ticks of the search for the AT port, one candidate after the other.
use mathlib.Core.List.{append_assoc}
use openwrt_fm.Sched.{fm160_sched_kick, probe_found}
use openwrt_fm.Atq.{AtStatus}
use openwrt_fm.Sched.Ports.{
  Tty, Ports, Probe, answered, is_answer, probe_cb, send_probe, look_for_port, watch,
  port_discovery_tick,
}
use openwrt_fm.Base.{
  ℕ, suc, ◌+◌, ◌≤◌, Bool, true, false, ◌||◌, ◌≡◌, refl, sym, ap, ◌∙◌, List, [], ◌∷◌, ◌++◌, Option,
  arith, All, ltb, get_or, if◌then◌else◌, length, length-append, Bytes,
}

-- Ticks at these times, over the same ports.
abbrev pub ticks : List Tty → (Bytes → Probe) → List ℕ → Ports → Ports
ticks ttys reply [] w = w
ticks ttys reply (now ∷ ts) w = ticks ttys reply ts (port_discovery_tick now ttys reply w)

-- A port that is probed and is not the one, and one that is.
abbrev pub IsMiss : Probe → Type 0
IsMiss probe =
    (st : AtStatus) × (resp : Option Bytes) × (probe ≡ answered st resp)
    × (is_answer st resp ≡ false)

abbrev pub IsHit : Probe → Type 0
IsHit probe =
    (st : AtStatus) × (resp : Option Bytes) × (probe ≡ answered st resp)
    × (is_answer st resp ≡ true)

-- The search stands in front of these candidates, of which `done` are behind it.
pub record Ahead (done more : List Bytes) (bound : ℕ) (w : Ports) : Type 0 where
  pub no_port : w.sched.port_found ≡ false
  pub free : w.port_probing ≡ false
  pub cand : w.cand ≡ done ++ more
  pub idx : w.cand_idx ≡ length done
  pub soon : w.port_next_probe_ms ≤ bound

get_or-append :
    (done : List Bytes) (x : Bytes) (more : List Bytes)
    → get_or (done ++ (x ∷ more)) (length done) [] ≡ x
get_or-append [] x more = refl
get_or-append (d ∷ done) x more = get_or-append done x more

if_false : (b : Bool) (x y : Ports) → b ≡ false → (if b then x else y) ≡ y
if_false b x y h = rw h refl

tick-probe :
    (done more : List Bytes) (x : Bytes) (now : ℕ) (ttys : List Tty) (reply : Bytes → Probe)
    (w : Ports)
    → Ahead done (x ∷ more) now w
    → port_discovery_tick now ttys reply w ≡ send_probe now x (reply x) w
unfolding port_discovery_tick look_for_port
tick-probe done more x now ttys reply w a =
    let name : get_or w.cand w.cand_idx [] ≡ x =
      ap (λ (t : List Bytes). get_or t w.cand_idx []) a.cand
      ∙ ap (λ (t : ℕ). get_or (done ++ (x ∷ more)) t []) a.idx
      ∙ get_or-append done x more in
    let size : length w.cand ≡ length done + suc (length more) =
      ap (λ (t : List Bytes). length t) a.cand ∙ length-append done (x ∷ more) in
    let waits : (w.port_probing || ltb now w.port_next_probe_ms) ≡ false =
      rw (a.free) (ground (arith, a.soon)) in
    let left : ltb w.cand_idx (length w.cand) ≡ true = ground (arith, a.idx, size) in
    if_false w.sched.port_found (watch now w) (look_for_port now ttys reply w) a.no_port
    ∙ rw (waits, left) (ap (λ (t : Bytes). send_probe now t (reply t) w) name)

-- The state behind a miss.
abbrev pub missed : Bytes → Ports → Ports
missed x w = record w {
  port_probing = false;
  port_next_probe_ms = 0;
  cand_idx = w.cand_idx + 1;
  probes = w.probes ++ (x ∷ []);
}

send_probe-missed :
    (now : ℕ) (x : Bytes) (probe : Probe) (w : Ports)
    → IsMiss probe
    → send_probe now x probe w ≡ missed x w
unfolding send_probe probe_cb
send_probe-missed now x probe w (st, resp, e, miss) = rw (e, send_probe) (rw (miss, probe_cb) refl)

missed-Ahead :
    (done more : List Bytes) (x : Bytes) (bound bound' : ℕ) (w : Ports)
    → Ahead done (x ∷ more) bound w
    → Ahead (done ++ (x ∷ [])) more bound' (missed x w)
missed-Ahead done more x bound bound' w a = record {
  no_port = a.no_port;
  free = refl;
  cand = a.cand ∙ sym (append_assoc done (x ∷ []) more);
  idx = omega (arith, a.idx, length-append done (x ∷ []));
  soon = omega arith;
}

-- What a port found leaves.
pub record IsFound (good : Bytes) (w : Ports) (tried : List Bytes) (w' : Ports) : Type 0 where
  pub found : w'.sched.port_found ≡ true
  pub port : w'.port ≡ good
  pub probes : w'.probes ≡ w.probes ++ tried

send_probe-IsFound :
    (now : ℕ) (x : Bytes) (probe : Probe) (w : Ports)
    → IsHit probe
    → IsFound x w (x ∷ []) (send_probe now x probe w)
unfolding send_probe probe_cb probe_found fm160_sched_kick
send_probe-IsFound now x probe w (st, resp, e, hit) =
    rw (e, send_probe) (rw (hit, probe_cb) (record { found = refl; port = refl; probes = refl }))

-- Ports in front of one that answers are probed once each, in their order, one at every tick, and the
-- search ends with the one that answers.
pub ticks-IsFound :
    (ttys : List Tty) (reply : Bytes → Probe) (done front back : List Bytes) (good : Bytes)
    (now : ℕ) (times : List ℕ) (w : Ports)
    → Ahead done (front ++ (good ∷ back)) now w
    → All (λ (x : Bytes). IsMiss (reply x)) front
    → IsHit (reply good)
    → length times ≡ length front
    → IsFound good w (front ++ (good ∷ [])) (ticks ttys reply (now ∷ times) w)
ticks-IsFound ttys reply done [] back good now [] w a misses hit size =
    rw (tick-probe done back good now ttys reply w a)
      (send_probe-IsFound now good (reply good) w hit)
ticks-IsFound ttys reply done [] back good now (t ∷ ts) w a misses hit size =
    absurd (omega (arith, size))
ticks-IsFound ttys reply done (x ∷ front) back good now [] w a misses hit size =
    absurd (omega (arith, size))
ticks-IsFound ttys reply done (x ∷ front) back good now (t ∷ ts) w a misses hit size =
    let step =
      tick-probe done (front ++ (good ∷ back)) x now ttys reply w a
      ∙ send_probe-missed now x (reply x) w misses.0 in
    let next = missed-Ahead done (front ++ (good ∷ back)) x now t w a in
    let rest =
      ticks-IsFound ttys reply (done ++ (x ∷ [])) front back good t ts (missed x w) next misses.1
        hit (omega (arith, size)) in
    rw step (record {
      found = rest.found;
      port = rest.port;
      probes = rest.probes ∙ append_assoc w.probes (x ∷ []) (front ++ (good ∷ []));
    })
