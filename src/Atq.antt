-- ===== src/Atq.antt =====
-- fm160d/src/atq.c, the AT request queue: admission in `atq_submit_full`, and what `atq_dispatch`
-- picks. The list nodes are told apart by `id`. What is issued, answered and called back is not
-- here, and `calloc` does not fail.
pub mod Choice
pub mod Bound
pub mod Invariant
pub mod Twins
pub mod Replies
pub mod Issue
pub mod Stages
pub mod Run
pub mod Quiet
mod Tests
mod RunTests
use openwrt_fm.Base.{
  ℕ, zero, suc, ◌+◌, ◌-◌, Bool, true, false, not, ◌&&◌, ◌||◌, List, [], ◌∷◌, ◌++◌, Option, none,
  some, ◌==◌, ltb, leb, if◌then◌else◌, length, take, Bytes, codes,
}

-- `enum at_prio`.
abbrev pub at_prio_state : ℕ
at_prio_state = 1

abbrev pub at_prio_poll : ℕ
at_prio_poll = 2

-- `ATQ_MAX_DEPTH` and `ATQ_STARVE_MS`.
abbrev pub atq_max_depth : ℕ
atq_max_depth = 24

abbrev pub atq_starve_ms : ℕ
atq_starve_ms = 30000

-- `FM160_AT_CMD_MAX`, `FM160_AT_END_MAX`, `FM160_AT_PAYLOAD_MAX` and `FM160_PORT_MAX`.
abbrev pub at_cmd_max : ℕ
at_cmd_max = 256

abbrev pub at_end_max : ℕ
at_end_max = 32

abbrev pub at_payload_max : ℕ
at_payload_max = 1088

abbrev pub port_max : ℕ
port_max = 64

-- `enum at_status`, of which nothing gives out the others.
pub data AtStatus : Type 0 where
  at_ok at_error at_timeout at_noport : AtStatus

pub record AtReq : Type 0 where
  pub prio : ℕ
  pub id : ℕ
  pub submit_ms : ℕ
  pub cmd : Bytes
  pub end_flag : Bytes
  pub timeout_ms : ℕ
  pub silent : Bool
  pub prompt : Bytes
  pub payload_hex : Bytes
  pub port : Bytes

-- The statics `q_head`, `inflight` and `next_id`.
pub record Atq : Type 0 where
  pub queue : List AtReq
  pub inflight : Option AtReq
  pub next_id : ℕ

-- `strcmp` as a test for equality.
unfoldable pub same_cmd : Bytes → Bytes → Bool
same_cmd [] [] = true
same_cmd [] (b ∷ bs) = false
same_cmd (c ∷ cs) [] = false
same_cmd (c ∷ cs) (b ∷ bs) = c == b && same_cmd cs bs

-- The loop of `atq_dispatch`.
unfoldable pub best_loop : Option AtReq → List AtReq → Option AtReq
best_loop best [] = best
best_loop none (req ∷ q) = best_loop (some req) q
best_loop (some best) (req ∷ q) = best_loop (some (if ltb req.prio best.prio then req else best)) q

-- The loop of `atq_submit_full` over a full queue.
unfoldable pub victim_loop : Option AtReq → List AtReq → Option AtReq
victim_loop victim [] = victim
victim_loop none (it ∷ q) = victim_loop (some it) q
victim_loop (some victim) (it ∷ q) =
    victim_loop (some (if ltb victim.prio it.prio then it else victim)) q

-- `list_del`.
unfoldable pub unlink : ℕ → List AtReq → List AtReq
unlink id [] = []
unlink id (req ∷ q) = let rest = unlink id q in if req.id == id then q else req ∷ rest

-- The starvation guard.
unfoldable pub promote : ℕ → AtReq → AtReq
promote now best =
    if best.prio == at_prio_poll && ltb atq_starve_ms (now - best.submit_ms)
    then record best { prio = at_prio_state }
    else best

-- The request that `atq_dispatch` takes off the queue, before it looks at the port.
unfoldable pub take_next : ℕ → Atq → Option (AtReq × List AtReq)
take_next now a = elim a.inflight [
  | some _ ↦ none
  | none ↦ elim (best_loop none a.queue) [
    | none ↦ none
    | some best ↦ some (promote now best, unlink best.id a.queue)
  ]
]

abbrev pub is_poll_of : Bytes → AtReq → Bool
is_poll_of cmd req = req.prio == at_prio_poll && same_cmd req.cmd cmd

unfoldable pub any_poll_of : Bytes → List AtReq → Bool
any_poll_of cmd [] = false
any_poll_of cmd (req ∷ q) = is_poll_of cmd req || any_poll_of cmd q

unfoldable pub atq_duplicate : AtReq → Atq → Bool
atq_duplicate want a =
    if not (want.prio == at_prio_poll)
    then false
    else any_poll_of want.cmd a.queue
      || elim a.inflight [ none ↦ false | some req ↦ is_poll_of want.cmd req ]

unfoldable pub atq_depth : Atq → ℕ
atq_depth a = elim a.inflight [ none ↦ 0 | some _ ↦ 1 ] + length a.queue

-- What `atq_submit_full` reads of `g_state`, `at_state == 2` and `atq_quiet_active()` as flags.
pub record Gate : Type 0 where
  pub enabled : Bool
  pub port_found : Bool
  pub quiet : Bool
  pub dead : Bool

pub data Admission : Type 0 where
  eagain enospc queued : Atq → Admission

abbrev append : AtReq → Atq → Atq
append req a = record a { queue = a.queue ++ (req ∷ []) }

-- The request takes the place of a queued one, or is refused.
unfoldable pub replace_victim : AtReq → Atq → Admission
replace_victim req a = elim (victim_loop none a.queue) [
  | none ↦ enospc a
  | some victim ↦
      if ltb req.prio victim.prio
      then queued (append req (record a { queue = unlink victim.id a.queue }))
      else enospc a
]

-- The arguments of `atq_submit_full` but the callback; an empty text is the NULL that is treated
-- like it, and `override_port` is `none` for NULL.
pub record Order : Type 0 where
  pub prio : ℕ
  pub cmd : Bytes
  pub end_flag : Bytes
  pub timeout_ms : ℕ
  pub silent : Bool
  pub override_port : Option Bytes
  pub prompt : Bytes
  pub payload_hex : Bytes

-- The tests that a request with its own port skips.
abbrev pub closed : Gate → Order → Bool
closed g o = elim o.override_port [
  | some _ ↦ false
  | none ↦
      not g.port_found || (o.prio == at_prio_poll && g.quiet) || (o.prio == at_prio_poll && g.dead)
]

-- `snprintf` into a buffer of `size` bytes.
abbrev pub fit : ℕ → Bytes → Bytes
fit size text = take (size - 1) text

-- The request as it is filled in.
abbrev pub new_req : ℕ → ℕ → Order → AtReq
new_req now id o = record {
  prio = o.prio;
  id = id;
  submit_ms = now;
  cmd = fit at_cmd_max o.cmd;
  end_flag = fit at_end_max o.end_flag;
  timeout_ms = if o.timeout_ms == 0 then 3000 else o.timeout_ms;
  silent = o.silent;
  prompt =
      if length o.payload_hex == 0
      then []
      else fit at_end_max (if length o.prompt == 0 then codes ">" else o.prompt);
  payload_hex = o.payload_hex;
  port = elim o.override_port [ none ↦ [] | some port ↦ fit port_max port ];
}

-- `atq_submit_full` up to the call of `atq_dispatch`.
unfoldable pub atq_submit_full : ℕ → Gate → Order → Atq → Admission
atq_submit_full now g o a =
    let req = new_req now a.next_id o in
    let counted : Atq = record a { next_id = a.next_id + 1 } in
    if not g.enabled
    then eagain a
    else if closed g o
    then eagain a
    else if leb at_payload_max (length o.payload_hex)
    then enospc a
    else if atq_duplicate req a
    then eagain counted
    else if leb atq_max_depth (atq_depth a)
    then replace_victim req counted
    else queued (append req counted)
