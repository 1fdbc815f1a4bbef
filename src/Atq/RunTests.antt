-- ===== src/Atq/RunTests.antt =====
-- fm160d/src/atq.c: a queue that is served, and the theorems about it.
use openwrt_fm.Atq.Replies.{fm160_resp_find}
use openwrt_fm.Atq.Replies.FirstValue.{FirstValue, IsCut, resp_find_iff}
use openwrt_fm.Atq.Quiet.{Quiet, atq_quiet_active, atq_set_quiet, set_quiet-active}
use openwrt_fm.Atq.Stages.{asks, writes_payload, new_req-asks}
use openwrt_fm.Atq.Run.Kept.{IsSound, run-IsSound}
use openwrt_fm.Atq.Run.Served.{InTurn, Answers, IsServed, resting, run-IsServed}
use openwrt_fm.Atq.Run.{Plant, dispatching, run}
use openwrt_fm.Atq.Issue.{Reply, replied, Wire, atq_issue, issue_stages, sendat_status, stage1_of}
use openwrt_fm.Atq.Tests.{request, three, three-IsQueue}
use openwrt_fm.Atq.{AtReq, Order, new_req, any_poll_of, atq_depth}
use openwrt_fm.Sched.Tests.{idle_sched, idle-Consistent}
use openwrt_fm.Text.{contains, behind, same_text}
use openwrt_fm.Base.{
  Bytes, ℕ, ◌<◌, ◌+◌, ◌*◌, false, true, not, ◌&&◌, ◌≡◌, ◌↔◌, ◌⊎◌, refl, inl, inr, List, [], ◌∷◌,
  ◌++◌, Option, none, some, arith, codes, length, ◌==◌, Bool-cases,
}

-- An answer, and one that ends at the prompt.
abbrev reply_of : Bytes → Bytes → Option Reply
reply_of response matched = some (record {
  response = some response;
  status = some (codes "success");
  end_flag_matched = some matched;
  response_time_ms = 20;
})

abbrev wire : Wire
wire = record {
  ready = true;
  port = codes "/dev/ttyUSB2";
  first = replied (reply_of (codes "+CSQ: 20,99") (codes ">"));
  second = replied (reply_of (codes "OK") (codes "OK"));
}

abbrev plant : List Order → Plant
plant orders = record {
  now = λ n. 40000 + n * 20;
  wire = λ r. wire;
  quiet = λ t. false;
  effect = λ r st resp s. s;
  orders = λ r st resp. orders;
}

plant-Answers : Answers (plant [])
unfolding atq_issue issue_stages
plant-Answers r = elim (Bool-cases (length r.payload_hex == 0)) [
  | inl plain ↦
      rw plain (
        sendat_status (reply_of (codes "+CSQ: 20,99") (codes ">")),
        some (codes "+CSQ: 20,99"),
        refl,
      )
  | inr staged ↦
      let s = stage1_of r.prompt wire.first in
      elim (Bool-cases s.seen) [
        | inl seen ↦
            rw (staged, seen)
              (sendat_status (reply_of (codes "OK") (codes "OK")), some (codes "OK"), refl)
        | inr unseen ↦ rw (staged, unseen) (s.status, _, refl)
      ]
]

run-IsServed_example :
    (ids : List ℕ) × InTurn three ids
    × IsServed
        (resting three 4 idle_sched [] [])
        (run (plant []) 4 dispatching (resting three 4 idle_sched [] []))
        ids
run-IsServed_example =
    run-IsServed (plant []) 4 three 4 idle_sched [] [] (λ r st resp. refl) plant-Answers
      three-IsQueue (omega arith)

-- A callback that polls again, whatever came back.
abbrev poll : Order
poll = record {
  prio = 2;
  cmd = codes "AT+COPS?";
  end_flag = [];
  timeout_ms = 0;
  silent = false;
  override_port = none;
  prompt = [];
  payload_hex = [];
}

abbrev two : List AtReq
two = request 1 2 ∷ request 2 3 ∷ []

two-IsSound : IsSound (resting two 4 idle_sched [] [])
unfolding atq_depth any_poll_of
two-IsSound = record {
  bounded = record {
    queue = record { in_order = omega arith; given_out = omega arith };
    depth = omega arith;
  };
  twinless = (λ h. absurd (omega (arith, h)), (λ h. refl, tt));
  in_step = (0, idle-Consistent);
}

run-IsSound_example :
    IsSound (run (plant (poll ∷ [])) 9 dispatching (resting two 4 idle_sched [] []))
run-IsSound_example =
    run-IsSound (plant (poll ∷ [])) 9 dispatching (resting two 4 idle_sched [] [])
      (λ r st resp s h. h) two-IsSound

-- A message of which the first stage is answered by the prompt.
abbrev message : Order
message = record {
  prio = 1;
  cmd = codes "AT+CMGS=20";
  end_flag = codes "OK";
  timeout_ms = 60000;
  silent = false;
  override_port = none;
  prompt = [];
  payload_hex = codes "0011000B911A";
}

new_req-asks_example : writes_payload (atq_issue wire (new_req 40000 4 message)).calls ≡ (
    wire.ready
    && not (length message.payload_hex == 0)
    && asks (new_req 40000 4 message).prompt wire.first)
new_req-asks_example = new_req-asks 40000 4 message wire

message_written : writes_payload (atq_issue wire (new_req 40000 4 message)).calls ≡ true
unfolding contains behind same_text
message_written = new_req-asks 40000 4 message wire

abbrev window : Quiet
window = record { kind = 3; until_ms = 90000 }

set_quiet-active_example :
    ((atq_set_quiet 1000 3 60 window).kind ≡ 3)
    × ((atq_quiet_active 80000 (atq_set_quiet 1000 3 60 window) ≡ true)
        ↔ ((80000 < 1000 + 60 * 1000) ⊎ ((window.kind ≡ 3) × (80000 < window.until_ms))))
set_quiet-active_example = set_quiet-active 1000 80000 3 60 window (omega arith) (omega arith)

-- The echo of the question, then the answer.
abbrev signal : Bytes
signal = codes "AT+CSQ" ++ (13 ∷ 10 ∷ (codes "+CSQ: 20,99" ++ (13 ∷ 10 ∷ codes "OK")))

resp_find_iff_example :
    (fm160_resp_find (some signal) (codes "+CSQ") 96 ≡ some (codes "20,99"))
    ↔ ((v : Bytes) × (FirstValue (codes "+CSQ") signal v × IsCut 95 v (codes "20,99")))
resp_find_iff_example = resp_find_iff b'+' (codes "CSQ") signal (codes "20,99") 96
