-- ===== src/Atq/Issue.antt =====
-- fm160d/src/atq.c: how a request goes over the wire, `sendat_cb`, `prompt_cb` and `atq_issue`. What
-- at-daemon answers is an argument. `ubus_invoke` waits for the answer, so that a handler runs before
-- it returns; a failed invocation is one whose handler has not run.
use openwrt_fm.Atq.{AtReq, AtStatus, at_ok, at_error, at_timeout}
use openwrt_fm.Text.{same_text, contains}
use openwrt_fm.Base.{
  ℕ, ◌+◌, ◌-◌, ◌/◌, Bool, true, false, not, ◌&&◌, List, [], ◌∷◌, Option, none, some, ◌==◌, ltb,
  if◌then◌else◌, take, Bytes, codes, length,
}

-- `FM160_RESP_LINE_MAX` and `ATQ_PROMPT_TIMEOUT_MS`.
abbrev pub resp_line_max : ℕ
resp_line_max = 512

abbrev pub atq_prompt_timeout_ms : ℕ
atq_prompt_timeout_ms = 10000

-- `struct sendat_reply`, with `none` for a field that is missing.
pub record Reply : Type 0 where
  pub response : Option Bytes
  pub status : Option Bytes
  pub end_flag_matched : Option Bytes
  pub response_time_ms : ℕ

-- One `sendat_call`: it fails, it returns without an answer, or its handler gets the message, which
-- may be missing.
pub data Exchange : Type 0 where
  failed silence : Exchange
  replied : Option Reply → Exchange

-- What is on the other side for one request: `at_daemon_ready()`, `g_state.port`, and the calls.
pub record Wire : Type 0 where
  pub ready : Bool
  pub port : Bytes
  pub first : Exchange
  pub second : Exchange

-- The field of a call, `at_cmd` or `raw_at_content`.
pub data Field : Type 0 where
  at_cmd raw_at_content : Field

pub record Call : Type 0 where
  pub target : Bytes
  pub field : Field
  pub value : Bytes
  pub secs : ℕ
  pub end_flag : Bytes

abbrev pub has_error : Option Bytes → Bool
has_error none = false
has_error (some resp) = contains (codes "ERROR") resp

abbrev pub is_text : Bytes → Option Bytes → Bool
is_text word none = false
is_text word (some text) = same_text text word

-- The status that `sendat_cb` finds.
unfoldable pub sendat_status : Option Reply → AtStatus
sendat_status none = at_timeout
sendat_status (some rep) =
    if has_error rep.response
    then at_error
    else if is_text (codes "success") rep.status
    then at_ok
    else at_timeout

abbrev pub response_of : Option Reply → Option Bytes
response_of none = none
response_of (some rep) = rep.response

-- `struct stage1`.
pub record Stage1 : Type 0 where
  pub seen : Bool
  pub status : AtStatus
  pub partial : Bytes

abbrev pub partial_of : Option Bytes → Bytes
partial_of none = []
partial_of (some resp) = take (resp_line_max - 1) resp

unfoldable pub prompt_cb : Bytes → Option Reply → Stage1
prompt_cb prompt none = record { seen = false; status = at_timeout; partial = [] }
prompt_cb prompt (some rep) =
    let partial = partial_of rep.response in
    if has_error rep.response
    then record { seen = false; status = at_error; partial = partial }
    else if not (length prompt == 0) && is_text prompt rep.end_flag_matched
    then record { seen = true; status = at_ok; partial = partial }
    else record {
      seen = false;
      status = if is_text (codes "success") rep.status then at_error else at_timeout;
      partial = partial;
    }

-- The calls made, and what `atq_finish` is told; `none` where a request is left in flight.
pub record Issued : Type 0 where
  pub calls : List Call
  pub ended : Option (AtStatus × Option Bytes)

abbrev pub or_default : Bytes → Bytes → Bytes
or_default text default = if length text == 0 then default else text

abbrev pub seconds : ℕ → ℕ
seconds timeout_ms = let secs = (timeout_ms + 999) / 1000 in if ltb secs 1 then 1 else secs

-- The end of the call whose handler is `sendat_cb`.
abbrev pub sendat_end : Exchange → Option (AtStatus × Option Bytes)
sendat_end failed = some (at_timeout, none)
sendat_end silence = none
sendat_end (replied msg) = some (sendat_status msg, response_of msg)

abbrev pub stage1_of : Bytes → Exchange → Stage1
stage1_of prompt (replied msg) = prompt_cb prompt msg
stage1_of prompt _ = record { seen = false; status = at_timeout; partial = [] }

abbrev pub partial_text : Bytes → Option Bytes
partial_text partial = if length partial == 0 then none else some partial

abbrev pub command_call : Bytes → AtReq → ℕ → Bytes → Call
command_call target req secs end_flag = record {
  target = target;
  field = at_cmd;
  value = req.cmd;
  secs = secs;
  end_flag = end_flag;
}

abbrev pub payload_call : Bytes → AtReq → Call
payload_call target req = record {
  target = target;
  field = raw_at_content;
  value = req.payload_hex;
  secs = seconds req.timeout_ms;
  end_flag = req.end_flag;
}

-- The two stages of a request with a payload.
unfoldable pub issue_stages : Wire → Bytes → AtReq → Issued
issue_stages wire target req =
    let asked =
      command_call target req (seconds atq_prompt_timeout_ms) (or_default req.prompt (codes ">")) in
    let s = stage1_of req.prompt wire.first in
    if not s.seen
    then record { calls = asked ∷ []; ended = some (s.status, partial_text s.partial) }
    else record { calls = asked ∷ payload_call target req ∷ []; ended = sendat_end wire.second }

-- `atq_issue`, with the `atq_finish` of `atq_dispatch` where the request could not be handed over.
unfoldable pub atq_issue : Wire → AtReq → Issued
atq_issue wire req =
    let target = or_default req.port wire.port in
    if not wire.ready
    then record { calls = []; ended = some (at_timeout, none) }
    else if length req.payload_hex == 0
    then record {
      calls = command_call target req (seconds req.timeout_ms) req.end_flag ∷ [];
      ended = sendat_end wire.first;
    }
    else issue_stages wire target req
