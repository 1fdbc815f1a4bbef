-- ===== src/Lib.antt =====
-- A verification library for fm160d, the daemon that drives a Fibocom FM160 5G modem.
--
-- The daemon (fm160d/src) is one process around an event loop. Its SMS path is pdu.c, pure byte
-- transformation between text and SMS PDUs, called by sms.c. Its scheduler, sched.c, decides
-- when AT commands are sent on the one serial port and backs off when the modem does not answer.
--
-- Sms.antt models fm160d/src/pdu.c and pdu.h, from the alphabets up to whole messages:
--   Sms/Gsm7.antt      the GSM 7-bit tables, `sms_gsm7_from_ucs`, `sms_gsm7_to_ucs`
--   Sms/Hex.antt       `hexval`, `parse_hex`, `put_hex`
--   Sms/Utf8.antt      `utf8_next`, `utf8_put`, `text_step`, `text_skip`
--   Sms/Bcd.antt       `bcd_encode`, `bcd_decode`, `scts_pair`
--   Sms/Number.antt    `sms_number_clean`, `sms_number_plausible`
--   Sms/Segments.antt  `scan_text`, the data coding scheme, `plan_segments`, `sms_pdu_plan`
--   Sms/BitWriter.antt `struct bitw`, `bw_bits`, `bw_septets`, the arithmetic of headers and septets
--   Sms/Encode.antt    `sms_pdu_encode`, one function for each part of its loop over the segments
--   Sms/Decode.antt    `sms_pdu_decode`, `decode_addr`, `parse_udh`; Decode/Defs.antt has the fields
--                      in the order of the PDU, Decode/UserData.antt what is behind TP-UDL
--   Sms/RoundTrip.antt the encoder against the decoder, from the user data of a segment (Alphabet,
--                      UserData, Octets, Units, Ucs2) over the fields of a TPDU (Tpdu, Carries,
--                      Segment) to a whole message (Message, Plan, Delivery, Whole)
-- The other children of each file hold its theorems; Sms/Tests.antt, Sms/PduTests.antt and
-- Sms/RoundTests.antt have runs and theorems at concrete inputs.
--
-- Sched.antt models fm160d/src/sched.c: the poll table, `item_base_ms`, `item_arm`, `fm160_sched_suspend`,
-- `fm160_sched_kick` and `fm160_sched_note_result`, to which the command queue reports the outcome of
-- every request. Sched/Breaker.antt is about the circuit breaker, Sched/Timing.antt about when items are
-- due. The random factor of an interval is a parameter.
--   Sched/Ports.antt   `tty_usb_ids`, `fm160_scan_candidates`, `probe_cb`, `port_discovery_tick`, with what
--                      sysfs holds as an argument; Ports/Scan.antt, Ports/Places.antt and Ports/Sweep.antt
--                      are about it
--   Sched/Housekeeping.antt  the pass of `housekeeping` over the items; Housekeeping/Pass.antt and
--                      Housekeeping/Calm.antt are about passes with and without a timeout in them;
--                      Housekeeping/Expected.antt says what a pass without one should do
--
-- Atq.antt models fm160d/src/atq.c: `atq_submit_full`, with `atq_duplicate` and `atq_depth`, up to its call
-- of `atq_dispatch`, and how that picks the next request. Atq/Choice.antt is about the request picked,
-- Atq/Bound.antt and Atq/Invariant.antt about a full queue, Atq/Twins.antt about repeated polls.
--   Atq/Issue.antt     `atq_issue` in one or two stages, `sendat_cb`, `prompt_cb`; Atq/Stages.antt is about it
--   Atq/Run.antt       `atq_dispatch` and `atq_finish` with the callbacks that submit further requests,
--                      together with the breaker of sched.c; Run/Served.antt and Run/Kept.antt are about
--                      whole runs
--   Atq/Replies.antt   the helpers `fm160_resp_ok`, `fm160_resp_find` and `fm160_resp_lines`;
--                      Replies/Search.antt, Replies/Value.antt and Replies/FirstValue.antt are about
--                      the value that is found
--   Atq/Quiet.antt     the quiet window
-- A run is on fuel, one unit for each request taken up; where callbacks submit nothing the length of the
-- queue and one more are enough.
--
-- Usb.antt models fm160d/src/usbmode.c and usbmode.h: the table of profiles, the filters of the page and
-- the verdict on a switch. Usb/Policy.antt is about these. Usb/Answer.antt has the parsers of the answers
-- to `AT+GTUSBMODE`, Answer/Current.antt and Answer/Listing.antt the theorems on them.
--   Usb/Switch.antt    fm160d/src/modesw.c whole, with the part of `fm160_ident_reset` in cmds.c that
--                      forgets what is known of the switch; Switch/Steps.antt has the steps of a run,
--                      restarts among them, and Switch/Safe.antt, Switch/Marker.antt and Switch/Stuck.antt
--                      what holds in every world that a run reaches
-- What `atq_submit` does with a command is an argument there: it may refuse it, keep it, so that the
-- answer comes as a later step, or have the answer given to the callback before it returns.
--
-- Net.antt models fm160d/src/net.c and net.h: the commands of the data plane and the reconnect ladder;
-- Net/Fields.antt the fields of an answer, Net/Address.antt the test of an address, Net/Answers.antt the
-- parsers. Net/Commands.antt and Net/ReadBack.antt are about the commands and their reading back,
-- Net/Dotted.antt about addresses, Net/Overrun.antt about answers with many fields.
--
-- Dial.antt models fm160d/src/dialer.c, its transitions and its callbacks, Dial/Stamps.antt the text of its
-- ledger in uci, as it is parsed and printed, and Dial/Calls.antt the calls from outside, from `fm160_dial_init` to `fm160_dial_tick`. The answer to a command is an argument,
-- and reaches its callback before `dial_submit` returns, as it does while the queue is empty, since
-- `ubus_invoke` waits for it. Dial/Budget.antt and Dial/Link.antt, with their runs of calls, are about
-- resets and the link, Dial/Ladder.antt, Ladder/Rest.antt and Dial/Ledger.antt about failures in a row and the
-- ledger, with Ledger/Printed.antt about its text.
--
-- Diag.antt models the writer of fm160d/src/diag.c, which puts a support bundle together from texts, and
-- Diag/Whole.antt is about bundles that do not fit.
--
-- Text.antt has what the parsers of net.c and usbmode.c share: the functions of the C library that they
-- call, and their walk over the lines of an answer.
--
-- Base.antt and its children are what all modules share.
--
-- A C string is the list of its bytes without the NUL, and a cursor into it is the list of the bytes
-- from there on. `int` and `size_t` counters are natural numbers: every one of them is bounded by a
-- buffer or by the length of the text. Octets are kept below 256 by the casts of the source. A
-- negative errno value is `err`. Loops over a text take the length of the text as fuel, which is
-- enough since every round reads at least one byte; so do the walks over lines, and the loops over the
-- fields of a line take one step more than the line has bytes. Times on `fm160_now_ms` and of `time(NULL)`
-- are natural numbers; the differences that the source takes are those of a later and an earlier time.
-- A profile, a verb or a target that the source keeps as -1 is `none`. The texts for humans in `err` buffers are
-- left out of the encoder and are constructors of `Reason` in the decoder. A write past the end of the
-- bit writer's buffer, undefined in C, changes nothing. The decoder's array `sept` is not initialised
-- in C; what it held is an argument, `stale`.
--
-- Not modelled: the rest of fm160d, which is the lookup of the ubus object and `atq_state_reset` in atq.c,
-- state.c and cmds.c, which parse the reports of the modem, the list of texts in diag.c, sms.c, main.c and the ubus methods;
-- at-daemon; and what is vendor code, scripts or web interface. Of what is modelled, the messages for
-- humans and the log are left out, with `last_ok_ms` of the switch and `pdp_in_use` of the dialler, which
-- only the page reads.
pub mod Atq
pub mod Base
pub mod Diag
pub mod Dial
pub mod Net
pub mod Sched
pub mod Sms
pub mod Text
pub mod Usb
