-- ===== src/Atq/Stages.antt =====
-- fm160d/src/atq.c: what `atq_issue` writes for a request with a payload.
use openwrt_fm.Atq.Issue.{
  Reply, Exchange, failed, silence, replied, Wire, Field, at_cmd, raw_at_content, Call, has_error,
  is_text, prompt_cb, stage1_of, atq_issue, issue_stages,
}
use openwrt_fm.Atq.{AtReq, Order, new_req, fit}
use openwrt_fm.Base.{
  ℕ, Bool, true, false, not, ◌&&◌, ◌||◌, ◌≡◌, refl, sym, ◌∙◌, inl, inr, List, [], ◌∷◌, Option, none,
  some, arith, ◌==◌, length, Bytes, Bool-cases, suc,
}

abbrev is_payload : Field → Bool
is_payload at_cmd = false
is_payload raw_at_content = true

-- Some call writes a payload.
abbrev pub writes_payload : List Call → Bool
writes_payload [] = false
writes_payload (call ∷ calls) = is_payload call.field || writes_payload calls

-- The answer asks for the payload: it ended at the prompt, and reports no error.
abbrev pub asks : Bytes → Exchange → Bool
asks prompt (replied (some rep)) =
    not (has_error rep.response) && is_text prompt rep.end_flag_matched
asks prompt _ = false

prompt_cb-asks :
    (prompt : Bytes) (msg : Option Reply)
    → (length prompt == 0) ≡ false
    → (prompt_cb prompt msg).seen ≡ asks prompt (replied msg)
unfolding prompt_cb
prompt_cb-asks prompt none some_prompt = refl
prompt_cb-asks prompt (some rep) some_prompt = elim (Bool-cases (has_error rep.response)) [
  | inl bad ↦ rw bad refl
  | inr fine ↦ elim (Bool-cases (is_text prompt rep.end_flag_matched)) [
    | inl there ↦ rw (fine, some_prompt, there) refl
    | inr missing ↦ rw (fine, some_prompt, missing) refl
  ]
]

stage1_of-asks :
    (prompt : Bytes) (e : Exchange)
    → (length prompt == 0) ≡ false
    → (stage1_of prompt e).seen ≡ asks prompt e
stage1_of-asks prompt failed some_prompt = refl
stage1_of-asks prompt silence some_prompt = refl
stage1_of-asks prompt (replied msg) some_prompt = prompt_cb-asks prompt msg some_prompt

-- A request that has a prompt writes its payload exactly where at-daemon is there, the request has one,
-- and the answer to the command ended at the prompt without an error in it.
pub issue-asks :
    (wire : Wire) (req : AtReq)
    → (length req.prompt == 0) ≡ false
    → writes_payload (atq_issue wire req).calls
      ≡ (wire.ready && not (length req.payload_hex == 0) && asks req.prompt wire.first)
unfolding atq_issue issue_stages
issue-asks wire req some_prompt = elim (Bool-cases wire.ready) [
  | inr missing ↦ rw missing refl
  | inl ready ↦ elim (Bool-cases (length req.payload_hex == 0)) [
    | inl plain ↦ rw (ready, plain) refl
    | inr staged ↦
        let same = stage1_of-asks req.prompt wire.first some_prompt in
        elim (Bool-cases (asks req.prompt wire.first)) [
          | inl yes_asks ↦ rw (ready, staged, same, yes_asks) refl
          | inr no_asks ↦ rw (ready, staged, same, no_asks) refl
        ]
  ]
]

fit-some :
    (size : ℕ) (text : Bytes)
    → (length text == 0) ≡ false
    → (length (fit (suc (suc size)) text) == 0) ≡ false
fit-some size [] h = absurd (ground (arith, h))
fit-some size (c ∷ text) h = ground arith

prompt-new_req :
    (now id : ℕ) (o : Order)
    → (length o.payload_hex == 0) ≡ false
    → (length (new_req now id o).prompt == 0) ≡ false
prompt-new_req now id o staged = elim (Bool-cases (length o.prompt == 0)) [
  | inl default ↦ rw (staged, default) refl
  | inr own ↦ rw (staged, own) (fit-some 30 o.prompt own)
]

issue_plain :
    (wire : Wire) (req : AtReq)
    → (length req.payload_hex == 0) ≡ true
    → writes_payload (atq_issue wire req).calls ≡ false
unfolding atq_issue
issue_plain wire req plain = elim (Bool-cases wire.ready) [
  | inl ready ↦ rw (ready, plain) refl
  | inr missing ↦ rw missing refl
]

-- A request that `atq_submit_full` fills in writes its payload exactly where at-daemon is there, it has
-- a payload, and the answer to its command ended at the prompt without an error in it.
pub new_req-asks :
    (now id : ℕ) (o : Order) (wire : Wire)
    → writes_payload (atq_issue wire (new_req now id o)).calls
      ≡ (wire.ready && not (length o.payload_hex == 0) && asks (new_req now id o).prompt wire.first)
new_req-asks now id o wire =
    let req = new_req now id o in
    elim (Bool-cases (length o.payload_hex == 0)) [
      | inl plain ↦
          issue_plain wire req plain
          ∙ sym
              (no_payload wire.ready (length o.payload_hex == 0) (asks req.prompt wire.first) plain)
      | inr staged ↦ issue-asks wire req (prompt-new_req now id o staged)
    ]
  where
    no_payload : (a b c : Bool) → b ≡ true → (a && not b && c) ≡ false
    no_payload a b c h = ground (arith, h)
