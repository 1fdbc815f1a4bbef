-- ===== src/Atq/Twins.antt =====
-- fm160d/src/atq.c: background polls with the same command.
use openwrt_fm.Atq.Invariant.{state_of}
use openwrt_fm.Atq.{
  Order, new_req, at_payload_max, AtReq, Atq, Gate, same_cmd, is_poll_of, any_poll_of, victim_loop,
  unlink, replace_victim, closed, atq_submit_full, atq_depth, atq_duplicate, atq_max_depth,
  at_prio_poll,
}
use openwrt_fm.Base.{
  length, ℕ, ◌+◌, false, not, ◌≡◌, refl, inl, inr, List, [], ◌∷◌, ◌++◌, Option, none, arith, ltb,
  leb, ◌==◌, Bytes, Bool-cases, Option-cases,
}

-- No two polls of the queue have the same command.
abbrev pub Twinless : List AtReq → Type 0
Twinless [] = Unit
Twinless (r ∷ q) = (r.prio ≡ 2 → any_poll_of r.cmd q ≡ false) × Twinless q

same_cmd-sym : (s t : Bytes) → same_cmd s t ≡ same_cmd t s
unfolding same_cmd
same_cmd-sym [] [] = refl
same_cmd-sym [] (b ∷ bs) = refl
same_cmd-sym (c ∷ cs) [] = refl
same_cmd-sym (c ∷ cs) (b ∷ bs) = ground (arith, same_cmd-sym cs bs)

any_poll_of-unlink :
    (cmd : Bytes) (q : List AtReq) (id : ℕ)
    → any_poll_of cmd q ≡ false
    → any_poll_of cmd (unlink id q) ≡ false
unfolding any_poll_of unlink
any_poll_of-unlink cmd [] id h = refl
any_poll_of-unlink cmd (r ∷ q) id h = elim (Bool-cases (r.id == id)) [
  | inl here ↦ rw here (ground arith)
  | inr there ↦ rw there (ground (arith, any_poll_of-unlink cmd q id))
]

pub Twinless-unlink : (q : List AtReq) (id : ℕ) → Twinless q → Twinless (unlink id q)
unfolding unlink
Twinless-unlink [] id h = tt
Twinless-unlink (r ∷ q) id h = elim (Bool-cases (r.id == id)) [
  | inl here ↦ rw here h.1
  | inr there ↦
      rw there (λ poll. any_poll_of-unlink r.cmd q id (h.0 poll), Twinless-unlink q id h.1)
]

any_poll_of-append :
    (cmd : Bytes) (q : List AtReq) (req : AtReq)
    → any_poll_of cmd q ≡ false
    → is_poll_of cmd req ≡ false
    → any_poll_of cmd (q ++ (req ∷ [])) ≡ false
unfolding any_poll_of
any_poll_of-append cmd [] req h k = ground arith
any_poll_of-append cmd (r ∷ q) req h k = ground (arith, any_poll_of-append cmd q req)

any_poll_of-cons :
    (cmd : Bytes) (r : AtReq) (q : List AtReq)
    → any_poll_of cmd (r ∷ q) ≡ false
    → (is_poll_of cmd r ≡ false) × (any_poll_of cmd q ≡ false)
unfolding any_poll_of
any_poll_of-cons cmd r q h = ground arith

no_twin :
    (r req : AtReq)
    → r.prio ≡ 2
    → (req.prio ≡ 2 → is_poll_of req.cmd r ≡ false)
    → is_poll_of r.cmd req ≡ false
no_twin r req poll new = elim (Bool-cases (req.prio == at_prio_poll)) [
  | inl also ↦ let other = new (ground arith) in ground (arith, same_cmd-sym r.cmd req.cmd)
  | inr not_poll ↦ rw not_poll refl
]

-- A poll that none of the queue repeats, or no poll.
Twinless-append :
    (q : List AtReq) (req : AtReq)
    → Twinless q
    → (req.prio ≡ 2 → any_poll_of req.cmd q ≡ false)
    → Twinless (q ++ (req ∷ []))
Twinless-append [] req h new = (λ _. unfold any_poll_of in refl, tt)
Twinless-append (r ∷ q) req h new =
    let here = λ (poll : req.prio ≡ 2). (any_poll_of-cons req.cmd r q (new poll)).0 in
    let later = λ (poll : req.prio ≡ 2). (any_poll_of-cons req.cmd r q (new poll)).1 in
    (
      λ poll. any_poll_of-append r.cmd q req (h.0 poll) (no_twin r req poll here),
      Twinless-append q req h.1 later,
    )

not_duplicate :
    (req : AtReq) (a : Atq)
    → atq_duplicate req a ≡ false
    → req.prio ≡ 2
    → any_poll_of req.cmd a.queue ≡ false
unfolding atq_duplicate
not_duplicate req a h poll = ground arith

replace_victim-Twinless :
    (req : AtReq) (q : List AtReq) (inflight : Option AtReq) (n : ℕ)
    → Twinless q
    → (req.prio ≡ 2 → any_poll_of req.cmd q ≡ false)
    → Twinless
        (state_of
          (replace_victim req (record { queue = q; inflight = inflight; next_id = n }))).queue
unfolding replace_victim
replace_victim-Twinless req q inflight n h new = elim (Option-cases (victim_loop none q)) [
  | inl none_found ↦ rw (none_found, replace_victim) h
  | inr (victim, found) ↦ elim (Bool-cases (ltb req.prio victim.prio)) [
    | inl more ↦
        rw (found, replace_victim)
          (rw more (
            Twinless-append (unlink victim.id q) req (Twinless-unlink q victim.id h)
              (λ poll. any_poll_of-unlink req.cmd q victim.id (new poll))))
    | inr less ↦ rw (found, replace_victim) (rw less h)
  ]
]

-- Submissions never put a second background poll with the same command into the queue.
pub atq_submit_full-Twinless :
    (now : ℕ) (g : Gate) (o : Order) (queue : List AtReq) (inflight : Option AtReq) (next_id : ℕ)
    → Twinless queue
    → Twinless
        (state_of (
          atq_submit_full now g o
            (record { queue = queue; inflight = inflight; next_id = next_id }))).queue
unfolding atq_submit_full
atq_submit_full-Twinless now g o queue inflight next_id h =
    let a : Atq = record { queue = queue; inflight = inflight; next_id = next_id } in
    let req = new_req now next_id o in
    elim (Bool-cases (not g.enabled)) [
      | inl off ↦ rw off h
      | inr on ↦ elim (Bool-cases (closed g o)) [
        | inl shut ↦ rw (on, shut) h
        | inr passed ↦ elim (Bool-cases (leb at_payload_max (length o.payload_hex))) [
          | inl long ↦ rw (on, passed, long) h
          | inr short ↦ elim (Bool-cases (atq_duplicate req a)) [
            | inl twice ↦ rw (on, passed, short) (rw twice h)
            | inr new ↦
                let alone = not_duplicate req a new in
                elim (Bool-cases (leb atq_max_depth (atq_depth a))) [
                  | inl full ↦
                      rw (on, passed, short)
                        (rw (new, full)
                          (replace_victim-Twinless req queue inflight (next_id + 1) h alone))
                  | inr room ↦
                      rw (on, passed, short) (rw (new, room) (Twinless-append queue req h alone))
                ]
          ]
        ]
      ]
    ]
