-- ===== src/Transport/Delivery.antt =====
-- transport.go, post: how often an event is sent, and what the answers do.
use bugfree_go_sdk.Base.{
  Bool, Bool-cases, Option, Text, arith, false, if◌then◌else◌, inl, inr, leb, ltb, not, pos, refl,
  true, ℕ, ◌&&◌, ◌+ℤ◌, ◌==◌, ◌||◌, ◌∙◌, ◌≡◌,
}
use bugfree_go_sdk.Transport.{
  Conditions, Reply, Transport, Verdict, after_verdict, answered, attempts, limited, no_answer,
  pause, post, rejected, stored, transient, verdict,
}
use bugfree_go_sdk.Transport.Retry.{parse_retry_after, second, wrap}

abbrev pub is_transient : Verdict → Bool
is_transient transient = true
is_transient stored = false
is_transient rejected = false
is_transient (limited wait) = false

-- The transport after a last verdict given at a time.
abbrev pub settled : ℕ → Transport → Verdict → Transport
settled now t stored = t
settled now t rejected = t
settled now t transient = t
settled now t (limited wait) = pause wait now t

after_first :
    (c : Conditions) (t : Transport) (again : Transport × ℕ × Verdict) (v : Verdict)
    → (is_transient v && not c.aborted) ≡ false
    → after_verdict c 0 t again v ≡ (settled (c.clock 0) t v, 1, v)
unfolding after_verdict
after_first c t again stored h = refl
after_first c t again rejected h = refl
after_first c t again (limited wait) h = refl
after_first c t again transient h = ground arith

after_retry :
    (c : Conditions) (t : Transport) (again : Transport × ℕ × Verdict) (v : Verdict)
    → (is_transient v && not c.aborted) ≡ true
    → after_verdict c 0 t again v ≡ again
unfolding after_verdict
after_retry c t again stored h = cc
after_retry c t again rejected h = cc
after_retry c t again (limited wait) h = cc
after_retry c t again transient h = ground arith

after_second :
    (c : Conditions) (t : Transport) (v : Verdict)
    → after_verdict c 1 t (t, 2, transient) v ≡ (settled (c.clock 1) t v, 2, v)
unfolding after_verdict
after_second c t stored = refl
after_second c t rejected = refl
after_second c t (limited wait) = refl
after_second c t transient = refl

by_verdicts : Conditions → Transport → Verdict → Verdict → Transport × ℕ × Verdict
by_verdicts c t first second =
    if not c.encodable
    then (t, 0, rejected)
    else if is_transient first && not c.aborted
    then (settled (c.clock 1) t second, 2, second)
    else (settled (c.clock 0) t first, 1, first)

post-by_verdicts :
    (date : Text → Option ℕ) (c : Conditions) (t : Transport)
    → post date c t
      ≡ by_verdicts c t
          (verdict date (c.clock 0) (c.reply 0))
          (verdict date (c.clock 1) (c.reply 1))
unfolding post attempts by_verdicts
post-by_verdicts date c t = elim (Bool-cases c.encodable) [
  | inl e ↦ elim (Bool-cases (is_transient v₀ && not c.aborted)) [
    | inl h ↦ rw (e, h) (after_retry c t rest v₀ h ∙ after_second c t v₁)
    | inr h ↦ rw (e, h) (after_first c t rest v₀ h)
  ]
  | inr e ↦ rw e
]
  where
    v₀ : Verdict
    v₀ = verdict date (c.clock 0) (c.reply 0)

    v₁ : Verdict
    v₁ = verdict date (c.clock 1) (c.reply 1)

    rest : Transport × ℕ × Verdict
    rest = attempts date c 1 1 t

-- No answer, or a status that is neither a success nor the client's fault.
abbrev pub is_retried : Reply → Bool
is_retried no_answer = true
is_retried (answered status header) = leb 300 status && ltb status 400 || leb 500 status

module _ (date : Text → Option ℕ) where
  -- The transport after its last answer: a 429 sets the end of its pause to the time of the answer
  -- and the wait that the header asks for.
  abbrev pub after_reply : ℕ → Reply → Transport → Transport
  after_reply now no_answer t = t
  after_reply now (answered status header) t =
      if status == 429
      then record t { paused_until = wrap (pos now +ℤ parse_retry_after date header now) }
      else t

  -- What an answer says of the event.
  abbrev pub judged : ℕ → Reply → Verdict
  judged now no_answer = transient
  judged now (answered status header) =
      if status == 429
      then limited (parse_retry_after date header now)
      else if leb 300 status && ltb status 400 || leb 500 status
      then transient
      else if leb 400 status
      then rejected
      else stored

  -- What post should do, by the answers to its first and its second request: the transport after
  -- it, the requests made and the last verdict.
  abbrev pub by_answers : Conditions → Transport → Transport × ℕ × Verdict
  by_answers c t =
      if not c.encodable
      then (t, 0, rejected)
      else if is_retried (c.reply 0) && not c.aborted
      then (after_reply (c.clock 1) (c.reply 1) t, 2, judged (c.clock 1) (c.reply 1))
      else (after_reply (c.clock 0) (c.reply 0) t, 1, judged (c.clock 0) (c.reply 0))

  verdict-judged :
      (now : ℕ) (reply : Reply)
      → (verdict date now reply ≡ judged now reply)
        × (is_transient (judged now reply) ≡ is_retried reply)
  unfolding verdict
  verdict-judged now no_answer = (refl, refl)
  verdict-judged now (answered status header) = (ground arith, ground arith)

  settled-after_reply :
      (now : ℕ) (reply : Reply) (t : Transport)
      → settled now t (judged now reply) ≡ after_reply now reply t
  unfolding pause
  settled-after_reply now no_answer t = refl
  settled-after_reply now (answered status header) t = ground arith

  -- post makes one request, and a second one exactly when the first got no answer, or a status from
  -- 300 to 399 or from 500 on, and ctx did not end in the wait: never after a 429, another status
  -- from 400 to 499, or one below 300. The last verdict is what the last answer says: stored below
  -- 300, limited at 429, rejected at another status from 400 to 499, and else transient. A last
  -- answer of 429 sets the end of the transport's pause to the time of the answer and the wait of
  -- its Retry-After; nothing else of the transport changes. An event that cannot be encoded makes
  -- no request.
  pub post-by_answers : (c : Conditions) (t : Transport) → post date c t ≡ by_answers c t
  unfolding by_verdicts
  post-by_answers c t =
      let (first, again) = verdict-judged (c.clock 0) (c.reply 0) in
      let (second, _) = verdict-judged (c.clock 1) (c.reply 1) in
      post-by_verdicts date c t
      ∙ rw
          (
            first,
            second,
            again,
            settled-after_reply (c.clock 0) (c.reply 0) t,
            settled-after_reply (c.clock 1) (c.reply 1) t,
          )
          refl

  -- The number of requests.
  pub post-requests :
      (c : Conditions) (t : Transport)
      → (post date c t).1
        ≡ (if not c.encodable then 0 else if is_retried (c.reply 0) && not c.aborted then 2 else 1)
  post-requests c t = rw (post-by_answers c t) (ground arith)
