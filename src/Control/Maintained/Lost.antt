-- ===== src/Control/Maintained/Lost.antt =====
-- A server that falls silent: the pong is overdue, and the session expires.
use playit_ios.Common.{
  ℕ, zero, suc, ◌+◌, ◌-◌, ◌≤◌, ◌<◌, ◌≡◌, ◌≢◌, refl, sym, List, [], ◌∙◌, subst, arith, ne→==, lt→ltb,
  ltb, leb, none, some, if-both,
}
use playit_ios.Proto.Wire.{Crates, MessageEncoding, SocketAddr}
use playit_ios.Control.{World, Calls, late, now, wait, send_to, wrapping_sub}
use playit_ios.Control.Connected.{send, send_written, Received, nothing, received, recv}
use playit_ios.Control.Established.{
  EstablishedControl, forced, is_expired, set_expired, recv_feed_msg, learn, send_ping,
  send_keep_alive, send_request,
}
use playit_ios.Control.Kept.{send-sent}
use playit_ios.Common.Io.{Result, ok, err}
use playit_ios.Control.Maintained.{
  MaintainedControl, Update, check_pong, expire_unless, after_wait, receive, ping_due,
  keep_alive_due, update_session, update_expired, update,
}

-- The session is expired, and a pong is no longer waited for.
abbrev pub Lost : Update → Type 0
Lost u = (u.result ≡ none) × (is_expired u.state.control ≡ some forced) × (u.state.last_pong ≡ 0)

module _ ⦃crates : Crates⦄ ⦃world : World⦄ where
  -- The pong is overdue at the next look at the clock, and nothing comes in `n` waits.
  record Silent (n : ℕ) (m : MaintainedControl) (calls : Calls) : Type 0 where
    waiting : m.last_pong ≢ 0
    overdue : 6000 < wrapping_sub (world.now_milli calls.readings) m.last_pong
    quiet : (i : ℕ) → i < n → world.waited (calls.waits + i) ≡ late

  check_pong-Lost :
      {n : ℕ} (m : MaintainedControl) (calls : Calls) → Silent n m calls → Lost (check_pong m calls)
  unfolding check_pong now expire_unless is_expired set_expired
  check_pong-Lost m calls h =
      rw (ne→== m.last_pong 0 h.waiting, lt→ltb _ _ h.overdue) (refl, refl, refl)

  recv_feed_msg-late :
      (e : EstablishedControl) (calls : Calls)
      → world.waited calls.waits ≡ late
      → recv_feed_msg e calls ≡ (nothing, e, record calls { waits = suc calls.waits })
  unfolding recv_feed_msg recv wait received learn
  recv_feed_msg-late e calls h = rw (h, received) refl

  receive-Lost :
      (rounds timeouts : ℕ) (m : MaintainedControl) (calls : Calls)
      → timeouts < 10
      → 10 ≤ timeouts + rounds
      → Silent (10 - timeouts) m calls
      → Lost (receive rounds timeouts m calls)
  unfolding receive after_wait
  receive-Lost zero timeouts m calls lt le h = absurd (omega arith)
  receive-Lost (suc n) timeouts m calls lt le h =
      let calls' : Calls = record calls { waits = suc calls.waits } in
      let quiet : world.waited calls.waits ≡ late =
        subst (λ i. world.waited i ≡ late) (omega arith) (h.quiet 0 (omega arith)) in
      subst
        (λ (r : Received × EstablishedControl × Calls).
          Lost (after_wait (receive n) timeouts r.0 (record m { control = r.1 }) r.2))
        (sym (recv_feed_msg-late m.control calls quiet))
        (if-both Lost (leb 10 (suc timeouts)) {x = check_pong m calls'}
          {y = receive n (suc timeouts) m calls'}
          (λ e. check_pong-Lost {n = 0} m calls' (later 0 (omega arith)))
          (λ e.
            receive-Lost n (suc timeouts) m calls' (ground arith) (omega arith)
              (later (10 - suc timeouts) (omega arith))))
    where
      later :
          (k : ℕ) → suc k ≤ 10 - timeouts → Silent k m (record calls { waits = suc calls.waits })
      later k le' = record {
        waiting = h.waiting;
        overdue = h.overdue;
        quiet =
            λ i g. subst (λ j. world.waited j ≡ late) (omega arith) (h.quiet (suc i) (omega arith));
      }

  -- What is sent is neither a wait nor a look at the clock.
  abbrev SendsOnly : MaintainedControl → Calls → MaintainedControl × Calls → Type 0
  SendsOnly m calls r =
      (r.0.last_pong ≡ m.last_pong) × (r.1.waits ≡ calls.waits) × (r.1.readings ≡ calls.readings)

  SendsOnly-Silent :
      (n : ℕ) (m : MaintainedControl) (calls : Calls) (r : MaintainedControl × Calls)
      → SendsOnly m calls r
      → Silent n m calls
      → Silent n r.0 r.1
  SendsOnly-Silent n m calls r (pong, waits, readings) h = record {
    waiting = λ e. h.waiting (sym pong ∙ e);
    overdue = rw (pong, readings) h.overdue;
    quiet = λ i g. rw (waits) (h.quiet i g);
  }

  send-readings :
      {A : Type 0} (msg : MessageEncoding A) (a : A) (addr : SocketAddr) (calls : Calls)
      → (send msg a addr calls).1.readings ≡ calls.readings
  unfolding send send_written send_to
  send-readings msg a addr calls = written (msg.write_to a [])
    where
      written : (x : Result (ℕ × List ℕ)) → (send_written x addr calls).1.readings ≡ calls.readings
      written (ok p) = refl
      written (err e) = refl

  ping_due-SendsOnly :
      (at : ℕ) (m : MaintainedControl) (calls : Calls) → SendsOnly m calls (ping_due at m calls)
  unfolding ping_due send_ping send_request
  ping_due-SendsOnly at m calls =
      if-both (SendsOnly m calls) (ltb 1000 (wrapping_sub at m.last_ping))
        {x = (record m { last_ping = at }, (send_ping m.control 200 at calls).1)} {y = (m, calls)}
        (λ e. (refl, (send-sent _ _ _ calls).1, send-readings _ _ _ calls))
        (λ e. (refl, refl, refl))

  keep_alive_due-SendsOnly :
      (at : ℕ) (m : MaintainedControl) (calls : Calls)
      → SendsOnly m calls (keep_alive_due at m calls)
  unfolding keep_alive_due send_keep_alive send_request
  keep_alive_due-SendsOnly at m calls =
      if-both (SendsOnly m calls) _
        {x = (record m { last_keep_alive = at }, (send_keep_alive m.control 100 calls).1)}
        {y = (m, calls)} (λ e. (refl, (send-sent _ _ _ calls).1, send-readings _ _ _ calls))
        (λ e. (refl, refl, refl))

  -- When a session is not expired, a pong was noted, the next but one reading of the clock is more
  -- than 6000 ms after it, and the next ten waits time out, `update` ends without an event, the
  -- session counts as expired, forced, and no pong is noted.
  pub update-Lost :
      (m : MaintainedControl) (calls : Calls)
      → is_expired m.control ≡ none
      → m.last_pong ≢ 0
      → 6000 < wrapping_sub (world.now_milli (suc calls.readings)) m.last_pong
      → ((i : ℕ) → i < 10 → world.waited (calls.waits + i) ≡ late)
      → Lost (update m calls)
  unfolding update update_expired update_session now
  update-Lost m calls unexpired waiting overdue quiet =
      subst (λ o. Lost (update_expired o m calls)) (sym unexpired) session
    where
      session : Lost (update_expired none m calls)
      session =
          let t = now calls in
          let start : Silent 10 m t.1 = record {
            waiting = waiting;
            overdue = overdue;
            quiet = quiet;
          } in
          let p = ping_due t.0 m t.1 in
          let pinged : Silent 10 p.0 p.1 =
            SendsOnly-Silent 10 m t.1 p (ping_due-SendsOnly t.0 m t.1) start in
          let k = keep_alive_due t.0 p.0 p.1 in
          receive-Lost 30 0 k.0 k.1 (omega arith) (omega arith)
            (SendsOnly-Silent 10 p.0 p.1 k (keep_alive_due-SendsOnly t.0 p.0 p.1) pinged)
