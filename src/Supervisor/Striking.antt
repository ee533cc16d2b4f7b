-- ===== src/Supervisor/Striking.antt =====
-- src/runtime/process_supervisor.rs: what has happened when the watchdog is about to kill.
use bonsai_agent.Prelude.{ℕ, ◌+◌, ◌-◌, ◌≤◌, true, ◌≡◌, ◌≢◌, refl, ap, String, ◌∷◌, arith}
use bonsai_agent.Supervisor.{
  Phase, Watchdog, System, Step, tick, respawn, enter, start, finish, leave, look, give_in, decide,
  strike, Reach, here, then_step, at_start, is_unused, has_waited, spawn, fetch_add, fetch_sub,
  record_request, kill, with_spawn,
}
use bonsai_agent.Supervisor.Counting.{in_progress, in_progress-append, Reach-IsCounting}

abbrev pub joined : {a b c : System} → Reach a b → Reach b c → Reach a c
joined r here = r
joined r (then_step q m) = then_step (joined r q) m

-- How many requests enter on the way.
abbrev pub enters : {a b : System} → Reach a b → ℕ
enters here = 0
enters (then_step r enter) = enters r + 1
enters (then_step r m) = enters r

-- The time of the last moment at which a request recorded its start or its end, or of the beginning.
abbrev pub last_request : {a b : System} → Reach a b → ℕ
last_request {a} here = a.now
last_request (then_step {s = s} r (start before after e)) = s.now
last_request (then_step {s = s} r (leave before after e)) = s.now
last_request (then_step r m) = last_request r

in_progress-enters :
    {s t : System} (r : Reach s t) → in_progress t.requests ≤ in_progress s.requests + enters r
in_progress-enters here = omega arith
in_progress-enters (then_step r (tick ms)) = in_progress-enters r
in_progress-enters (then_step r (respawn alive started)) = in_progress-enters r
in_progress-enters (then_step r enter) = omega (arith, in_progress-enters r)
in_progress-enters (then_step r (start before after e)) = ground (
  arith,
  e,
  in_progress-enters r,
  in_progress-append before (Phase.entered ∷ after),
  in_progress-append before (Phase.running ∷ after),
)
in_progress-enters (then_step r (finish before after e)) = ground (
  arith,
  e,
  in_progress-enters r,
  in_progress-append before (Phase.running ∷ after),
  in_progress-append before (Phase.ended ∷ after),
)
in_progress-enters (then_step r (leave before after e)) = ground (
  arith,
  e,
  in_progress-enters r,
  in_progress-append before (Phase.ended ∷ after),
  in_progress-append before after,
)
in_progress-enters (then_step r (look e u)) = in_progress-enters r
in_progress-enters (then_step r (give_in e u)) = in_progress-enters r
in_progress-enters (then_step r (decide e u)) = in_progress-enters r
in_progress-enters (then_step r (strike e)) = in_progress-enters r

module _ (now idle_timeout : ℕ) (spawn_program model_path : String) (port : ℕ) where
  abbrev pub first : System
  first = at_start now idle_timeout spawn_program model_path port

  last_used-request : {s : System} (r : Reach first s) → s.supervisor.last_used ≡ last_request r
  unfolding with_spawn spawn fetch_add fetch_sub record_request kill
  last_used-request here = refl
  last_used-request (then_step r (tick ms)) = last_used-request r
  last_used-request (then_step r (respawn alive started)) = ground (arith, last_used-request r)
  last_used-request (then_step r enter) = last_used-request r
  last_used-request (then_step r (start before after e)) = refl
  last_used-request (then_step r (finish before after e)) = last_used-request r
  last_used-request (then_step r (leave before after e)) = refl
  last_used-request (then_step r (look e u)) = last_used-request r
  last_used-request (then_step r (give_in e u)) = last_used-request r
  last_used-request (then_step r (decide e u)) = last_used-request r
  last_used-request (then_step r (strike e)) = last_used-request r

  -- On the way there was a moment without a request in progress.
  record HasLooked {s : System} (r : Reach first s) : Type 0 where
    looked : System
    before : Reach first looked
    between : Reach looked s
    whole : joined before between ≡ r
    enabled : idle_timeout ≢ 0
    quiet : in_progress looked.requests ≡ 0

  -- And after it one at which the timeout had passed since the last request; no more are in
  -- progress than have entered since the first.
  pub record IsJustified {s : System} (r : Reach first s) : Type 0 where
    pub looked : System
    pub decided : System
    pub before : Reach first looked
    pub between : Reach looked decided
    pub since : Reach decided s
    pub whole : joined (joined before between) since ≡ r
    pub enabled : idle_timeout ≢ 0
    pub quiet : in_progress looked.requests ≡ 0
    pub waited : idle_timeout ≤ decided.now - last_request (joined before between)
    pub newcomers : in_progress s.requests ≤ enters between + enters since

  HasLooked-step :
      {s t : System} (r : Reach first s) (m : Step s t) → HasLooked r → HasLooked (then_step r m)
  HasLooked-step r m h = record {
    looked = h.looked;
    before = h.before;
    between = then_step h.between m;
    whole = ap (λ q. then_step q m) h.whole;
    enabled = h.enabled;
    quiet = h.quiet;
  }

  IsJustified-step :
      {s t : System} (r : Reach first s) (m : Step s t)
      → IsJustified r
      → IsJustified (then_step r m)
  IsJustified-step r m h = record {
    looked = h.looked;
    decided = h.decided;
    before = h.before;
    between = h.between;
    since = then_step h.since m;
    whole = ap (λ q. then_step q m) h.whole;
    enabled = h.enabled;
    quiet = h.quiet;
    waited = h.waited;
    newcomers =
        omega
          (arith, h.quiet, in_progress-enters h.between, in_progress-enters (then_step h.since m));
  }

  just_looked :
      {s : System} (r : Reach first s) (e : s.watchdog ≡ Watchdog.asleep)
      (u : is_unused s.supervisor ≡ true)
      → HasLooked (then_step r (look e u))
  unfolding is_unused
  just_looked {s} r e u =
      let h = Reach-IsCounting now idle_timeout spawn_program model_path port r in
      record {
        looked = s;
        before = r;
        between = then_step here (look e u);
        whole = refl;
        enabled = λ off. absurd (ground (arith, u, off, h.configured));
        quiet = ground (arith, u, h.counted);
      }

  just_decided :
      {s : System} (r : Reach first s) (e : s.watchdog ≡ Watchdog.unused)
      (u : has_waited s.now s.supervisor ≡ true)
      → HasLooked r
      → IsJustified (then_step r (decide e u))
  unfolding has_waited
  just_decided {s} r e u h =
      let c = Reach-IsCounting now idle_timeout spawn_program model_path port r in
      let gone : idle_timeout ≤ s.now - last_request r =
        ground (arith, u, last_used-request r, c.configured) in
      record {
        looked = h.looked;
        decided = s;
        before = h.before;
        between = h.between;
        since = then_step here (decide e u);
        whole = ap (λ q. then_step q (decide e u)) h.whole;
        enabled = h.enabled;
        quiet = h.quiet;
        waited = rw h.whole gone;
        newcomers = omega (arith, h.quiet, in_progress-enters h.between);
      }

  unused-HasLooked : {s : System} (r : Reach first s) → s.watchdog ≡ Watchdog.unused → HasLooked r
  unused-HasLooked here e = cc
  unused-HasLooked (then_step r (tick ms)) e = HasLooked-step r _ (unused-HasLooked r e)
  unused-HasLooked (then_step r (respawn alive started)) e =
      HasLooked-step r _ (unused-HasLooked r e)
  unused-HasLooked (then_step r enter) e = HasLooked-step r _ (unused-HasLooked r e)
  unused-HasLooked (then_step r (start before after q)) e =
      HasLooked-step r _ (unused-HasLooked r e)
  unused-HasLooked (then_step r (finish before after q)) e =
      HasLooked-step r _ (unused-HasLooked r e)
  unused-HasLooked (then_step r (leave before after q)) e =
      HasLooked-step r _ (unused-HasLooked r e)
  unused-HasLooked (then_step r (look q u)) e = just_looked r q u
  unused-HasLooked (then_step r (give_in q u)) e = cc
  unused-HasLooked (then_step r (decide q u)) e = cc
  unused-HasLooked (then_step r (strike q)) e = cc

  -- Whatever order requests, spawns and the watchdog take, when the watchdog is about to kill the
  -- server, its timeout is not 0, there was a moment at which no request was in progress, and after
  -- it one at which the timeout had passed since a request last recorded its start or its end. No
  -- more requests are in progress than have entered after the first of these moments.
  pub idle-IsJustified :
      {s : System} (r : Reach first s) → s.watchdog ≡ Watchdog.idle → IsJustified r
  idle-IsJustified here e = cc
  idle-IsJustified (then_step r (tick ms)) e = IsJustified-step r _ (idle-IsJustified r e)
  idle-IsJustified (then_step r (respawn alive started)) e =
      IsJustified-step r _ (idle-IsJustified r e)
  idle-IsJustified (then_step r enter) e = IsJustified-step r _ (idle-IsJustified r e)
  idle-IsJustified (then_step r (start before after q)) e =
      IsJustified-step r _ (idle-IsJustified r e)
  idle-IsJustified (then_step r (finish before after q)) e =
      IsJustified-step r _ (idle-IsJustified r e)
  idle-IsJustified (then_step r (leave before after q)) e =
      IsJustified-step r _ (idle-IsJustified r e)
  idle-IsJustified (then_step r (look q u)) e = cc
  idle-IsJustified (then_step r (give_in q u)) e = cc
  idle-IsJustified (then_step r (decide q u)) e = just_decided r q u (unused-HasLooked r q)
  idle-IsJustified (then_step r (strike q)) e = cc
