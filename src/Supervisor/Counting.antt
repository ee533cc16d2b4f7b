-- ===== src/Supervisor/Counting.antt =====
-- src/runtime/process_supervisor.rs: the counter of the requests, and the watchdog, in every state
-- that can be reached.
use bonsai_agent.Prelude.{ℕ, ◌+◌, ◌≡◌, refl, String, List, [], ◌∷◌, ◌++◌, arith}
use bonsai_agent.Supervisor.{
  Phase, Watchdog, System, Step, tick, respawn, enter, start, finish, leave, look, give_in, decide,
  strike, Reach, here, then_step, at_start, is_unused, spawn, fetch_add, fetch_sub, record_request,
  kill, with_spawn,
}

-- The requests that hold a guard.
abbrev pub in_progress : List Phase → ℕ
in_progress [] = 0
in_progress (Phase.ended ∷ ps) = in_progress ps
in_progress (p ∷ ps) = in_progress ps + 1

pub in_progress-append :
    (ps qs : List Phase) → in_progress (ps ++ qs) ≡ in_progress ps + in_progress qs
in_progress-append [] qs = omega arith
in_progress-append (Phase.ended ∷ ps) qs = in_progress-append ps qs
in_progress-append (Phase.entered ∷ ps) qs = omega (arith, in_progress-append ps qs)
in_progress-append (Phase.running ∷ ps) qs = omega (arith, in_progress-append ps qs)

-- The counter is the number of requests in progress; the watchdog moves only when it is enabled,
-- and the timeout is the one that was configured.
pub record IsCounting (timeout : ℕ) (s : System) : Type 0 where
  pub counted : s.supervisor.in_flight ≡ in_progress s.requests
  pub configured : s.supervisor.idle_timeout ≡ timeout
  pub disabled : timeout ≡ 0 → s.watchdog ≡ Watchdog.asleep

moved : {timeout : ℕ} {s t : System} → IsCounting timeout s → Step s t → IsCounting timeout t
unfolding is_unused spawn fetch_add fetch_sub record_request kill
moved h (tick ms) = record { counted = h.counted; configured = h.configured; disabled = h.disabled }
moved h (respawn alive started) = record {
  counted = ground (arith, h.counted);
  configured = ground (arith, h.configured);
  disabled = h.disabled;
}
moved h enter = record {
  counted = omega (arith, h.counted);
  configured = h.configured;
  disabled = h.disabled;
}
moved h (start before after e) = record {
  counted = ground (
    arith,
    e,
    h.counted,
    in_progress-append before (Phase.entered ∷ after),
    in_progress-append before (Phase.running ∷ after),
  );
  configured = h.configured;
  disabled = h.disabled;
}
moved h (finish before after e) = record {
  counted = ground (
    arith,
    e,
    h.counted,
    in_progress-append before (Phase.running ∷ after),
    in_progress-append before (Phase.ended ∷ after),
  );
  configured = h.configured;
  disabled = h.disabled;
}
moved h (leave before after e) = record {
  counted = ground (
    arith,
    e,
    h.counted,
    in_progress-append before (Phase.ended ∷ after),
    in_progress-append before after,
  );
  configured = h.configured;
  disabled = h.disabled;
}
moved h (look e unused) = record {
  counted = h.counted;
  configured = h.configured;
  disabled = λ off. absurd (ground (arith, unused, off, h.configured));
}
moved h (give_in e waited) = record {
  counted = h.counted;
  configured = h.configured;
  disabled = λ off. refl;
}
moved h (decide e waited) = record {
  counted = h.counted;
  configured = h.configured;
  disabled = λ off. absurd (ground (arith, e, h.disabled off));
}
moved h (strike e) = record {
  counted = h.counted;
  configured = h.configured;
  disabled = λ off. refl;
}

-- In every state that requests, the watchdog and spawns reach in any order, the counter is the number
-- of requests between their two changes of it, the timeout is the configured one, and where that is
-- 0 the watchdog never begins to look at the server.
pub Reach-IsCounting :
    (now idle_timeout : ℕ) (spawn_program model_path : String) (port : ℕ) {s : System}
    → Reach (at_start now idle_timeout spawn_program model_path port) s
    → IsCounting idle_timeout s
unfolding with_spawn
Reach-IsCounting now idle_timeout spawn_program model_path port here = record {
  counted = refl;
  configured = refl;
  disabled = λ off. refl;
}
Reach-IsCounting now idle_timeout spawn_program model_path port (then_step r m) =
    moved (Reach-IsCounting now idle_timeout spawn_program model_path port r) m
