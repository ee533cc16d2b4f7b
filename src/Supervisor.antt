-- ===== src/Supervisor.antt =====
-- src/runtime/process_supervisor.rs: the life of the model server. `ProcessSupervisor` holds the state
-- that threads share; a request is a thread between `enter_in_flight` and the drop of its guard, and
-- the watchdog of src/main.rs calls `kill_if_idle`. An atomic operation or the time under a lock is
-- one `Step`, so a request and the watchdog interleave between them. Times are in milliseconds, a
-- process is its number. The address of the health check, the check itself and the waiting for it in
-- `ensure_running` are not modelled: a spawn may happen at any moment.
pub mod Counting
pub mod Striking
mod Examples
use bonsai_agent.Prelude.{
  ℕ, suc, ◌+◌, ◌-◌, ◌≤◌, ◌<◌, Bool, true, false, ◌||◌, String, ◌<>◌, show, Option, none, some, List,
  [], ◌∷◌, ◌++◌, str_eq, ltb, leb, ◌==◌, ◌≡◌, if◌then◌else◌,
}

pub record ProcessSupervisor : Type 0 where
  pub idle_timeout : ℕ
  pub spawn_program : String
  pub spawn_args : List String
  pub last_used : ℕ
  pub child : Option ℕ
  pub in_flight : ℕ

unfoldable pub build_spawn_args : String → ℕ → List String
build_spawn_args model_path port =
    "launch" ∷ "--model-path" ∷ model_path ∷ "--model-type" ∷ "lm" ∷ "--port" ∷ show port ∷ []

-- At the time `now`.
unfoldable pub with_spawn : ℕ → ℕ → String → String → ℕ → ProcessSupervisor
with_spawn now idle_timeout spawn_program model_path port = record {
  idle_timeout = idle_timeout;
  spawn_program = spawn_program;
  spawn_args = build_spawn_args model_path port;
  last_used = now;
  child = none;
  in_flight = 0;
}

unfoldable pub record_request : ℕ → ProcessSupervisor → ProcessSupervisor
record_request now s = record s { last_used = now }

-- The two halves of `enter_in_flight` and of `end_in_flight` are the change of the counter and
-- `record_request`. `fetch_sub` is never called at 0.
unfoldable pub fetch_add : ProcessSupervisor → ProcessSupervisor
fetch_add s = record s { in_flight = s.in_flight + 1 }

unfoldable pub fetch_sub : ProcessSupervisor → ProcessSupervisor
fetch_sub s = record s { in_flight = s.in_flight - 1 }

unfoldable pub kill : ProcessSupervisor → ProcessSupervisor
kill s = record s { child = none }

-- A process is started where there is none that runs. `alive` is `try_wait`, and `started` is the
-- answer of `Command::spawn`, none where it fails. The result, which is that failure, is left out.
unfoldable pub spawn : (ℕ → Bool) → Option ℕ → ProcessSupervisor → ProcessSupervisor
spawn alive started s =
    let fresh = record s { child = started } in
    if str_eq s.spawn_program ""
    then s
    else elim s.child [ none ↦ fresh | some old ↦ if alive old then s else fresh ]

-- `is_idle` reads the counter first, and then, in another moment, the time.
unfoldable pub is_unused : ProcessSupervisor → Bool
is_unused s = if s.idle_timeout == 0 || ltb 0 s.in_flight then false else true

unfoldable pub has_waited : ℕ → ProcessSupervisor → Bool
has_waited now s = leb s.idle_timeout (now - s.last_used)

-- A request has counted itself, has recorded its start, or has taken itself off the counter.
pub data Phase : Type 0 where
  entered running ended : Phase

-- The watchdog sleeps, has read the counter at 0, or is about to kill.
pub data Watchdog : Type 0 where
  asleep unused idle : Watchdog

pub record System : Type 0 where
  pub now : ℕ
  pub supervisor : ProcessSupervisor
  pub requests : List Phase
  pub watchdog : Watchdog

pub data Step (s : System) : System → Type 0 where
  tick : (ms : ℕ) → Step s (record s { now = s.now + ms })
  respawn :
      (alive : ℕ → Bool) (started : Option ℕ)
      → Step s (record s { supervisor = spawn alive started s.supervisor })
  enter :
      Step s
        (record s { supervisor = fetch_add s.supervisor; requests = Phase.entered ∷ s.requests })
  start :
      (before after : List Phase)
      → s.requests ≡ before ++ Phase.entered ∷ after
      → Step s (record s {
        supervisor = record_request s.now s.supervisor;
        requests = before ++ Phase.running ∷ after;
      })
  finish :
      (before after : List Phase)
      → s.requests ≡ before ++ Phase.running ∷ after
      → Step s (record s {
        supervisor = fetch_sub s.supervisor;
        requests = before ++ Phase.ended ∷ after;
      })
  leave :
      (before after : List Phase)
      → s.requests ≡ before ++ Phase.ended ∷ after
      → Step s
          (record s { supervisor = record_request s.now s.supervisor; requests = before ++ after })
  look :
      s.watchdog ≡ Watchdog.asleep
      → is_unused s.supervisor ≡ true
      → Step s (record s { watchdog = Watchdog.unused })
  give_in :
      s.watchdog ≡ Watchdog.unused
      → has_waited s.now s.supervisor ≡ false
      → Step s (record s { watchdog = Watchdog.asleep })
  decide :
      s.watchdog ≡ Watchdog.unused
      → has_waited s.now s.supervisor ≡ true
      → Step s (record s { watchdog = Watchdog.idle })
  strike :
      s.watchdog ≡ Watchdog.idle
      → Step s (record s { supervisor = kill s.supervisor; watchdog = Watchdog.asleep })

abbrev pub at_start : ℕ → ℕ → String → String → ℕ → System
at_start now idle_timeout spawn_program model_path port = record {
  now = now;
  supervisor = with_spawn now idle_timeout spawn_program model_path port;
  requests = [];
  watchdog = Watchdog.asleep;
}

pub data Reach (first : System) : System → Type 0 where
  here : Reach first first
  then_step : {s t : System} → Reach first s → Step s t → Reach first t
