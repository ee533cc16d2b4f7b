-- ===== src/Supervisor/Examples.antt =====
-- A watchdog that kills the server under a request, with a timeout of 1000.
use bonsai_agent.Prelude.{true, refl, none, some, [], ◌∷◌}
use bonsai_agent.Supervisor.{
  Phase, Watchdog, System, tick, respawn, enter, start, look, decide, strike, Reach, here,
  then_step, at_start, is_unused, has_waited, spawn, fetch_add, record_request, kill, with_spawn,
  build_spawn_args,
}
use bonsai_agent.Supervisor.Striking.{IsJustified, idle-IsJustified}
use bonsai_agent.Supervisor.Counting.{IsCounting, Reach-IsCounting}

abbrev struck : System
struck = record {
  now = 1000;
  supervisor = record {
    idle_timeout = 1000;
    spawn_program = "mlx";
    spawn_args = build_spawn_args "m" 8000;
    last_used = 1000;
    child = none;
    in_flight = 1;
  };
  requests = Phase.running ∷ [];
  watchdog = Watchdog.asleep;
}

-- The server is started, the watchdog finds it idle, and a request begins.
abbrev idle_reached : Reach (at_start 0 1000 "mlx" "m" 8000) (record struck {
  supervisor = record struck.supervisor { child = some 42 };
  watchdog = Watchdog.idle;
})
unfolding with_spawn spawn is_unused has_waited fetch_add record_request
idle_reached =
    then_step
      (then_step
        (then_step
          (then_step (then_step (then_step here (respawn (λ n. true) (some 42))) (tick 1000))
            (look refl refl))
          (decide refl refl))
        enter)
      (start [] [] refl)

-- The server is killed while the request runs.
struck-reached : Reach (at_start 0 1000 "mlx" "m" 8000) struck
unfolding kill
struck-reached = then_step idle_reached (strike refl)

Reach-IsCounting_case : IsCounting 1000 struck
Reach-IsCounting_case = Reach-IsCounting 0 1000 "mlx" "m" 8000 struck-reached

idle-IsJustified_example : IsJustified 0 1000 "mlx" "m" 8000 idle_reached
idle-IsJustified_example = idle-IsJustified 0 1000 "mlx" "m" 8000 idle_reached refl
