-- ===== src/Limiter/Tests.antt =====
-- The limiter's theorems on concrete events.
use job_parser.Base.{◌≡◌, ◌≤◌, ◌+◌, refl, true, false, none, some, List, [], ◌∷◌, if◌then◌else◌}
use job_parser.Limiter.{
  Threads, Event, ticking, tested, outside, tick, push, ask, take, stop, run, start,
}
use job_parser.Limiter.Laws.{ticks, grants_paced, nothing_granted_after_stop, stop_during_tick}

abbrev before : List Event
before = tick ∷ push false ∷ ask ∷ ask ∷ tick ∷ []

abbrev there : Threads
there = record {
  limiter = record { token = true; closed = false; cancelled = false; stopped = false };
  runner = tested;
  stopper = outside;
  waiting = 2;
  granted = 0;
  refused = 0;
}

before_lem : run before start ≡ some there
unfolding run start
before_lem = refl

abbrev after : List Event
after = take false ∷ push false ∷ take true ∷ []

abbrev there_after : Threads
there_after = record there {
  limiter = record { token = false; closed = false; cancelled = false; stopped = false };
  runner = ticking;
  waiting = 0;
  granted = 2;
}

after_lem : run after there ≡ some there_after
unfolding run
after_lem = refl

grants_paced_example :
    (there_after.granted ≤ ticks before + ticks after)
    × (there_after.granted ≤ there.granted + (2 + ticks after))
grants_paced_example = grants_paced before after there there_after before_lem after_lem

abbrev shutting : List Event
shutting = tick ∷ push false ∷ ask ∷ ask ∷ stop ∷ stop ∷ stop ∷ []

abbrev shut : Threads
shut = record {
  limiter = record { token = true; closed = true; cancelled = true; stopped = true };
  runner = ticking;
  stopper = outside;
  waiting = 2;
  granted = 0;
  refused = 0;
}

shut_lem : run shutting start ≡ some shut
unfolding run start
shut_lem = refl

abbrev shut_after : Threads
shut_after = record shut {
  limiter = record { token = false; closed = true; cancelled = true; stopped = true };
  waiting = 1;
  granted = 1;
  refused = 1;
}

shut_after_lem : run (take false ∷ ask ∷ stop ∷ []) shut ≡ some shut_after
unfolding run
shut_after_lem = refl

nothing_granted_after_stop_example :
    (shut_after.granted ≤ shut.granted + (if shut.limiter.token then 1 else 0))
    × (shut_after.waiting ≤ shut.waiting)
nothing_granted_after_stop_example =
    nothing_granted_after_stop shutting (take false ∷ ask ∷ stop ∷ []) shut shut_after shut_lem
      (record { returned = refl; flag = refl }) shut_after_lem

stop_during_tick_example :
    run (tick ∷ stop ∷ stop ∷ stop ∷ push false ∷ []) (record there { runner = ticking }) ≡ none
stop_during_tick_example = stop_during_tick (record there { runner = ticking }) refl refl refl
