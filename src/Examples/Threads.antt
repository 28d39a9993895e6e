-- ===== src/Examples/Threads.antt =====
-- The service thread of the host of Hosts.antt, stopped while it services.
use icelander.Prelude.{arith, ◌<◌, ◌≡◌, ◌≢◌, refl, ◌⊎◌, none, some, true, false, fault}
use icelander.Enet.Sample.{sample}
use icelander.Host.Events.{service}
use icelander.Host.Thread.{
  State, Step, Reach, init, here, next, start, enter, stop, idle, joining, serving,
}
use icelander.Host.Thread.Stop.{distance, stop_returns}
use icelander.Examples.Hosts.{host, noting}

abbrev caught : State sample noting
caught = record {
  running = false;
  thread = some serving;
  control = joining;
  terminated = false;
  host = host;
}

Reach-caught : Reach sample noting host caught
unfolding init
Reach-caught =
    next (next (next here refl (start refl refl refl)) refl (enter refl refl)) refl (stop refl refl)

served : service sample noting 10 host ≢ fault
unfolding service
served = λ q. ground arith

stop_returns_example :
    ((t : State sample noting) × Step sample noting caught t)
    × ((t : State sample noting)
        → Step sample noting caught t
        → (t.terminated ≡ true)
          ⊎ ((t.control ≡ idle) × (t.thread ≡ none))
          ⊎ ((t.control ≡ joining) × (distance t.thread < distance caught.thread)))
stop_returns_example = stop_returns Reach-caught refl served
