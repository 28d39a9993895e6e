-- ===== src/Apps/Programs/Resets.antt =====
-- The end of a reference to a host whose service thread was stopped.
use icelander.Prelude.{◌-◌, ◌||◌, ◌≡◌, refl, ℕ, Bool, true, false, Option, none, some, arith}
use mathlib.Core.Option
use icelander.Apps.Programs.{Service, Process, done, reset, stop_service_thread}

pub or_false : (b : Bool) → (b || false) ≡ b
or_false true = refl
or_false false = refl

abbrev pub held : Option Service → ℕ
held none = 0
held (some h) = 1

pub reset_stopped :
    {A : Type 0} (h : Option Service) (s : Process A)
    → reset (Option.map stop_service_thread h) s ≡ done tt (record s { live = s.live - held h })
unfolding reset stop_service_thread
reset_stopped none s = ground arith
reset_stopped (some h) s = ground (arith, or_false s.careless)
