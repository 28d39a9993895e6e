-- ===== src/Examples/Lifetimes.antt =====
-- The host of an owner, with and without its service thread.
use icelander.Prelude.{◌+◌, ◌≡◌, ◌↔◌, ◌⊎◌, refl, none, some, true, false, arith}
use icelander.Host.Lifetime.{
  State, Steps, init, here, next, start, enter, connect, share, unshare, leave, stop, join,
  give_up_idle, owning, closed, serving, nothing, escaped, bad_weak_ptr,
}
use icelander.Host.Lifetime.Safety.{held, stopped_first}
use icelander.Host.Lifetime.Danger.{give_up_terminates}

-- Started, stopped while the thread services a CONNECT event, and destroyed.
abbrev over : State
over = record {
  running = false;
  thread = none;
  owner = closed;
  owned = 0;
  strong = 0;
  terminated = false;
  cause = nothing;
}

Steps-over : Steps true init over
unfolding init
Steps-over =
    next
      (next
        (next
          (next
            (next
              (next
                (next (next (next here refl (start refl refl refl)) refl (enter refl refl)) refl
                  (connect refl))
                refl (share refl (omega arith)))
              refl (stop refl refl))
            refl (unshare 0 refl refl))
          refl (leave refl refl))
        refl (join refl refl))
      refl (give_up_idle refl refl refl refl refl)

stopped_first_example :
    ((over.terminated ≡ true) × (over.cause ≡ escaped))
    ⊎ ((over.terminated ≡ false)
        × (over.strong ≡ over.owned + held over.thread)
        × (over.strong ≡ 0 ↔ over.owner ≡ closed)
        × (over.owner ≡ closed → over.thread ≡ none))
stopped_first_example = stopped_first Steps-over

abbrev busy : State
busy = record {
  running = true;
  thread = some serving;
  owner = owning;
  owned = 1;
  strong = 1;
  terminated = false;
  cause = nothing;
}

Steps-busy : Steps false init busy
unfolding init
Steps-busy = next (next here refl (start refl refl refl)) refl (enter refl refl)

give_up_terminates_example :
    (t : State) × Steps false busy t × (t.terminated ≡ true) × (t.cause ≡ bad_weak_ptr)
give_up_terminates_example = give_up_terminates Steps-busy refl refl refl
