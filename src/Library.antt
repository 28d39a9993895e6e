-- ===== src/Library.antt =====
-- class Library (include/icelander.hpp, src/library.cpp): the static flag `initialized_` beside
-- ENet's own state.
use icelander.Prelude.{
  ℕ, ◌+◌, ◌-◌, ◌≡◌, List, [], ◌∷◌, Bool, true, false, if◌then◌else◌, is_zero, arith,
}
use icelander.Enet.{Enet}

module _ (e : Enet) where
  pub record State : Type 0 where
    pub initialized : Bool
    pub world : e.World

  unfoldable pub initialize : State → Bool × State
  initialize s =
      if s.initialized
      then (true, s)
      else if is_zero (e.initialize s.world).0
      then (true, record { initialized = true; world = (e.initialize s.world).1 })
      else (false, record s { world = (e.initialize s.world).1 })

  unfoldable pub deinitialize : State → State
  deinitialize s =
      if s.initialized then record { initialized = false; world = e.deinitialize s.world } else s

  unfoldable pub version : ℕ
  version = e.version

  unfoldable pub is_initialized : State → Bool
  is_initialized s = s.initialized

  pub data Call : Type 0 where
    initializes deinitializes : Call

  pub step : Call → State → State
  step initializes s = (initialize s).1
  step deinitializes s = deinitialize s

  pub run : List Call → State → State
  unfolding step
  run [] s = s
  run (c ∷ cs) s = run cs (step c s)

  -- `open_count` counts the initializations of ENet that are not yet undone.
  pub record CountLaws (open_count : e.World → ℕ) : Type 0 where
    pub opens :
        (w : e.World)
        → is_zero (e.initialize w).0 ≡ true
        → open_count (e.initialize w).1 ≡ open_count w + 1
    pub fails :
        (w : e.World)
        → is_zero (e.initialize w).0 ≡ false
        → open_count (e.initialize w).1 ≡ open_count w
    pub closes : (w : e.World) → open_count (e.deinitialize w) ≡ open_count w - 1

  abbrev pub flag_count : Bool → ℕ
  flag_count true = 1
  flag_count false = 0

  module _ (open_count : e.World → ℕ) (laws : CountLaws open_count) where
    step-count :
        (c : Call) (s : State)
        → open_count s.world ≡ flag_count s.initialized
        → open_count (step c s).world ≡ flag_count (step c s).initialized
    unfolding step initialize deinitialize
    step-count initializes s h = ground (arith, laws.opens s.world, laws.fails s.world)
    step-count deinitializes s h = ground (arith, laws.closes s.world)

    -- Any sequence of calls keeps ENet initialized exactly once while the flag is set and not at
    -- all while it is not, if it was so before.
    pub run-count :
        (cs : List Call) (s : State)
        → open_count s.world ≡ flag_count s.initialized
        → open_count (run cs s).world ≡ flag_count (run cs s).initialized
    unfolding run
    run-count [] s h = h
    run-count (c ∷ cs) s h = run-count cs (step c s) (step-count c s h)

  -- The result of `initialize` is the flag that it leaves; a second call after a success changes
  -- nothing, and `deinitialize` clears the flag.
  pub initialize_lem :
      (s : State)
      → ((initialize s).0 ≡ is_initialized (initialize s).1)
        × ((initialize s).0 ≡ true → initialize (initialize s).1 ≡ (true, (initialize s).1))
        × (is_initialized (deinitialize s) ≡ false)
  unfolding initialize is_initialized deinitialize
  initialize_lem s = (ground arith, λ h. ground arith, ground arith)
