-- ===== src/Apps/Programs/Demo/Ends.antt =====
-- How the process of examples/advanced/comprehensive_example.cpp ends.
use icelander.Prelude.{ℕ, zero, suc, ◌≡◌, Bool, true, false, [], ◌∷◌, Option, none, some, Error}
use icelander.Apps.Programs.{
  Outside, not_initialized, finished, failed, Run, done, thrown, terminated, start,
}
use icelander.Apps.Programs.Demo.{
  demo_endpoint, server_config, client_config, num_clients, fresh, Demo,
}
use icelander.Apps.Programs.Demo.Cleanup.{IsOwned}

-- The first call of the loop that throws, and whether it is a `connect`.
abbrev pub client_failure : Outside → ℕ → ℕ → Option (Error × Bool)
client_failure o i zero = none
client_failure o i (suc n) = elim (o.creates (suc i) none client_config) [
  | some x ↦ some (x, false)
  | none ↦ elim (o.connects i demo_endpoint) [
    | some x ↦ some (x, true)
    | none ↦ client_failure o (suc i) n
  ]
]

-- The same of the whole set-up.
abbrev pub setup_failure : Outside → Option (Error × Bool)
setup_failure o = elim (o.creates 0 (some demo_endpoint) server_config) [
  | some x ↦ some (x, false)
  | none ↦ client_failure o 0 num_clients
]

-- The states between `initialize` and `cleanup`.
record IsUp (careless : Bool) (s : Demo) : Type 0 where
  ready : s.initialized ≡ true
  owned : IsOwned s
  quiet : s.scheduler ≡ false
  unreported : s.reports ≡ []
  stopped : s.members.running ≡ false
  care : s.careless ≡ careless

abbrev Sets : Option (Error × Bool) → Run Demo (Unit {0}) → Type 0
Sets none r = (t : Demo) × (r ≡ done tt t) × IsUp false t
Sets (some (x, c)) r = (t : Demo) × (r ≡ thrown x t) × IsUp c t

abbrev opened : Demo
opened = record (start fresh) { initialized = true }

-- How the process ends, by what `initialize` answers, by the first call of the set-up that throws and
-- whether it is a `connect`, and by what the tasks throw.
abbrev pub Outcomes : Bool → Option (Error × Bool) → Option Error → Run Demo ℕ → Type 0
Outcomes false _ _ r = r ≡ done 0 (record (start fresh) { reports = not_initialized ∷ [] })
Outcomes true (some (x, c)) _ r =
    r ≡ done 0 (record (start fresh) { careless = c; reports = failed x ∷ finished ∷ [] })
Outcomes true none (some x) r = (t : Demo) × (r ≡ terminated t)
Outcomes true none none r = r ≡ done 0 (record (start fresh) { reports = finished ∷ [] })
