-- ===== src/Apps/Programs/Rounds/Ends.antt =====
-- How the process of examples/basic/sync_example.cpp ends.
use icelander.Prelude.{
  ℕ, ◌≡◌, Bool, true, false, [], ◌∷◌, Option, none, some, Error, Option-cases, inl, inr, Bool-cases,
}
use icelander.Types.{default_config}
use icelander.Apps.Programs.{
  Outside, not_initialized, finished, failed, Process, Run, done, start, exit_process,
}
use icelander.Apps.Programs.Failures.{first_failure}
use icelander.Apps.Programs.Rounds.{sync_endpoint, sync_main}

abbrev pub ending : Bool → Option Error → Run (Process (Unit {0})) ℕ
ending false _ = done 1 (record (start tt) { reports = not_initialized ∷ [] })
ending true (some x) = done 1 (record (start tt) { reports = failed x ∷ [] })
ending true none = done 0 (record (start tt) { reports = finished ∷ [] })

-- Whatever `initialize` answers and the calls throw, the sync example gets back to the state in which
-- its process began, both hosts destroyed and the library closed; it exits with 0 and its last line, or
-- with 1 and the line of what failed first.
pub sync_ends :
    (o : Outside) (rounds : Option Error)
    → exit_process (sync_main o rounds (start tt))
      ≡ ending o.starts (
          first_failure (
            o.creates 0 (some sync_endpoint) default_config
            ∷ o.creates 1 none default_config
            ∷ o.connects 0 sync_endpoint
            ∷ rounds
            ∷ []))
unfolding sync_main exit_process
sync_ends o rounds = elim (Bool-cases o.starts) [
  | inr e ↦ rw e
  | inl e ↦ elim (Option-cases (o.creates 0 (some sync_endpoint) default_config)) [
    | inr (x, failure) ↦ rw (e, failure)
    | inl made ↦ elim (Option-cases (o.creates 1 none default_config)) [
      | inr (x, failure) ↦ rw (e, made, failure)
      | inl second ↦ elim (Option-cases (o.connects 0 sync_endpoint)) [
        | inr (x, failure) ↦ rw (e, made, second, failure)
        | inl connected ↦ elim (Option-cases rounds) [
          | inr (x, failure) ↦ rw (e, made, second, connected, failure)
          | inl quiet ↦ rw (e, made, second, connected, quiet)
        ]
      ]
    ]
  ]
]
