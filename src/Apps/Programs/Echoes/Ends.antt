-- ===== src/Apps/Programs/Echoes/Ends.antt =====
-- How the processes of examples/networking/async_server.cpp and async_client.cpp end.
use icelander.Prelude.{
  ℕ, ◌≡◌, Bool, true, false, [], ◌∷◌, Option, none, some, Error, Option-cases, inl, inr, Bool-cases,
}
use icelander.Apps.Programs.{
  Outside, not_initialized, finished, failed, Process, Run, done, terminated, hung, start,
  exit_process,
}
use icelander.Apps.Programs.Echoes.{echo_endpoint, server_config, server_main}

-- The end of the process, by what `initialize` answers, by what the creation of the host, `connect` and the
-- loop over the input throw, and by whether the service thread calls `std::terminate` and `stop` of the
-- scheduler returns.
abbrev pub expected :
    Bool → Option Error → Option Error → Bool → Option Error → Bool → Run (Process (Unit {0})) ℕ
expected false _ _ _ _ _ = done 1 (record (start tt) { reports = not_initialized ∷ [] })
expected true (some x) _ _ _ _ = done 1 (record (start tt) { reports = failed x ∷ [] })
expected true none (some x) _ _ _ = done 1 (record (start tt) { reports = failed x ∷ [] })
expected true none none true _ _ =
    terminated (record (start tt) { initialized = true; live = 1; scheduler = true })
expected true none none false (some x) _ =
    terminated (record (start tt) { scheduler = true; careless = true; reports = failed x ∷ [] })
expected true none none false none false =
    hung (record (start tt) { initialized = true; live = 1; scheduler = true })
expected true none none false none true = done 0 (record (start tt) { reports = finished ∷ [] })

-- The server gets back to the state in which its process began, the host destroyed after its service
-- thread was joined and the library closed, and exits with 0 and its last line, or with 1 and the line
-- of the failure of `initialize` or `createServer`; but the service thread may terminate it, and `stop`
-- of the scheduler may hang.
pub server_ends :
    (o : Outside)
    → exit_process (server_main o (start tt))
      ≡ expected o.starts
          (o.creates 0 (some echo_endpoint) server_config)
          none
          (o.crashes 0)
          none
          o.stops
unfolding server_main exit_process
server_ends o = elim (Bool-cases o.starts) [
  | inr e ↦ rw e
  | inl e ↦ elim (Option-cases (o.creates 0 (some echo_endpoint) server_config)) [
    | inr (x, failure) ↦ rw (e, failure)
    | inl made ↦ elim (Bool-cases (o.crashes 0)) [
      | inl crash ↦ rw (e, made, crash)
      | inr calm ↦ elim (Bool-cases o.stops) [
        | inl stopped ↦ rw (e, made, calm, stopped)
        | inr waits ↦ rw (e, made, calm, waits)
      ]
    ]
  ]
]
