-- ===== src/Apps/Suite/Passes.antt =====
-- The unit tests pass, and leave no packet behind.
use icelander.Prelude.{
  ℕ, zero, suc, ◌+◌, ◌⊎◌, arith, ◌≤◌, ◌≡◌, ◌≢◌, refl, ap, sym, ◌∙◌, none, some, List, [], ◌∷◌, ◌++◌,
  Bool, true, false, if◌then◌else◌, length, not, done, thrown, fault, ◌>>=◌, ◌>>◌, is_zero, inl,
  inr,
}
use icelander.Bytes.{Platform}
use icelander.Types.{PacketFlag}
use icelander.Enet.{Enet, NativePacket, PacketLaws}
use icelander.Builder
use icelander.Library
use icelander.Packet
use icelander.Packet.{Packet}
use icelander.Packet.Contents.{span_live, build_made}
use icelander.Scheduler
use icelander.Scheduler.Tasks.{tasks_conserved, count}
use icelander.Apps.Programs.Echoes.{localhost}
use icelander.Apps.Suite.{
  hello_text, test_text, loopback, Line, version, created_size, built_size, read_magic, read_number,
  read_byte, content, read_message, initialized, deinitialized, task_executed, all_completed,
  is_initialized, task_was, created_endpoint, build_test, SchedulerRun, run_tasks, print,
  test_failed, Suite, on_enet, holding, test_library_functions, test_endpoint_operations,
  test_async_scheduler, show_built, show_created, test_packet_operations, run_tests, suite_main,
}
use icelander.Apps.Suite.Reads.{length-build_test, read_test-build_test}

-- Whether the scheduler has run the task.
abbrev pub has_run : List ℕ → Bool
has_run [] = false
has_run (t ∷ ts) = true

at_most_once : {n : ℕ} (r : SchedulerRun n) → (r.state.executed ≡ []) ⊎ (r.state.executed ≡ 0 ∷ [])
at_most_once r =
    go r.state.executed
      (λ v. let (whole, ended) = tasks_conserved v r.reach in rw r.scheduled at (ended r.stopped))
  where
    go :
        (xs : List ℕ)
        → ((v : ℕ) → count v (0 ∷ []) ≡ count v xs + count v r.state.queue)
        → (xs ≡ []) ⊎ (xs ≡ 0 ∷ [])
    go [] h = inl refl
    go (zero ∷ []) h = inr refl
    go (zero ∷ zero ∷ xs) h = absurd (omega (arith, h 0))
    go (zero ∷ suc x ∷ xs) h = absurd (ground (arith, h (suc x)))
    go (suc x ∷ xs) h = absurd (ground (arith, h (suc x)))

module _ (e : Enet) where
  abbrev pub at_world : e.World → List Line → Suite e
  at_world w ls = record { library = record { initialized = false; world = w }; lines = ls }

  library_lem :
      (w : e.World) (ls : List Line)
      → is_zero (e.initialize w).0 ≡ true
      → test_library_functions e (at_world w ls)
        ≡ done tt (
            at_world (e.deinitialize (e.initialize w).1) (
              (((ls ++ version e.version ∷ []) ++ initialized ∷ []) ++ is_initialized true ∷ [])
              ++ deinitialized ∷ []))
  unfolding test_library_functions Library.version Library.initialize Library.is_initialized
      Library.deinitialize
  library_lem w ls up = rw up

  size_live :
      (a : ℕ) (n : NativePacket) (w : e.World)
      → e.packet_at w a ≡ some n
      → Packet.size e (record { native = some a }) w ≡ done (length n.contents) w
  unfolding Packet.size Packet.deref
  size_live a n w alive = rw (alive, ◌>>=◌, Packet.deref) refl

  -- The lines of the first two tests.
  abbrev first_lines : List Line
  first_lines =
      version e.version
      ∷ initialized
      ∷ is_initialized true
      ∷ deinitialized
      ∷ created_endpoint (record { host = localhost; port = 8080 })
      ∷ created_endpoint (record { host = loopback; port = 12345 })
      ∷ []

  -- The whole output, `ran` whether the scheduler ran the task.
  abbrev pub expected_lines : Bool → List Line
  expected_lines ran =
      first_lines
      ++ created_size 14
        ∷ content hello_text
        ∷ built_size 23
        ∷ read_magic 0x12345678
        ∷ read_message test_text
        ∷ read_number 42
        ∷ read_byte 255
        ∷ (if ran then task_executed ∷ [] else [])
      ++ task_was ran ∷ all_completed ∷ []

  create_made :
      (bs : List ℕ) (fl a : ℕ) (w w' : e.World)
      → e.packet_create bs fl w ≡ (some a, w')
      → Packet.create e bs fl w ≡ done (record { native = some a }) w'
  unfolding Packet.create Packet.new
  create_made bs fl a w w' made =
      rw (ap (λ r. r.0) made, Packet.new) (ap (λ r. done (record { native = some a }) r.1) made)

module _ ⦃m : Platform⦄ (e : Enet) (laws : PacketLaws e) (fits : 12 ≤ m.string_max) where
  abbrev packed : List ℕ → NativePacket
  packed bs = record {
    reference_count = 0;
    flags = e.flag_value PacketFlag.reliable;
    contents = bs;
  }

  show_built_lem :
      (b : ℕ) (w : e.World) (ls : List Line)
      → e.packet_at w b ≡ some (packed (Builder.span build_test))
      → show_built e (record { native = some b }) (at_world e w ls)
        ≡ done tt (
            at_world e w (
              ((((ls ++ built_size 23 ∷ []) ++ read_magic 0x12345678 ∷ [])
                  ++ read_message test_text ∷ [])
                ++ read_number 42 ∷ [])
              ++ read_byte 255 ∷ []))
  unfolding show_built on_enet Packet.reader
  show_built_lem b w ls alive =
      let (r, back) = read_test-build_test fits in
      rw (size_live e b _ w alive, ◌>>=◌)
        (rw (span_live e laws b _ w alive, ◌>>=◌) (rw (back, length-build_test, ◌>>=◌) refl))

  show_created_lem :
      (a b : ℕ) (w w' : e.World) (ls : List Line)
      → e.packet_at w a ≡ some (packed hello_text)
      → e.packet_create (Builder.span build_test) (e.flag_value PacketFlag.reliable) w
        ≡ (some b, w')
      → show_created e (record { native = some a }) (at_world e w ls)
        ≡ done tt (
            at_world e (e.packet_destroy b w') (
              ((((((ls ++ created_size 14 ∷ []) ++ content hello_text ∷ []) ++ built_size 23 ∷ [])
                    ++ read_magic 0x12345678 ∷ [])
                  ++ read_message test_text ∷ [])
                ++ read_number 42 ∷ [])
              ++ read_byte 255 ∷ []))
  unfolding show_created on_enet Packet.as_string holding Packet.destroy Packet.free
  show_created_lem a b w w' ls alive made =
      let there : e.packet_at w' b ≡ some (packed (Builder.span build_test)) = rw made at (
        laws.created (Builder.span build_test) (e.flag_value PacketFlag.reliable) w b
          (ap (λ r. r.0) made)) in
      rw (size_live e a _ w alive, ◌>>=◌)
        (rw (span_live e laws a _ w alive, ◌>>=◌)
          (rw (build_made e laws build_test (e.flag_value PacketFlag.reliable) b w w' made, ◌>>=◌)
            (rw
              (
                show_built_lem b w' ((ls ++ created_size 14 ∷ []) ++ content hello_text ∷ []) there,
                holding,
              )
              (rw (there, on_enet) refl))))

  -- The first packet outlives the second.
  still_there :
      (a b fl : ℕ) (bs : List ℕ) (w w' : e.World) (n : NativePacket)
      → e.packet_at w a ≡ some n
      → e.packet_create bs fl w ≡ (some b, w')
      → (a ≢ b) × (e.packet_at (e.packet_destroy b w') a ≡ some n)
  still_there a b fl bs w w' n alive made =
      let second : (e.packet_create bs fl w).0 ≡ some b = ap (λ r. r.0) made in
      let fresh = laws.created_fresh bs fl w b second in
      let apart : a ≢ b = λ q. cc (ap (e.packet_at w) q) in
      let kept = laws.created_others bs fl w a (λ q. cc) in
      (apart, laws.destroyed_others b a w' (λ q. apart (sym q)) ∙ (rw made at kept) ∙ alive)

  packets_lem :
      (a b : ℕ) (w w' w2 : e.World) (ls : List Line)
      → e.packet_create hello_text (e.flag_value PacketFlag.reliable) w ≡ (some a, w')
      → e.packet_create (Builder.span build_test) (e.flag_value PacketFlag.reliable) w'
        ≡ (some b, w2)
      → test_packet_operations e (at_world e w ls)
        ≡ done tt (
            at_world e (e.packet_destroy a (e.packet_destroy b w2)) (
              ((((((ls ++ created_size 14 ∷ []) ++ content hello_text ∷ []) ++ built_size 23 ∷ [])
                    ++ read_magic 0x12345678 ∷ [])
                  ++ read_message test_text ∷ [])
                ++ read_number 42 ∷ [])
              ++ read_byte 255 ∷ []))
  unfolding test_packet_operations on_enet holding Packet.destroy Packet.free
  packets_lem a b w w' w2 ls first second =
      let fl = e.flag_value PacketFlag.reliable in
      let there : e.packet_at w' a ≡ some (packed hello_text) =
        rw first at (laws.created hello_text fl w a (ap (λ r. r.0) first)) in
      let later = (still_there a b fl _ w' w2 _ there second).1 in
      rw (create_made e hello_text fl a w w' first, ◌>>=◌)
        (rw (show_created_lem a b w' w2 ls there second, holding) (rw (later, on_enet) refl))

  -- The last test and the last line, by the tasks that were run.
  scheduler_lem :
      (w : e.World) (xs : List ℕ)
      → (xs ≡ []) ⊎ (xs ≡ 0 ∷ [])
      → ((run_tasks e xs >> print e (task_was (not (Scheduler.is_empty xs))))
            >> print e all_completed)
          (at_world e w (
            first_lines e
            ++ created_size 14
              ∷ content hello_text
              ∷ built_size 23
              ∷ read_magic 0x12345678
              ∷ read_message test_text
              ∷ read_number 42
              ∷ read_byte 255
              ∷ []))
        ≡ done tt (at_world e w (expected_lines e (has_run xs)))
  unfolding run_tasks Scheduler.is_empty
  scheduler_lem w xs (inl q) = rw q refl
  scheduler_lem w xs (inr q) = rw q refl

  run_lem :
      (a b : ℕ) (w w' w2 : e.World) {n : ℕ} (r : SchedulerRun n)
      → is_zero (e.initialize w).0 ≡ true
      → e.packet_create hello_text
          (e.flag_value PacketFlag.reliable)
          (e.deinitialize (e.initialize w).1)
        ≡ (some a, w')
      → e.packet_create (Builder.span build_test) (e.flag_value PacketFlag.reliable) w'
        ≡ (some b, w2)
      → suite_main e r (at_world e w [])
        ≡ done 0 (
            at_world e
              (e.packet_destroy a (e.packet_destroy b w2))
              (expected_lines e (has_run r.state.executed)))
  unfolding suite_main run_tests test_endpoint_operations test_async_scheduler run_tasks
      Scheduler.is_empty
  run_lem a b w w' w2 r up first second =
      rw (library_lem e w [] up, suite_main, run_tests)
        (rw (packets_lem a b _ w' w2 (first_lines e) first second, ◌>>=◌)
          (ap
            (λ o. elim o [
              | done _ t ↦ done 0 t
              | thrown x t ↦ done 1 (record t { lines = t.lines ++ test_failed x ∷ [] })
              | fault ↦ fault
            ])
            (scheduler_lem (e.packet_destroy a (e.packet_destroy b w2)) r.state.executed
              (at_most_once r))))

  -- Where the calls of the scheduler return, `enet_initialize` succeeds and ENet makes both packets, on a platform whose strings may have 12
  -- bytes, every test returns, `main` returns 0, what was written into the packets is printed, the
  -- zero byte of the literal included, whether the task has run, which it has once at most, no packet is left, and the library is closed.
  pub suite_passes :
      (a b : ℕ) (w w' w2 : e.World) {n : ℕ} (r : SchedulerRun n)
      → is_zero (e.initialize w).0 ≡ true
      → e.packet_create hello_text
          (e.flag_value PacketFlag.reliable)
          (e.deinitialize (e.initialize w).1)
        ≡ (some a, w')
      → e.packet_create (Builder.span build_test) (e.flag_value PacketFlag.reliable) w'
        ≡ (some b, w2)
      → (end : e.World) × (suite_main e r (at_world e w [])
          ≡ done 0 (at_world e end (expected_lines e (has_run r.state.executed))))
        × (e.packet_at end a ≡ none)
        × (e.packet_at end b ≡ none)
  suite_passes a b w w' w2 r up first second =
      let fl = e.flag_value PacketFlag.reliable in
      let there : e.packet_at w' a ≡ some (packed hello_text) =
        rw first at (laws.created hello_text fl _ a (ap (λ r. r.0) first)) in
      let (apart, later) = still_there a b fl _ w' w2 _ there second in
      (
        e.packet_destroy a (e.packet_destroy b w2),
        run_lem a b w w' w2 r up first second,
        laws.destroyed a _,
        laws.destroyed_others a b _ apart ∙ laws.destroyed b w2,
      )
