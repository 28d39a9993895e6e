-- ===== src/Apps/Suite.antt =====
-- examples/tests/unit_tests.cpp: its four tests and `main`, over any ENet and platform.
pub mod Reads
pub mod Passes
use icelander.Prelude.{
  ℕ, ◌≡◌, List, [], ◌∷◌, ◌++◌, Bool, not, if◌then◌else◌, Outcome, done, thrown, fault, Exec, ◌>>=◌,
  ◌>>◌, pure, Error,
}
use icelander.Bytes.{Platform}
use icelander.Types.{PacketFlag, Endpoint}
use icelander.Enet.{Enet}
use icelander.Builder
use icelander.Builder.{PacketBuilder}
use icelander.Reader
use icelander.Reader.{PacketReader}
use icelander.Library
use icelander.Packet
use icelander.Packet.{Packet}
use icelander.Apps.Fields.{hello}
use icelander.Scheduler
use icelander.Apps.Programs.Echoes.{localhost}

-- "Hello, World!" with its zero byte, "Test Message", and "127.0.0.1"
abbrev pub hello_text : List ℕ
hello_text = hello ++ 0 ∷ []

abbrev pub test_text : List ℕ
test_text = 0x54 ∷ 0x65 ∷ 0x73 ∷ 0x74 ∷ 0x20 ∷ 0x4d ∷ 0x65 ∷ 0x73 ∷ 0x73 ∷ 0x61 ∷ 0x67 ∷ 0x65 ∷ []

abbrev pub loopback : List ℕ
loopback = 0x31 ∷ 0x32 ∷ 0x37 ∷ 0x2e ∷ 0x30 ∷ 0x2e ∷ 0x30 ∷ 0x2e ∷ 0x31 ∷ []

-- What the tests print, headings and empty lines left out.
pub data Line : Type 0 where
  version created_size built_size read_magic read_number read_byte : ℕ → Line
  content read_message : List ℕ → Line
  initialized deinitialized not_initialized task_executed all_completed : Line
  is_initialized task_was : Bool → Line
  created_endpoint : Endpoint → Line
  test_failed : Error → Line

-- What `test_packet_operations` reads.
pub record Values : Type 0 where
  pub magic : ℕ
  pub message : List ℕ
  pub number : ℕ
  pub byte_val : ℕ

module _ ⦃m : Platform⦄ where
  unfoldable pub build_test : PacketBuilder
  build_test = Builder.write_uint8 255 (
      Builder.write_uint16 42
        (Builder.write_string test_text (Builder.write_uint32 0x12345678 Builder.new)))

  unfoldable pub read_test : Exec PacketReader Values
  read_test = do
    magic ← Reader.read_uint32
    str_len ← Reader.read_uint32
    message ← Reader.read_string str_len
    number ← Reader.read_uint16
    byte_val ← Reader.read_uint8
    pure (record { magic = magic; message = message; number = number; byte_val = byte_val })

-- `schedule` of the one task, `start` and `stop` on a scheduler with `n` workers: any interleaving in which
-- the three calls have returned.
pub record SchedulerRun (n : ℕ) : Type 0 where
  pub state : Scheduler.State
  pub reach : Scheduler.Reach n state
  pub scheduled : state.pushed ≡ 0 ∷ []
  pub stopped : state.control ≡ Scheduler.down

module _ (e : Enet) where
  pub record Suite : Type 0 where
    pub library : Library.State e
    pub lines : List Line

  abbrev pub print : Line → Exec Suite (Unit {0})
  print l s = done tt (record s { lines = s.lines ++ l ∷ [] })

  unfoldable pub on_enet : {B : Type 0} → Exec e.World B → Exec Suite B
  on_enet m s = elim (m s.library.world) [
    | done b w ↦ done b (record s { library = record s.library { world = w } })
    | thrown x w ↦ thrown x (record s { library = record s.library { world = w } })
    | fault ↦ fault
  ]

  -- A local packet: it is destroyed at the end of the block and by an exception.
  unfoldable pub holding : Packet → Exec Suite (Unit {0}) → Exec Suite (Unit {0})
  holding pkt m s = elim (m s) [
    | done _ t ↦ on_enet (Packet.destroy e pkt) t
    | thrown x t ↦ (on_enet (Packet.destroy e pkt) >>= λ _ u. thrown x u) t
    | fault ↦ fault
  ]

  unfoldable pub test_library_functions : Exec Suite (Unit {0})
  test_library_functions s =
      (print (version (Library.version e)) >> (λ t.
          let (ready, library) = Library.initialize e t.library in
          if ready
          then (do
            print initialized
            print (is_initialized (Library.is_initialized e library))
            λ u. done tt (record u { library = Library.deinitialize e u.library })
            print deinitialized)
              (record t { library = library })
          else print not_initialized (record t { library = library })))
        s

  unfoldable pub test_endpoint_operations : Exec Suite (Unit {0})
  test_endpoint_operations = do
    print (created_endpoint (record { host = localhost; port = 8080 }))
    print (created_endpoint (record { host = loopback; port = 12345 }))

  -- `Task executed!` is the task itself. What the run of the scheduler has executed is read once `stop`
  -- has returned.
  unfoldable pub run_tasks : List ℕ → Exec Suite (Unit {0})
  run_tasks [] = pure tt
  run_tasks (t ∷ ts) = print task_executed >> run_tasks ts

  unfoldable pub test_async_scheduler : {n : ℕ} → SchedulerRun n → Exec Suite (Unit {0})
  unfolding Scheduler.is_empty
  test_async_scheduler r = do
    run_tasks r.state.executed
    print (task_was (not (Scheduler.is_empty r.state.executed)))

  module _ ⦃m : Platform⦄ where
    unfoldable pub show_built : Packet → Exec Suite (Unit {0})
    show_built pkt2 = do
      n ← on_enet (Packet.size e pkt2)
      print (built_size n)
      reader ← on_enet (Packet.reader e pkt2)
      v ← (λ s. elim (read_test reader) [
        | done v _ ↦ done v s
        | thrown x _ ↦ thrown x s
        | fault ↦ fault
      ])
      print (read_magic v.magic)
      print (read_message v.message)
      print (read_number v.number)
      print (read_byte v.byte_val)

    unfoldable pub show_created : Packet → Exec Suite (Unit {0})
    show_created pkt1 = do
      n ← on_enet (Packet.size e pkt1)
      print (created_size n)
      s ← on_enet (Packet.as_string e pkt1)
      print (content s)
      pkt2 ← on_enet (Packet.build e build_test (e.flag_value PacketFlag.reliable))
      holding pkt2 (show_built pkt2)

    unfoldable pub test_packet_operations : Exec Suite (Unit {0})
    test_packet_operations = do
      pkt1 ← on_enet (Packet.create e hello_text (e.flag_value PacketFlag.reliable))
      holding pkt1 (show_created pkt1)

    unfoldable pub run_tests : {n : ℕ} → SchedulerRun n → Exec Suite (Unit {0})
    run_tests r = do
      test_library_functions
      test_endpoint_operations
      test_packet_operations
      test_async_scheduler r
      print all_completed

    unfoldable pub suite_main : {n : ℕ} → SchedulerRun n → Exec Suite ℕ
    suite_main r s = elim (run_tests r s) [
      | done _ t ↦ done 0 t
      | thrown x t ↦ done 1 (record t { lines = t.lines ++ test_failed x ∷ [] })
      | fault ↦ fault
    ]
