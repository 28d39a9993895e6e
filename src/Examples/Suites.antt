-- ===== src/Examples/Suites.antt =====
-- The unit tests on the sample ENet and a little-endian machine.
use icelander.Prelude.{ℕ, zero, suc, ◌<◌, ◌≡◌, refl, List, [], ◌∷◌, some, none, done, arith}
use icelander.Enet.{NativePacket}
use icelander.Enet.Sample.{World, sample, sample_laws}
use icelander.Builder
use icelander.Scheduler.{
  init, wait_over, is_empty, wake, here, next, exited, schedule, start, spawn, started, enter,
  acquire, ready, pop, execute, stop, leave, notify_all, join,
}
use icelander.Apps.Suite.{hello_text, build_test, SchedulerRun, suite_main}
use icelander.Apps.Suite.Passes.{at_world, has_run, expected_lines, suite_passes}
use icelander.Examples.Platforms.{little_machine}

abbrev nothing : World
nothing = record { heap = []; peers = []; inbox = [] }

abbrev packed : List ℕ → NativePacket
packed bs = record { reference_count = 0; flags = 1; contents = bs }

abbrev with_one : World
with_one = record nothing { heap = some (packed hello_text) ∷ [] }

abbrev with_two : World
with_two = record nothing {
  heap =
      some (packed hello_text)
      ∷ some (packed (Builder.span (build_test ⦃m = little_machine⦄)))
      ∷ [];
}

alone : 0 < 1
alone = omega arith

below_one : (P : ℕ → Type 0) → P 0 → (i : ℕ) → i < 1 → P i
below_one P p zero h = p
below_one P p (suc i) h = absurd (omega arith)

-- One worker runs the task before `stop` is called.
run_once : SchedulerRun 1
unfolding init wait_over is_empty wake
run_once =
    let pushed = next here (schedule 0 refl) in
    let begun = next pushed (start refl refl) in
    let made = next begun (spawn 0 refl alone) in
    let up = next made (started refl) in
    let entered = next up (enter 0 alone refl refl) in
    let locked = next entered (acquire 0 alone refl refl) in
    let found = next locked (ready 0 alone refl refl) in
    let popped = next found (pop 0 0 [] alone refl refl refl) in
    let done = next popped (execute 0 0 alone refl) in
    let halted = next done (stop refl refl) in
    let left = next halted (leave 0 alone refl refl) in
    let notified = next left (notify_all refl) in
    record {
      state = _;
      reach = next notified (join refl (below_one (λ i. _ ≡ exited) refl));
      scheduled = refl;
      stopped = refl;
    }

suite_passes_example :
    (end : World) × (suite_main sample ⦃m = little_machine⦄ run_once (at_world sample nothing [])
      ≡ done 0 (at_world sample end (expected_lines sample (has_run run_once.state.executed))))
    × (sample.packet_at end 0 ≡ none)
    × (sample.packet_at end 1 ≡ none)
suite_passes_example =
    suite_passes ⦃m = little_machine⦄ sample sample_laws (omega arith) 0 1 nothing with_one with_two
      run_once refl refl refl
