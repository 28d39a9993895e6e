-- ===== src/Packet/Program.antt =====
-- A program that makes, moves, assigns, resizes and destroys Packet objects, one call after another.
use icelander.Prelude.{ℕ, ◌≡◌, ◌≢◌, List, Option, none, some, update, done, thrown, Error, after}
use icelander.Enet.{Enet}
use icelander.Packet.{Packet, new, destroy, move_construct, move_assign, move_assign_self, resize}

module _ (e : Enet) where
  -- `none` is storage with no object.
  pub record State : Type 0 where
    pub world : e.World
    pub objects : ℕ → Option Packet

  pub data Step (s : State) : State → Type 0 where
    constructs :
        (i : ℕ) (bs : List ℕ) (flags : ℕ) (p : Packet) (w : e.World)
        → s.objects i ≡ none
        → new e bs flags s.world ≡ done p w
        → Step s (record { world = w; objects = update s.objects i (some p) })
    construct_throws :
        (bs : List ℕ) (flags : ℕ) (x : Error) (w : e.World)
        → new e bs flags s.world ≡ thrown x w
        → Step s (record s { world = w })
    move_constructs :
        (i j : ℕ) (q : Packet)
        → s.objects i ≡ none
        → s.objects j ≡ some q
        → Step s (record s {
          objects =
              update (update s.objects i (some (move_construct q).0)) j (some (move_construct q).1);
        })
    move_assigns :
        (i j : ℕ) (p q : Packet) (r : Packet × Packet) (w : e.World)
        → i ≢ j
        → s.objects i ≡ some p
        → s.objects j ≡ some q
        → move_assign e p q s.world ≡ done r w
        → Step s
            (record { world = w; objects = update (update s.objects i (some r.0)) j (some r.1) })
    self_assigns :
        (i : ℕ) (p r : Packet) (w : e.World)
        → s.objects i ≡ some p
        → move_assign_self e p s.world ≡ done r w
        → Step s (record { world = w; objects = update s.objects i (some r) })
    resizes :
        (i n : ℕ) (p : Packet) (w : e.World)
        → s.objects i ≡ some p
        → after (resize e n p s.world) ≡ some w
        → Step s (record s { world = w })
    destroys :
        (i : ℕ) (p : Packet) (w : e.World)
        → s.objects i ≡ some p
        → destroy e p s.world ≡ done tt w
        → Step s (record { world = w; objects = update s.objects i none })

  pub data Reach (s : State) : State → Type 0 where
    here : Reach s s
    next : {t u : State} → Reach s t → Step t u → Reach s u

  -- A program starts with no object and no live packet.
  abbrev pub IsStart : State → Type 0
  IsStart s = ((i : ℕ) → s.objects i ≡ none) × ((a : ℕ) → e.packet_at s.world a ≡ none)
