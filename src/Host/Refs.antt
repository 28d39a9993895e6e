-- ===== src/Host/Refs.antt =====
-- The state that a Host and its application share. Peer objects live behind `shared_ptr`s: an object
-- is a number, and it is alive while its count of strong references is not 0. A `weak_ptr` is the
-- bare number.
use icelander.Prelude.{
  ℕ, ◌+◌, ◌-◌, List, [], ◌∷◌, ◌++◌, Option, some, Bool, length, done, thrown, fault, Exec, update,
}
use icelander.Enet.{Enet}
use icelander.Peer
use icelander.Peer.{Peer}

-- Two locks of one object are one after the other, so a plain count serves for the atomic one.
pub record State (e : Enet) (A : Type 0) : Type 0 where
  pub world : e.World
  pub native_host : Option ℕ
  pub is_server : Bool
  -- `peers_`, weak pointers
  pub peers : List ℕ
  -- every Peer object that was made, and the strong references to each
  pub objects : List Peer
  pub strong : ℕ → ℕ
  -- what else the handlers of the application change
  pub app : A

-- A copy of a `shared_ptr` and the end of one.
unfoldable pub retain : ℕ → (ℕ → ℕ) → ℕ → ℕ
retain i strong = update strong i (strong i + 1)

unfoldable pub release : ℕ → (ℕ → ℕ) → ℕ → ℕ
release i strong = update strong i (strong i - 1)

unfoldable pub release_all : List ℕ → (ℕ → ℕ) → ℕ → ℕ
unfolding release
release_all [] strong = strong
release_all (i ∷ is) strong = release_all is (release i strong)

module _ {e : Enet} {A : Type 0} where
  unfoldable pub retain_ref : ℕ → State e A → State e A
  unfolding retain
  retain_ref i s = record s { strong = retain i s.strong }

  unfoldable pub release_ref : ℕ → State e A → State e A
  unfolding release
  release_ref i s = record s { strong = release i s.strong }

  -- `make_shared<Peer>(native, shared_from_this())`: the new object has one reference.
  unfoldable pub make_peer : ℕ → State e A → ℕ × State e A
  make_peer native s =
      let i = length s.objects in
      (
        i,
        record s {
          objects = s.objects ++ Peer.new (some native) s.native_host ∷ [];
          strong = update s.strong i 1;
        },
      )

  -- A call of ENet, or of a class over ENet alone.
  unfoldable pub on_world : {B : Type 0} → Exec e.World B → Exec (State e A) B
  on_world m s = elim (m s.world) [
    | done b w ↦ done b (record s { world = w })
    | thrown x w ↦ thrown x (record s { world = w })
    | fault ↦ fault
  ]

  -- Local variables end when their block is left, by its end or by an exception.
  unfoldable pub finally :
      (State e A → State e A) → Exec (State e A) (Unit {0}) → Exec (State e A) (Unit {0})
  finally clean m s = elim (m s) [
    | done b s' ↦ done b (clean s')
    | thrown x s' ↦ thrown x (clean s')
    | fault ↦ fault
  ]
