-- ===== src/Host/Unchanged.antt =====
-- What calls of the host leave alone: the references to peers and the list of peers.
use icelander.Prelude.{
  ℕ, ◌≡◌, refl, ◌∙◌, some, arith, Outcome, done, thrown, fault, Exec, ◌>>=◌, Leaves,
}
use icelander.Enet.{Enet, NativePeer, Address}
use icelander.Endpoint.{from_enet_address}
use icelander.Peer
use icelander.Dispatcher.{EventDispatcher}
use icelander.Host.Refs.{State, on_world, finally}
use icelander.Host.Events.{remote_of}

-- A call that leaves the references and the peers of the host alone.
pub record Unchanged {e : Enet} {A : Type 0} (s t : State e A) : Type 0 where
  pub same_peers : t.peers ≡ s.peers
  pub same_objects : t.objects ≡ s.objects
  pub same_strong : t.strong ≡ s.strong

pub Unchanged-refl : {e : Enet} {A : Type 0} (s : State e A) → Unchanged s s
Unchanged-refl s = record { same_peers = refl; same_objects = refl; same_strong = refl }

pub Unchanged-trans :
    {e : Enet} {A : Type 0} {s t u : State e A} → Unchanged s t → Unchanged t u → Unchanged s u
Unchanged-trans h k = record {
  same_peers = k.same_peers ∙ h.same_peers;
  same_objects = k.same_objects ∙ h.same_objects;
  same_strong = k.same_strong ∙ h.same_strong;
}

module _ {e : Enet} {A : Type 0} where
  pub finally-Leaves :
      (P Q : State e A → Type 0) (clean : State e A → State e A) (m : Exec (State e A) (Unit {0}))
      (s : State e A)
      → Leaves P (m s)
      → ((t : State e A) → P t → Q (clean t))
      → Leaves Q (finally clean m s)
  unfolding finally
  finally-Leaves P Q clean m s h k = go (m s) h
    where
      go :
          (o : Outcome (State e A) (Unit {0}))
          → Leaves P o
          → Leaves Q (elim o as (λ _. Outcome (State e A) (Unit {0})) [
            | done b t ↦ done b (clean t)
            | thrown x t ↦ thrown x (clean t)
            | fault ↦ fault
          ])
      go (done b t) p = k t p
      go (thrown x t) p = k t p
      go fault p = p

  on_world-Unchanged :
      {B : Type 0} (m : Exec e.World B) (s : State e A)
      → Leaves (λ _. Unit {0}) (m s.world)
      → Leaves (Unchanged s) (on_world m s)
  unfolding on_world
  on_world-Unchanged {B} m s h = go (m s.world) h
    where
      go :
          (o : Outcome e.World B)
          → Leaves (λ _. Unit {0}) o
          → Leaves (Unchanged s) (elim o as (λ _. Outcome (State e A) B) [
            | done b w ↦ done b (record s { world = w })
            | thrown x w ↦ thrown x (record s { world = w })
            | fault ↦ fault
          ])
      go (done b w) p = record { same_peers = refl; same_objects = refl; same_strong = refl }
      go (thrown x w) p = record { same_peers = refl; same_objects = refl; same_strong = refl }
      go fault p = p

from_enet_address-Leaves :
    (e : Enet) (a : Address) (w : e.World)
    → Leaves {W = e.World} (λ _. Unit {0}) (from_enet_address e a w)
unfolding from_enet_address
from_enet_address-Leaves e a w = ground arith

module _ (e : Enet) {A : Type 0} (d : EventDispatcher (State e A)) where
  pub remote_of-Unchanged :
      (native : ℕ) (n : NativePeer) (s : State e A)
      → e.peer_at s.world native ≡ some n
      → Leaves (Unchanged s) (remote_of e d native s)
  unfolding remote_of Peer.deref
  remote_of-Unchanged native n s alive =
      on_world-Unchanged _ s
        (rw (alive, ◌>>=◌, Peer.deref) (from_enet_address-Leaves e n.address s.world))
