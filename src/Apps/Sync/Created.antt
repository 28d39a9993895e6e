-- ===== src/Apps/Sync/Created.antt =====
-- What the creation of a host, as examples/basic/sync_example.cpp makes them, does to those of ENet.
use icelander.Prelude.{
  ℕ, ◌≡◌, refl, ◌∙◌, ap, List, [], ◌∷◌, Option, none, some, Bool, true, false, Outcome, done,
  thrown, fault, Exec, ◌>>=◌, Option-cases, inl, inr, or_throw, Error, server_create_failed,
  client_create_failed,
}
use icelander.Types.{Endpoint, default_config}
use icelander.Enet.{Enet, Address}
use icelander.Endpoint.{to_enet_address}
use icelander.Host.Refs.{State}
use icelander.Host.Calls.{open_host, construct, create_server, create_client}
use icelander.Apps.Sync.{Line}
use icelander.Apps.Sync.Kept.{Keeps, IsKept, to_enet_address-Keeps}

-- What ENet does with its hosts, `live` those that are created and not destroyed, the newest first.
pub record HostLaws (e : Enet) (live : e.World → List ℕ) : Type 0 where
  pub made :
      (a : Option Address) (peers channels incoming outgoing : ℕ) (w : e.World) (h : ℕ)
      → (e.host_create a peers channels incoming outgoing w).0 ≡ some h
      → live (e.host_create a peers channels incoming outgoing w).1 ≡ h ∷ live w
  pub refused :
      (a : Option Address) (peers channels incoming outgoing : ℕ) (w : e.World)
      → (e.host_create a peers channels incoming outgoing w).0 ≡ none
      → live (e.host_create a peers channels incoming outgoing w).1 ≡ live w
  pub destroyed :
      (h : ℕ) (hs : List ℕ) (w : e.World) → live w ≡ h ∷ hs → live (e.host_destroy h w) ≡ hs
  pub started : (w : e.World) → live (e.initialize w).1 ≡ live w
  pub stopped : (w : e.World) → live (e.deinitialize w) ≡ live w
  pub steady : (hs : List ℕ) → IsKept e (λ w. live w ≡ hs)

-- A return leaves `P` of the result, an exception `Q`.
abbrev pub Ensures : {W A : Type 0} → (A → W → Type 0) → (W → Type 0) → Outcome W A → Type 0
Ensures P Q (done a w) = P a w
Ensures P Q (thrown x w) = Q w
Ensures P Q fault = Unit {0}

>>=-Ensures :
    {W A B : Type 0} (P : A → W → Type 0) (R : B → W → Type 0) (Q : W → Type 0) (m : Exec W A)
    (f : A → Exec W B) (w : W)
    → Ensures P Q (m w)
    → ((a : A) (u : W) → P a u → Ensures R Q (f a u))
    → Ensures R Q ((m >>= f) w)
>>=-Ensures {W} {A} {B} P R Q m f w h k = go (m w) h
  where
    go :
        (o : Outcome W A)
        → Ensures P Q o
        → Ensures {W = W} {A = B} R Q
            (elim o [ done a u ↦ f a u | thrown x u ↦ thrown x u | fault ↦ fault ])
    go (done a u) p = k a u p
    go (thrown x u) p = p
    go fault p = tt

Keeps-Ensures : {W A : Type 0} (Q : W → Type 0) (o : Outcome W A) → Keeps Q o → Ensures (λ _. Q) Q o
Keeps-Ensures Q (done a w) h = h
Keeps-Ensures Q (thrown x w) h = h
Keeps-Ensures Q fault h = tt

module _ (e : Enet) (live : e.World → List ℕ) (laws : HostLaws e live) where
  -- The host on `native`, if there is one, is the newest.
  abbrev Newest : List ℕ → Option ℕ → e.World → Type 0
  Newest hs none w = live w ≡ hs
  Newest hs (some h) w = live w ≡ h ∷ hs

  abbrev pub Owned : {A : Type 0} → List ℕ → State e A → e.World → Type 0
  Owned hs s w = (h : ℕ) × (live w ≡ h ∷ hs) × (s.native_host ≡ some h)

  open_host-Newest :
      (a : Option Address) (hs : List ℕ) (w : e.World)
      → live w ≡ hs
      → Ensures (Newest hs) (λ u. live u ≡ hs) (open_host e a default_config w)
  unfolding open_host default_config
  open_host-Newest a hs w q =
      elim (Option-cases
        (e.host_create a default_config.max_peers default_config.max_channels
          default_config.incoming_bandwidth default_config.outgoing_bandwidth w).0) [
            | inl failed ↦ rw (failed, open_host) (laws.refused a _ _ _ _ w failed ∙ q)
            | inr (h, good) ↦
                rw (good, open_host) (laws.made a _ _ _ _ w h good ∙ ap (λ r. h ∷ r) q)
          ]

  owner :
      (x : Error) (kind : Bool) (hs : List ℕ) (native : Option ℕ) (w : e.World)
      → Newest hs native w
      → Ensures
          (Owned hs)
          (λ u. live u ≡ hs)
          ((or_throw x native >>= (λ n u. done (construct e {A = List Line} [] n kind u) u)) w)
  unfolding construct
  owner x kind hs none w q = q
  owner x kind hs (some h) w q = (h, q, refl)

  pub create_server-Owned :
      (p : Endpoint) (hs : List ℕ) (w : e.World)
      → live w ≡ hs
      → Ensures
          (Owned hs)
          (λ u. live u ≡ hs)
          (create_server e {A = List Line} [] p default_config w)
  unfolding create_server
  create_server-Owned p hs w q =
      >>=-Ensures (λ _ u. live u ≡ hs) (Owned hs) (λ u. live u ≡ hs) (to_enet_address e p) _ w
        (Keeps-Ensures (λ u. live u ≡ hs) _ (to_enet_address-Keeps e _ (laws.steady hs) p w q))
        (λ a u k.
          >>=-Ensures (Newest hs) (Owned hs) (λ u. live u ≡ hs)
            (open_host e (some a) default_config) _ u (open_host-Newest (some a) hs u k)
            (λ native v l. owner server_create_failed true hs native v l))

  pub create_client-Owned :
      (hs : List ℕ) (w : e.World)
      → live w ≡ hs
      → Ensures (Owned hs) (λ u. live u ≡ hs) (create_client e {A = List Line} [] default_config w)
  unfolding create_client
  create_client-Owned hs w q =
      >>=-Ensures (Newest hs) (Owned hs) (λ u. live u ≡ hs) (open_host e none default_config) _ w
        (open_host-Newest none hs w q)
        (λ native v l. owner client_create_failed false hs native v l)
