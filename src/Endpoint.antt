-- ===== src/Endpoint.antt =====
-- struct Endpoint (include/icelander.hpp, src/endpoint.cpp): between host names and ENet addresses.
use icelander.Prelude.{
  ℕ, ◌≡◌, ◌≢◌, refl, List, [], ◌∷◌, ◌++◌, true, not, ◌==◌, if◌then◌else◌, is_zero, done, thrown,
  Exec, ◌>>=◌, hostname_unresolved, hostname_unknown, All, arith, ℤ,
}
use icelander.Types.{Endpoint}
use icelander.Enet.{Enet, Address}

-- The characters of a C string: those before the first zero.
unfoldable pub c_string : List ℕ → List ℕ
c_string [] = []
c_string (c ∷ cs) = let rest = c_string cs in if c == 0 then [] else c ∷ rest

module _ (e : Enet) where
  unfoldable pub to_enet_address : Endpoint → Exec e.World Address
  unfolding c_string
  to_enet_address p w =
      let (result, host, w') = e.address_set_host (c_string p.host) w in
      if not (is_zero result)
      then thrown hostname_unresolved w'
      else done (record { host = host; port = p.port }) w'

  -- `char hostname[256]`
  unfoldable pub from_enet_address : Address → Exec e.World Endpoint
  unfolding c_string
  from_enet_address a w =
      let (result, hostname, w') = e.address_get_host a 256 w in
      if not (is_zero result)
      then thrown hostname_unknown w'
      else done (record { host = c_string hostname; port = a.port }) w'

c_string-append :
    (name junk : List ℕ) → All (λ c. c ≢ 0) name → c_string (name ++ (0 ∷ junk)) ≡ name
unfolding c_string
c_string-append [] junk h = refl
c_string-append (c ∷ cs) junk h = ground (arith, c_string-append cs junk h.1)

c_string_clean : (name : List ℕ) → All (λ c. c ≢ 0) name → c_string name ≡ name
unfolding c_string
c_string_clean [] h = refl
c_string_clean (c ∷ cs) h = ground (arith, c_string_clean cs h.1)

to_enet_address_resolved :
    (e : Enet) (p : Endpoint) (w w' : e.World) (r : ℤ) (host : ℕ)
    → All (λ c. c ≢ 0) p.host
    → e.address_set_host p.host w ≡ (r, host, w')
    → is_zero r ≡ true
    → to_enet_address e p w ≡ done (record { host = host; port = p.port }) w'
unfolding to_enet_address
to_enet_address_resolved e p w w' r host clean set ok =
    rw (c_string_clean p.host clean, set, to_enet_address) (rw ok)

from_enet_address_known :
    (e : Enet) (a : Address) (name junk : List ℕ) (w w' : e.World) (s : ℤ)
    → All (λ c. c ≢ 0) name
    → e.address_get_host a 256 w ≡ (s, name ++ (0 ∷ junk), w')
    → is_zero s ≡ true
    → from_enet_address e a w ≡ done (record { host = name; port = a.port }) w'
unfolding from_enet_address
from_enet_address_known e a name junk w w' s clean get good =
    rw (get, from_enet_address) (rw (good, c_string-append name junk clean))

-- An endpoint whose name has no zero byte comes back from its address, if ENet resolves the name
-- and looks the address up to the same name.
pub from_enet_address-to_enet_address :
    (e : Enet) (p : Endpoint) (junk : List ℕ) (w w' w'' : e.World) (r s : ℤ) (host : ℕ)
    → All (λ c. c ≢ 0) p.host
    → e.address_set_host p.host w ≡ (r, host, w')
    → is_zero r ≡ true
    → e.address_get_host (record { host = host; port = p.port }) 256 w'
      ≡ (s, p.host ++ (0 ∷ junk), w'')
    → is_zero s ≡ true
    → (to_enet_address e p >>= from_enet_address e) w ≡ done p w''
from_enet_address-to_enet_address e p junk w w' w'' r s host clean set ok get good =
    rw (to_enet_address_resolved e p w w' r host clean set ok, ◌>>=◌)
      (from_enet_address_known e _ p.host junk w' w'' s clean get good)
