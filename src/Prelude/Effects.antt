-- ===== src/Prelude/Effects.antt =====
-- Code that reads and writes a state `W` and may throw: the exceptions of the library, one for each
-- `throw` of packet.cpp, endpoint.cpp, host.cpp, peer.cpp and icelander.hpp, and undefined behaviour.
use mathlib.Core.Path.{◌≡◌, refl}
use mathlib.Core.Option.{Option, none, some}

pub data Error : Type 0 where
  packet_create_failed : Error  -- "Failed to create ENet packet"
  resize_null_packet : Error  -- "Cannot resize null packet"
  resize_failed : Error  -- "Failed to resize packet"
  packet_too_small : Error  -- "Packet too small for requested type"
  no_data_for_type : Error  -- "Not enough data to read requested type"
  no_data_for_uint8 no_data_for_uint16 no_data_for_uint32 no_data_for_uint64 : Error
  no_data_for_string : Error
  string_length_error : Error  -- std::length_error of the string's constructor
  hostname_unresolved : Error  -- "Failed to resolve hostname: ..."
  hostname_unknown : Error  -- "Failed to get hostname from address"
  server_create_failed client_create_failed : Error
  invalid_host : Error
  connect_failed : Error  -- "Failed to initiate connection"
  not_established : Error  -- "Failed to establish connection for benchmark"
  handler_error : Error  -- an exception that a user's handler throws

-- `fault` stands for undefined behaviour: a read past a buffer, a use of a dead pointer.
pub data Outcome (W A : Type 0) : Type 0 where
  done : A → W → Outcome W A
  thrown : Error → W → Outcome W A
  fault : Outcome W A

abbrev pub Exec : Type 0 → Type 0 → Type 0
Exec W A = W → Outcome W A

infixl 5 ◌>>=◌ ◌>>◌
abbrev pub ◌>>=◌ : {W A B : Type 0} → Exec W A → (A → Exec W B) → Exec W B
◌>>=◌ m f w = elim (m w) [ done a w' ↦ f a w' | thrown e w' ↦ thrown e w' | fault ↦ fault ]

abbrev pub ◌>>◌ : {W B : Type 0} → Exec W (Unit {0}) → Exec W B → Exec W B
m >> k = m >>= λ _. k

abbrev pub throw : {W A : Type 0} → Error → Exec W A
throw e w = thrown e w

abbrev pub pure : {W A : Type 0} → A → Exec W A
pure a w = done a w

-- A null pointer or a failed call is an `Option`: throw on it.
abbrev pub or_throw : {W A : Type 0} → Error → Option A → Exec W A
or_throw e none w = thrown e w
or_throw e (some a) w = done a w

-- Undefined behaviour where a pointer has no target.
abbrev pub or_fault : {W A : Type 0} → Option A → Exec W A
or_fault none w = fault
or_fault (some a) w = done a w

-- The state that a call leaves behind, by a return or by an exception that the caller catches.
abbrev pub after : {W A : Type 0} → Outcome W A → Option W
after (done a w) = some w
after (thrown e w) = some w
after fault = none

-- No fault, and the state that is left meets `P`.
abbrev pub Leaves : {W A : Type 0} → (W → Type 0) → Outcome W A → Type 0
Leaves P (done a w) = P w
Leaves P (thrown e w) = P w
Leaves P fault = ⊥

pub after-Leaves :
    {W A : Type 0} (P : W → Type 0) (o : Outcome W A)
    → Leaves P o
    → (w : W) × (after o ≡ some w) × P w
after-Leaves P (done a w) h = (w, refl, h)
after-Leaves P (thrown e w) h = (w, refl, h)
after-Leaves P fault h = absurd h

pub Leaves-mono :
    {W A : Type 0} (P Q : W → Type 0) (o : Outcome W A)
    → Leaves P o
    → ((w : W) → P w → Q w)
    → Leaves Q o
Leaves-mono P Q (done a w) h k = k w h
Leaves-mono P Q (thrown e w) h k = k w h
Leaves-mono P Q fault h k = h

-- A chain leaves `Q` if its first step leaves `P`, an exception at `P` meets `Q`, and so does what
-- follows.
pub >>=-Leaves :
    {W A B : Type 0} (m : Exec W A) (f : A → Exec W B) (w : W) (P Q : W → Type 0)
    → Leaves P (m w)
    → ((w' : W) → P w' → Q w')
    → ((a : A) (w' : W) → P w' → Leaves Q (f a w'))
    → Leaves Q ((m >>= f) w)
>>=-Leaves {W} {A} m f w P Q h e k = go (m w) h
  where
    go :
        (o : Outcome W A)
        → Leaves P o
        → Leaves Q (elim o [ done a w' ↦ f a w' | thrown x w' ↦ thrown x w' | fault ↦ fault ])
    go (done a w') p = k a w' p
    go (thrown x w') p = e w' p
    go fault p = absurd p

pub >>_assoc :
    {W B : Type 0} (m k : Exec W (Unit {0})) (l : Exec W B) (w : W)
    → (m >> (k >> l)) w ≡ ((m >> k) >> l) w
>>_assoc {W} {B} m k l w = go (m w)
  where
    go :
        (o : Outcome W (Unit {0}))
        → elim o as (λ _. Outcome W B) [
          | done _ w' ↦ (k >> l) w'
          | thrown e w' ↦ thrown e w'
          | fault ↦ fault
        ]
          ≡ elim (elim o as (λ _. Outcome W (Unit {0})) [
            | done _ w' ↦ k w'
            | thrown e w' ↦ thrown e w'
            | fault ↦ fault
          ])
              as (λ _. Outcome W B) [ done _ w' ↦ l w' | thrown e w' ↦ thrown e w' | fault ↦ fault ]
    go (done a w') = refl
    go (thrown e w') = refl
    go fault = refl
