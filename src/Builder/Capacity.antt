-- ===== src/Builder/Capacity.antt =====
-- The vector of a builder: its bytes stay within its capacity, the write calls only append, and a
-- reservation keeps the buffer where it is.
use icelander.Prelude.{
  ℕ, ◌+◌, ◌≤◌, ◌≡◌, refl, sym, ap, ◌∙◌, List, [], ◌∷◌, ◌++◌, length, length-append, All, arith,
}
use mathlib.Core.List.{append_assoc, append-nil}
use icelander.Bytes.{Platform, repr, length-repr}
use icelander.Builder.{
  PacketBuilder, insert_end, reserve, write_span, write_text, write_memory, write_uint8,
  write_uint16, write_uint32, write_uint64, write_string, clear, size, capacity,
}

-- The calls that change a builder. `memory bs` stands for `write(const void*, size_t)` and for the
-- template `write<T>` of a value with those bytes.
pub data Call : Type 0 where
  span text memory string : List ℕ → Call
  uint8 uint16 uint32 uint64 : ℕ → Call
  reserves : ℕ → Call
  clears : Call

module _ ⦃m : Platform⦄ where
  pub perform : Call → PacketBuilder → PacketBuilder
  perform (span bs) b = write_span bs b
  perform (text s) b = write_text s b
  perform (memory bs) b = write_memory bs b
  perform (string s) b = write_string s b
  perform (uint8 v) b = write_uint8 v b
  perform (uint16 v) b = write_uint16 v b
  perform (uint32 v) b = write_uint32 v b
  perform (uint64 v) b = write_uint64 v b
  perform (reserves n) b = reserve n b
  perform clears b = clear b

  pub run : List Call → PacketBuilder → PacketBuilder
  unfolding perform
  run [] b = b
  run (c ∷ cs) b = run cs (perform c b)

-- The bytes that a call appends.
abbrev pub cost : Call → ℕ
cost (span bs) = length bs
cost (text s) = length s
cost (memory bs) = length bs
cost (string s) = 4 + length s
cost (uint8 v) = 1
cost (uint16 v) = 2
cost (uint32 v) = 4
cost (uint64 v) = 8
cost (reserves n) = 0
cost clears = 0

abbrev pub total : List Call → ℕ
total [] = 0
total (c ∷ cs) = cost c + total cs

abbrev pub IsWrite : Call → Type 0
IsWrite (reserves n) = ⊥
IsWrite clears = ⊥
IsWrite _ = Unit {0}

module _ ⦃m : Platform⦄ where
  insert_end-fits :
      (bs : List ℕ) (b : PacketBuilder) → size (insert_end bs b) ≤ capacity (insert_end bs b)
  unfolding insert_end size capacity
  insert_end-fits bs b = ground (
    arith,
    length-append b.buffer bs,
    m.grow_fits b.buffer_capacity (length b.buffer + length bs),
  )

  perform-fits :
      (c : Call) (b : PacketBuilder)
      → size b ≤ capacity b
      → size (perform c b) ≤ capacity (perform c b)
  unfolding perform write_span write_text write_memory write_string write_uint8 write_uint16
      write_uint32 write_uint64 reserve clear size capacity
  perform-fits (span bs) b h = unfold size capacity in insert_end-fits bs b
  perform-fits (text bs) b h = insert_end-fits bs b
  perform-fits (memory bs) b h = insert_end-fits bs b
  perform-fits (string s) b h = insert_end-fits s _
  perform-fits (uint8 v) b h = insert_end-fits (v ∷ []) b
  perform-fits (uint16 v) b h = insert_end-fits (repr m.endian 2 v) b
  perform-fits (uint32 v) b h = insert_end-fits (repr m.endian 4 v) b
  perform-fits (uint64 v) b h = insert_end-fits (repr m.endian 8 v) b
  perform-fits (reserves n) b h = ground (arith, m.reserved_fits b.buffer_capacity n)
  perform-fits clears b h = omega arith

  -- No sequence of calls leaves a vector with more bytes than its capacity.
  pub run-fits :
      (cs : List Call) (b : PacketBuilder)
      → size b ≤ capacity b
      → size (run cs b) ≤ capacity (run cs b)
  unfolding run
  run-fits [] b h = h
  run-fits (c ∷ cs) b h = run-fits cs (perform c b) (perform-fits c b h)

  -- One insertion: what it appends, and that a buffer with room stays where it is.
  record Appends (n : ℕ) (b b' : PacketBuilder) : Type 0 where
    bytes : List ℕ
    appended : b'.buffer ≡ b.buffer ++ bytes
    counted : length bytes ≡ n
    stays : length b.buffer + n ≤ b.buffer_capacity → b'.buffer_capacity ≡ b.buffer_capacity

  insert_end-Appends :
      (n : ℕ) (bs : List ℕ) (b : PacketBuilder) → length bs ≡ n → Appends n b (insert_end bs b)
  unfolding insert_end
  insert_end-Appends n bs b e = record {
    bytes = bs;
    appended = refl;
    counted = e;
    stays = λ h. ground arith;
  }

  Appends-trans :
      {i j : ℕ} {a b c : PacketBuilder} → Appends i a b → Appends j b c → Appends (i + j) a c
  Appends-trans {a} {b} h k = record {
    bytes = h.bytes ++ k.bytes;
    appended = k.appended ∙ rw h.appended (append_assoc a.buffer h.bytes k.bytes);
    counted = omega (arith, length-append h.bytes k.bytes, h.counted, k.counted);
    stays = λ room.
        k.stays (
          omega (
            arith,
            h.stays (omega arith),
            ap length h.appended,
            length-append a.buffer h.bytes,
            h.counted,
          ))
        ∙ h.stays (omega arith);
  }

  perform-Appends : (c : Call) (b : PacketBuilder) → IsWrite c → Appends (cost c) b (perform c b)
  unfolding perform write_span write_text write_memory write_string write_uint8 write_uint16
      write_uint32 write_uint64
  perform-Appends (span bs) b h = insert_end-Appends _ bs b refl
  perform-Appends (text bs) b h = insert_end-Appends _ bs b refl
  perform-Appends (memory bs) b h = insert_end-Appends _ bs b refl
  perform-Appends (string s) b h =
      Appends-trans (insert_end-Appends 4 _ b (length-repr m.endian 4 _))
        (insert_end-Appends _ s _ refl)
  perform-Appends (uint8 v) b h = insert_end-Appends 1 (v ∷ []) b refl
  perform-Appends (uint16 v) b h = insert_end-Appends 2 _ b (length-repr m.endian 2 v)
  perform-Appends (uint32 v) b h = insert_end-Appends 4 _ b (length-repr m.endian 4 v)
  perform-Appends (uint64 v) b h = insert_end-Appends 8 _ b (length-repr m.endian 8 v)
  perform-Appends (reserves n) b h = absurd h
  perform-Appends clears b h = absurd h

  run-Appends :
      (cs : List Call) (b : PacketBuilder) → All IsWrite cs → Appends (total cs) b (run cs b)
  unfolding run
  run-Appends [] b h = record {
    bytes = [];
    appended = sym (append-nil b.buffer);
    counted = refl;
    stays = λ _. refl;
  }
  run-Appends (c ∷ cs) b h =
      Appends-trans (perform-Appends c b h.0) (run-Appends cs (perform c b) h.1)

  -- After `reserve`, write calls within the reservation append exactly their bytes to the old ones,
  -- and do not move the buffer.
  pub reserve-run :
      (n : ℕ) (cs : List Call) (b : PacketBuilder)
      → All IsWrite cs
      → size b + total cs ≤ n
      → (bs : List ℕ) × ((run cs (reserve n b)).buffer ≡ b.buffer ++ bs)
        × (length bs ≡ total cs)
        × (capacity (run cs (reserve n b)) ≡ capacity (reserve n b))
  unfolding reserve size capacity
  reserve-run n cs b h room = (
    appends.bytes,
    appends.appended,
    appends.counted,
    appends.stays (ground (arith, m.reserved_fits b.buffer_capacity n)),
  )
    where
      appends : Appends (total cs) (reserve n b) (run cs (reserve n b))
      appends = run-Appends cs (reserve n b) h
