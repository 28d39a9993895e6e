-- ===== src/Reader/Bounds.antt =====
-- The position of a reader, what a read returns, and which calls run past the span.
use icelander.Prelude.{
  ℕ, ◌+◌, ◌-◌, ◌^◌, ◌≤◌, ◌<◌, ◌≡◌, refl, List, [], ◌∷◌, Option, none, some, length, take, drop, leb,
  if◌then◌else◌, size_mod, done, fault, Exec, ◌>>=◌, pure, Leaves, arith, All, min, true, ◌↔◌,
  after, after-Leaves, Bool-cases, ◌⊎◌, inl, inr, ◌∙◌, zero, suc, get_elem?,
}
use icelander.Bytes.{Platform}
use icelander.Reader.{
  PacketReader, new, read_memory, read_uint8, read_uint16, read_uint32, read_uint64, read_string,
  seek, skip, reset, remaining, position, size, at_end,
}

-- The position lies in the span or at its end, and the span is an object of C++: it is shorter
-- than 2 ^ 63 bytes.
pub record IsReader (r : PacketReader) : Type 0 where
  pub within : r.position_at ≤ length r.data_span
  pub small : length r.data_span < 2 ^ 63

pub new-IsReader : (bs : List ℕ) → length bs < 2 ^ 63 → IsReader (new bs)
unfolding new
new-IsReader bs h = omega arith

-- A read whose end does not wrap copies the next bytes and moves past them if they are there; else
-- it answers false and leaves the reader as it was.
pub read_memory_lem :
    (n : ℕ) (r : PacketReader)
    → IsReader r
    → r.position_at + n < size_mod
    → read_memory n r ≡ (
        if leb n (length r.data_span - r.position_at)
        then done
            (some (take n (drop r.position_at r.data_span)))
            (record r { position_at = r.position_at + n })
        else done none r)
unfolding read_memory
read_memory_lem n r v h = ground arith

-- The two results of a read that does not wrap.
pub read_memory_cases :
    (n : ℕ) (r : PacketReader)
    → n < 2 ^ 63
    → IsReader r
    → (read_memory n r ≡ done none r)
      ⊎ ((r.position_at + n ≤ length r.data_span)
          × (read_memory n r
              ≡ done
                  (some (take n (drop r.position_at r.data_span)))
                  (record r { position_at = r.position_at + n })))
read_memory_cases n r h v = elim (Bool-cases (leb n (length r.data_span - r.position_at))) [
  | inl e ↦ inr (ground arith, read_memory_lem n r v (omega arith) ∙ rw e)
  | inr e ↦ inl (read_memory_lem n r v (omega arith) ∙ rw e)
]

-- A read whose end wraps passes the check, and reads outside the span.
pub read_memory_wraps :
    (n : ℕ) (r : PacketReader)
    → IsReader r
    → n < size_mod
    → size_mod ≤ r.position_at + n
    → read_memory n r ≡ fault
unfolding read_memory
read_memory_wraps n r v h w = ground arith

get_elem?-some : (bs : List ℕ) (i : ℕ) → i < length bs → (b : ℕ) × (get_elem? bs i ≡ some b)
get_elem?-some [] i h = absurd (omega arith)
get_elem?-some (b ∷ bs) zero h = (b, refl)
get_elem?-some (b ∷ bs) (suc i) h = get_elem?-some bs i (omega arith)

-- The calls of a reader. `memory n` stands for `read(void*, n)` and for `read<T>()` of a type of
-- `n` bytes.
pub data Call : Type 0 where
  memory : ℕ → Call
  uint8 uint16 uint32 uint64 : Call
  string : ℕ → Call
  seek_to skip_by : ℕ → Call
  to_start : Call

pub perform : ⦃m : Platform⦄ → Call → Exec PacketReader (Unit {0})
perform (memory n) = do _ ← read_memory n; pure tt
perform uint8 = do _ ← read_uint8; pure tt
perform uint16 = do _ ← read_uint16; pure tt
perform uint32 = do _ ← read_uint32; pure tt
perform uint64 = do _ ← read_uint64; pure tt
perform (string n) = do _ ← read_string n; pure tt
perform (seek_to p) = λ r. done tt (seek p r)
perform (skip_by n) = λ r. done tt (skip n r)
perform to_start = λ r. done tt (reset r)

-- A caller that catches every exception. `none` is undefined behaviour.
pub run : ⦃m : Platform⦄ → List Call → PacketReader → Option PacketReader
run [] r = some r
run (c ∷ cs) r = elim (after (perform c r)) [ none ↦ none | some r' ↦ run cs r' ]

-- No C++ object has 2 ^ 63 bytes; the argument of a string is not restricted.
abbrev pub Allowed : Call → Type 0
Allowed (memory n) = n < 2 ^ 63
Allowed _ = Unit {0}

pub record Keeps (r r' : PacketReader) : Type 0 where
  pub valid : IsReader r'
  pub same_span : r'.data_span ≡ r.data_span

pub read_memory-Keeps :
    (n : ℕ) (r : PacketReader) → n < 2 ^ 63 → IsReader r → Leaves (Keeps r) (read_memory n r)
unfolding read_memory
read_memory-Keeps n r h v = ground arith

pub read_uint8-Keeps : (r : PacketReader) → IsReader r → Leaves (Keeps r) (read_uint8 r)
unfolding read_uint8
read_uint8-Keeps r v = ground (arith, get_elem?-some r.data_span r.position_at)

module _ ⦃m : Platform⦄ (limit : m.string_max < 2 ^ 63) where
  pub read_string-Keeps :
      (n : ℕ) (r : PacketReader) → IsReader r → Leaves (Keeps r) (read_string n r)
  unfolding read_string
  read_string-Keeps n r v = ground arith

  perform-Keeps :
      (c : Call) (r : PacketReader) → Allowed c → IsReader r → Leaves (Keeps r) (perform c r)
  unfolding perform read_uint16 read_uint32 read_uint64 seek skip reset
  perform-Keeps (memory n) r h v = ground (arith, read_memory-Keeps n r)
  perform-Keeps uint8 r h v = ground (arith, read_uint8-Keeps r)
  perform-Keeps uint16 r h v = ground (arith, read_memory-Keeps 2 r)
  perform-Keeps uint32 r h v = ground (arith, read_memory-Keeps 4 r)
  perform-Keeps uint64 r h v = ground (arith, read_memory-Keeps 8 r)
  perform-Keeps (string n) r h v = ground (arith, read_string-Keeps n r)
  perform-Keeps (seek_to p) r h v = ground arith
  perform-Keeps (skip_by n) r h v = ground arith
  perform-Keeps to_start r h v = ground arith

  -- A sequence of calls, each asking for fewer than 2 ^ 63 bytes and with its exceptions caught, never
  -- faults, and leaves the position in the span. No string of the platform is that long.
  pub run-Keeps :
      (cs : List Call) (r : PacketReader)
      → IsReader r
      → All Allowed cs
      → (r' : PacketReader) × (run cs r ≡ some r') × Keeps r r'
  unfolding run
  run-Keeps [] r v h = (r, refl, record { valid = v; same_span = refl })
  run-Keeps (c ∷ cs) r v h =
      let (r', e, k) = after-Leaves (Keeps r) (perform c r) (perform-Keeps c r h.0 v) in
      let (r'', e', k') = run-Keeps cs r' k.valid h.1 in
      (r'', rw (e, run) e', record { valid = k'.valid; same_span = k'.same_span ∙ k.same_span })

-- `skip` with no wrap stops at the end of the span; a sum past 2 ^ 64 takes the position back.
pub skip_lem :
    (n : ℕ) (r : PacketReader)
    → IsReader r
    → n < size_mod
    → (r.position_at + n < size_mod
        → (skip n r).position_at ≡ min (r.position_at + n) (length r.data_span))
      × (size_mod ≤ r.position_at + n → (skip n r).position_at < r.position_at)
unfolding skip
skip_lem n r v h = (λ p. ground arith, λ p. ground arith)

-- For a reader in its span the position and the bytes not yet read make up the size, and `atEnd`
-- says whether none are left.
pub remaining_lem :
    (r : PacketReader)
    → IsReader r
    → (position r + remaining r ≡ size r) × ((at_end r ≡ true) ↔ (remaining r ≡ 0))
unfolding remaining position size at_end
remaining_lem r v = (ground arith, (λ e. ground arith, λ e. ground arith))
