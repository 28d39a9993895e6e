-- ===== src/Message/RoundTrip.antt =====
-- What a builder writes a reader reads back, to the last byte.
use icelander.Prelude.{
  ℕ, ◌%◌, ◌^◌, ◌≤◌, ◌<◌, ◌≡◌, refl, sym, ◌∙◌, List, [], ◌∷◌, ◌++◌, map, length, length-append,
  drop-length-append, take-length-append, All, some, done, ◌>>=◌, true, arith, get_elem?,
}
use mathlib.Core.List.{append_assoc, append-nil}
use icelander.Bytes.{Platform, repr, length-repr, from_repr-repr, Serializable}
use icelander.Builder
use icelander.Builder.{PacketBuilder, insert_end}
use icelander.Reader
use icelander.Reader.{PacketReader, slice, read_memory}
use icelander.Message.{
  Field, uint8, uint16, uint32, uint64, string, shape, IsField, write_field, write_fields,
  read_field, read_fields, encode, encode_all,
}

module _ ⦃m : Platform⦄ where
  -- A write appends the bytes of the field.
  buffer-write_field :
      (f : Field) (b : PacketBuilder)
      → IsField f
      → (write_field f b).buffer ≡ b.buffer ++ encode m.endian f
  unfolding write_field Builder.write_uint8 Builder.write_uint16 Builder.write_uint32
      Builder.write_uint64 Builder.write_string insert_end
  buffer-write_field (uint8 v) b h = refl
  buffer-write_field (uint16 v) b h = refl
  buffer-write_field (uint32 v) b h = refl
  buffer-write_field (uint64 v) b h = refl
  buffer-write_field (string s) b h =
      let e : length s % 2 ^ 32 ≡ length s = omega arith in
      rw e (append_assoc b.buffer (repr m.endian 4 (length s)) s)

  pub buffer-write_fields :
      (fs : List Field) (b : PacketBuilder)
      → All IsField fs
      → (write_fields fs b).buffer ≡ b.buffer ++ encode_all m.endian fs
  unfolding write_fields
  buffer-write_fields [] b h = sym (append-nil b.buffer)
  buffer-write_fields (f ∷ fs) b h =
      buffer-write_fields fs (write_field f b) h.1
      ∙ rw (buffer-write_field f b h.0)
          (append_assoc b.buffer (encode m.endian f) (encode_all m.endian fs))

-- A reader that has read `pre` and has `post` before it.
abbrev pub between : List ℕ → List ℕ → PacketReader
between pre post = record { data_span = pre ++ post; position_at = length pre }

slice-append :
    (pre bs post : List ℕ) → slice (pre ++ (bs ++ post)) (length pre) (length bs) ≡ some bs
unfolding slice
slice-append pre bs post = ground (
  arith,
  length-append pre (bs ++ post),
  length-append bs post,
  drop-length-append pre (bs ++ post),
  take-length-append bs post,
)

read_memory-between :
    (n : ℕ) (pre bs post : List ℕ)
    → length bs ≡ n
    → length (pre ++ (bs ++ post)) < 2 ^ 63
    → read_memory n (between pre (bs ++ post)) ≡ done (some bs) (between (pre ++ bs) post)
read_memory-between n pre bs post e h = rw (← e) (
    unfold read_memory in
    ground (
      arith,
      slice-append pre bs post,
      length-append pre (bs ++ post),
      length-append bs post,
      length-append pre bs,
      append_assoc pre bs post,
    ))

-- The template pair `write<T>`, `read<T>`: any trivially copyable type comes back.
pub read-write :
    ⦃m : Platform⦄ {T : Type 0} (t : Serializable T) (v : T) (b : PacketBuilder) (post : List ℕ)
    → length (Builder.span (Builder.write t v b) ++ post) < 2 ^ 63
    → Reader.read t (between (Builder.span b) (t.to_memory v ++ post))
      ≡ done v (between (Builder.span (Builder.write t v b)) post)
unfolding Reader.read Builder.write Builder.span insert_end
read-write t v b post h =
    rw
      (
        read_memory-between t.sizeof b.buffer (t.to_memory v) post (t.length-to_memory v)
            (rw append_assoc at h),
        ◌>>=◌,
      )
      (rw (t.from_memory-to_memory v))

get_elem?-between :
    (v : ℕ) (pre post : List ℕ) → get_elem? (pre ++ (v ∷ post)) (length pre) ≡ some v
get_elem?-between v [] post = refl
get_elem?-between v (x ∷ pre) post = get_elem?-between v pre post

module _ ⦃m : Platform⦄ where
  -- An integer of `k` bytes.
  read_repr :
      (k v : ℕ) (pre post : List ℕ)
      → length (pre ++ (repr m.endian k v ++ post)) < 2 ^ 63
      → read_memory k (between pre (repr m.endian k v ++ post))
        ≡ done (some (repr m.endian k v)) (between (pre ++ repr m.endian k v) post)
  read_repr k v pre post h =
      read_memory-between k pre (repr m.endian k v) post (length-repr m.endian k v) h

  read_uint8-between :
      (v : ℕ) (pre post : List ℕ)
      → length (pre ++ (v ∷ post)) < 2 ^ 63
      → Reader.read_uint8 (between pre (v ∷ post)) ≡ done v (between (pre ++ v ∷ []) post)
  unfolding Reader.read_uint8
  read_uint8-between v pre post h = ground (
    arith,
    get_elem?-between v pre post,
    length-append pre (v ∷ post),
    length-append pre (v ∷ []),
    append_assoc pre (v ∷ []) post,
  )

  read_uint16-between :
      (v : ℕ) (pre post : List ℕ)
      → v < 2 ^ 16
      → length (pre ++ (repr m.endian 2 v ++ post)) < 2 ^ 63
      → Reader.read_uint16 (between pre (repr m.endian 2 v ++ post))
        ≡ done v (between (pre ++ repr m.endian 2 v) post)
  unfolding Reader.read_uint16
  read_uint16-between v pre post h fits =
      rw (read_repr 2 v pre post fits, ◌>>=◌) (rw (from_repr-repr m.endian 2 v h))

  pub read_uint32-between :
      (v : ℕ) (pre post : List ℕ)
      → v < 2 ^ 32
      → length (pre ++ (repr m.endian 4 v ++ post)) < 2 ^ 63
      → Reader.read_uint32 (between pre (repr m.endian 4 v ++ post))
        ≡ done v (between (pre ++ repr m.endian 4 v) post)
  unfolding Reader.read_uint32
  read_uint32-between v pre post h fits =
      rw (read_repr 4 v pre post fits, ◌>>=◌) (rw (from_repr-repr m.endian 4 v h))

  pub read_uint64-between :
      (v : ℕ) (pre post : List ℕ)
      → v < 2 ^ 64
      → length (pre ++ (repr m.endian 8 v ++ post)) < 2 ^ 63
      → Reader.read_uint64 (between pre (repr m.endian 8 v ++ post))
        ≡ done v (between (pre ++ repr m.endian 8 v) post)
  unfolding Reader.read_uint64
  read_uint64-between v pre post h fits =
      rw (read_repr 8 v pre post fits, ◌>>=◌) (rw (from_repr-repr m.endian 8 v h))

  pub read_string-between :
      (s pre post : List ℕ)
      → length s ≤ m.string_max
      → length (pre ++ (s ++ post)) < 2 ^ 63
      → Reader.read_string (length s) (between pre (s ++ post)) ≡ done s (between (pre ++ s) post)
  unfolding Reader.read_string
  read_string-between s pre post h fits = ground (
    arith,
    slice-append pre s post,
    length-append pre (s ++ post),
    length-append s post,
    length-append pre s,
    append_assoc pre s post,
  )

  read_field-between :
      (f : Field) (pre post : List ℕ)
      → 2 ^ 32 ≤ m.string_max
      → IsField f
      → length (pre ++ (encode m.endian f ++ post)) < 2 ^ 63
      → read_field (shape f) (between pre (encode m.endian f ++ post))
        ≡ done f (between (pre ++ encode m.endian f) post)
  unfolding read_field
  read_field-between (uint8 v) pre post big h fits = rw (read_uint8-between v pre post fits, ◌>>=◌)
  read_field-between (uint16 v) pre post big h fits =
      rw (read_uint16-between v pre post h fits, ◌>>=◌)
  read_field-between (uint32 v) pre post big h fits =
      rw (read_uint32-between v pre post h fits, ◌>>=◌)
  read_field-between (uint64 v) pre post big h fits =
      rw (read_uint64-between v pre post h fits, ◌>>=◌)
  read_field-between (string s) pre post big h fits =
      rw (append_assoc prefix s post, read_uint32-between (length s) pre (s ++ post) h here, ◌>>=◌)
        (rw
          (
            read_string-between s (pre ++ prefix) post (omega arith)
                (rw (append_assoc pre prefix (s ++ post)) here),
            ◌>>=◌,
          )
          (rw (append_assoc pre prefix s)))
    where
      prefix : List ℕ
      prefix = repr m.endian 4 (length s)

      here : length (pre ++ (prefix ++ (s ++ post))) < 2 ^ 63
      here = rw (append_assoc prefix s post) at fits

  pub read_fields-between :
      (fs : List Field) (pre post : List ℕ)
      → 2 ^ 32 ≤ m.string_max
      → All IsField fs
      → length (pre ++ (encode_all m.endian fs ++ post)) < 2 ^ 63
      → read_fields (map shape fs) (between pre (encode_all m.endian fs ++ post))
        ≡ done fs (between (pre ++ encode_all m.endian fs) post)
  unfolding read_fields
  read_fields-between [] pre post big h fits = rw (append-nil pre) refl
  read_fields-between (f ∷ fs) pre post big h fits =
      rw
        (
          append_assoc (encode m.endian f) (encode_all m.endian fs) post,
          read_field-between f pre (encode_all m.endian fs ++ post) big h.0 here,
          ◌>>=◌,
        )
        (rw
          (
            read_fields-between fs (pre ++ encode m.endian f) post big h.1
                (rw (append_assoc pre first rest) here),
            ◌>>=◌,
          )
          (rw (append_assoc pre first (encode_all m.endian fs))))
    where
      first : List ℕ
      first = encode m.endian f

      rest : List ℕ
      rest = encode_all m.endian fs ++ post

      here : length (pre ++ (first ++ rest)) < 2 ^ 63
      here = rw (append_assoc first (encode_all m.endian fs) post) at fits

  -- A message that a builder wrote is read back field by field, and nothing is left, if its
  -- values are in range, it is shorter than 2 ^ 63 bytes, and strings may have 2 ^ 32.
  pub read_fields-write_fields :
      (fs : List Field)
      → 2 ^ 32 ≤ m.string_max
      → All IsField fs
      → length (Builder.span (write_fields fs Builder.new)) < 2 ^ 63
      → (r : PacketReader) × (read_fields
            (map shape fs)
            (Reader.new (Builder.span (write_fields fs Builder.new)))
          ≡ done fs r)
        × (Reader.at_end r ≡ true)
        × (Reader.remaining r ≡ 0)
  unfolding Builder.span Builder.new Reader.new Reader.at_end Reader.remaining
  read_fields-write_fields fs big h fits =
      let e = buffer-write_fields fs Builder.new h in
      (
        record {
          data_span = encode_all m.endian fs;
          position_at = length (encode_all m.endian fs);
        },
        rw e (
            rw (append-nil (encode_all m.endian fs)) at (
              read_fields-between fs [] [] big h
                (rw (append-nil (encode_all m.endian fs)) (rw e at fits)))),
        ground arith,
        ground arith,
      )
