-- ===== src/Apps/Chat/Wire.antt =====
-- What one side of the chat builds the other side reads as what it means.
pub mod Requests
pub mod Notices
use icelander.Prelude.{
  ℕ, ◌+◌, ◌*◌, ◌%◌, ◌^◌, ◌≤◌, ◌<◌, ◌≡◌, refl, List, [], ◌∷◌, ◌++◌, length, length-append, All, done,
  Exec, ◌>>=◌, arith,
}
use mathlib.Core.List.{append_assoc}
use icelander.Bytes.{Platform, repr, length-repr}
use icelander.Builder
use icelander.Builder.{PacketBuilder}
use icelander.Reader
use icelander.Reader.{PacketReader}
use icelander.Host.Peers.{same_text}
use icelander.Message.{
  Field, uint8, uint16, uint32, uint64, string, IsField, write_field, write_fields, encode,
  encode_all,
}
use icelander.Message.RoundTrip.{
  between, buffer-write_fields, read_uint32-between, read_uint64-between, read_string-between,
}
use icelander.Apps.Chat.{
  chat, ping, welcome, chat_from, pong, joined, left, welcome_text, chat_text, broadcast_chat_text,
  ping_text, pong_text, joined_text, left_text, build_welcome, build_broadcast, build_pong,
  build_ping, build_chat, build_text, read_text, read_request, read_notice,
}

-- A reader on what `b` has built reads `x`.
abbrev pub Reads : {A : Type 0} → Exec PacketReader A → PacketBuilder → A → Type 0
Reads p b x = (r : PacketReader) × (p (Reader.new (Builder.span b)) ≡ done x r)

module _ ⦃m : Platform⦄ where
  built :
      (fs : List Field)
      → All IsField fs
      → Reader.new (Builder.span (write_fields fs Builder.new))
        ≡ between [] (encode_all m.endian fs)
  unfolding Reader.new Builder.span Builder.new
  built fs h = rw (buffer-write_fields fs Builder.new h) refl

  length-encode : (f : Field) → IsField f → length (encode m.endian f) ≤ 2 ^ 32 + 3
  length-encode (uint8 v) h = omega arith
  length-encode (uint16 v) h = omega (arith, length-repr m.endian 2 v)
  length-encode (uint32 v) h = omega (arith, length-repr m.endian 4 v)
  length-encode (uint64 v) h = omega (arith, length-repr m.endian 8 v)
  length-encode (string s) h =
      omega (arith, length-repr m.endian 4 (length s), length-append (repr m.endian 4 (length s)) s)

  length-encode_all :
      (fs : List Field)
      → All IsField fs
      → length (encode_all m.endian fs) ≤ length fs * (2 ^ 32 + 3)
  length-encode_all [] h = omega arith
  length-encode_all (f ∷ fs) h = omega (
    arith,
    length-append (encode m.endian f) (encode_all m.endian fs),
    length-encode f h.0,
    length-encode_all fs h.1,
  )

  -- A message of a few fields is short.
  pub short :
      (fs : List Field)
      → All IsField fs
      → length fs ≤ 2 ^ 30
      → length (encode_all m.endian fs) < 2 ^ 63
  short fs h few = omega (arith, length-encode_all fs h)

  -- A reader on these fields reads `x`.
  abbrev pub Parses : {A : Type 0} → Exec PacketReader A → List Field → A → Type 0
  Parses p fs x = (r : PacketReader) × (p (between [] (encode_all m.endian fs)) ≡ done x r)

  pub Reads-Parses :
      {A : Type 0} (p : Exec PacketReader A) (fs : List Field) (x : A)
      → All IsField fs
      → Parses p fs x
      → Reads p (write_fields fs Builder.new) x
  Reads-Parses p fs x h (r, e) = (r, rw (built fs h) e)

  module _ (big : 2 ^ 32 ≤ m.string_max) where
    pub read_text-between :
        (s pre post : List ℕ)
        → length s < 2 ^ 32
        → length (pre ++ (encode m.endian (string s) ++ post)) < 2 ^ 63
        → read_text (between pre (encode m.endian (string s) ++ post))
          ≡ done s (between (pre ++ encode m.endian (string s)) post)
    unfolding read_text
    read_text-between s pre post h fits =
        let prefix : List ℕ = repr m.endian 4 (length s) in
        let here : length (pre ++ (prefix ++ (s ++ post))) < 2 ^ 63 =
          rw (append_assoc prefix s post) at fits in
        rw
          (append_assoc prefix s post, read_uint32-between (length s) pre (s ++ post) h here, ◌>>=◌)
          (rw
            (read_string-between s (pre ++ prefix) post (omega arith)
              (rw (append_assoc pre prefix (s ++ post)) here))
            (rw (append_assoc pre prefix s) refl))
