-- ===== src/Apps/Chat/Wire/Notices.antt =====
-- What the server of examples/advanced/comprehensive_example.cpp sends a client understands.
use icelander.Prelude.{ℕ, ◌%◌, ◌^◌, ◌≤◌, ◌<◌, refl, List, [], ◌∷◌, ◌++◌, length, ◌>>=◌, arith}
use mathlib.Core.List.{append_assoc}
use icelander.Bytes.{Platform}
use icelander.Host.Peers.{same_text}
use icelander.Message.{uint32, uint64, string, write_field, write_fields, encode}
use icelander.Message.RoundTrip.{between, read_uint32-between, read_uint64-between}
use icelander.Apps.Chat.{
  welcome, chat_from, pong, joined, left, welcome_text, broadcast_chat_text, pong_text, joined_text,
  left_text, build_welcome, build_broadcast, build_pong, build_text, read_notice,
}
use icelander.Apps.Chat.Wire.{Reads, Parses, short, Reads-Parses, read_text-between}

module _ ⦃m : Platform⦄ where
  module _ (big : 2 ^ 32 ≤ m.string_max) where
    read_notice-welcome :
        (n : ℕ) → n < 2 ^ 32 → Parses read_notice (string welcome_text ∷ uint32 n ∷ []) (welcome n)
    unfolding read_notice same_text
    read_notice-welcome n i =
        let name = encode m.endian (string welcome_text) in
        let number = encode m.endian (uint32 n) in
        let fits : length (name ++ (number ++ [])) < 2 ^ 63 =
          short (string welcome_text ∷ uint32 n ∷ []) (omega arith) (omega arith) in
        (
          between (name ++ number) [],
          rw
              (
                read_text-between big welcome_text [] (number ++ []) (omega arith) fits,
                ◌>>=◌,
                read_notice,
              )
              (rw (read_uint32-between n name [] i fits, ◌>>=◌) refl),
        )

    read_notice-chat_from :
        (client_id : ℕ) (message : List ℕ)
        → client_id < 2 ^ 32
        → length message < 2 ^ 32
        → Parses read_notice
            (string broadcast_chat_text ∷ uint32 client_id ∷ string message ∷ [])
            (chat_from client_id message)
    unfolding read_notice same_text
    read_notice-chat_from client_id message i h =
        let name = encode m.endian (string broadcast_chat_text) in
        let number = encode m.endian (uint32 client_id) in
        let text = encode m.endian (string message) in
        let fits : length (name ++ (number ++ (text ++ []))) < 2 ^ 63 =
          short (string broadcast_chat_text ∷ uint32 client_id ∷ string message ∷ []) (omega arith)
            (omega arith) in
        let fits' : length ((name ++ number) ++ (text ++ [])) < 2 ^ 63 =
          rw (append_assoc name number (text ++ [])) fits in
        (
          between ((name ++ number) ++ text) [],
          rw
              (
                read_text-between big broadcast_chat_text [] (number ++ (text ++ [])) (omega arith)
                    fits,
                ◌>>=◌,
                read_notice,
              )
              (rw (read_uint32-between client_id name (text ++ []) i fits, ◌>>=◌)
                (rw (read_text-between big message (name ++ number) [] h fits', ◌>>=◌) refl)),
        )

    read_notice-pong :
        (sent server : ℕ)
        → sent < 2 ^ 64
        → server < 2 ^ 64
        → Parses read_notice
            (string pong_text ∷ uint64 sent ∷ uint64 server ∷ [])
            (pong sent server)
    unfolding read_notice same_text
    read_notice-pong sent server i j =
        let name = encode m.endian (string pong_text) in
        let first = encode m.endian (uint64 sent) in
        let second = encode m.endian (uint64 server) in
        let fits : length (name ++ (first ++ (second ++ []))) < 2 ^ 63 =
          short (string pong_text ∷ uint64 sent ∷ uint64 server ∷ []) (omega arith) (omega arith) in
        let fits' : length ((name ++ first) ++ (second ++ [])) < 2 ^ 63 =
          rw (append_assoc name first (second ++ [])) fits in
        (
          between ((name ++ first) ++ second) [],
          rw
              (
                read_text-between big pong_text [] (first ++ (second ++ [])) (omega arith) fits,
                ◌>>=◌,
                read_notice,
              )
              (rw (read_uint64-between sent name (second ++ []) i fits, ◌>>=◌)
                (rw (read_uint64-between server (name ++ first) [] j fits', ◌>>=◌) refl)),
        )

    read_notice-joined : Parses read_notice (string joined_text ∷ []) joined
    unfolding read_notice same_text
    read_notice-joined =
        let name = encode m.endian (string joined_text) in
        let fits : length (name ++ []) < 2 ^ 63 =
          short (string joined_text ∷ []) (omega arith) (omega arith) in
        (
          between name [],
          rw (read_text-between big joined_text [] [] (omega arith) fits, ◌>>=◌, read_notice) refl,
        )

    read_notice-left : Parses read_notice (string left_text ∷ []) left
    unfolding read_notice same_text
    read_notice-left =
        let name = encode m.endian (string left_text) in
        let fits : length (name ++ []) < 2 ^ 63 =
          short (string left_text ∷ []) (omega arith) (omega arith) in
        (
          between name [],
          rw (read_text-between big left_text [] [] (omega arith) fits, ◌>>=◌, read_notice) refl,
        )

    -- What the server sends a client understands: the number in a welcome, modulo 2 ^ 32, the sender and
    -- the text of a chat, both times of a pong, and the two bare announcements.
    pub notices_lem :
        (n client_id sent server : ℕ) (message : List ℕ)
        → client_id < 2 ^ 32
        → sent < 2 ^ 64
        → server < 2 ^ 64
        → length message < 2 ^ 32
        → Reads read_notice (build_welcome n) (welcome (n % 2 ^ 32))
          × Reads read_notice (build_broadcast client_id message) (chat_from client_id message)
          × Reads read_notice (build_pong sent server) (pong sent server)
          × Reads read_notice (build_text joined_text) joined
          × Reads read_notice (build_text left_text) left
    unfolding build_welcome build_broadcast build_pong build_text write_fields write_field
    notices_lem n client_id sent server message i j k h = (
      Reads-Parses read_notice (string welcome_text ∷ uint32 (n % 2 ^ 32) ∷ []) _ (omega arith)
          (read_notice-welcome (n % 2 ^ 32) (omega arith)),
      Reads-Parses read_notice (string broadcast_chat_text ∷ uint32 client_id ∷ string message ∷ [])
          _ (omega arith) (read_notice-chat_from client_id message i h),
      Reads-Parses read_notice (string pong_text ∷ uint64 sent ∷ uint64 server ∷ []) _ (omega arith)
          (read_notice-pong sent server j k),
      Reads-Parses read_notice (string joined_text ∷ []) _ (omega arith) read_notice-joined,
      Reads-Parses read_notice (string left_text ∷ []) _ (omega arith) read_notice-left,
    )
