-- ===== src/Apps/Chat/Wire/Requests.antt =====
-- What a client of examples/advanced/comprehensive_example.cpp sends the server understands.
use icelander.Prelude.{ℕ, ◌+◌, ◌%◌, ◌^◌, ◌≤◌, ◌<◌, refl, List, [], ◌∷◌, ◌++◌, length, ◌>>=◌, arith}
use mathlib.Core.List.{append_assoc}
use icelander.Bytes.{Platform}
use icelander.Host.Peers.{same_text}
use icelander.Message.{uint32, uint64, string, write_field, write_fields, encode}
use icelander.Message.RoundTrip.{between, read_uint32-between, read_uint64-between}
use icelander.Apps.Chat.{chat, ping, chat_text, ping_text, build_ping, build_chat, read_request}
use icelander.Apps.Chat.Wire.{Reads, Parses, short, Reads-Parses, read_text-between}

module _ ⦃m : Platform⦄ where
  module _ (big : 2 ^ 32 ≤ m.string_max) where
    read_request-chat :
        (client_id : ℕ) (message : List ℕ)
        → client_id < 2 ^ 32
        → length message < 2 ^ 32
        → Parses read_request
            (string chat_text ∷ uint32 client_id ∷ string message ∷ [])
            (chat client_id message)
    unfolding read_request same_text
    read_request-chat client_id message i h =
        let name = encode m.endian (string chat_text) in
        let number = encode m.endian (uint32 client_id) in
        let text = encode m.endian (string message) in
        let fits : length (name ++ (number ++ (text ++ []))) < 2 ^ 63 =
          short (string chat_text ∷ uint32 client_id ∷ string message ∷ []) (omega arith)
            (omega arith) in
        let fits' : length ((name ++ number) ++ (text ++ [])) < 2 ^ 63 =
          rw (append_assoc name number (text ++ [])) fits in
        (
          between ((name ++ number) ++ text) [],
          rw
              (
                read_text-between big chat_text [] (number ++ (text ++ [])) (omega arith) fits,
                ◌>>=◌,
                read_request,
              )
              (rw (read_uint32-between client_id name (text ++ []) i fits, ◌>>=◌)
                (rw (read_text-between big message (name ++ number) [] h fits', ◌>>=◌) refl)),
        )

    read_request-ping :
        (timestamp : ℕ)
        → timestamp < 2 ^ 64
        → Parses read_request (string ping_text ∷ uint64 timestamp ∷ []) (ping timestamp)
    unfolding read_request same_text
    read_request-ping timestamp i =
        let name = encode m.endian (string ping_text) in
        let stamp = encode m.endian (uint64 timestamp) in
        let fits : length (name ++ (stamp ++ [])) < 2 ^ 63 =
          short (string ping_text ∷ uint64 timestamp ∷ []) (omega arith) (omega arith) in
        (
          between (name ++ stamp) [],
          rw
              (
                read_text-between big ping_text [] (stamp ++ []) (omega arith) fits,
                ◌>>=◌,
                read_request,
              )
              (rw (read_uint64-between timestamp name [] i fits, ◌>>=◌) refl),
        )

    -- What a client sends the server understands, on a platform whose strings may have 2 ^ 32 bytes: the
    -- number after the index of the client and the text of a chat, and the time of a ping.
    pub requests_lem :
        (client_idx timestamp : ℕ) (message : List ℕ)
        → timestamp < 2 ^ 64
        → length message < 2 ^ 32
        → Reads read_request
            (build_chat client_idx message)
            (chat ((client_idx + 1) % 2 ^ 32) message)
          × Reads read_request (build_ping timestamp) (ping timestamp)
    unfolding build_chat build_ping write_fields write_field
    requests_lem client_idx timestamp message i h =
        let id = (client_idx + 1) % 2 ^ 32 in
        (
          Reads-Parses read_request (string chat_text ∷ uint32 id ∷ string message ∷ []) _
              (omega arith) (read_request-chat id message (omega arith) h),
          Reads-Parses read_request (string ping_text ∷ uint64 timestamp ∷ []) _ (omega arith)
              (read_request-ping timestamp i),
        )
