-- ===== src/Tests/Buffers.antt =====
-- Byte buffers (bytebuffer.cc).
use txmpp.ByteBuffer.{Buffer, construct, consume, shift, write_bytes}
use txmpp.ByteBuffer.Queue.{within, Appends, Takes, write-read_bytes}
use txmpp.Common.{◌≡◌, refl, some, codes, arith, ◌∷◌, []}

-- "lo" is not read yet, and there is no room.
abbrev rest : Buffer
rest = record { bytes = codes "hello"; start = 3; finish = 5 }

write-read_bytes_example : Appends 0 (codes "!?") rest × Takes 2 rest
write-read_bytes_example =
    write-read_bytes 0 (codes "!?") 2 rest (within (omega arith) (omega arith))

shifted :
    shift 2 (consume 1 (construct (codes "hello")))
    ≡ record { bytes = codes "lollo"; start = 0; finish = 2 }
unfolding shift consume
shifted = refl

-- A new block of one and a half times the size, where that is more than what is needed.
grown :
    write_bytes 0 (codes "!?.-") rest
    ≡ some (record { bytes = 108 ∷ 111 ∷ 33 ∷ 63 ∷ 46 ∷ 45 ∷ 0 ∷ []; start = 0; finish = 6 })
unfolding write_bytes
grown = refl
