-- ===== src/ByteBuffer.antt =====
-- ByteBuffer (bytebuffer.h, bytebuffer.cc): bytes between two offsets into a block of memory. The
-- size of the block is its length; what a new block holds is the parameter `fill`. A copy that
-- would leave the block is none.
pub mod Queue
pub mod Integers
use txmpp.Common.{
  ℕ, zero, suc, ◌+◌, ◌-◌, ◌*◌, ◌/◌, Bool, true, false, List, [], ◌∷◌, ◌++◌, Option, none, some,
  Bytes, length, take, drop, ltb, if◌then◌else◌, ◌>>=◌,
}

pub record Buffer : Type 0 where
  pub bytes : Bytes
  pub start : ℕ
  pub finish : ℕ

abbrev pub block : ℕ → ℕ → Bytes
block fill zero = []
block fill (suc n) = fill ∷ block fill n

-- Construct, with bytes and without.
abbrev pub construct : Bytes → Buffer
construct bytes = record { bytes = bytes; start = 0; finish = length bytes }

abbrev pub construct_empty : ℕ → ℕ → Buffer
construct_empty fill len = record { bytes = block fill len; start = 0; finish = 0 }

-- Length and Capacity
abbrev pub filled : Buffer → ℕ
filled b = b.finish - b.start

abbrev pub capacity : Buffer → ℕ
capacity b = length b.bytes - b.start

-- memcpy out of a block, and into one.
abbrev pub copy_from : ℕ → ℕ → Bytes → Option Bytes
copy_from at n bytes = if ltb (length bytes) (at + n) then none else some (take n (drop at bytes))

abbrev pub copy_to : ℕ → Bytes → Bytes → Option Bytes
copy_to at val bytes =
    if ltb (length bytes) (at + length val)
    then none
    else some (take at bytes ++ (val ++ drop (at + length val) bytes))

abbrev pub larger : ℕ → ℕ → ℕ
larger a b = if ltb a b then b else a

abbrev pub smaller : ℕ → ℕ → ℕ
smaller a b = if ltb b a then b else a

-- The size that Resize gives the new block, from that of the old one.
unfoldable pub new_size : ℕ → ℕ → ℕ
new_size size old = if ltb old size then larger size (3 * old / 2) else size

abbrev pub resize_to : ℕ → ℕ → ℕ → Buffer → Option Buffer
resize_to fill size len b = copy_from b.start len b.bytes >>= λ kept.
    some (record { bytes = kept ++ block fill (size - len); start = 0; finish = len })

-- Resize
unfoldable pub resize : ℕ → ℕ → Buffer → Option Buffer
unfolding new_size
resize fill size b =
    let size' = new_size size (length b.bytes) in resize_to fill size' (smaller (filled b) size') b

abbrev pub with_room : ℕ → ℕ → Buffer → Option Buffer
with_room fill len b =
    if ltb (capacity b) (filled b + len) then resize fill (filled b + len) b else some b

-- WriteBytes
unfoldable pub write_bytes : ℕ → Bytes → Buffer → Option Buffer
unfolding resize
write_bytes fill val b = with_room fill (length val) b >>= λ b1.
    copy_to b1.finish val b1.bytes >>= λ bytes'.
    some (record b1 { bytes = bytes'; finish = b1.finish + length val })

-- ReadBytes, and ReadString after what the string held: whether it could, with the bytes read.
unfoldable pub read_bytes : ℕ → Buffer → Option (Bool × Bytes × Buffer)
read_bytes len b =
    if ltb (filled b) len
    then some (false, [], b)
    else copy_from b.start len b.bytes >>= λ val.
        some (true, val, record b { start = b.start + len })

-- Consume
unfoldable pub consume : ℕ → Buffer → Buffer
consume size b = if ltb (filled b) size then b else record b { start = b.start + size }

-- Shift, whose memmove stays within the block.
unfoldable pub shift : ℕ → Buffer → Buffer
shift size b =
    if ltb (filled b) size
    then b
    else let n = filled b - size in
      record {
        bytes = take n (drop (b.start + size) b.bytes) ++ drop n b.bytes;
        start = 0;
        finish = n;
      }
