-- ===== src/ByteBuffer/Queue.antt =====
-- A byte buffer as the queue of its bytes (bytebuffer.cc).
use mathlib.Core.List.{append_assoc}
use txmpp.ByteBuffer.{
  Buffer, block, filled, copy_from, copy_to, smaller, new_size, resize_to, resize, with_room,
  write_bytes, read_bytes,
}
use txmpp.Common.{
  ℕ, zero, suc, ◌+◌, ◌-◌, ◌≤◌, ◌<◌, true, false, ◌≡◌, refl, ap, sym, subst, ◌∙◌, ◌⊎◌, inl, inr, [],
  ◌∷◌, ◌++◌, Option, some, Bytes, length, take, drop, length-append, take-append_eq, drop-append,
  ltb, ◌>>=◌, arith, Bool-cases,
}

-- The bytes that are not read yet.
abbrev pub contents : Buffer → Bytes
contents b = take (filled b) (drop b.start b.bytes)

pub data IsBuffer (b : Buffer) : Type 0 where
  within : b.start ≤ b.finish → b.finish ≤ length b.bytes → IsBuffer b

-- A block by its parts: read, not read, and free.
abbrev parts : Bytes → Bytes → Bytes → Buffer
parts x y z = record { bytes = x ++ (y ++ z); start = length x; finish = length x + length y }

cut_at :
    (n : ℕ) (s : Bytes) → n ≤ length s → (x : Bytes) × (y : Bytes) × (s ≡ x ++ y) × (length x ≡ n)
cut_at zero s h = ([], s, refl, refl)
cut_at (suc n) [] h = absurd (omega arith)
cut_at (suc n) (c ∷ s) h =
    let (x, y, e, k) = cut_at n s (omega arith) in (c ∷ x, y, ap (◌∷◌ c) e, ap suc k)

-- What holds of all parts holds of a buffer.
by_parts :
    (P : Buffer → Type 0) → ((x y z : Bytes) → P (parts x y z)) → (b : Buffer) → IsBuffer b → P b
by_parts P h b (within s f) =
    let (x, rest, e, k) = cut_at b.start b.bytes (omega arith) in
    let size : length b.bytes ≡ length x + length rest = ap length e ∙ length-append x rest in
    let (y, z, e', k') = cut_at (b.finish - b.start) rest (omega arith) in
    let ends : length x + length y ≡ b.finish = omega arith in
    subst (λ n. P (record b { start = n })) k
      (subst (λ n. P (record b { start = length x; finish = n })) ends
        (subst (λ s. P (record { bytes = s; start = length x; finish = length x + length y }))
          (sym (e ∙ ap (λ r. x ++ r) e')) (h x y z)))

contents-parts : (x y z : Bytes) → contents (parts x y z) ≡ y
contents-parts x y z =
    let n : length x + length y - length x ≡ length y = omega arith in
    rw (drop-append x (y ++ z)) (take-append_eq y z n)

IsBuffer-parts : (x y z : Bytes) → IsBuffer (parts x y z)
IsBuffer-parts x y z =
    within (omega arith) (omega (arith, length-append x (y ++ z), length-append y z))

length-block : (fill n : ℕ) → length (block fill n) ≡ n
length-block fill zero = refl
length-block fill (suc n) = ap suc (length-block fill n)

-- A copy into the free part.
copy_to-parts :
    (w val z1 z2 : Bytes)
    → length z1 ≡ length val
    → copy_to (length w) val (w ++ (z1 ++ z2)) ≡ some (w ++ (val ++ z2))
copy_to-parts w val z1 z2 same =
    let size = length-append w (z1 ++ z2) in
    let rest = length-append z1 z2 in
    let fits : ltb (length (w ++ (z1 ++ z2))) (length w + length val) ≡ false = ground arith in
    let back : drop (length w + length val) (w ++ (z1 ++ z2)) ≡ z2 =
      ap (drop (length w + length val)) (sym (append_assoc w z1 z2))
      ∙ ap (λ n. drop n ((w ++ z1) ++ z2)) (omega (arith, length-append w z1))
      ∙ drop-append (w ++ z1) z2 in
    rw (fits, take-append_eq w (z1 ++ z2) refl, back) refl

abbrev put : Bytes → Buffer → Option Buffer
put val b = copy_to b.finish val b.bytes >>= λ bytes'.
    some (record b { bytes = bytes'; finish = b.finish + length val })

put-parts :
    (x y z val : Bytes)
    → length val ≤ length z
    → (z' : Bytes) × (put val (parts x y z) ≡ some (parts x (y ++ val) z'))
put-parts x y z val room =
    let (z1, z2, e, k) = cut_at (length val) z room in
    let at : length x + length y ≡ length (x ++ y) = sym (length-append x y) in
    let whole : x ++ (y ++ z) ≡ (x ++ y) ++ (z1 ++ z2) =
      sym (append_assoc x y z) ∙ ap (λ r. (x ++ y) ++ r) e in
    let copied : copy_to (length x + length y) val (x ++ (y ++ z))
        ≡ some ((x ++ y) ++ (val ++ z2)) =
      ap (λ n. copy_to n val (x ++ (y ++ z))) at
      ∙ ap (copy_to (length (x ++ y)) val) whole
      ∙ copy_to-parts (x ++ y) val z1 z2 k in
    let joined : (x ++ y) ++ (val ++ z2) ≡ x ++ ((y ++ val) ++ z2) =
      append_assoc x y (val ++ z2) ∙ ap (λ r. x ++ r) (sym (append_assoc y val z2)) in
    let ends : length x + length y + length val ≡ length x + length (y ++ val) =
      omega (arith, length-append y val) in
    (
      z2,
      ap
            (λ m. m >>= λ bytes'.
              some (record (parts x y z) {
                bytes = bytes';
                finish = length x + length y + length val;
              }))
            copied
          ∙ ap
              (λ s.
                some (record {
                  bytes = s;
                  start = length x;
                  finish = length x + length y + length val;
                }))
              joined
          ∙ ap
              (λ n. some (record { bytes = x ++ ((y ++ val) ++ z2); start = length x; finish = n }))
              ends,
    )

-- A new block keeps what is not read, and has the room that was asked for.
new_size-le : (size old : ℕ) → size ≤ new_size size old
unfolding new_size
new_size-le size old = ground arith

copy_from-parts : (x y z : Bytes) → copy_from (length x) (length y) (x ++ (y ++ z)) ≡ some y
copy_from-parts x y z =
    let size = length-append x (y ++ z) in
    let rest = length-append y z in
    let fits : ltb (length (x ++ (y ++ z))) (length x + length y) ≡ false = ground arith in
    rw (fits, drop-append x (y ++ z), take-append_eq y z refl) refl

resize-parts :
    (fill size : ℕ) (x y z : Bytes)
    → length y ≤ size
    → (z' : Bytes) × (resize fill size (parts x y z) ≡ some (parts [] y z'))
      × (size ≤ length y + length z')
unfolding resize
resize-parts fill size x y z le =
    let size' = new_size size (length (x ++ (y ++ z))) in
    let more : size ≤ size' = new_size-le size (length (x ++ (y ++ z))) in
    let len : smaller (length x + length y - length x) size' ≡ length y = ground arith in
    let free = block fill (size' - length y) in
    (
      free,
      ap (λ n. resize_to fill size' n (parts x y z)) len
          ∙ ap
              (λ m.
                m >>= λ kept. some (record { bytes = kept ++ free; start = 0; finish = length y }))
              (copy_from-parts x y z)
          ∙ ap (λ n. some (record { bytes = y ++ free; start = 0; finish = n })) (omega arith),
      omega (arith, length-block fill (size' - length y)),
    )

-- What an operation promises of the queue.
abbrev pub Appends : ℕ → Bytes → Buffer → Type 0
Appends fill val b =
    (b' : Buffer) × (write_bytes fill val b ≡ some b')
    × (contents b' ≡ contents b ++ val)
    × IsBuffer b'

abbrev pub Takes : ℕ → Buffer → Type 0
Takes len b =
    ((length (contents b) < len) × (read_bytes len b ≡ some (false, [], b)))
    ⊎ ((val : Bytes) × (b' : Buffer) × (read_bytes len b ≡ some (true, val, b'))
        × (length val ≡ len)
        × (contents b ≡ val ++ contents b')
        × IsBuffer b')

written :
    (fill : ℕ) (val x y z w v z' : Bytes)
    → with_room fill (length val) (parts x y z) ≡ some (parts w y v)
    → put val (parts w y v) ≡ some (parts w (y ++ val) z')
    → Appends fill val (parts x y z)
unfolding write_bytes
written fill val x y z w v z' roomy done = (
  parts w (y ++ val) z',
  ap (λ m. m >>= put val) roomy ∙ done,
  contents-parts w (y ++ val) z' ∙ ap (λ s. s ++ val) (sym (contents-parts x y z)),
  IsBuffer-parts w (y ++ val) z',
)

Appends-parts : (fill : ℕ) (val x y z : Bytes) → Appends fill val (parts x y z)
Appends-parts fill val x y z =
    let size = length-append x (y ++ z) in
    let rest = length-append y z in
    elim (Bool-cases
      (ltb (length (x ++ (y ++ z)) - length x) (length x + length y - length x + length val))) [
        | inl full ↦
            let (v, made, room) =
              resize-parts fill (length x + length y - length x + length val) x y z (omega arith) in
            let (z', done) = put-parts [] y v val (omega arith) in
            written fill val x y z [] v z' (rw full made) done
        | inr roomy ↦
            let (z', done) = put-parts x y z val (ground arith) in
            written fill val x y z x z z' (rw roomy refl) done
      ]

read_bytes-parts :
    (x y1 y2 z : Bytes)
    → read_bytes (length y1) (parts x (y1 ++ y2) z) ≡ some (true, y1, parts (x ++ y1) y2 z)
unfolding read_bytes
read_bytes-parts x y1 y2 z =
    let both = length-append y1 y2 in
    let front = length-append x y1 in
    let enough : ltb (length x + length (y1 ++ y2) - length x) (length y1) ≡ false = ground arith in
    let copied : copy_from (length x) (length y1) (x ++ ((y1 ++ y2) ++ z)) ≡ some y1 =
      ap (λ s. copy_from (length x) (length y1) (x ++ s)) (append_assoc y1 y2 z)
      ∙ copy_from-parts x y1 (y2 ++ z) in
    let same : x ++ ((y1 ++ y2) ++ z) ≡ (x ++ y1) ++ (y2 ++ z) =
      ap (λ s. x ++ s) (append_assoc y1 y2 z) ∙ sym (append_assoc x y1 (y2 ++ z)) in
    rw (enough, copied)
      (ap
          (λ s. some (
            true,
            y1,
            record {
              bytes = s;
              start = length x + length y1;
              finish = length x + length (y1 ++ y2);
            },
          ))
          same
        ∙ ap
            (λ n. some (
              true,
              y1,
              record {
                bytes = (x ++ y1) ++ (y2 ++ z);
                start = n;
                finish = length x + length (y1 ++ y2);
              },
            ))
            (sym front)
        ∙ ap
            (λ n. some (
              true,
              y1,
              record { bytes = (x ++ y1) ++ (y2 ++ z); start = length (x ++ y1); finish = n },
            ))
            (omega arith))

Takes-both : (x y1 y2 z : Bytes) → Takes (length y1) (parts x (y1 ++ y2) z)
Takes-both x y1 y2 z = inr (
  y1,
  parts (x ++ y1) y2 z,
  read_bytes-parts x y1 y2 z,
  refl,
  contents-parts x (y1 ++ y2) z ∙ ap (λ s. y1 ++ s) (sym (contents-parts (x ++ y1) y2 z)),
  IsBuffer-parts (x ++ y1) y2 z,
)

Takes-parts : (len : ℕ) (x y z : Bytes) → Takes len (parts x y z)
Takes-parts len x y z = elim (Bool-cases (ltb (length x + length y - length x) len)) [
  | inl short ↦ inl (rw (contents-parts x y z) (ground arith), unfold read_bytes in rw short refl)
  | inr enough ↦
      let (y1, y2, e, k) = cut_at len y (ground arith) in
      subst (λ n. Takes n (parts x y z)) k
        (subst (λ s. Takes (length y1) (parts x s z)) (sym e) (Takes-both x y1 y2 z))
]

-- A byte buffer whose offsets are in order and in the block is a queue of bytes. A write puts the
-- bytes behind those that are not read yet, in a larger block if it has to; a read takes as many
-- from the front as it is asked for, or says that there are too few and takes none. No copy leaves
-- the block, and the offsets stay in order.
pub write-read_bytes :
    (fill : ℕ) (val : Bytes) (len : ℕ) (b : Buffer) → IsBuffer b → Appends fill val b × Takes len b
write-read_bytes fill val len b h =
    by_parts (λ b. Appends fill val b × Takes len b)
      (λ x y z. (Appends-parts fill val x y z, Takes-parts len x y z)) b h
