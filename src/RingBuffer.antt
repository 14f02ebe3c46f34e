-- ===== src/RingBuffer.antt =====
-- congestion_meta2/ringbuffer.go: a queue in a ring that grows when it is full. A panic is `none`.
pub mod Slices
pub mod Contents
pub mod Push
pub mod Pop
pub mod Places
mod Tests
use sing_quic.Prelude.{
  ℕ, zero, suc, ◌+◌, ◌-◌, ◌*◌, ◌%◌, Bool, true, false, not, ◌&&◌, ◌||◌, Option, none, some, List,
  [], ◌∷◌, ◌++◌, ltb, leb, ◌==◌, if◌then◌else◌, length, get_or, set, take, drop, replicate,
}

pub record RingBuffer (T : Type 0) : Type 0 where
  pub ring : List T
  pub head_pos : ℕ
  pub tail_pos : ℕ
  pub full : Bool

-- `new(T)` points at the zero value of the element type.
module _ {T : Type 0} (zero_value : T) where
  -- `Init` of a zero buffer.
  unfoldable pub init : ℕ → RingBuffer T
  init size = record { ring = replicate size zero_value; head_pos = 0; tail_pos = 0; full = false }

  -- `grow`
  unfoldable pub grow : RingBuffer T → RingBuffer T
  grow r =
      let n = length r.ring in
      let new_size = if n * 2 == 0 then 1 else n * 2 in
      record {
        ring =
            (drop r.head_pos r.ring ++ take r.head_pos r.ring)
            ++ replicate (new_size - n) zero_value;
        head_pos = 0;
        tail_pos = n;
        full = false;
      }

-- `Len`
unfoldable pub len : {T : Type 0} → RingBuffer T → ℕ
len r =
    if r.full
    then length r.ring
    else if leb r.head_pos r.tail_pos
    then r.tail_pos - r.head_pos
    else r.tail_pos + length r.ring - r.head_pos

-- `Empty`
unfoldable pub empty : {T : Type 0} → RingBuffer T → Bool
empty r = not r.full && r.head_pos == r.tail_pos

-- The write of `PushBack`, where there is room.
unfoldable pub put_back : {T : Type 0} → RingBuffer T → T → RingBuffer T
put_back r x =
    let next = if r.tail_pos + 1 == length r.ring then 0 else r.tail_pos + 1 in
    record {
      ring = set r.ring r.tail_pos x;
      head_pos = r.head_pos;
      tail_pos = next;
      full = if next == r.head_pos then true else r.full;
    }

-- `PushBack`
unfoldable pub push_back : {T : Type 0} → T → RingBuffer T → T → RingBuffer T
push_back zero_value r x =
    put_back (if r.full || length r.ring == 0 then grow zero_value r else r) x

-- `PopFront`
unfoldable pub pop_front : {T : Type 0} → T → RingBuffer T → Option (T × RingBuffer T)
pop_front zero_value r =
    if empty r
    then none
    else some (
      get_or r.ring r.head_pos zero_value,
      record {
        ring = set r.ring r.head_pos zero_value;
        head_pos = if r.head_pos + 1 == length r.ring then 0 else r.head_pos + 1;
        tail_pos = r.tail_pos;
        full = false;
      },
    )

-- The index in the ring that `Offset` points at.
unfoldable pub offset : {T : Type 0} → RingBuffer T → ℕ → Option ℕ
unfolding len empty
offset r index =
    if empty r || leb (len r) index then none else some ((r.head_pos + index) % length r.ring)

-- `Front`
unfoldable pub front : {T : Type 0} → RingBuffer T → Option ℕ
front r = if empty r then none else some r.head_pos

-- `Back`
unfoldable pub back : {T : Type 0} → RingBuffer T → Option ℕ
unfolding len empty
back r = if empty r then none else offset r (len r - 1)

-- `Clear`
unfoldable pub clear : {T : Type 0} → T → RingBuffer T → RingBuffer T
clear zero_value r = record {
  ring = replicate (length r.ring) zero_value;
  head_pos = 0;
  tail_pos = 0;
  full = false;
}
