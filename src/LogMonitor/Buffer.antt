-- ===== src/LogMonitor/Buffer.antt =====
-- proxy/logMonitor.go, `circularBuffer`. The fields are `int`s that stay between 0 and the
-- capacity; `head - size + room` is taken as `head + room - size`, which is the same number.
use llama_swap.Base.{
  ℕ, ◌+◌, ◌-◌, ◌%◌, List, [], ◌∷◌, if◌then◌else◌, leb, ltb, ◌==◌, length, take, drop, replicate,
  copy_at, slice,
}

pub record CircularBuffer : Type 0 where
  pub bytes : List ℕ
  pub head : ℕ
  pub size : ℕ

unfoldable pub new_circular_buffer : ℕ → CircularBuffer
new_circular_buffer capacity = record { bytes = replicate capacity 0; head = 0; size = 0 }

-- `cb.size += len(p)`, held at the capacity.
abbrev pub grow : ℕ → ℕ → ℕ → ℕ
grow room size n = if ltb room (size + n) then room else size + n

-- The two branches of `Write` for an input that is shorter than the buffer.
unfoldable pub place : CircularBuffer → List ℕ → CircularBuffer
place cb p =
    let first_part = room - cb.head in
    if leb (length p) first_part
    then record {
      bytes = copy_at cb.bytes cb.head p;
      head = (cb.head + length p) % room;
      size = grow room cb.size (length p);
    }
    else record {
      bytes = copy_at (copy_at cb.bytes cb.head (take first_part p)) 0 (drop first_part p);
      head = length p - first_part;
      size = grow room cb.size (length p);
    }
  where
    room : ℕ
    room = length cb.bytes

unfoldable pub write : CircularBuffer → List ℕ → CircularBuffer
write cb [] = cb
write cb (b ∷ bs) =
    let p = b ∷ bs in
    let room = length cb.bytes in
    if leb room (length p)
    then record { bytes = copy_at cb.bytes 0 (drop (length p - room) p); head = 0; size = room }
    else place cb p

-- The copies into the result, from `start` on.
unfoldable pub gather : List ℕ → ℕ → ℕ → List ℕ
gather bytes start size =
    if leb (start + size) (length bytes)
    then copy_at (replicate size 0) 0 (slice bytes start (start + size))
    else (let first_part = length bytes - start in
        copy_at (copy_at (replicate size 0) 0 (drop start bytes)) first_part
          (slice bytes 0 (size - first_part)))

-- An empty buffer has the history `nil`.
unfoldable pub get_history : CircularBuffer → List ℕ
get_history cb =
    if cb.size == 0
    then []
    else gather cb.bytes ((cb.head + length cb.bytes - cb.size) % length cb.bytes) cb.size
