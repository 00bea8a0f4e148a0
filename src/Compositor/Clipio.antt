-- ===== src/Compositor/Clipio.antt =====
-- The bounded transfers of the clipboard (compositor-rs/src/clipio.rs): `read_bounded` and
-- `write_bounded`. A list of rounds is what the loop meets until its time budget is spent, and its
-- end is that; `set_nonblocking` and `poll_ready` are the system's.
pub mod Bounded
use veracage.Base.{
  ℕ, zero, suc, ◌+◌, ◌-◌, ◌*◌, List, [], ◌∷◌, ◌++◌, Bool, true, false, if◌then◌else◌, ltb, length,
  take, is_empty,
}

-- `MAX_CLIP_BYTES`
abbrev pub max_clip_bytes : ℕ
max_clip_bytes = 16 * 1024 * 1024

-- One round of a read: the poll had nothing, or the read would block; the end of the input, which is
-- a read of no bytes; bytes, the first apart; another error.
pub data ReadRound : Type 0 where
  not_ready would_block eof read_failed : ReadRound
  read_bytes : ℕ → List ℕ → ReadRound

-- The loop of `read_bounded`, with the bytes read so far; it stops at the limit.
unfoldable pub read_onto : ℕ → List ℕ → List ReadRound → List ℕ
read_onto limit out [] = out
read_onto limit out (not_ready ∷ rounds) = elim (ltb (length out) limit) [
  | true ↦ read_onto limit out rounds
  | false ↦ out
]
read_onto limit out (would_block ∷ rounds) = elim (ltb (length out) limit) [
  | true ↦ read_onto limit out rounds
  | false ↦ out
]
read_onto limit out (eof ∷ rounds) = out
read_onto limit out (read_failed ∷ rounds) = out
read_onto limit out (read_bytes b bs ∷ rounds) = elim (ltb (length out) limit) [
  | true ↦ read_onto limit (out ++ take (limit - length out) (b ∷ bs)) rounds
  | false ↦ out
]

-- `read_bounded`
unfoldable pub read_bounded : List ReadRound → List ℕ
unfolding read_onto
read_bounded rounds = read_onto max_clip_bytes [] rounds

-- One round of a write: the poll was not ready, or the write would block; a write of no bytes or an
-- error, which end the loop; a write that took `suc n` bytes.
pub data WriteRound : Type 0 where
  busy again stopped : WriteRound
  took : ℕ → WriteRound

unfoldable pub drop : ℕ → List ℕ → List ℕ
drop zero xs = xs
drop (suc n) [] = []
drop (suc n) (x ∷ xs) = drop n xs

-- The loop of `write_bounded`, on the bytes from the offset on: what the peer is given. When no byte
-- is left the source stops; here the rounds after that give nothing.
unfoldable pub write_from : List ℕ → List WriteRound → List ℕ
unfolding drop
write_from rest [] = []
write_from rest (busy ∷ rounds) = write_from rest rounds
write_from rest (again ∷ rounds) = write_from rest rounds
write_from rest (stopped ∷ rounds) = []
write_from rest (took n ∷ rounds) = take (suc n) rest ++ write_from (drop (suc n) rest) rounds

-- `write_bounded`
unfoldable pub write_bounded : List ℕ → List WriteRound → List ℕ
unfolding write_from
write_bounded data_bytes rounds = write_from (take max_clip_bytes data_bytes) rounds
