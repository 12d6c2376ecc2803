-- ===== src/Log/Line.antt =====
-- The bytes of a logged line.
use sync_agent.Base.{
  ℕ, zero, suc, ◌+◌, ◌-◌, ◌≤◌, ◌≡◌, false, [], ◌∷◌, ◌++◌, arith, length, take, replicate, ltb,
  if◌then◌else◌, Bytes, length-append, length-take, append_assoc, take-of_le, take-length-append,
  take-append_of_le,
}
use sync_agent.Log.{line_in, text_buffer, line_bytes, line_buffer_size}

module _ (size : ℕ) (text : Bytes) (big : 3 ≤ size) where
  short : length text + 3 ≤ size → line_in size text ≡ text ++ b'\n' ∷ []
  unfolding line_in
  short h =
      let fits : take (size - 2 - 1) text ≡ text = take-of_le (size - 2 - 1) text (omega arith) in
      let less : ltb (size - 2) (length text) ≡ false = ground arith in
      rw (less, fits, take-length-append text (replicate (size - length text) 0))

  long : size ≤ length text + 2 → line_in size text ≡ take (size - 3) text ++ 0 ∷ b'\n' ∷ []
  unfolding line_in
  long h =
      let t = take (size - 2 - 1) text in
      let l : length t ≡ size - 3 = omega (arith, length-take (size - 2 - 1) text) in
      let count : (if ltb (size - 2) (length text) then size - 2 else length text) ≡ size - 2 =
        ground arith in
      let three : size - length t ≡ suc (suc (suc zero)) = omega arith in
      let one : size - 2 - length t ≡ suc zero = omega arith in
      let same : size - 2 - 1 ≡ size - 3 = omega arith in
      rw (count, three, take-append_of_le (size - 2) t (0 ∷ 0 ∷ 0 ∷ []) (omega arith), one, same)
        (append_assoc (take (size - 3) text) (0 ∷ []) (b'\n' ∷ []))

  bound : length (line_in size text) ≤ size - 1
  unfolding line_in
  bound =
      let count = if ltb (size - 2) (length text) then size - 2 else length text in
      let kept = take count (text_buffer size text) in
      let small : count ≤ size - 2 = ground arith in
      omega (arith, length-append kept (b'\n' ∷ []), length-take count (text_buffer size text))

-- A line of at most 8093 bytes is logged whole, with a line end. Of a longer one, the first 8093 bytes
-- are logged, with a NUL byte in front of the line end. The line stays inside the line buffer.
pub line_bytes_lem :
    (text : Bytes)
    → (length text ≤ 8093 → line_bytes text ≡ text ++ b'\n' ∷ [])
      × (8094 ≤ length text → line_bytes text ≡ take 8093 text ++ 0 ∷ b'\n' ∷ [])
      × (length (line_bytes text) ≤ line_buffer_size - 1)
unfolding line_bytes
line_bytes_lem text = (
  λ h. short line_buffer_size text (omega arith) (omega arith),
  λ h. long line_buffer_size text (omega arith) (omega arith),
  bound line_buffer_size text (omega arith),
)
