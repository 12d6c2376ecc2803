-- ===== src/Property.antt =====
-- src/core/base/eproperty.c: the reader of `key = value` files. `none` is an access outside the line
-- buffer, or that the fuel ran out.
mod Stages
pub mod Parse
pub mod Loop
pub mod Termination
pub mod Failing
mod Tests
use mathlib.Core.Option
use sync_agent.Base.{
  ℕ, zero, suc, ◌+◌, ◌-◌, Bool, true, false, not, ◌&&◌, ◌||◌, Option, none, some, List, [], ◌∷◌,
  ◌++◌, ltb, ◌==◌, if◌then◌else◌, length, drop, set, replicate, Bytes, Memory, c_string,
}
use sync_agent.Base.Int.{ℤ, pos, negsuc}
use sync_agent.Text.{is_blank, is_comment, delete_comment, trim_str, char_at}

infixl 5 ◌>>=◌
abbrev pub ◌>>=◌ {ℓ κ} : {A : Type ℓ} {B : Type κ} → Option A → (A → Option B) → Option B
none >>= f = none
some a >>= f = f a

-- `sizeof(buffer)`
abbrev pub buffer_size : ℕ
buffer_size = 2048

-- `m[i] = 0`
abbrev pub store_nul : Memory → ℕ → Option Memory
store_nul m i = if ltb i (length m) then some (set m i 0) else none

-- What the body of the loop makes of a line: `continue`, or the call of the callback.
pub data Line : Type 0 where
  skipped : Line
  item : Bytes → Bytes → Line

-- `line[offset] = 0`, with `line` at index `p`; the result is the memory and the index of
-- `line + offset + 1`. The offset is -1 where the line has no `=`.
unfoldable pub cut : Memory → ℕ → ℤ → Option (Memory × ℕ)
cut m p (pos k) = Option.map (λ m'. (m', p + k + 1)) (store_nul m (p + k))
cut m zero (negsuc k) = none
cut m (suc p) (negsuc k) = Option.map (λ m'. (m', suc p)) (store_nul m p)

-- The end of the loop's body, from the first `trim_str` to the arguments of the callback.
unfoldable pub split_line : Memory → Option Line
unfolding cut
split_line m = do
  (m₁, line) ← trim_str m 0
  (m₂, after) ← cut m₁ line (char_at (some (c_string (drop line m₁))) b'=')
  (m₃, value) ← trim_str m₂ after
  (m₄, key) ← trim_str m₃ line
  some (item (c_string (drop key m₄)) (c_string (drop value m₄)))

-- `delete_comment` on the string at the start of the buffer.
abbrev pub delete_in : ℕ → Memory → Memory
delete_in c m = delete_comment (c_string m) c ++ drop (length (c_string m)) m

-- The body of the loop on the line in the buffer, with the comment character `c`; 0 stands for none.
unfoldable pub read_line : ℕ → Memory → Option Line
unfolding split_line
read_line c m =
    let line = c_string m in
    if is_blank (some line)
    then some skipped
    else if c == 0
    then split_line m
    else if is_comment (some line) c
    then some skipped
    else split_line (delete_in c m)

-- `fgets` with room for `n` bytes: the line and the rest of the file.
unfoldable pub fgets : ℕ → Bytes → Bytes × Bytes
fgets zero content = ([], content)
fgets (suc n) [] = ([], [])
fgets (suc n) (x ∷ xs) =
    let (line, rest) = fgets n xs in if x == b'\n' then (x ∷ [], xs) else (x ∷ line, rest)

-- The buffer after `bzero` and `fgets`.
abbrev pub buffer_of : Bytes → Memory
buffer_of line = line ++ replicate (buffer_size - length line) 0

-- The callback: it takes a key and a value, updates the user data, and says whether to go on.
abbrev pub Callback : Type 0 → Type 0
Callback S = Bytes → Bytes → S → Bool × S

-- `default_item_process_cb` prints the item and returns 1.
abbrev pub default_item_process_cb : {S : Type 0} → Callback S
default_item_process_cb key value s = (true, s)

abbrev pub callback_of : {S : Type 0} → Option (Callback S) → Callback S
callback_of none = default_item_process_cb
callback_of (some process) = process

-- How one round of the loop goes on: with `next` on the new `result` and user data, or by `break`.
unfoldable pub after_line :
    {S : Type 0}
    → Callback S
    → Option Line
    → Bool
    → S
    → (Bool → S → Option (Bool × S))
    → Option (Bool × S)
after_line process none result s next = none
after_line process (some skipped) result s next = next result s
after_line process (some (item key value)) result s next =
    let (more, s') = process key value s in if more then next true s' else some (false, s')

-- The loop of `property_read` on what is left of the file. At the end of the file `fgets` gives NULL
-- and the next test of `feof` ends the loop.
unfoldable pub read_lines : {S : Type 0} → ℕ → Callback S → ℕ → Bytes → Bool → S → Option (Bool × S)
unfolding read_line fgets after_line
read_lines c process zero content result s = none
read_lines c process (suc fuel) [] result s = some (result, s)
read_lines c process (suc fuel) (x ∷ xs) result s =
    let (line, rest) = fgets (buffer_size - 1) (x ∷ xs) in
    after_line process (read_line c (buffer_of line)) result s (read_lines c process fuel rest)

-- `property_read` with the comment character `c`, where `fopen` gives the content of the files that
-- can be opened and whose reads do not fail. Property/Failing has a file whose reads fail.
unfoldable pub property_read :
    {S : Type 0}
    → ℕ
    → (Bytes → Option Bytes)
    → Option Bytes
    → Option (Callback S)
    → S
    → Option (Bool × S)
unfolding read_lines
property_read c fopen none process s = some (false, s)
property_read c fopen (some name) process s = elim (fopen name) [
  | none ↦ some (false, s)
  | some content ↦ read_lines c (callback_of process) (suc (length content)) content false s
]
