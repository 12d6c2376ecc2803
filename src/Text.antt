-- ===== src/Text.antt =====
-- src/core/base/estring.c and estring.h: the string helpers of libeasy. A `char *` argument that may
-- be NULL is an option; a function that writes takes the memory and returns it.
pub mod Scan
pub mod Strip
pub mod Trim
pub mod Fronts
pub mod Split
pub mod Compare
mod Tests
use mathlib.Core.Option
use mathlib.Core.List.{reverse}
use sync_agent.Base.{
  ℕ, zero, suc, ◌+◌, ◌-◌, Bool, true, false, not, ◌&&◌, ◌||◌, Option, none, some, List, [], ◌∷◌,
  ◌++◌, map, min, ltb, leb, ◌==◌, if◌then◌else◌, length, take, drop, Bytes, Memory, c_string,
  replicate,
}
use sync_agent.Base.Int.{ℤ, pos, negsuc, minus_one, eq_ℤ, ltb_ℤ}

-- `is_comment`, at a string: blanks and tabs are skipped, and the next byte decides.
unfoldable pub comment_scan : Bytes → ℕ → Bool
comment_scan [] c = false
comment_scan (x ∷ xs) c = if x == b'\t' || x == b' ' then comment_scan xs c else x == c

-- `is_comment`
unfoldable pub is_comment : Option Bytes → ℕ → Bool
unfolding comment_scan
is_comment none c = false
is_comment (some s) c = comment_scan s c

-- The white space of `is_blank` and of the end of `trim_str`.
abbrev pub is_space : ℕ → Bool
is_space x = x == b' ' || x == b'\t' || x == b'\r' || x == b'\n'

-- `is_blank`, at a string.
unfoldable pub all_space : Bytes → Bool
all_space [] = true
all_space (x ∷ xs) = is_space x && all_space xs

-- `is_blank`
unfoldable pub is_blank : Option Bytes → Bool
unfolding all_space
is_blank none = true
is_blank (some s) = all_space s

-- `while(*res == ' ' || *res == '\t') res++`: the number of steps.
unfoldable pub leading : Memory → ℕ
leading [] = 0
leading (x ∷ xs) = let n = leading xs in if x == b' ' || x == b'\t' then n + 1 else 0

-- Puts back the bytes that were passed on the way, nearest first.
unfoldable pub put_back : Bytes → Memory → Memory
put_back [] after = after
put_back (x ∷ before) after = put_back before (x ∷ after)

-- `while(*str is white space) { *str = '\0'; str--; }`. The first argument is the memory up to and
-- with `*str`, nearest first; `none` is an access before its start. The result is the memory.
unfoldable pub erase_back : Bytes → Memory → Option Memory
unfolding put_back
erase_back [] after = none
erase_back (x ∷ before) after =
    let rest = erase_back before (0 ∷ after) in
    if is_space x then rest else some (put_back (x ∷ before) after)

-- `trim_str` on the string at index `p`: the memory after the call, and the index that it returns.
unfoldable pub trim_str : Memory → ℕ → Option (Memory × ℕ)
unfolding leading erase_back
trim_str m p =
    let end = p + length (c_string (drop p m)) in
    let res = p + leading (drop p m) in
    Option.map (λ m'. (m', res)) (erase_back (reverse (take end m)) (drop end m))

-- `delete_comment` on the bytes of a string: each comment byte becomes NUL.
unfoldable pub delete_comment : Bytes → ℕ → Memory
delete_comment [] c = []
delete_comment (x ∷ xs) c = (if x == c then 0 else x) ∷ delete_comment xs c

-- `char_at` from index `i` on.
unfoldable pub char_at_from : ℕ → Bytes → ℕ → ℤ
char_at_from i [] c = minus_one
char_at_from i (x ∷ xs) c = let rest = char_at_from (i + 1) xs c in if x == c then pos i else rest

-- `char_at`
unfoldable pub char_at : Option Bytes → ℕ → ℤ
unfolding char_at_from
char_at none c = minus_one
char_at (some s) c = char_at_from 0 s c

-- The bytes that `strncpy(dst, s, n)` or `memcpy` leaves in a zeroed `dst` of more than `n` bytes,
-- read as a string.
abbrev pub copy_at_most : ℕ → Bytes → Bytes
copy_at_most n s = take n s

-- The backward search of `split_url` for the last `/`. The first argument is the part of the url up
-- to `ptr`, nearest first; the second is what stands behind `ptr`.
unfoldable pub last_slash : Bytes → Bytes → Option (Bytes × Bytes)
last_slash [] after = none
last_slash (x ∷ before) after =
    let rest = last_slash before (x ∷ after) in
    if x == b'/' then some (reverse (x ∷ before), after) else rest

-- `'/' == *ptr` at the last byte.
unfoldable pub ends_in_slash : Bytes → Bool
ends_in_slash [] = false
ends_in_slash (x ∷ []) = x == b'/'
ends_in_slash (x ∷ y ∷ ys) = ends_in_slash (y ∷ ys)

-- The end of `split_url`, by what the search has found.
unfoldable pub copy_parts : Bytes → ℕ → ℕ → Option (Bytes × Bytes) → Bytes × Bytes
copy_parts url path_size name_size none = ([], copy_at_most (name_size - 1) url)
copy_parts url path_size name_size (some (path, name)) =
    (copy_at_most (path_size - 1) path, copy_at_most (name_size - 1) name)

split_string : Bytes → ℕ → ℕ → Bytes × Bytes
unfolding last_slash copy_parts ends_in_slash
split_string url path_size name_size =
    if path_size == 0 || name_size == 0
    then ([], [])
    else if length url == 0
    then ([], [])
    else if ends_in_slash url
    then (copy_at_most (path_size - 1) url, [])
    else copy_parts url path_size name_size (last_slash (reverse url) [])

-- `split_url`: the strings in the two zeroed buffers. Sizes are not negative, since `bzero` takes
-- them before the code tests them.
unfoldable pub split_url : Option Bytes → ℕ → ℕ → Bytes × Bytes
unfolding split_string
split_url none path_size name_size = ([], [])
split_url (some url) path_size name_size = split_string url path_size name_size

-- `memcmp` of the first `n` bytes: the sign of its result.
unfoldable pub memcmp : ℕ → Bytes → Bytes → ℤ
memcmp zero a b = pos 0
memcmp (suc n) (x ∷ a) (y ∷ b) =
    let rest = memcmp n a b in if ltb x y then minus_one else if ltb y x then pos 1 else rest
memcmp (suc n) _ _ = pos 0

-- `str_cmp` on strings of the given sizes.
unfoldable pub str_cmp : Bytes → Bytes → ℤ
unfolding memcmp
str_cmp a b =
    let cmp_size = if ltb (length a) (length b) then length a else length b in
    let result = memcmp cmp_size a b in
    if not (eq_ℤ result (pos 0))
    then (if ltb_ℤ result (pos 0) then minus_one else pos 1)
    else if length a == length b
    then pos 0
    else if ltb (length b) (length a)
    then pos 1
    else minus_one
