-- ===== src/Base/Chars.antt =====
-- C strings as lists of bytes: their literals, `strlen`, and `strcasecmp` in the C locale.
use Prim.Native.Nat.{ℕ, ◌+◌}
use Prim.Native.Char.{code}
use Prim.Native.String.{String}
use mathlib.Core.Bool.{Bool, true, false, ◌&&◌}
use mathlib.Core.List.{List, [], ◌∷◌, ◌++◌, map}
use mathlib.Core.Path.{◌≡◌, refl}
use mathlib.Core.Logic.{◌≢◌}
use native.Mathlib.Omega.{arith}
use sync_agent.Base.Tests.{leb, ◌==◌, if◌then◌else◌}

-- A C string is the list of its bytes before the terminating NUL.
abbrev pub Bytes : Type 0
Bytes = List ℕ

-- The bytes of an ASCII literal.
abbrev pub codes : String → Bytes
codes String.[] = []
codes (String.◌∷◌ c s) = code c ∷ codes s

-- `tolower` of the C locale.
abbrev pub to_lower : ℕ → ℕ
to_lower c = if leb b'A' c && leb c b'Z' then c + 32 else c

-- `0 == strcmp(s, t)`.
unfoldable pub equal : Bytes → Bytes → Bool
equal (c ∷ s) (d ∷ t) = let tails = equal s t in if c == d then tails else false
equal [] [] = true
equal s t = false

-- `0 == strcasecmp(a, b)`.
unfoldable pub equal_nocase : Bytes → Bytes → Bool
unfolding equal
equal_nocase a b = equal (map to_lower a) (map to_lower b)

pub equal_sound : (s t : Bytes) → equal s t ≡ true → s ≡ t
unfolding equal
equal_sound (c ∷ s) (d ∷ t) h = ground (arith, equal_sound s t)
equal_sound [] [] h = refl
equal_sound s t h = cc

pub equal_refl : (s : Bytes) → equal s s ≡ true
unfolding equal
equal_refl [] = refl
equal_refl (c ∷ s) = ground (arith, equal_refl s)

-- The bytes of a block of memory, and the C string that a pointer to their start reads: the bytes
-- before the first NUL.
abbrev pub Memory : Type 0
Memory = List ℕ

unfoldable pub c_string : Memory → Bytes
c_string [] = []
c_string (x ∷ xs) = let rest = c_string xs in if x == 0 then [] else x ∷ rest

-- No byte is NUL: the list is a C string.
abbrev pub NoNul : Bytes → Type 0
NoNul [] = Unit
NoNul (x ∷ xs) = (x ≢ 0) × NoNul xs

pub c_string-append-nul : (s : Bytes) (post : Memory) → NoNul s → c_string (s ++ 0 ∷ post) ≡ s
unfolding c_string
c_string-append-nul [] post h = refl
c_string-append-nul (x ∷ xs) post h = ground (arith, c_string-append-nul xs post)

pub c_string-NoNul : (m : Memory) → NoNul (c_string m)
unfolding c_string
c_string-NoNul [] = tt
c_string-NoNul (x ∷ xs) = ground (arith, c_string-NoNul xs)

pub NoNul-append : (a b : Bytes) → NoNul a → NoNul b → NoNul (a ++ b)
NoNul-append [] b h k = k
NoNul-append (x ∷ a) b h k = (h.0, NoNul-append a b h.1 k)

pub NoNul-split : (a b : Bytes) → NoNul (a ++ b) → NoNul a × NoNul b
NoNul-split [] b h = (tt, h)
NoNul-split (x ∷ a) b h = let (l, r) = NoNul-split a b h.1 in ((h.0, l), r)
