-- ===== src/Text/Trim.antt =====
-- `trim_str` in memory against trimming of strings.
use mathlib.Core.Path.{subst}
use mathlib.Core.List.{reverse, reverse-append, reverse-reverse, reverse-cons}
use sync_agent.Base.{
  ℕ, zero, suc, ◌+◌, ◌≤◌, ◌≡◌, ◌∙◌, sym, ap, refl, Bool, true, false, none, some, [], ◌∷◌, ◌++◌,
  arith, length, drop, Bytes, Memory, c_string, NoNul, ◌&&◌, append_assoc, length-append,
  length-reverse, take-length-append, drop-length-append, drop-append, drop-length_add,
  c_string-append-nul, NoNul-split,
}
use sync_agent.Text.{all_space, leading, put_back, erase_back, trim_str}
use sync_agent.Text.Strip.{
  skip_spaces, strip_right, trimmed, spaces, all_space-append, all_space-reverse,
  skip_spaces-append, space_suffix, strip_right_lem, all_space-strip_right, leading-append,
  NoNul-drop,
}

put_back-reverse : (xs : Bytes) (m : Memory) → put_back xs m ≡ reverse xs ++ m
unfolding put_back
put_back-reverse [] m = refl
put_back-reverse (x ∷ xs) m = put_back-reverse xs (x ∷ m) ∙ rw (reverse-cons, append_assoc)

-- `n` NULs in front of a block.
abbrev pub zeros : ℕ → Memory → Memory
zeros zero m = m
zeros (suc n) m = zeros n (0 ∷ m)

zeros-cons : (n : ℕ) (m : Memory) → zeros n (0 ∷ m) ≡ 0 ∷ (zeros n m)
zeros-cons zero m = refl
zeros-cons (suc n) m = zeros-cons n (0 ∷ m)

erase_back_lem :
    (b : Bytes) (m : Memory)
    → all_space b ≡ false
    → erase_back b m ≡ some (put_back (skip_spaces b) (zeros (spaces b) m))
unfolding erase_back all_space skip_spaces
erase_back_lem [] m h = cc
erase_back_lem (x ∷ b) m h = ground (arith, erase_back_lem b (0 ∷ m))

-- The memory around a string: `pre`, the string `s`, its NUL, and `post`.
abbrev pub around : Memory → Bytes → Memory → Memory
around pre s post = pre ++ (s ++ 0 ∷ post)

around_assoc :
    (pre : Memory) (s : Bytes) (post : Memory) → around pre s post ≡ (pre ++ s) ++ 0 ∷ post
around_assoc pre s post = sym (append_assoc pre s (0 ∷ post))

-- `trim_str` in terms of the bytes up to the end of the string, nearest first.
trim_str-eq :
    (pre : Memory) (s : Bytes) (post : Memory)
    → NoNul s
    → all_space (reverse (pre ++ s)) ≡ false
    → trim_str (around pre s post) (length pre)
      ≡ some (
        strip_right (pre ++ s) ++ 0 ∷ zeros (spaces (reverse (pre ++ s))) post,
        length pre + leading (s ++ 0 ∷ post),
      )
unfolding trim_str
trim_str-eq pre s post h stop =
    let size : length (c_string (drop (length pre) (around pre s post))) ≡ length s =
      ap (λ m. length (c_string m)) (drop-length-append pre (s ++ 0 ∷ post))
      ∙ ap length (c_string-append-nul s post h) in
    let end : length pre + length s ≡ length (pre ++ s) = sym (length-append pre s) in
    rw (
      drop-length-append pre (s ++ 0 ∷ post),
      c_string-append-nul s post h,
      end,
      around_assoc pre s post,
      take-length-append (pre ++ s) (0 ∷ post),
      drop-length-append (pre ++ s) (0 ∷ post),
      erase_back_lem (reverse (pre ++ s)) (0 ∷ post) stop,
      put_back-reverse,
      zeros-cons,
    )

and-false : (a : Bool) {b : Bool} → b ≡ false → (a && b) ≡ false
and-false true h = h
and-false false h = refl

-- The trimmed string, read where `trim_str` points.
read_back :
    (pre : Memory) (s : Bytes) (post : Memory)
    → NoNul s
    → all_space s ≡ false
    → c_string (drop (length pre + leading s) (around pre (strip_right s) post)) ≡ trimmed s
read_back pre s post h ne =
    let t = strip_right s in
    let ne' : all_space t ≡ false = all_space-strip_right s ∙ ne in
    let (same, small) = leading-append t (space_suffix s) ne' in
    let lead : leading s ≡ leading t = ap leading (strip_right_lem s).0 ∙ same in
    let ok : NoNul t = (NoNul-split t (space_suffix s) (subst NoNul (strip_right_lem s).0 h)).0 in
    rw
      (
        lead,
        drop-length_add pre (t ++ 0 ∷ post) (leading t),
        drop-append (leading t) t (0 ∷ post) small,
      )
      (c_string-append-nul (drop (leading t) t) post (NoNul-drop (leading t) t ok))

-- On a string that has a byte other than white space, `trim_str` reads and writes inside the string
-- only: it overwrites the white space at the end by NULs and returns a pointer to the first byte
-- behind the blanks and tabs in front, where the trimmed string now stands.
pub trim_str_lem :
    (pre : Memory) (s : Bytes) (post : Memory)
    → NoNul s
    → all_space s ≡ false
    → let m = around pre (strip_right s) (zeros (spaces (reverse s)) post) in
      let res = length pre + leading s in
      (trim_str (around pre s post) (length pre) ≡ some (m, res))
      × (c_string (drop res m) ≡ trimmed s)
trim_str_lem pre s post h ne =
    let rev : all_space (reverse s) ≡ false = all_space-reverse s ∙ ne in
    let (kept, count) = skip_spaces-append (reverse s) (reverse pre) rev in
    let stop : all_space (reverse (pre ++ s)) ≡ false =
      all_space-reverse (pre ++ s) ∙ all_space-append pre s ∙ and-false (all_space pre) ne in
    let whole : strip_right (pre ++ s) ≡ pre ++ strip_right s =
      ap (λ t. reverse (skip_spaces t)) (reverse-append pre s)
      ∙ ap reverse kept
      ∙ reverse-append (skip_spaces (reverse s)) (reverse pre)
      ∙ ap (λ t. t ++ strip_right s) (reverse-reverse pre) in
    let n : spaces (reverse (pre ++ s)) ≡ spaces (reverse s) =
      ap spaces (reverse-append pre s) ∙ count in
    (
      trim_str-eq pre s post h stop
          ∙ rw (whole, n, (leading-append s (0 ∷ post) ne).0, append_assoc),
      read_back pre s (zeros (spaces (reverse s)) post) h ne,
    )

erase_back-none : (b : Bytes) (m : Memory) → all_space b ≡ true → erase_back b m ≡ none
unfolding erase_back all_space
erase_back-none [] m h = refl
erase_back-none (x ∷ b) m h = ground (arith, erase_back-none b (0 ∷ m))

-- If the memory up to the end of the string holds nothing but white space, `trim_str` runs below
-- the start of that memory.
pub trim_str_faults :
    (pre : Memory) (s : Bytes) (post : Memory)
    → NoNul s
    → all_space (pre ++ s) ≡ true
    → trim_str (around pre s post) (length pre) ≡ none
unfolding trim_str
trim_str_faults pre s post h all =
    let end : length pre + length s ≡ length (pre ++ s) = sym (length-append pre s) in
    rw (
      drop-length-append pre (s ++ 0 ∷ post),
      c_string-append-nul s post h,
      end,
      around_assoc pre s post,
      take-length-append (pre ++ s) (0 ∷ post),
      erase_back-none (reverse (pre ++ s)) (drop (length (pre ++ s)) ((pre ++ s) ++ 0 ∷ post))
          (all_space-reverse (pre ++ s) ∙ all),
    )

c_string-zeros : (k n : ℕ) (post : Memory) → k ≤ n → c_string (drop k (0 ∷ zeros n post)) ≡ []
unfolding c_string
c_string-zeros zero n post h = refl
c_string-zeros (suc k) zero post h = absurd (omega arith)
c_string-zeros (suc k) (suc n) post h =
    rw (zeros-cons n post) (c_string-zeros k n post (omega arith))

spaces-all :
    (s b : Bytes)
    → all_space s ≡ true
    → (spaces (s ++ b) ≡ length s + spaces b) × (skip_spaces (s ++ b) ≡ skip_spaces b)
unfolding all_space skip_spaces
spaces-all [] b h = (omega arith, refl)
spaces-all (x ∷ s) b h = ground (arith, spaces-all s b)

leading-le : (s : Bytes) (post : Memory) → leading (s ++ 0 ∷ post) ≤ length s
unfolding leading
leading-le [] post = omega arith
leading-le (x ∷ s) post = ground (arith, leading-le s post)

-- A string of white space behind a NUL byte becomes the empty string, and the bytes before it stay.
pub trim_str_blank :
    (p : Memory) (s : Bytes) (post : Memory)
    → NoNul s
    → all_space s ≡ true
    → let pre = p ++ 0 ∷ [] in
      let m = around pre [] (zeros (length s) post) in
      let res = length pre + leading (s ++ 0 ∷ post) in
      (trim_str (around pre s post) (length pre) ≡ some (m, res)) × (c_string (drop res m) ≡ [])
unfolding skip_spaces all_space
trim_str_blank p s post h all =
    let pre = p ++ 0 ∷ [] in
    let rs = reverse s in
    let all' : all_space rs ≡ true = all_space-reverse s ∙ all in
    let (n, kept) = spaces-all rs (0 ∷ reverse p) all' in
    let back : reverse (pre ++ s) ≡ rs ++ 0 ∷ reverse p =
      reverse-append pre s ∙ ap (λ t. rs ++ t) (reverse-append p (0 ∷ [])) in
    let stop : all_space (reverse (pre ++ s)) ≡ false =
      ap all_space back ∙ all_space-append rs (0 ∷ reverse p) ∙ ap (λ b. b && false) all' in
    let whole : strip_right (pre ++ s) ≡ pre =
      ap (λ t. reverse (skip_spaces t)) back
      ∙ ap reverse kept
      ∙ reverse-cons 0 (reverse p)
      ∙ ap (λ t. t ++ 0 ∷ []) (reverse-reverse p) in
    let count : spaces (reverse (pre ++ s)) ≡ length s =
      ap spaces back ∙ n ∙ omega (arith, length-reverse s) in
    (
      trim_str-eq pre s post h stop ∙ rw (whole, count),
      rw (drop-length_add pre (0 ∷ zeros (length s) post) (leading (s ++ 0 ∷ post)))
          (c_string-zeros (leading (s ++ 0 ∷ post)) (length s) post (leading-le s post)),
    )
