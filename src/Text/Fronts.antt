-- ===== src/Text/Fronts.antt =====
-- `trim_str` against the three parts of a string: what it skips, what it keeps and what it takes off.
use mathlib.Core.List.{reverse, reverse-append, reverse-reverse}
use sync_agent.Base.{
  ℕ, ◌+◌, ◌≡◌, ◌∙◌, inl, inr, sym, ap, Bool, true, false, some, [], ◌∷◌, ◌++◌, arith, length, drop,
  Bool-cases, ◌==◌, Bytes, Memory, c_string, NoNul, ◌||◌, append_assoc, length-reverse,
  drop-length-append,
}
use sync_agent.Text.{is_space, all_space, leading, trim_str}
use sync_agent.Text.Strip.{
  skip_spaces, strip_right, spaces, space_prefix, space_suffix, strip_right_lem, all_bytes,
  is_blank_byte, Led_lem, leading-strip_right,
}
use sync_agent.Text.Trim.{around, zeros, trim_str_lem}

-- A space, a tab or a byte of a line end.
abbrev pub is_white : ℕ → Bool
is_white x = x == b' ' || x == b'\t' || x == b'\r' || x == b'\n'

-- `s` is spaces and tabs, then what is kept, then white space; and what is kept starts with no space or
-- tab and ends with no white space.
pub record Trims (s front kept back : Bytes) : Type 0 where
  pub whole : s ≡ front ++ (kept ++ back)
  pub front_blank : all_bytes is_blank_byte front ≡ true
  pub back_white : all_bytes is_white back ≡ true
  pub first : (x : ℕ) (rest : Bytes) → kept ≡ x ∷ rest → is_blank_byte x ≡ false
  pub last : (rest : Bytes) (x : ℕ) → kept ≡ rest ++ x ∷ [] → is_white x ≡ false

all_bytes-all_space : (s : Bytes) → all_space s ≡ true → all_bytes is_white s ≡ true
unfolding all_space
all_bytes-all_space [] h = h
all_bytes-all_space (x ∷ s) h = ground (arith, all_bytes-all_space s)

leading_first : (x : ℕ) (s : Bytes) → leading (x ∷ s) ≡ 0 → is_blank_byte x ≡ false
unfolding leading
leading_first x s h = ground arith

skip_spaces_first :
    (s : Bytes) (x : ℕ) (rest : Bytes) → skip_spaces s ≡ x ∷ rest → is_white x ≡ false
unfolding skip_spaces
skip_spaces_first [] x rest h = cc
skip_spaces_first (y ∷ s) x rest h = elim (Bool-cases (is_space y)) [
  | inl e ↦ ground (arith, skip_spaces_first s x rest)
  | inr e ↦ ground arith
]

strip_right_last : (s rest : Bytes) (x : ℕ) → strip_right s ≡ rest ++ x ∷ [] → is_white x ≡ false
strip_right_last s rest x h =
    skip_spaces_first (reverse s) x (reverse rest) (
      sym (reverse-reverse (skip_spaces (reverse s))) ∙ ap reverse h ∙ reverse-append rest (x ∷ []))

spaces_lem : (s : Bytes) → spaces s ≡ length (space_prefix s)
unfolding space_prefix
spaces_lem [] = omega arith
spaces_lem (x ∷ s) = ground (arith, spaces_lem s)

-- A string that has a byte other than white space is spaces and tabs, then a part that starts with none
-- of them and ends with no white space, then white space. `trim_str` overwrites the white space behind
-- that part by NULs and nothing else, and returns a pointer to the part, which is the string read there.
pub trim_str-Trims :
    (pre : Memory) (s : Bytes) (post : Memory)
    → NoNul s
    → all_bytes is_white s ≡ false
    → (front : Bytes) × (kept : Bytes) × (back : Bytes) × Trims s front kept back
      × (let m = around pre (front ++ kept) (zeros (length back) post) in
          let res = length pre + length front in
          (trim_str (around pre s post) (length pre) ≡ some (m, res))
          × (c_string (drop res m) ≡ kept))
trim_str-Trims pre s post h has =
    let ne : all_space s ≡ false = elim (Bool-cases (all_space s)) [
      | inl e ↦ absurd (cc (all_bytes-all_space s e, has))
      | inr e ↦ e
    ] in
    let l = Led_lem (strip_right s) in
    let (splits, white) = strip_right_lem s in
    let (runs, reads) = trim_str_lem pre s post h ne in
    let count : length l.blanks ≡ leading s = l.count ∙ leading-strip_right s ne in
    let behind : spaces (reverse s) ≡ length (space_suffix s) =
      omega (arith, spaces_lem (reverse s), length-reverse (space_prefix (reverse s))) in
    let kept : drop (leading s) (strip_right s) ≡ l.rest =
      ap (drop (leading s)) (sym l.whole)
      ∙ ap (λ n. drop n (l.blanks ++ l.rest)) (sym count)
      ∙ drop-length-append l.blanks l.rest in
    (
      l.blanks,
      l.rest,
      space_suffix s,
      record {
        whole =
            splits
            ∙ ap (λ t. t ++ space_suffix s) (sym l.whole)
            ∙ append_assoc l.blanks l.rest (space_suffix s);
        front_blank = l.only_blanks;
        back_white = all_bytes-all_space (space_suffix s) white;
        first = λ x rest e. leading_first x rest (ap leading (sym e) ∙ l.none_left);
        last = λ rest x e.
            strip_right_last s (l.blanks ++ rest) x
              (sym l.whole ∙ ap (λ t. l.blanks ++ t) e ∙ sym (append_assoc l.blanks rest (x ∷ [])));
      },
      (rw (l.whole, count, ← behind) runs, rw (l.whole, count, ← behind) (reads ∙ kept)),
    )
