-- ===== src/Property/Stages.antt =====
-- The steps of the loop of `property_read` on one line: the two calls of `trim_str` and the cut between
-- key and value.
use mathlib.Core.Path.{subst}
use mathlib.Core.List.{reverse}
use sync_agent.Base.{
  ℕ, zero, suc, ◌+◌, ◌≤◌, ◌≡◌, ◌∙◌, sym, ap, false, some, [], ◌∷◌, ◌++◌, arith, length, drop,
  Bool-cases, Bytes, Memory, c_string, NoNul, inl, inr, append_assoc, length-append,
  drop-length_add, NoNul-split, length-reverse,
}
use sync_agent.Base.Int.{pos}
use sync_agent.Text.{trim_str, char_at, leading, all_space}
use sync_agent.Text.Scan.{Without}
use sync_agent.Text.Strip.{
  skip_spaces, strip_right, trimmed, spaces, space_suffix, strip_right_lem, trimmed-all,
  length-skip_spaces, Led_lem, trimmed-Led,
}
use sync_agent.Text.Trim.{around, zeros, trim_str_lem, trim_str_blank}
use sync_agent.Property.{item, cut, split_line, store_nul}

-- The value behind a NUL is trimmed, and the memory before it stays.
pub record Value (p : Memory) (t : Bytes) (m : Memory) : Type 0 where
  pub rest : Memory
  pub shift : ℕ
  pub result : trim_str m (length p) ≡ some (p ++ rest, length p + shift)
  pub value : c_string (drop shift rest) ≡ trimmed t

pub trim-Value :
    (q : Memory) (t : Bytes) (post : Memory)
    → NoNul t
    → Value (q ++ 0 ∷ []) t (around (q ++ 0 ∷ []) t post)
trim-Value q t post h = elim (Bool-cases (all_space t)) [
  | inl e ↦
      let p = q ++ 0 ∷ [] in
      let (r, v) = trim_str_blank q t post h e in
      record {
        rest = 0 ∷ zeros (length t) post;
        shift = leading (t ++ 0 ∷ post);
        result = r;
        value =
            ap c_string
              (sym (drop-length_add p (0 ∷ zeros (length t) post) (leading (t ++ 0 ∷ post))))
            ∙ v
            ∙ sym (trimmed-all t e);
      }
  | inr e ↦
      let p = q ++ 0 ∷ [] in
      let (r, v) = trim_str_lem p t post h e in
      record {
        rest = strip_right t ++ 0 ∷ zeros (spaces (reverse t)) post;
        shift = leading t;
        result = r;
        value =
            ap c_string (
              sym (
                drop-length_add p (strip_right t ++ 0 ∷ zeros (spaces (reverse t)) post)
                  (leading t)))
            ∙ v;
      }
]

pub drop-zeros : (n j : ℕ) (m : Memory) → drop (n + j) (zeros n m) ≡ drop j m
drop-zeros zero j m = let e : 0 + j ≡ j = omega arith in rw e
drop-zeros (suc n) j m =
    let e : suc n + j ≡ n + suc j = omega arith in rw e (drop-zeros n (suc j) (0 ∷ m))

-- The key in front of the NUL is trimmed, and what stands behind the NUL keeps its place.
pub record Key (a : Bytes) (r : Memory) : Type 0 where
  pub memory : Memory
  pub start : ℕ
  pub result : trim_str (a ++ 0 ∷ r) (leading a) ≡ some (memory, start)
  pub key : c_string (drop start memory) ≡ trimmed a
  pub behind : (j : ℕ) → drop (length a + 1 + j) memory ≡ drop j r

pub trim-Key : (a : Bytes) (r : Memory) → NoNul a → all_space a ≡ false → Key a r
trim-Key a r h ne =
    let l = Led_lem a in
    let (ne', same) = trimmed-Led a l ne in
    let parts = NoNul-split l.blanks l.rest (subst NoNul (sym l.whole) h) in
    let (res, val) = trim_str_lem l.blanks l.rest r parts.1 ne' in
    let w = spaces (reverse l.rest) in
    let before : a ++ 0 ∷ r ≡ around l.blanks l.rest r =
      ap (λ t. t ++ 0 ∷ r) (sym l.whole) ∙ append_assoc l.blanks l.rest (0 ∷ r) in
    let size : length a ≡ length l.blanks + (length (strip_right l.rest) + w) =
      ap length (sym l.whole)
      ∙ length-append l.blanks l.rest
      ∙ omega (
        arith,
        length-skip_spaces (reverse l.rest),
        length-reverse l.rest,
        length-reverse (skip_spaces (reverse l.rest)),
      ) in
    record {
      memory = around l.blanks (strip_right l.rest) (zeros w r);
      start = length l.blanks + leading l.rest;
      result = rw (before, ← l.count) res;
      key = val ∙ same;
      behind = λ j.
          let e : length a + 1 + j ≡ length l.blanks + (length (strip_right l.rest) + suc (w + j)) =
            omega arith in
          rw (e, drop-length_add l.blanks, drop-length_add (strip_right l.rest)) (drop-zeros w j r);
    }

pub store_nul-append :
    (a : Memory) (x : ℕ) (r : Memory) → store_nul (a ++ x ∷ r) (length a) ≡ some (a ++ 0 ∷ r)
store_nul-append [] x r = ground arith
store_nul-append (y ∷ a) x r = ground (arith, store_nul-append a x r)

-- `line[offset] = 0` at the `=` behind the key.
pub cut-append :
    (a r : Memory) (n k : ℕ)
    → n + k ≡ length a
    → cut (a ++ b'=' ∷ r) n (pos k) ≡ some (a ++ 0 ∷ r, length a + 1)
unfolding cut
cut-append a r n k e = rw (e, store_nul-append a b'=' r)

pub strip_right-NoNul : (s : Bytes) → NoNul s → NoNul (strip_right s)
strip_right-NoNul s h =
    (NoNul-split (strip_right s) (space_suffix s) (subst NoNul (strip_right_lem s).0 h)).0

pub Without-drop : (c n : ℕ) (s : Bytes) → Without c s → Without c (drop n s)
Without-drop c zero s h = h
Without-drop c (suc n) [] h = tt
Without-drop c (suc n) (x ∷ s) h = Without-drop c n s h.1

pub length-drop_add : (n : ℕ) (s : Bytes) → n ≤ length s → n + length (drop n s) ≡ length s
length-drop_add zero s h = omega arith
length-drop_add (suc n) [] h = absurd (omega arith)
length-drop_add (suc n) (x ∷ s) h = omega (arith, length-drop_add n s)

-- `split_line` from the results of its four steps.
pub split_line_stages :
    (m m₁ m₂ m₃ m₄ : Memory) (line after value key : ℕ)
    → trim_str m 0 ≡ some (m₁, line)
    → cut m₁ line (char_at (some (c_string (drop line m₁))) b'=') ≡ some (m₂, after)
    → trim_str m₂ after ≡ some (m₃, value)
    → trim_str m₃ line ≡ some (m₄, key)
    → split_line m ≡ some (item (c_string (drop key m₄)) (c_string (drop value m₄)))
unfolding split_line
split_line_stages m m₁ m₂ m₃ m₄ line after value key e₁ e₂ e₃ e₄ = rw (e₁, e₂, e₃, e₄)
