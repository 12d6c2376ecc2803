-- ===== src/Property/Parse.antt =====
-- What the body of the loop of `property_read` makes of a line that has an item.
use mathlib.Core.Path.{subst}
use native.Mathlib.Nat.{zero-add}
use mathlib.Core.List.{reverse}
use sync_agent.Base.{
  ℕ, ◌+◌, ◌≤◌, ◌≡◌, ◌≢◌, ◌∙◌, sym, ap, refl, false, none, some, [], ◌∷◌, ◌++◌, arith, length, drop,
  ◌==◌, Bytes, Memory, c_string, NoNul, ◌&&◌, inl, inr, append_assoc, length-append,
  drop-length-append, drop-append, c_string-append-nul, NoNul-split, NoNul-append,
}
use sync_agent.Base.Int.{pos, negsuc}
use sync_agent.Text.{is_blank, trim_str, char_at, leading, all_space}
use sync_agent.Text.Scan.{
  Without, until, char_at-append, until-prefix, until-NoNul, delete_comment-until, is_comment-until,
  SplitsAt, char_at_lem,
}
use sync_agent.Text.Strip.{
  strip_right, trimmed, spaces, space_suffix, strip_right_lem, strip_right-append, strip_right-cons,
  all_space-append, trimmed-strip_right, NoNul-drop, leading-append,
}
use sync_agent.Text.Trim.{zeros, trim_str_lem}
use sync_agent.Property.{item, cut, split_line, read_line}
use sync_agent.Property.Stages.{
  trim-Value, trim-Key, cut-append, strip_right-NoNul, Without-drop, length-drop_add,
  split_line_stages,
}

module _ (a b : Bytes) (plain : Without b'=' a) (ne : all_space a ≡ false) where
  line_ne : all_space (a ++ b'=' ∷ b) ≡ false
  line_ne = all_space-append a (b'=' ∷ b) ∙ ap (λ x. x && all_space (b'=' ∷ b)) ne

  line_lead : leading (a ++ b'=' ∷ b) ≡ leading a
  line_lead = (leading-append a (b'=' ∷ b) ne).0

  line_strip : strip_right (a ++ b'=' ∷ b) ≡ a ++ b'=' ∷ strip_right b
  line_strip =
      strip_right-append a (b'=' ∷ b) (unfold all_space in refl)
      ∙ ap (λ t. a ++ t) (strip_right-cons b'=' b refl)

  -- The offset of the `=` in the string that `trim_str` returns.
  line_offset :
      (post : Memory)
      → NoNul (a ++ b'=' ∷ strip_right b)
      → char_at (some (c_string (drop (leading a) (a ++ b'=' ∷ (strip_right b ++ 0 ∷ post))))) b'='
        ≡ pos (length (drop (leading a) a))
  line_offset post h =
      let n = leading a in
      let small : n ≤ length a = (leading-append a [] ne).1 in
      let parts = NoNul-split a (b'=' ∷ strip_right b) h in
      let text = drop n a ++ b'=' ∷ strip_right b in
      let read : drop n (a ++ b'=' ∷ (strip_right b ++ 0 ∷ post)) ≡ text ++ 0 ∷ post =
        drop-append n a (b'=' ∷ (strip_right b ++ 0 ∷ post)) small
        ∙ sym (append_assoc (drop n a) (b'=' ∷ strip_right b) (0 ∷ post)) in
      ap (λ m. char_at (some (c_string m)) b'=') read
      ∙ ap (λ t. char_at (some t) b'=')
          (c_string-append-nul text post
            (NoNul-append (drop n a) (b'=' ∷ strip_right b) (NoNul-drop n a parts.0) parts.1))
      ∙ char_at-append (drop n a) (strip_right b) b'=' (Without-drop b'=' n a plain)

  -- A string with an `=` behind a key becomes an item: the key and the value are the trimmed parts
  -- before and behind the first `=`.
  pub split_line_lem :
      (post : Memory)
      → NoNul (a ++ b'=' ∷ b)
      → split_line ((a ++ b'=' ∷ b) ++ 0 ∷ post) ≡ some (item (trimmed a) (trimmed b))
  split_line_lem post h =
      let s = a ++ b'=' ∷ b in
      let t = strip_right b in
      let p₁ = zeros (spaces (reverse s)) post in
      let parts = NoNul-split a (b'=' ∷ b) h in
      let okt : NoNul t = strip_right-NoNul b parts.1.1 in
      let first : trim_str (s ++ 0 ∷ post) 0 ≡ some (a ++ b'=' ∷ (t ++ 0 ∷ p₁), leading a) =
        (trim_str_lem [] s post h line_ne).0
        ∙ ap (λ m. some (m ++ 0 ∷ p₁, 0 + leading s)) line_strip
        ∙ rw (append_assoc, line_lead, zero-add) in
      let value = trim-Value a t p₁ okt in
      let key = trim-Key a value.rest parts.0 ne in
      let shape : (r : Memory) → (a ++ 0 ∷ []) ++ r ≡ a ++ 0 ∷ r = append_assoc a (0 ∷ []) in
      let place : length (a ++ 0 ∷ []) ≡ length a + 1 = length-append a (0 ∷ []) in
      split_line_stages (s ++ 0 ∷ post) (a ++ b'=' ∷ (t ++ 0 ∷ p₁)) (a ++ 0 ∷ (t ++ 0 ∷ p₁))
        (a ++ 0 ∷ value.rest) key.memory (leading a) (length a + 1) (length a + 1 + value.shift)
        key.start first
        (ap (cut (a ++ b'=' ∷ (t ++ 0 ∷ p₁)) (leading a))
            (line_offset p₁ (subst NoNul line_strip (strip_right-NoNul s h)))
          ∙ cut-append a (t ++ 0 ∷ p₁) (leading a) (length (drop (leading a) a))
              (length-drop_add (leading a) a (leading-append a [] ne).1))
        (rw (← shape (t ++ 0 ∷ p₁), ← place, ← shape value.rest) value.result) key.result
      ∙ rw (key.key, key.behind value.shift, value.value, trimmed-strip_right)

-- The body of the loop on a line `body` that is not a comment: it goes on with the part before the
-- comment.
read_line-until :
    (c : ℕ) (body : Bytes) (post : Memory)
    → c ≢ 0
    → NoNul body
    → all_space (until c body) ≡ false
    → (more : Memory) × (read_line c (body ++ 0 ∷ post) ≡ split_line (until c body ++ 0 ∷ more))
read_line-until c body post nz h ne =
    let (more, e) = delete_comment-until body post c in
    let (tail, whole) = until-prefix c body in
    let blank : is_blank (some body) ≡ false =
      unfold is_blank in
      (ap all_space whole
        ∙ all_space-append (until c body) tail
        ∙ ap (λ x. x && all_space tail) ne) in
    let zero : (c == 0) ≡ false = ground arith in
    (
      more,
      unfold read_line in
          rw (
            c_string-append-nul body post h,
            blank,
            zero,
            is_comment-until c body ne,
            drop-length-append body (0 ∷ post),
            e,
          ),
    )

-- A line whose part before the comment has an `=`, and in front of it a byte that is no white space,
-- becomes an item: the key and the value are the trimmed parts before and behind the first `=`.
pub read_line_lem :
    (c : ℕ) (body a b : Bytes) (post : Memory)
    → c ≢ 0
    → NoNul body
    → until c body ≡ a ++ b'=' ∷ b
    → Without b'=' a
    → all_space a ≡ false
    → read_line c (body ++ 0 ∷ post) ≡ some (item (trimmed a) (trimmed b))
read_line_lem c body a b post nz h u plain ne =
    let (more, e) = read_line-until c body post nz h (ap all_space u ∙ line_ne a b plain ne) in
    e
    ∙ ap (λ t. split_line (t ++ 0 ∷ more)) u
    ∙ split_line_lem a b plain ne more (subst NoNul u (until-NoNul c body h))

Without-append : (c : ℕ) (a b : Bytes) → Without c (a ++ c ∷ b) → ⊥
Without-append c [] b h = h.0 refl
Without-append c (x ∷ a) b h = Without-append c a b h.1

Without-left : (c : ℕ) (a b : Bytes) → Without c (a ++ b) → Without c a
Without-left c [] b h = tt
Without-left c (x ∷ a) b h = (h.0, Without-left c a b h.1)

char_at-Without : (s : Bytes) (c : ℕ) → Without c s → char_at (some s) c ≡ negsuc 0
char_at-Without s c h = elim (char_at_lem s c) [
  | inl (_, e) ↦ e
  | inr (p, e) ↦ absurd (Without-first c s p h)
]
  where
    Without-first : (c : ℕ) (s : Bytes) (p : SplitsAt c s) → Without c s → ⊥
    Without-first c s p h = (Without-append c p.before p.after (subst (Without c) p.splits h))

split_line_stuck :
    (m : Memory) (t : Bytes) (post : Memory)
    → trim_str m 0 ≡ some (t ++ 0 ∷ post, 0)
    → NoNul t
    → Without b'=' t
    → split_line m ≡ none
unfolding split_line
split_line_stuck m t post e h plain =
    rw (e, c_string-append-nul t post h, char_at-Without t b'=' plain)

-- A line with no `=` that begins with a byte other than white space makes the code write in front
-- of its line buffer.
pub read_line_no_equals :
    (c : ℕ) (body : Bytes) (post : Memory)
    → c ≢ 0
    → NoNul body
    → Without b'=' (until c body)
    → all_space (until c body) ≡ false
    → leading (until c body) ≡ 0
    → read_line c (body ++ 0 ∷ post) ≡ none
read_line_no_equals c body post nz h plain ne lead =
    let t = until c body in
    let (more, e) = read_line-until c body post nz h ne in
    let ok = until-NoNul c body h in
    let first : trim_str (t ++ 0 ∷ more) 0
        ≡ some (strip_right t ++ 0 ∷ zeros (spaces (reverse t)) more, 0) =
      (trim_str_lem [] t more ok ne).0 ∙ rw (lead, zero-add) in
    let kept : Without b'=' (strip_right t) =
      Without-left b'=' (strip_right t) (space_suffix t)
        (subst (Without b'=') (strip_right_lem t).0 plain) in
    e
    ∙ split_line_stuck (t ++ 0 ∷ more) (strip_right t) (zeros (spaces (reverse t)) more) first
        (strip_right-NoNul t ok) kept
