-- ===== src/Property/Loop.antt =====
-- The loop of `property_read` over the lines of a file, against the list of the file's items.
use mathlib.Core.Path.{subst}
use sync_agent.Base.{
  ℕ, zero, suc, ◌+◌, ◌-◌, ◌<◌, ◌≤◌, ◌≡◌, ◌≢◌, ◌∙◌, sym, ap, refl, Bool, true, false, some, List,
  Option, [], ◌∷◌, ◌++◌, arith, length, replicate, Bool-cases, ◌==◌, Bytes, Memory, NoNul, inl, inr,
  length-append, c_string-append-nul, NoNul-append,
}
use sync_agent.Text.{is_blank, is_comment, all_space}
use sync_agent.Text.Scan.{Without, until}
use sync_agent.Text.Strip.{trimmed}
use sync_agent.Property.{
  Line, skipped, item, buffer_size, buffer_of, read_line, fgets, Callback, callback_of, after_line,
  read_lines, property_read,
}
use sync_agent.Property.Parse.{read_line_lem}

-- What a line, with its line end, says.
pub data Means (c : ℕ) (line : Bytes) : Line → Type 0 where
  blank : is_blank (some line) ≡ true → Means c line skipped
  comment : is_comment (some line) c ≡ true → Means c line skipped
  entry :
      (a b : Bytes)
      → until c line ≡ a ++ b'=' ∷ b
      → Without b'=' a
      → all_space a ≡ false
      → Means c line (item (trimmed a) (trimmed b))

-- The lines of a file in order, each at most as long as the buffer takes. The last one may lack its
-- line end.
pub data Holds (c : ℕ) : Bytes → List Line → Type 0 where
  nothing : {content : Bytes} → content ≡ [] → Holds c content []
  ended :
      {content rest : Bytes} {l : Line} {ls : List Line} (text : Bytes)
      → content ≡ text ++ b'\n' ∷ rest
      → Without b'\n' text
      → NoNul text
      → length text + 2 ≤ buffer_size
      → Means c (text ++ b'\n' ∷ []) l
      → Holds c rest ls
      → Holds c content (l ∷ ls)
  unended :
      {content : Bytes} {l : Line}
      → content ≢ []
      → Without b'\n' content
      → NoNul content
      → length content + 1 ≤ buffer_size
      → Means c content l
      → Holds c content (l ∷ [])

-- The items of the lines, given to the callback in order until it returns 0; the result is that of
-- the last call, or the one at the start.
unfoldable pub run_items : {S : Type 0} → Callback S → List Line → Bool → S → Bool × S
run_items process [] result s = (result, s)
run_items process (skipped ∷ ls) result s = run_items process ls result s
run_items process (item key value ∷ ls) result s = elim (process key value s).0 [
  | true ↦ run_items process ls true (process key value s).1
  | false ↦ (false, (process key value s).1)
]

read_line-Means :
    (c : ℕ) (body : Bytes) (post : Memory) (l : Line)
    → c ≢ 0
    → NoNul body
    → Means c body l
    → read_line c (body ++ 0 ∷ post) ≡ some l
read_line-Means c body post l nz h (blank e) =
    unfold read_line in rw (c_string-append-nul body post h, e)
read_line-Means c body post l nz h (comment e) =
    let zero : (c == 0) ≡ false = ground arith in
    elim (Bool-cases (is_blank (some body))) [
      | inl b ↦ unfold read_line in rw (c_string-append-nul body post h, b)
      | inr b ↦ unfold read_line in rw (c_string-append-nul body post h, b, zero, e)
    ]
read_line-Means c body post l nz h (entry a b u plain ne) =
    read_line_lem c body a b post nz h u plain ne

fgets_line :
    (n : ℕ) (text rest : Bytes)
    → Without b'\n' text
    → length text < n
    → fgets n (text ++ b'\n' ∷ rest) ≡ (text ++ b'\n' ∷ [], rest)
unfolding fgets
fgets_line zero text rest h l = absurd (omega arith)
fgets_line (suc n) [] rest h l = refl
fgets_line (suc n) (x ∷ text) rest h l = ground (arith, fgets_line n text rest)

fgets_last :
    (n : ℕ) (text : Bytes) → Without b'\n' text → length text ≤ n → fgets n text ≡ (text, [])
unfolding fgets
fgets_last zero [] h l = refl
fgets_last zero (x ∷ text) h l = absurd (omega arith)
fgets_last (suc n) [] h l = refl
fgets_last (suc n) (x ∷ text) h l = ground (arith, fgets_last n text)

buffer_of_short :
    (text : Bytes)
    → length text < buffer_size
    → (post : Memory) × (buffer_of text ≡ text ++ 0 ∷ post)
buffer_of_short text h =
    (replicate (buffer_size - length text - 1) 0, fill (buffer_size - length text) (omega arith))
  where
    fill : (n : ℕ) → 0 < n → text ++ replicate n 0 ≡ text ++ 0 ∷ replicate (n - 1) 0
    fill zero p = absurd (omega arith)
    fill (suc n) p = ap (λ k. text ++ 0 ∷ replicate k 0) (omega arith)

module _ {S : Type 0} (c : ℕ) (nz : c ≢ 0) (process : Callback S) where
  -- One round of the loop, on a content that is not empty.
  round :
      (fuel : ℕ) (content text rest : Bytes) (l : Line) (result : Bool) (s : S)
      → content ≢ []
      → fgets (buffer_size - 1) content ≡ (text, rest)
      → length text < buffer_size
      → NoNul text
      → Means c text l
      → read_lines c process (suc fuel) content result s
        ≡ after_line process (some l) result s (read_lines c process fuel rest)
  unfolding read_lines
  round fuel [] text rest l result s ne f short h m = absurd (ne refl)
  round fuel (x ∷ xs) text rest l result s ne f short h m =
      let (post, e) = buffer_of_short text short in rw (f, e, read_line-Means c text post l nz h m)

  after_line-item :
      (l : Line) (ls : List Line) (result : Bool) (s : S) (next : Bool → S → Option (Bool × S))
      → ((r : Bool) (s' : S) → next r s' ≡ some (run_items process ls r s'))
      → after_line process (some l) result s next ≡ some (run_items process (l ∷ ls) result s)
  unfolding after_line run_items
  after_line-item skipped ls result s next h = h result s
  after_line-item (item key value) ls result s next h = elim (Bool-cases (process key value s).0) [
    | inl e ↦ rw (e, run_items) (h true (process key value s).1)
    | inr e ↦ rw (e, run_items)
  ]

  NoNul-line : (text : Bytes) → NoNul text → NoNul (text ++ b'\n' ∷ [])
  NoNul-line text h = NoNul-append text (b'\n' ∷ []) h (omega arith)

  line-ne-nil : (text rest : Bytes) → text ++ b'\n' ∷ rest ≢ []
  line-ne-nil [] rest e = cc
  line-ne-nil (x ∷ text) rest e = cc

  read_lines_nil :
      (fuel : ℕ) (r : Bool) (s : S)
      → 0 < fuel
      → read_lines c process fuel [] r s ≡ some (run_items process [] r s)
  unfolding read_lines run_items
  read_lines_nil zero r s h = absurd (omega arith)
  read_lines_nil (suc fuel) r s h = refl

  nonempty : {fuel : ℕ} (content : Bytes) → content ≢ [] → length content < suc fuel → 0 < fuel
  nonempty [] ne h = absurd (ne refl)
  nonempty (x ∷ xs) ne h = omega arith

  -- With fuel for every byte, the loop gives the callback the items of the lines in order.
  pub read_lines_lem :
      (fuel : ℕ) (content : Bytes) (ls : List Line) (result : Bool) (s : S)
      → length content < fuel
      → Holds c content ls
      → read_lines c process fuel content result s ≡ some (run_items process ls result s)
  read_lines_lem zero content ls result s f h = absurd (omega arith)
  read_lines_lem (suc fuel) content ls result s f (nothing e) =
      rw e (unfold read_lines run_items in refl)
  read_lines_lem (suc fuel) content ls result s f
        (ended {rest} {l} {ls = more} text e plain ok short m holds) =
      let size : length content ≡ length text + suc (length rest) =
        ap length e ∙ length-append text (b'\n' ∷ rest) in
      round fuel content (text ++ b'\n' ∷ []) rest l result s
        (subst (λ t. t ≢ []) (sym e) (line-ne-nil text rest))
        (ap (fgets (buffer_size - 1)) e
          ∙ fgets_line (buffer_size - 1) text rest plain (omega arith))
        (omega (arith, length-append text (b'\n' ∷ []))) (NoNul-line text ok) m
      ∙ after_line-item l more result s (read_lines c process fuel rest)
          (λ r s'. read_lines_lem fuel rest more r s' (omega arith) holds)
  read_lines_lem (suc fuel) content ls result s f (unended {l} ne plain ok short m) =
      round fuel content content [] l result s ne
        (fgets_last (buffer_size - 1) content plain (omega arith)) (omega arith) ok m
      ∙ after_line-item l [] result s (read_lines c process fuel [])
          (λ r s'. read_lines_nil fuel r s' (nonempty content ne f))

property_read-opens :
    {S : Type 0} (c : ℕ) (fopen : Bytes → Option Bytes) (name content : Bytes)
    (process : Option (Callback S)) (s : S)
    → fopen name ≡ some content
    → property_read c fopen (some name) process s
      ≡ read_lines c (callback_of process) (suc (length content)) content false s
unfolding property_read
property_read-opens c fopen name content process s e = rw (e, property_read)

-- `property_read` on a file whose lines all are blank, comments or items: no access leaves the line
-- buffer, and the callback gets the items in order, up to the first for which it returns 0. The
-- result is that of the last call of the callback, and 0 if there is none.
pub property_read_lem :
    {S : Type 0} (c : ℕ) (fopen : Bytes → Option Bytes) (name content : Bytes)
    (process : Option (Callback S)) (ls : List Line) (s : S)
    → c ≢ 0
    → fopen name ≡ some content
    → Holds c content ls
    → property_read c fopen (some name) process s
      ≡ some (run_items (callback_of process) ls false s)
property_read_lem c fopen name content process ls s nz e h =
    property_read-opens c fopen name content process s e
    ∙ read_lines_lem c nz (callback_of process) (suc (length content)) content ls false s
        (omega arith) h
