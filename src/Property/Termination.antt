-- ===== src/Property/Termination.antt =====
-- `property_read` comes to an end on every file, unless a line makes it leave its buffer.
use sync_agent.Base.{
  ◌⊎◌, ◌↔◌, ℕ, zero, suc, ◌+◌, ◌-◌, ◌<◌, ◌≤◌, ◌≡◌, ◌∙◌, sym, ap, refl, Bool, true, false, none,
  some, Option, [], ◌∷◌, ◌++◌, arith, length, Bool-cases, inl, inr, ◌==◌, Bytes, length-append,
  if◌then◌else◌,
}
use sync_agent.Property.{
  Line, skipped, item, Callback, default_item_process_cb, callback_of, buffer_size, buffer_of,
  fgets, read_line, after_line, read_lines, property_read,
}

fgets-append : (n : ℕ) (xs : Bytes) → (fgets n xs).0 ++ (fgets n xs).1 ≡ xs
unfolding fgets
fgets-append zero xs = refl
fgets-append (suc n) [] = refl
fgets-append (suc n) (x ∷ xs) = elim (Bool-cases (x == b'\n')) [
  | inl e ↦ rw e
  | inr e ↦ rw e (ap (◌∷◌ x) (fgets-append n xs))
]

fgets-shorter : (n : ℕ) (x : ℕ) (xs : Bytes) → length (fgets (suc n) (x ∷ xs)).1 ≤ length xs
unfolding fgets
fgets-shorter n x xs = elim (Bool-cases (x == b'\n')) [
  | inl e ↦ rw e (omega arith)
  | inr e ↦
      let l : length (fgets n xs).0 + length (fgets n xs).1 ≡ length xs =
        sym (length-append (fgets n xs).0 (fgets n xs).1) ∙ ap length (fgets-append n xs) in
      rw e (omega arith)
]

-- The file has a line, as `fgets` reads it, on which the body of the loop leaves the buffer.
pub data Faulty (c : ℕ) : Bytes → Type 0 where
  here :
      (x : ℕ) (xs : Bytes)
      → read_line c (buffer_of (fgets (buffer_size - 1) (x ∷ xs)).0) ≡ none
      → Faulty c (x ∷ xs)
  later : (x : ℕ) (xs : Bytes) → Faulty c (fgets (buffer_size - 1) (x ∷ xs)).1 → Faulty c (x ∷ xs)

module _ {S : Type 0} (c : ℕ) (process : Callback S) where
  after_callback :
      (more : Bool) (s' : S) (next : Bool → S → Option (Bool × S))
      → (if more then next true s' else some (false, s')) ≡ none
      → next true s' ≡ none
  after_callback true s' next h = h
  after_callback false s' next h = cc

  by_line :
      (x : ℕ) (xs : Bytes) (o : Option Line) (result : Bool) (s : S)
      (next : Bool → S → Option (Bool × S))
      → read_line c (buffer_of (fgets (buffer_size - 1) (x ∷ xs)).0) ≡ o
      → after_line process o result s next ≡ none
      → ((r : Bool) (s' : S) → next r s' ≡ none → Faulty c (fgets (buffer_size - 1) (x ∷ xs)).1)
      → Faulty c (x ∷ xs)
  unfolding after_line
  by_line x xs none result s next e h ih = here x xs e
  by_line x xs (some skipped) result s next e h ih = later x xs (ih result s h)
  by_line x xs (some (item key value)) result s next e h ih =
      let called = process key value s in
      later x xs (ih true called.1 (after_callback called.0 called.1 next h))

  rest_fits :
      (fuel x : ℕ) (xs rest : Bytes)
      → length (x ∷ xs) < suc fuel
      → length rest ≤ length xs
      → length rest < fuel
  rest_fits fuel x xs rest f l = omega arith

  -- Every line but the empty one at the end of the file takes a byte.
  read_lines_faults :
      (fuel : ℕ) (content : Bytes) (result : Bool) (s : S)
      → length content < fuel
      → read_lines c process fuel content result s ≡ none
      → Faulty c content
  unfolding read_lines
  read_lines_faults zero content result s f h = absurd (omega arith)
  read_lines_faults (suc fuel) [] result s f h = cc
  read_lines_faults (suc fuel) (x ∷ xs) result s f h =
      let fg = fgets (suc 2046) (x ∷ xs) in
      let shorter : length fg.1 ≤ length xs = fgets-shorter 2046 x xs in
      by_line x xs (read_line c (buffer_of fg.0)) result s (read_lines c process fuel fg.1) refl h
        (λ r s' q. read_lines_faults fuel fg.1 r s' (rest_fits fuel x xs fg.1 f shorter) q)

fault_or_result : {A B : Type 0} (o : Option A) → (o ≡ none → B) → B ⊎ ((r : A) × (o ≡ some r))
fault_or_result none f = inl (f refl)
fault_or_result (some r) f = inr (r, refl)

-- `property_read` of a file that can be opened and whose reads do not fail returns, whatever the file and
-- the callback, unless the file has a line on which the body of the loop leaves the line buffer.
pub property_read_returns :
    {S : Type 0} (c : ℕ) (fopen : Bytes → Option Bytes) (name content : Bytes)
    (process : Option (Callback S)) (s : S)
    → fopen name ≡ some content
    → Faulty c content ⊎ ((r : Bool × S) × (property_read c fopen (some name) process s ≡ some r))
unfolding property_read
property_read_returns c fopen name content process s e =
    fault_or_result (property_read c fopen (some name) process s) (λ h.
      read_lines_faults c (callback_of process) (suc (length content)) content false s (omega arith)
        (rw (e, property_read) at h))

module _ {S : Type 0} (c : ℕ) where
  faulty_line :
      (o : Option Line) (result : Bool) (s : S) (next : Bool → S → Option (Bool × S))
      → ((r : Bool) → next r s ≡ none)
      → after_line default_item_process_cb o result s next ≡ none
  unfolding after_line
  faulty_line none result s next n = refl
  faulty_line (some skipped) result s next n = n result
  faulty_line (some (item key value)) result s next n = n true

  Faulty-none :
      (fuel : ℕ) (content : Bytes) (result : Bool) (s : S)
      → Faulty c content
      → read_lines c default_item_process_cb fuel content result s ≡ none
  unfolding read_lines after_line
  Faulty-none zero content result s f = refl
  Faulty-none (suc fuel) ys result s (here x xs e) = rw e
  Faulty-none (suc fuel) ys result s (later x xs f) =
      let fg = fgets (suc 2046) (x ∷ xs) in
      faulty_line (read_line c (buffer_of fg.0)) result s
        (read_lines c default_item_process_cb fuel fg.1) (λ r. Faulty-none fuel fg.1 r s f)

-- Without a callback `property_read` of a file that can be opened and whose reads do not fail leaves the
-- line buffer exactly where
-- the file has a line on which the body of the loop does; on every other file it returns.
pub default_read_faults :
    {S : Type 0} (c : ℕ) (fopen : Bytes → Option Bytes) (name content : Bytes) (s : S)
    → fopen name ≡ some content
    → property_read c fopen (some name) none s ≡ none ↔ Faulty c content
unfolding property_read
default_read_faults c fopen name content s e = (
  (λ h.
      read_lines_faults c default_item_process_cb (suc (length content)) content false s
        (omega arith) (rw (e, property_read) at h)),
  (λ f. rw (e, property_read) (Faulty-none c (suc (length content)) content false s f)),
)
