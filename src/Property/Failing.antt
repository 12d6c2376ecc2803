-- ===== src/Property/Failing.antt =====
-- `property_read` on a file that can be opened and whose reading fails from some point on, such as a
-- directory: `fgets` gives NULL there, and `feof` stays 0.
use sync_agent.Base.{
  ℕ, zero, suc, ◌-◌, ◌≡◌, ◌≢◌, ◌∙◌, ap, refl, Bool, true, false, none, some, Option, [], ◌∷◌, ◌==◌,
  if◌then◌else◌, Bytes,
}
use sync_agent.Property.{
  Line, skipped, item, Callback, callback_of, buffer_size, buffer_of, read_line,
}

-- `fgets` with room for `n` bytes, on what can still be read: `none` is NULL. A line that the failure
-- cuts off is lost.
unfoldable pub fgets_failing : ℕ → Bytes → Option (Bytes × Bytes)
fgets_failing zero content = some ([], content)
fgets_failing (suc n) [] = none
fgets_failing (suc n) (x ∷ xs) =
    let rest = fgets_failing n xs in
    if x == b'\n'
    then some (x ∷ [], xs)
    else elim rest [ none ↦ none | some (line, left) ↦ some (x ∷ line, left) ]

-- How far the loop has come: it goes on, it has left the line buffer, or it has returned.
pub data Progress (S : Type 0) : Type 0 where
  running faulted : Progress S
  returned : Bool → S → Progress S

-- A round of the loop on a line, with `next` for the rest of the loop.
unfoldable pub line_round :
    {S : Type 0} → Callback S → Option Line → Bool → S → (Bool → S → Progress S) → Progress S
line_round process none result s next = faulted
line_round process (some skipped) result s next = next result s
line_round process (some (item key value)) result s next =
    let (more, s') = process key value s in if more then next true s' else returned false s'

-- A round of the loop, by what `fgets` gives.
unfoldable pub one_round :
    {S : Type 0}
    → ℕ
    → Callback S
    → Option (Bytes × Bytes)
    → Bool
    → S
    → (Bytes → Bool → S → Progress S)
    → Progress S
unfolding read_line line_round
one_round c process none result s next = next [] result s
one_round c process (some (line, rest)) result s next =
    line_round process (read_line c (buffer_of line)) result s (next rest)

-- The loop of `property_read` after at most `rounds` rounds.
unfoldable pub read_failing : {S : Type 0} → ℕ → Callback S → ℕ → Bytes → Bool → S → Progress S
unfolding fgets_failing one_round
read_failing c process zero content result s = running
read_failing c process (suc rounds) content result s =
    one_round c process (fgets_failing (buffer_size - 1) content) result s
      (read_failing c process rounds)

-- `property_read` after at most `rounds` rounds of its loop, where `fopen` gives what can be read of a
-- file before its reading fails.
unfoldable pub property_read_failing :
    {S : Type 0}
    → ℕ
    → (Bytes → Option Bytes)
    → ℕ
    → Option Bytes
    → Option (Callback S)
    → S
    → Progress S
unfolding read_failing
property_read_failing c fopen rounds none process s = returned false s
property_read_failing c fopen rounds (some name) process s = elim (fopen name) [
  | none ↦ returned false s
  | some content ↦ read_failing c (callback_of process) rounds content false s
]

module _ {S : Type 0} (c : ℕ) (process : Callback S)
    (accepts : (key value : Bytes) (s : S) → (process key value s).0 ≡ true) where
  line_round-ne :
      (o : Option Line) (result : Bool) (s : S) (next : Bool → S → Progress S) (r : Bool) (s' : S)
      → ((b : Bool) (t : S) → next b t ≢ returned r s')
      → line_round process o result s next ≢ returned r s'
  unfolding line_round
  line_round-ne none result s next r s' ih = cc
  line_round-ne (some skipped) result s next r s' ih = ih result s
  line_round-ne (some (item key value)) result s next r s' ih =
      rw (accepts key value s) (ih true (process key value s).1)

  one_round-ne :
      (o : Option (Bytes × Bytes)) (result : Bool) (s : S) (next : Bytes → Bool → S → Progress S)
      (r : Bool) (s' : S)
      → ((content : Bytes) (b : Bool) (t : S) → next content b t ≢ returned r s')
      → one_round c process o result s next ≢ returned r s'
  unfolding one_round
  one_round-ne none result s next r s' ih = ih [] result s
  one_round-ne (some (line, rest)) result s next r s' ih =
      line_round-ne (read_line c (buffer_of line)) result s (next rest) r s' (ih rest)

  read_failing-ne :
      (rounds : ℕ) (content : Bytes) (result : Bool) (s : S) (r : Bool) (s' : S)
      → read_failing c process rounds content result s ≢ returned r s'
  unfolding read_failing
  read_failing-ne zero content result s r s' = cc
  read_failing-ne (suc rounds) content result s r s' =
      one_round-ne (fgets_failing (buffer_size - 1) content) result s
        (read_failing c process rounds) r s' (λ rest b t. read_failing-ne rounds rest b t r s')

nothing_read :
    {S : Type 0} (c : ℕ) (process : Callback S) (rounds : ℕ) (result : Bool) (s : S)
    → read_failing c process rounds [] result s ≡ running
unfolding read_failing one_round fgets_failing
nothing_read c process zero result s = refl
nothing_read c process (suc rounds) result s = nothing_read c process rounds result s

-- On a file that can be opened and whose reading fails from some point on, with a callback that refuses
-- no item, `property_read` has not returned after any number of rounds: it goes on, or has left the line
-- buffer. If nothing can be read of the file, as of a directory, it goes on after any number of rounds.
pub property_read_failing_lem :
    {S : Type 0} (c : ℕ) (fopen : Bytes → Option Bytes) (rounds : ℕ) (name content : Bytes)
    (process : Option (Callback S)) (s : S)
    → fopen name ≡ some content
    → ((key value : Bytes) (t : S) → (callback_of process key value t).0 ≡ true)
    → ((r : Bool) (s' : S)
        → property_read_failing c fopen rounds (some name) process s ≢ returned r s')
      × (content ≡ [] → property_read_failing c fopen rounds (some name) process s ≡ running)
unfolding property_read_failing
property_read_failing_lem c fopen rounds name content process s e accepts = (
  λ r s'.
      rw (e, property_read_failing)
        (read_failing-ne c (callback_of process) accepts rounds content false s r s'),
  λ empty.
      rw (e, property_read_failing)
        (ap (λ t. read_failing c (callback_of process) rounds t false s) empty
          ∙ nothing_read c (callback_of process) rounds false s),
)
