-- ===== src/Text/Split.antt =====
-- `split_url` against the parts of a path.
use mathlib.Core.Path.{subst}
use mathlib.Core.List.{reverse, reverse-reverse, reverse-cons}
use sync_agent.Base.{
  ℕ, ◌+◌, ◌-◌, ◌<◌, ◌≤◌, ◌≡◌, ◌≢◌, ◌∙◌, ◌⊎◌, inl, inr, sym, ap, refl, true, false, none, some,
  Option, [], ◌∷◌, ◌++◌, arith, length, if◌then◌else◌, Bool-cases, ◌==◌, Bytes, ◌||◌, append_assoc,
  append-nil, length-append, take-of_le, length-take,
}
use sync_agent.Text.{last_slash, ends_in_slash, split_url, copy_parts, copy_at_most}
use sync_agent.Text.Scan.{Without}

-- `path` ends with a slash or is empty, `name` has none, and together they are the url.
pub record Parts (url path name : Bytes) : Type 0 where
  pub whole : path ++ name ≡ url
  pub path_end : (path ≡ []) ⊎ (ends_in_slash path ≡ true)
  pub name_plain : Without b'/' name

ends_in_slash-append : (a : Bytes) → ends_in_slash (a ++ b'/' ∷ []) ≡ true
unfolding ends_in_slash
ends_in_slash-append [] = refl
ends_in_slash-append (x ∷ []) = refl
ends_in_slash-append (x ∷ y ∷ a) = ends_in_slash-append (y ∷ a)

-- What the search for the last slash of a url may return.
abbrev Found : Bytes → Option (Bytes × Bytes) → Type 0
Found url none = Without b'/' url
Found url (some (path, name)) = Parts url path name

-- The search from the end finds the last slash, or there is none.
last_slash_lem :
    (b after : Bytes) → Without b'/' after → Found (reverse b ++ after) (last_slash b after)
unfolding last_slash
last_slash_lem [] after h = h
last_slash_lem (x ∷ b) after h = elim (Bool-cases (x == b'/')) [
  | inl e ↦ rw e (record {
    whole = refl;
    path_end = inr (
        ap ends_in_slash (reverse-cons x b ∙ ap (λ y. reverse b ++ y ∷ []) (ground arith))
        ∙ ends_in_slash-append (reverse b));
    name_plain = h;
  })
  | inr n ↦ rw n (
      subst (λ t. Found t (last_slash b (x ∷ after))) (shift x b after)
        (last_slash_lem b (x ∷ after) (ground arith, h)))
]
  where
    shift : (x : ℕ) (b after : Bytes) → reverse b ++ x ∷ after ≡ reverse (x ∷ b) ++ after
    shift x b after = rw (reverse-cons, append_assoc)

nonempty-length : (s : Bytes) → s ≢ [] → (length s == 0) ≡ false
nonempty-length [] h = absurd (h refl)
nonempty-length (x ∷ s) h = ground arith

copy_parts_lem :
    (url : Bytes) (path_size name_size : ℕ) (r : Option (Bytes × Bytes))
    → length url < path_size
    → length url < name_size
    → Found url r
    → let parts = copy_parts url path_size name_size r in Parts url parts.0 parts.1
unfolding copy_parts
copy_parts_lem url path_size name_size none p n h =
    rw (take-of_le (name_size - 1) url (omega arith))
      (record { whole = refl; path_end = inl refl; name_plain = h })
copy_parts_lem url path_size name_size (some (path, name)) p n h =
    let l : length path + length name ≡ length url =
      sym (length-append path name) ∙ ap length h.whole in
    rw
      (take-of_le (path_size - 1) path (omega arith), take-of_le (name_size - 1) name (omega arith))
      h

-- With buffers larger than the url, `split_url` cuts it behind its last slash: the two buffers
-- together hold the url, the path is empty or ends with a slash, and the name has no slash.
pub split_url_lem :
    (url : Bytes) (path_size name_size : ℕ)
    → url ≢ []
    → length url < path_size
    → length url < name_size
    → let parts = split_url (some url) path_size name_size in Parts url parts.0 parts.1
unfolding split_url
split_url_lem url path_size name_size ne p n =
    rw (nonzero path_size (omega arith), nonzero name_size (omega arith), nonempty-length url ne)
      (elim (Bool-cases (ends_in_slash url)) [
        | inl e ↦
            rw (e, take-of_le (path_size - 1) url (omega arith))
              (record { whole = append-nil url; path_end = inr e; name_plain = tt })
        | inr e ↦ rw e (
            copy_parts_lem url path_size name_size (last_slash (reverse url) []) p n (
              subst (λ t. Found t (last_slash (reverse url) []))
                (append-nil (reverse (reverse url)) ∙ reverse-reverse url)
                (last_slash_lem (reverse url) [] tt)))
      ])
  where
    nonzero : (k : ℕ) → 0 < k → (k == 0) ≡ false
    nonzero k h = ground arith

-- Whatever the sizes, both results fit their buffers with a terminating NUL.
pub split_url_bounds :
    (url : Option Bytes) (path_size name_size : ℕ)
    → let parts = split_url url path_size name_size in
      (length parts.0 ≤ path_size - 1) × (length parts.1 ≤ name_size - 1)
unfolding split_url
split_url_bounds none path_size name_size = omega arith
split_url_bounds (some url) path_size name_size = split_bounds (last_slash (reverse url) [])
  where
    split_bounds :
        (r : Option (Bytes × Bytes))
        → let parts =
            (if path_size == 0 || name_size == 0
              then ([], [])
              else if length url == 0
              then ([], [])
              else if ends_in_slash url
              then (copy_at_most (path_size - 1) url, [])
              else copy_parts url path_size name_size r) in
          (length parts.0 ≤ path_size - 1) × (length parts.1 ≤ name_size - 1)
    split_bounds none =
        ground (arith, length-take (path_size - 1) url, length-take (name_size - 1) url)
    split_bounds (some (path, name)) = ground (
      arith,
      length-take (path_size - 1) url,
      length-take (path_size - 1) path,
      length-take (name_size - 1) name,
    )
