-- ===== src/Text/Tests.antt =====
-- Runs of the string helpers, and their theorems at concrete strings.
use sync_agent.Base.{
  Bytes, ◌+◌, ◌≡◌, ◌⊎◌, ◌≤◌, refl, true, false, none, some, ◌++◌, drop, length, [], ◌∷◌, arith,
  codes, c_string,
}
use sync_agent.Base.Int.{pos, minus_one}
use sync_agent.Text.{
  is_comment, is_blank, trim_str, delete_comment, char_at, split_url, str_cmp, all_space,
}
use sync_agent.Text.Scan.{Without, until, SplitsAt, delete_comment_lem, char_at_lem}
use sync_agent.Text.Trim.{around, zeros, trim_str_faults}
use sync_agent.Text.Fronts.{Trims, trim_str-Trims}
use sync_agent.Text.Split.{Parts, split_url_lem, split_url_bounds}
use sync_agent.Text.Compare.{lexicographic, str_cmp-lexicographic}

comments :
    (is_comment (some (codes " \t# x")) b'#' ≡ true)
    × (is_comment (some (codes "a # x")) b'#' ≡ false)
    × (is_comment none b'#' ≡ false)
    × (is_blank none ≡ true)
    × (is_blank (some (codes " \t\r\n")) ≡ true)
    × (is_blank (some (codes " a")) ≡ false)
unfolding is_comment is_blank
comments = (refl, refl, refl, refl, refl, refl)

chars :
    (char_at (some (codes "key=v=w")) b'=' ≡ pos 3)
    × (char_at (some (codes "key")) b'=' ≡ minus_one)
    × (char_at none b'=' ≡ minus_one)
unfolding char_at
chars = (refl, refl, refl)

trim_runs :
    trim_str (codes "[]" ++ codes " a b \n" ++ 0 ∷ 9 ∷ []) 2
    ≡ some (codes "[] a b" ++ 0 ∷ 0 ∷ 0 ∷ 9 ∷ [], 3)
unfolding trim_str c_string
trim_runs = refl

compares :
    (str_cmp (codes "ab") (codes "b") ≡ minus_one)
    × (str_cmp (codes "ab") (codes "a") ≡ pos 1)
    × (str_cmp (codes "ab") (codes "ab") ≡ pos 0)
unfolding str_cmp
compares = (refl, refl, refl)

splits :
    (split_url (some (codes "/var/log/test.log")) 32 32 ≡ (codes "/var/log/", codes "test.log"))
    × (split_url (some (codes "/var/log/")) 32 32 ≡ (codes "/var/log/", []))
    × (split_url (some (codes "test.log")) 32 5 ≡ ([], codes "test"))
    × (split_url none 32 32 ≡ ([], []))
unfolding split_url
splits = (refl, refl, refl, refl)

trim_str-Trims_example :
    let s = codes " v \n" in
    (front : Bytes) × (kept : Bytes) × (back : Bytes) × Trims s front kept back
    × (let m = around (codes "=") (front ++ kept) (zeros (length back) (9 ∷ [])) in
        let res = length (codes "=") + length front in
        (trim_str (around (codes "=") s (9 ∷ [])) (length (codes "=")) ≡ some (m, res))
        × (c_string (drop res m) ≡ kept))
trim_str-Trims_example = trim_str-Trims (codes "=") (codes " v \n") (9 ∷ []) (omega arith) refl

trim_str_faults_example : trim_str (around [] (codes " \n") []) 0 ≡ none
unfolding all_space
trim_str_faults_example = trim_str_faults [] (codes " \n") [] (omega arith) refl

delete_comment_lem_example :
    (c_string (delete_comment (codes "a#b") b'#' ++ 0 ∷ []) ≡ until b'#' (codes "a#b"))
    × (length (delete_comment (codes "a#b") b'#') ≡ 3)
delete_comment_lem_example = delete_comment_lem (codes "a#b") [] b'#' (omega arith)

split_url_lem_example :
    let parts = split_url (some (codes "/a/b")) 8 8 in Parts (codes "/a/b") parts.0 parts.1
split_url_lem_example = split_url_lem (codes "/a/b") 8 8 (cc) (omega arith) (omega arith)

str_cmp-lexicographic_example :
    str_cmp (codes "ab") (codes "b") ≡ lexicographic (codes "ab") (codes "b")
str_cmp-lexicographic_example = str_cmp-lexicographic (codes "ab") (codes "b")

char_at_lem_example :
    (Without b'=' (codes "k=v") × (char_at (some (codes "k=v")) b'=' ≡ minus_one))
    ⊎ ((p : SplitsAt b'=' (codes "k=v")) × (char_at (some (codes "k=v")) b'='
          ≡ pos (length p.before)))
char_at_lem_example = char_at_lem (codes "k=v") b'='

split_url_bounds_example :
    let parts = split_url (some (codes "/var/log/test.log")) 4 3 in
    (length parts.0 ≤ 3) × (length parts.1 ≤ 2)
split_url_bounds_example = split_url_bounds (some (codes "/var/log/test.log")) 4 3
