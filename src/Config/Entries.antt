-- ===== src/Config/Entries.antt =====
-- The text of a list of subscriptions, and what `subscribe_map_handler` cuts it into.
use sync_agent.Base.{
  Bool, ℕ, zero, suc, ◌+◌, ◌-◌, ◌<◌, ◌≡◌, ◌≢◌, ◌∙◌, ap, refl, true, false, none, some, Option, List,
  [], ◌∷◌, ◌++◌, arith, length, ltb, ◌==◌, Bytes, length-append, take-length-append,
  drop-length_add, append_assoc,
}
use sync_agent.Text.Scan.{Without}
use sync_agent.Config.Lists.{SetOps, index_of, add_paths}
use sync_agent.Config.Sets.{index_of-append, joined_by, AllWithout, add_all}

-- One entry: a host and its paths.
pub record Entry : Type 0 where
  pub host : Bytes
  pub first : Bytes
  pub others : List Bytes

abbrev pub paths : Entry → List Bytes
paths e = e.first ∷ e.others

abbrev pub path_text : Entry → Bytes
path_text e = joined_by b'|' e.first e.others

-- `host:path|path`
abbrev pub entry_text : Entry → Bytes
entry_text e = e.host ++ b':' ∷ path_text e

-- Entries with a comma behind each, and what follows.
abbrev pub listing : List Entry → Bytes → Bytes
listing [] tail = tail
listing (e ∷ es) tail = entry_text e ++ b',' ∷ listing es tail

-- No host has a colon or a comma, and no path a bar or a comma.
pub record IsPlain (e : Entry) : Type 0 where
  pub host_colon : Without b':' e.host
  pub host_comma : Without b',' e.host
  pub path_bar : AllWithout b'|' (paths e)
  pub path_comma : AllWithout b',' (paths e)

-- The text does not begin with the byte.
abbrev pub NoHead : ℕ → Bytes → Type 0
NoHead c [] = Unit
NoHead c (x ∷ xs) = x ≢ c

-- An offset, if there is one, of more than `n`.
abbrev pub Beyond : ℕ → Option ℕ → Type 0
Beyond n none = Unit
Beyond n (some k) = n < k

Beyond-zero : (o : Option ℕ) → Beyond 0 (elim o [ none ↦ none | some i ↦ some (suc i) ])
Beyond-zero none = tt
Beyond-zero (some i) = omega arith

Beyond-suc :
    (n : ℕ) (o : Option ℕ)
    → Beyond n o
    → Beyond (suc n) (elim o [ none ↦ none | some i ↦ some (suc i) ])
Beyond-suc n none h = tt
Beyond-suc n (some i) h = omega arith

pub index_of-NoHead :
    (c : ℕ) (a t : Bytes) → Without c a → NoHead c t → Beyond (length a) (index_of c (a ++ t))
unfolding index_of
index_of-NoHead c [] [] h k = tt
index_of-NoHead c [] (x ∷ t) h k =
    let n : (x == c) ≡ false = ground arith in rw n (Beyond-zero (index_of c t))
index_of-NoHead c (x ∷ a) t h k =
    let n : (x == c) ≡ false = ground (arith, h.0) in
    rw n (Beyond-suc (length a) (index_of c (a ++ t)) (index_of-NoHead c a t h.1 k))

module _ {S : Type 0} (ops : SetOps S) (spare : ℕ → Bool) (room : (n : ℕ) → spare n ≡ true) where
  -- The last path, given the place of the next bar.
  add_paths-last :
      (fuel : ℕ) (p tail : Bytes) (s : S) (o : Option ℕ)
      → index_of b'|' (p ++ tail) ≡ o
      → Beyond (length p) o
      → add_paths ops spare (suc fuel) (p ++ tail) (length p) s ≡ some (ops.set_add p s)
  unfolding add_paths
  add_paths-last fuel p tail s none e b =
      rw (e, add_paths, room (length p), take-length-append p tail)
  add_paths-last fuel p tail s (some k) e b =
      let low : ltb k (length p) ≡ false = ground arith in
      let high : ltb (length p) k ≡ true = ground arith in
      rw (e, add_paths, low, high, room (length p), take-length-append p tail)

  -- A path with a bar behind it, in an entry that ends `n` bytes behind the bar.
  add_paths-more :
      (fuel : ℕ) (p text : Bytes) (n : ℕ) (s : S)
      → Without b'|' p
      → add_paths ops spare (suc fuel) (p ++ b'|' ∷ text) (length p + suc n) s
        ≡ add_paths ops spare fuel text n (ops.set_add p s)
  add_paths-more fuel p text n s h =
      let within : ltb (length p) (length p + suc n) ≡ true = ground arith in
      let left : length p + suc n - (length p + 1) ≡ n = omega arith in
      unfold add_paths in
      rw (
        index_of-append b'|' p text h,
        add_paths,
        drop-length_add p (b'|' ∷ text) 1,
        take-length-append p (b'|' ∷ text),
        within,
        room (length p),
        left,
      )

  pub add_paths_lem :
      (fuel : ℕ) (p : Bytes) (ps : List Bytes) (tail : Bytes) (s : S)
      → length (joined_by b'|' p ps) < fuel
      → AllWithout b'|' (p ∷ ps)
      → NoHead b'|' tail
      → add_paths ops spare fuel (joined_by b'|' p ps ++ tail) (length (joined_by b'|' p ps)) s
        ≡ some (add_all ops (p ∷ ps) s)
  add_paths_lem zero p ps tail s f h k = absurd (omega arith)
  add_paths_lem (suc fuel) p [] tail s f h k =
      add_paths-last fuel p tail s (index_of b'|' (p ++ tail)) refl
        (index_of-NoHead b'|' p tail h.0 k)
  add_paths_lem (suc fuel) p (q ∷ ps) tail s f h k =
      let rest = joined_by b'|' q ps in
      let l : length (p ++ b'|' ∷ rest) ≡ length p + suc (length rest) =
        length-append p (b'|' ∷ rest) in
      ap (λ t. add_paths ops spare (suc fuel) t (length (p ++ b'|' ∷ rest)) s)
        (append_assoc p (b'|' ∷ rest) tail)
      ∙ ap (λ n. add_paths ops spare (suc fuel) (p ++ b'|' ∷ (rest ++ tail)) n s) l
      ∙ add_paths-more fuel p (rest ++ tail) (length rest) s h.0
      ∙ add_paths_lem fuel q ps tail (ops.set_add p s) (omega arith) h.1 k
