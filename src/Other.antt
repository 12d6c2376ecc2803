-- ===== src/Other.antt =====
-- src/core/base/eother.c: helpers for file names, files and the address of the machine. System calls
-- are an interface to the file system, or arguments.
pub mod Dir
pub mod Files
pub mod Suffix
mod Tests
use mathlib.Core.Option
use sync_agent.Base.{
  ℕ, zero, suc, ◌+◌, ◌-◌, ◌%◌, Bool, true, false, not, ◌&&◌, ◌||◌, Option, none, some, List, [],
  ◌∷◌, ◌++◌, ◌==◌, if◌then◌else◌, length, take, drop, get_or, Bytes, codes, equal, ◌≡◌, ◌<◌,
}

-- The loop of `file_suffix`, with `n` bytes left in front of `ptr + 1`.
unfoldable pub suffix_from : Bytes → ℕ → Option Bytes
suffix_from s zero = none
suffix_from s (suc n) =
    let rest = suffix_from s n in if get_or s n 0 == b'.' then some (drop (suc n) s) else rest

-- `file_suffix`: the string at the pointer that it returns.
unfoldable pub file_suffix : Option Bytes → Option Bytes
unfolding suffix_from
file_suffix none = none
file_suffix (some s) =
    if length s == 0
    then none
    else if get_or s (length s - 1) 0 == b'.'
    then none
    else suffix_from s (length s)

-- `create_random`, where `random` is the function that `srand` leaves for a seed.
unfoldable pub create_random : (random : ℕ → ℕ) (tv_usec : ℕ) → ℕ → ℕ
create_random random tv_usec max = random tv_usec % max

-- The system calls on files that the code makes, on a state of the file system. `none` is a failure.
pub record FileSystem (S : Type 0) : Type 0 where
  -- `access(name, F_OK) == 0` and `access(name, R_OK) == 0`
  pub exists : Bytes → S → Bool
  pub readable : Bytes → S → Bool
  -- `st_size` of `stat`
  pub stat_size : Bytes → S → Option ℕ
  pub mkdir : Bytes → S → Option S
  -- `fopen(name, "w")` and `fclose`
  pub fopen_write : Bytes → S → Option S
  pub truncate : Bytes → ℕ → S → Option S
  pub unlink : Bytes → S → Option S
  -- The names that `readdir` gives after `opendir`
  pub entries : Bytes → S → Option (List Bytes)

-- What the manual pages say of these calls.
pub record IsFileSystem {S : Type 0} (fs : FileSystem S) : Type 0 where
  pub mkdir_makes : (p : Bytes) (s s' : S) → fs.mkdir p s ≡ some s' → fs.exists p s' ≡ true
  pub mkdir_keeps :
      (p q : Bytes) (s s' : S)
      → fs.mkdir p s ≡ some s'
      → fs.exists q s ≡ true
      → fs.exists q s' ≡ true
  pub truncate_sets :
      (p : Bytes) (n : ℕ) (s s' : S) → fs.truncate p n s ≡ some s' → fs.stat_size p s' ≡ some n
  pub unlink_removes : (p : Bytes) (s s' : S) → fs.unlink p s ≡ some s' → fs.readable p s' ≡ false

-- A call that succeeds goes on in the new state; one that fails returns 0 in the old one.
abbrev pub on_success : {S : Type 0} → S → (S → Bool × S) → Option S → Bool × S
on_success s next none = (false, s)
on_success s next (some s') = next s'

module _ {S : Type 0} (fs : FileSystem S) where
  -- `file_get_length`; `none` stands for -1.
  unfoldable pub file_get_length : Bytes → S → Option ℕ
  file_get_length name s = fs.stat_size name s

  -- The names that `list_dir` hands on.
  unfoldable pub listed : Bytes → List Bytes → List Bytes
  listed path [] = []
  listed path (name ∷ names) =
      let rest = listed path names in
      if equal name (codes ".") || equal name (codes "..")
      then rest
      else take 126 (path ++ name) ∷ rest

  -- `list_dir`: the arguments of the calls of the callback, or `none` where it returns 0.
  unfoldable pub list_dir : Bytes → S → Option (List Bytes)
  unfolding listed
  list_dir path s = Option.map (listed path) (fs.entries path s)

  -- `access` and `mkdir` on the string up to here.
  unfoldable pub make_missing : Bytes → S → (S → Bool × S) → Bool × S
  make_missing path s next =
      if fs.exists path s then next s else on_success s next (fs.mkdir path s)

  -- The loop of `create_dir`, with the part of the string before index `i`, and the rest of it.
  unfoldable pub make_dirs : Bytes → Bytes → S → Bool × S
  unfolding make_missing
  make_dirs before [] s =
      if length before == 0 then (true, s) else make_missing before s (λ s'. (true, s'))
  make_dirs before (x ∷ after) s =
      let rest = make_dirs (before ++ x ∷ []) after in
      if x == b'/' && not (length before == 0) then make_missing before s rest else rest s

  -- `create_dir`
  unfoldable pub create_dir : Bytes → S → Bool × S
  unfolding make_dirs
  create_dir path_name s = make_dirs [] (take 1023 path_name) s

  -- `file_exist`
  unfoldable pub file_exist : Bytes → S → Bool
  file_exist name s = if fs.readable name s then true else false

  -- `create_file`
  unfoldable pub create_file : Bytes → ℕ → S → Bool × S
  create_file name size s =
      on_success s (λ s₁. on_success s₁ (λ s₂. (true, s₂)) (fs.truncate name size s₁))
        (fs.fopen_write name s)

  -- `create_file_if_not_existed`
  unfoldable pub create_file_if_not_existed : Bytes → S → Bool × S
  create_file_if_not_existed name s =
      if fs.readable name s
      then (true, s)
      else on_success s (λ s'. (true, s')) (fs.fopen_write name s)

  -- `remove_file`
  unfoldable pub remove_file : Bytes → S → Bool × S
  remove_file name s =
      if not (fs.readable name s)
      then (true, s)
      else on_success s (λ s'. (true, s')) (fs.unlink name s)

-- An address of an interface: its family and the bytes of its `sockaddr`.
pub data Family : Type 0 where
  inet inet6 other_family : Family

pub record IfAddr : Type 0 where
  pub ifa_name : Bytes
  pub family : Family
  pub sockaddr : Bytes

-- The bytes of the field `sin_addr` of a `sockaddr_in`, as far as `n` bytes are read there.
abbrev pub sin_addr : ℕ → Bytes → Bytes
sin_addr n raw = take n (drop 4 raw)

-- One round of the loop of `get_ip`: the text that it stores, or `none`.
unfoldable pub match_ip : (inet_ntop : Family → Bytes → Bytes) → Bytes → IfAddr → Option Bytes
match_ip inet_ntop version a =
    let named = equal a.ifa_name (codes "en0") || equal a.ifa_name (codes "eth0") in
    elim a.family [
      | inet ↦
          if named && equal version (codes "v4")
          then some (inet_ntop inet (sin_addr 4 a.sockaddr))
          else none
      | inet6 ↦
          if named && equal version (codes "v6")
          then some (inet_ntop inet6 (sin_addr 16 a.sockaddr))
          else none
      | other_family ↦ none
    ]

-- `get_ip` on the list of `getifaddrs`, where each interface has an address: the text that it stores
-- when it returns 1, or `none` when it returns 0.
unfoldable pub get_ip : (inet_ntop : Family → Bytes → Bytes) → List IfAddr → Bytes → Option Bytes
unfolding match_ip
get_ip inet_ntop [] version = none
get_ip inet_ntop (a ∷ rest) version =
    let later = get_ip inet_ntop rest version in
    elim (match_ip inet_ntop version a) [ none ↦ later | some text ↦ some text ]
