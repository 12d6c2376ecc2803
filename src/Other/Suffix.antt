-- ===== src/Other/Suffix.antt =====
-- `file_suffix` and `get_ip` against what they look for.
use sync_agent.Base.{
  ℕ, zero, suc, ◌+◌, ◌-◌, ◌≤◌, ◌≡◌, ◌≢◌, ◌∙◌, inl, inr, sym, ap, refl, false, none, some, [], ◌∷◌,
  ◌++◌, arith, length, get_or, drop, take, if◌then◌else◌, Bool-cases, ◌==◌, Bytes, codes,
  length-append, drop-length_add, drop-length-append, take-append_of_le, equal, List,
}
use sync_agent.Text.Scan.{Without}
use sync_agent.Other.{suffix_from, file_suffix, Family, inet6, IfAddr, get_ip, sin_addr}

get_or-Without : (s : Bytes) (i : ℕ) → Without b'.' s → (get_or s i 0 == b'.') ≡ false
get_or-Without [] i h = refl
get_or-Without (x ∷ s) zero h = ground (arith, h.0)
get_or-Without (x ∷ s) (suc i) h = get_or-Without s i h.1

suffix_from-Without : (s : Bytes) (n : ℕ) → Without b'.' s → suffix_from s n ≡ none
unfolding suffix_from
suffix_from-Without s zero h = refl
suffix_from-Without s (suc n) h = rw (get_or-Without s n h) (suffix_from-Without s n h)

get_or-length_add : (a b : Bytes) (i : ℕ) → get_or (a ++ b) (length a + i) 0 ≡ get_or b i 0
get_or-length_add [] b i = let e : 0 + i ≡ i = omega arith in rw e
get_or-length_add (x ∷ a) b i =
    let e : suc (length a) + i ≡ suc (length a + i) = omega arith in rw e (get_or-length_add a b i)

suffix_from-suc :
    (s : Bytes) (n : ℕ)
    → suffix_from s (suc n)
      ≡ (if get_or s n 0 == b'.' then some (drop (suc n) s) else suffix_from s n)
unfolding suffix_from
suffix_from-suc s n = refl

-- The search from inside the suffix goes down to the dot.
suffix_from-append :
    (a e : Bytes) (k : ℕ)
    → Without b'.' e
    → suffix_from (a ++ b'.' ∷ e) (suc (length a + k)) ≡ some e
suffix_from-append a e zero h =
    suffix_from-suc (a ++ b'.' ∷ e) (length a + 0)
    ∙ rw (get_or-length_add a (b'.' ∷ e) 0) (
        let i : suc (length a + 0) ≡ length a + 1 = omega arith in
        rw i (ap some (drop-length_add a (b'.' ∷ e) 1)))
suffix_from-append a e (suc k) h =
    let i : length a + suc k ≡ suc (length a + k) = omega arith in
    suffix_from-suc (a ++ b'.' ∷ e) (length a + suc k)
    ∙ rw (get_or-length_add a (b'.' ∷ e) (suc k), get_or-Without e k h, i)
        (suffix_from-append a e k h)

-- A file name with a dot and a suffix that is not empty and has no dot: `file_suffix` returns the
-- suffix, without the dot.
pub file_suffix_lem :
    (a e : Bytes) → e ≢ [] → Without b'.' e → file_suffix (some (a ++ b'.' ∷ e)) ≡ some e
unfolding file_suffix
file_suffix_lem a [] ne h = absurd (ne refl)
file_suffix_lem a (x ∷ e) ne h =
    let l : length (a ++ b'.' ∷ x ∷ e) ≡ suc (length a + suc (length e)) =
      length-append a (b'.' ∷ x ∷ e) ∙ omega arith in
    let i : suc (length a + suc (length e)) - 1 ≡ length a + suc (length e) = omega arith in
    let step : length a + suc (length e) ≡ suc (length a + length e) = omega arith in
    let nonzero : (suc (length a + suc (length e)) == 0) ≡ false = ground arith in
    rw
      (
        l,
        nonzero,
        i,
        get_or-length_add a (b'.' ∷ x ∷ e) (suc (length e)),
        get_or-Without (x ∷ e) (length e) h,
      )
      (ap (suffix_from (a ++ b'.' ∷ x ∷ e)) step ∙ suffix_from-append a (x ∷ e) (length e) h)

-- A name with no dot has no suffix.
pub file_suffix-Without : (s : Bytes) → Without b'.' s → file_suffix (some s) ≡ none
unfolding file_suffix
file_suffix-Without s h = elim (Bool-cases (length s == 0)) [
  | inl z ↦ rw z
  | inr z ↦ rw (z, get_or-Without s (length s - 1) h, suffix_from-Without s (length s) h)
]

take-append_in : (n : ℕ) (a b : Bytes) → n ≤ length a → take n (a ++ b) ≡ take n a
take-append_in zero a b h = refl
take-append_in (suc n) [] b h = absurd (omega arith)
take-append_in (suc n) (x ∷ a) b h = ap (◌∷◌ x) (take-append_in n a b (omega arith))

sin_addr_v6 :
    (a flow ip scope : Bytes)
    → length a ≡ 4
    → length flow ≡ 4
    → length ip ≡ 16
    → sin_addr 16 (a ++ (flow ++ (ip ++ scope))) ≡ flow ++ take 12 ip
sin_addr_v6 a flow ip scope f l k =
    ap (λ n. take 16 (drop n (a ++ (flow ++ (ip ++ scope))))) (sym f)
    ∙ ap (take 16) (drop-length-append a (flow ++ (ip ++ scope)))
    ∙ take-append_of_le 16 flow (ip ++ scope) (omega arith)
    ∙ ap (λ n. flow ++ take n (ip ++ scope)) {y = 12} (omega arith)
    ∙ ap (◌++◌ flow) (take-append_in 12 ip scope (omega arith))

-- An IPv6 address of `en0` or `eth0` as the first interface. `get_ip` reads it at the offset of an IPv4
-- address: it prints the flow information and the first 12 bytes of the address for the address.
pub get_ip_v6 :
    (inet_ntop : Family → Bytes → Bytes) (family_port flow ip scope : Bytes) (rest : List IfAddr)
    → length family_port ≡ 4
    → length flow ≡ 4
    → length ip ≡ 16
    → get_ip inet_ntop
        (record {
          ifa_name = codes "eth0";
          family = inet6;
          sockaddr = family_port ++ (flow ++ (ip ++ scope));
        }
          ∷ rest)
        (codes "v6")
      ≡ some (inet_ntop inet6 (flow ++ take 12 ip))
unfolding get_ip equal
get_ip_v6 inet_ntop family_port flow ip scope rest f l k =
    ap (λ t. some (inet_ntop inet6 t)) (sin_addr_v6 family_port flow ip scope f l k)
