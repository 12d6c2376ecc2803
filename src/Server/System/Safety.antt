-- ===== src/Server/System/Safety.antt =====
-- What holds in every state that the server comes to.
use mathlib.Core.Path.{subst}
use sync_agent.Base.{
  ℕ, zero, suc, ◌≡◌, ◌∙◌, inl, inr, sym, ap, refl, Bool, true, false, not, some, List, [], ◌∷◌,
  ◌++◌, arith, set, get_elem?, ◌||◌, ◌&&◌, Bool-cases,
}
use sync_agent.Base.Int.{ℤ, eq_ℤ}
use sync_agent.Server.{Action, receive, send, close, free_buffer, free_connection}
use sync_agent.Server.Held.{Held, held, act, act_all}
use sync_agent.Server.System.{Connection, System, taken}

pub same_element : {A : Type 0} {x y : A} → some x ≡ some y → x ≡ y
same_element e = cc

-- What a handler holds when it has returned.
abbrev pub at_end : Connection → Held
at_end c = held c.fd (not c.malloc) false (not c.malloc)

-- The rest of the handler uses nothing released, and leaves what `at_end` says.
abbrev pub Runs : Connection → Type 0
Runs c = act_all c.todo c.holds ≡ some (at_end c)

abbrev pub AllRun : List Connection → Type 0
AllRun [] = Unit
AllRun (c ∷ cs) = Runs c × AllRun cs

-- Two connections with open descriptors have two descriptors.
abbrev pub Apart : List Connection → Type 0
Apart [] = Unit
Apart (c ∷ cs) = (c.holds.descriptor ≡ true → taken c.fd cs ≡ false) × Apart cs

pub record IsSafe (s : System) : Type 0 where
  pub runs : AllRun s.connections
  pub apart : Apart s.connections

pub AllRun-append :
    (cs : List Connection) (c : Connection) → AllRun cs → Runs c → AllRun (cs ++ c ∷ [])
AllRun-append [] c h r = (r, tt)
AllRun-append (d ∷ cs) c h r = (h.0, AllRun-append cs c h.1 r)

pub AllRun-set :
    (cs : List Connection) (i : ℕ) (c : Connection) → AllRun cs → Runs c → AllRun (set cs i c)
AllRun-set [] i c h r = tt
AllRun-set (d ∷ cs) zero c h r = (r, h.1)
AllRun-set (d ∷ cs) (suc i) c h r = (h.0, AllRun-set cs i c h.1 r)

pub AllRun-get :
    (cs : List Connection) (i : ℕ) (c : Connection) → AllRun cs → get_elem? cs i ≡ some c → Runs c
AllRun-get [] i c h e = cc
AllRun-get (d ∷ cs) zero c h e = subst Runs (same_element e) h.0
AllRun-get (d ∷ cs) (suc i) c h e = AllRun-get cs i c h.1 e

taken-append :
    (fd : ℤ) (cs : List Connection) (c : Connection)
    → taken fd cs ≡ false
    → eq_ℤ c.fd fd ≡ false
    → taken fd (cs ++ c ∷ []) ≡ false
unfolding taken
taken-append fd [] c h n = ground arith
taken-append fd (d ∷ cs) c h n = ground (arith, taken-append fd cs c)

-- A new descriptor is none that is open.
head-taken :
    (fd : ℤ) (d : Connection) (cs : List Connection)
    → taken fd (d ∷ cs) ≡ false
    → d.holds.descriptor ≡ true
    → eq_ℤ fd d.fd ≡ false
unfolding taken
head-taken fd d cs h o = ground arith

tail-taken :
    (fd : ℤ) (d : Connection) (cs : List Connection)
    → taken fd (d ∷ cs) ≡ false
    → taken fd cs ≡ false
unfolding taken
tail-taken fd d cs h = ground arith

pub Apart-append :
    (cs : List Connection) (c : Connection)
    → Apart cs
    → taken c.fd cs ≡ false
    → Apart (cs ++ c ∷ [])
Apart-append [] c h n = (λ o. unfold taken in refl, tt)
Apart-append (d ∷ cs) c h n = (
  λ o. taken-append d.fd cs c (h.0 o) (head-taken c.fd d cs n o),
  Apart-append cs c h.1 (tail-taken c.fd d cs n),
)

-- An action opens nothing.
pub act-descriptor :
    (a : Action) (h h' : Held) → act a h ≡ some h' → h'.descriptor ≡ true → h.descriptor ≡ true
unfolding act
act-descriptor (receive fd) h h' e d = ground arith
act-descriptor (send fd bytes) h h' e d = ground arith
act-descriptor (close fd) h h' e d = ground arith
act-descriptor free_buffer h h' e d = ground arith
act-descriptor (free_connection fd) h h' e d = ground arith

-- `c'` is `c`, maybe with its descriptor closed.
abbrev pub Closes : Connection → Connection → Type 0
Closes c c' = (c'.fd ≡ c.fd) × (c'.holds.descriptor ≡ true → c.holds.descriptor ≡ true)

weaken : (b d d' r : Bool) → (d' ≡ true → d ≡ true) → (b && d || r) ≡ false → (b && d' || r) ≡ false
weaken b d false r k h = ground arith
weaken b d true r k h = let e = k refl in ground arith

taken-Closes :
    (fd : ℤ) (c c' : Connection) (cs : List Connection)
    → Closes c c'
    → taken fd (c ∷ cs) ≡ false
    → taken fd (c' ∷ cs) ≡ false
unfolding taken
taken-Closes fd c c' cs k h =
    rw k.0 (weaken (eq_ℤ c.fd fd) c.holds.descriptor c'.holds.descriptor (taken fd cs) k.1 h)

taken-tail :
    (fd : ℤ) (d : Connection) (cs ds : List Connection)
    → (taken fd cs ≡ false → taken fd ds ≡ false)
    → taken fd (d ∷ cs) ≡ false
    → taken fd (d ∷ ds) ≡ false
unfolding taken
taken-tail fd d cs ds k h = elim (Bool-cases (taken fd cs)) [
  | inl t ↦ absurd (ground arith)
  | inr n ↦ let e = k n in ground arith
]

taken-set :
    (fd : ℤ) (cs : List Connection) (i : ℕ) (c c' : Connection)
    → get_elem? cs i ≡ some c
    → Closes c c'
    → taken fd cs ≡ false
    → taken fd (set cs i c') ≡ false
taken-set fd [] i c c' e k h = h
taken-set fd (d ∷ cs) zero c c' e k h =
    taken-Closes fd c c' cs k (subst (λ x. taken fd (x ∷ cs) ≡ false) (same_element e) h)
taken-set fd (d ∷ cs) (suc i) c c' e k h =
    taken-tail fd d cs (set cs i c') (taken-set fd cs i c c' e k) h

pub Apart-set :
    (cs : List Connection) (i : ℕ) (c c' : Connection)
    → get_elem? cs i ≡ some c
    → Closes c c'
    → Apart cs
    → Apart (set cs i c')
Apart-set [] i c c' e k h = tt
Apart-set (d ∷ cs) zero c c' e k h =
    let q = same_element e in
    (
      λ o.
          subst (λ x. taken x cs ≡ false) (ap (λ (x : Connection). x.fd) q ∙ sym k.0)
            (h.0 (ap (λ (x : Connection). x.holds.descriptor) q ∙ k.1 o)),
      h.1,
    )
Apart-set (d ∷ cs) (suc i) c c' e k h =
    (λ o. taken-set d.fd cs i c c' e k (h.0 o), Apart-set cs i c c' e k h.1)
