-- ===== src/Host/Lifetime/Safety.antt =====
-- What an owner has that stops the service thread before it gives up its last reference.
use icelander.Prelude.{
  ℕ, ◌+◌, ◌<◌, ◌≡◌, ◌↔◌, ◌⊎◌, inl, inr, Bool-cases, refl, Option, none, some, Bool, true, false,
  arith,
}
use icelander.Host.Lifetime.{
  Pc, testing, serving, connecting, sharing, ended, Owner, owning, stopping, closing, closed, gone,
  State, Step, Steps, init, here, next, start_again, start, enter, leave, quiet, connect, share,
  expired, escape, escape_sharing, escaped, unshare, unshare_last, stop_again, stop, join, copy,
  drop, give_up_shared, give_up_running, give_up_idle, give_up_unjoined, join_closing,
}

-- The references of the service thread.
abbrev pub held : Option Pc → ℕ
held none = 0
held (some testing) = 0
held (some serving) = 0
held (some connecting) = 0
held (some sharing) = 1
held (some ended) = 0

-- Which thread there can be, and what the owner has, while the program runs.
abbrev pub Fits : Owner → Bool → Option Pc → ℕ → Type 0
Fits owning true (some testing) n = 0 < n
Fits owning true (some serving) n = 0 < n
Fits owning true (some connecting) n = 0 < n
Fits owning true (some sharing) n = 0 < n
Fits owning false none n = 0 < n
Fits stopping false (some p) n = 0 < n
Fits closing false (some p) n = n ≡ 0
Fits closed false none n = n ≡ 0
Fits gone r (some p) n = n ≡ 0
Fits _ _ _ n = ⊥

-- The owners that a careful one can be.
abbrev pub Tidy : Owner → Type 0
Tidy closing = ⊥
Tidy gone = ⊥
Tidy _ = Unit {0}

pub record Inv (careful : Bool) (s : State) : Type 0 where
  pub alive : careful ≡ true → s.terminated ≡ true → s.cause ≡ escaped
  pub tidy : careful ≡ true → Tidy s.owner
  pub counted : s.terminated ≡ false → s.strong ≡ s.owned + held s.thread
  pub fits : s.terminated ≡ false → Fits s.owner s.running s.thread s.owned

Step-Inv :
    {careful : Bool} {s t : State}
    → Step careful s t
    → s.terminated ≡ false
    → Inv careful s
    → Inv careful t
Step-Inv (start_again o r) a i = i
Step-Inv {s = s} (start o r t) a i = ground arith
Step-Inv {s = s} (enter t r) a i = ground arith
Step-Inv {s = s} (leave t r) a i = ground arith
Step-Inv {s = s} (quiet t) a i = ground arith
Step-Inv {s = s} (connect t) a i = ground arith
Step-Inv {s = s} (share t p) a i = ground arith
Step-Inv {s = s} (expired t z) a i = ground arith
Step-Inv {s = s} (escape t) a i = ground arith
Step-Inv {s = s} (escape_sharing t) a i = ground arith
Step-Inv {s = s} (unshare k t z) a i = ground arith
Step-Inv {s = s} (unshare_last t z) a i = ground arith
Step-Inv {s = s} (stop_again o r) a i = ground arith
Step-Inv {s = s} (stop o r) a i = ground arith
Step-Inv {s = s} (join o t) a i = ground arith
Step-Inv {s = s} (copy o) a i = ground arith
Step-Inv {s = s} (drop k o n) a i = ground arith
Step-Inv {s = s} (give_up_shared k o n z c) a i = ground arith
Step-Inv {s = s} (give_up_running o n z r c) a i = ground arith
Step-Inv {s = s} (give_up_idle o n z r t) a i = ground arith
Step-Inv {s = s} (give_up_unjoined p o n z r t) a i = ground arith
Step-Inv {s = s} (join_closing o t) a i = ground arith

init-Inv : (careful : Bool) → Inv careful init
unfolding init
init-Inv careful = ground arith

pub Steps-Inv : {careful : Bool} {s : State} → Steps careful init s → Inv careful s
Steps-Inv {careful} here = init-Inv careful
Steps-Inv (next r a st) = Step-Inv st a (Steps-Inv r)

closed_iff :
    (o : Owner) (r : Bool) (p : Option Pc) (n m : ℕ)
    → Tidy o
    → Fits o r p n
    → m ≡ n + held p
    → (m ≡ 0 ↔ o ≡ closed) × (o ≡ closed → p ≡ none)
closed_iff o r p n m t f c = ((λ q. ground arith, λ q. ground arith), λ q. ground arith)

-- An owner gives up its last reference only while no service thread runs. Then nothing terminates the
-- program, whatever ENet returns, but an exception that `processEvent` throws on the service thread; and
-- while it is not terminated, the owner's references and the one that the service thread may have are
-- all that there are, the destructor runs just when none is left, and then there is no thread.
pub stopped_first :
    {s : State}
    → Steps true init s
    → ((s.terminated ≡ true) × (s.cause ≡ escaped))
      ⊎ ((s.terminated ≡ false)
          × (s.strong ≡ s.owned + held s.thread)
          × (s.strong ≡ 0 ↔ s.owner ≡ closed)
          × (s.owner ≡ closed → s.thread ≡ none))
stopped_first {s} r =
    let i = Steps-Inv r in
    elim (Bool-cases s.terminated) [
      | inl over ↦ inl (over, i.alive refl over)
      | inr alive ↦
          let ends =
            closed_iff s.owner s.running s.thread s.owned s.strong (i.tidy refl) (i.fits alive)
              (i.counted alive) in
          inr (alive, i.counted alive, ends.0, ends.1)
    ]
