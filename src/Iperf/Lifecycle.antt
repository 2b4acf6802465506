-- ===== src/Iperf/Lifecycle.antt =====
-- What any sequence of Start, Stop and reaped processes keeps (agent/internal/iperf/manager.go).
use infracheck_appliance.Base.{
  ℕ, ◌+◌, ◌<◌, String, Bool, true, false, Option, none, some, ◌≡◌, ◌≢◌, refl, List, [], ◌∷◌, arith,
  ◌⊎◌, inl, inr, ◌==◌, if◌then◌else◌, keep, is_some, Bool-cases,
}
use infracheck_appliance.Iperf.{
  Cmd, Manager, Launch, launched, failed, StartWorld, StopWorld, start, stop, reaped,
}

-- The manager together with the processes whose `Wait` has not returned, newest first, and the
-- identity that the next command gets.
pub record System : Type 0 where
  pub manager : Manager
  pub waiting : List Cmd
  pub next : ℕ

abbrev pub Waits : Cmd → List Cmd → Type 0
Waits c [] = ⊥
Waits c (d ∷ ds) = (c ≡ d) ⊎ Waits c ds

abbrev pub Fresh : ℕ → List Cmd → Type 0
Fresh n [] = Unit
Fresh n (d ∷ ds) = (d.ident < n) × Fresh n ds

abbrev started : Launch → List Cmd → List Cmd
started (failed e) cs = cs
started (launched c) cs = c ∷ cs

-- The processes after a call of `Start`: one more exactly if the call came to a launch.
pub launches : StartWorld → Manager → List Cmd → List Cmd
launches w m cs =
    if w.found
    then (if is_some m.cmd then cs else if is_some w.cancelled then cs else started w.launch cs)
    else cs

abbrev LaunchIdent : Launch → ℕ → Type 0
LaunchIdent (failed e) n = Unit
LaunchIdent (launched c) n = c.ident ≡ n

-- Every command that is launched is a new object.
pub data Step : System → System → Type 0 where
  do_start :
      (s : System) (w : StartWorld)
      → LaunchIdent w.launch s.next
      → 0 < w.now
      → Step s (record {
        manager = (start w s.manager).0;
        waiting = launches w s.manager s.waiting;
        next = s.next + 1;
      })
  do_stop : (s : System) (w : StopWorld) → Step s (record s { manager = (stop w s.manager).0 })
  do_reap :
      (s : System) (c : Cmd) (err : Option String)
      → Waits c s.waiting
      → Step s (record s {
        manager = reaped c err s.manager;
        waiting = keep (λ d. if d.ident == c.ident then false else true) s.waiting;
      })

pub data Reach (s : System) : System → Type 0 where
  here : Reach s s
  next : {t u : System} → Reach s t → Step t u → Reach s u

abbrev Tracked : Option Cmd → List Cmd → Type 0
Tracked none cs = Unit
Tracked (some c) cs = Waits c cs

-- The command that the manager tracks is one whose goroutine still waits for it, the start time is
-- set exactly while a command is tracked, and identities are not reused.
pub record IsSound (s : System) : Type 0 where
  pub tracked : Tracked s.manager.cmd s.waiting
  pub idle : s.manager.cmd ≡ none → s.manager.started_at ≡ 0
  pub busy : s.manager.cmd ≢ none → 0 < s.manager.started_at
  pub fresh : Fresh s.next s.waiting

Fresh-suc : (n : ℕ) (cs : List Cmd) → Fresh n cs → Fresh (n + 1) cs
Fresh-suc n [] h = tt
Fresh-suc n (d ∷ ds) h = (omega arith, Fresh-suc n ds h.1)

ident_lt_of_Waits : (n : ℕ) (c : Cmd) (cs : List Cmd) → Fresh n cs → Waits c cs → c.ident < n
ident_lt_of_Waits n c [] h x = elim x [ ]
ident_lt_of_Waits n c (d ∷ ds) h (inl e) = rw e h.0
ident_lt_of_Waits n c (d ∷ ds) h (inr w) = ident_lt_of_Waits n c ds h.1 w

Fresh-keep : (n : ℕ) (p : Cmd → Bool) (cs : List Cmd) → Fresh n cs → Fresh n (keep p cs)
Fresh-keep n p [] h = tt
Fresh-keep n p (d ∷ ds) h = elim (p d) as (λ b. Fresh n (if b then d ∷ keep p ds else keep p ds)) [
  | true ↦ (h.0, Fresh-keep n p ds h.1)
  | false ↦ Fresh-keep n p ds h.1
]

Waits-keep :
    (p : Cmd → Bool) (c : Cmd) (cs : List Cmd) → Waits c cs → p c ≡ true → Waits c (keep p cs)
Waits-keep p c [] x h = elim x [ ]
Waits-keep p c (d ∷ ds) (inl e) h = rw (← e, h) (inl refl)
Waits-keep p c (d ∷ ds) (inr w) h =
    elim (p d) as (λ b. Waits c (if b then d ∷ keep p ds else keep p ds)) [
      | true ↦ inr (Waits-keep p c ds w h)
      | false ↦ Waits-keep p c ds w h
    ]

start-IsSound :
    (s : System) (w : StartWorld)
    → LaunchIdent w.launch s.next
    → 0 < w.now
    → IsSound s
    → IsSound (record {
      manager = (start w s.manager).0;
      waiting = launches w s.manager s.waiting;
      next = s.next + 1;
    })
unfolding start launches
start-IsSound s w fresh now h = record {
  tracked = ground arith;
  idle = ground arith;
  busy = ground arith;
  fresh = ground (arith, Fresh-suc s.next s.waiting);
}

stop-IsSound :
    (s : System) (w : StopWorld) → IsSound s → IsSound (record s { manager = (stop w s.manager).0 })
unfolding stop
stop-IsSound s w h = record {
  tracked = ground arith;
  idle = ground arith;
  busy = ground arith;
  fresh = h.fresh;
}

-- A process that is not the tracked one leaves the tracked one waiting.
tracked_survives :
    (c d : Cmd) (cs : List Cmd)
    → Waits d cs
    → (d.ident == c.ident) ≡ false
    → Waits d (keep (λ x. if x.ident == c.ident then false else true) cs)
tracked_survives c d cs w ne = Waits-keep _ d cs w (rw ne)

reaped-Tracked :
    (c : Cmd) (err : Option String) (m : Manager) (cs : List Cmd)
    → Tracked m.cmd cs
    → Tracked (reaped c err m).cmd (keep (λ d. if d.ident == c.ident then false else true) cs)
unfolding reaped
reaped-Tracked c err m cs h = go m.cmd refl
  where
    go :
        (o : Option Cmd)
        → m.cmd ≡ o
        → Tracked (reaped c err m).cmd (keep (λ d. if d.ident == c.ident then false else true) cs)
    go none e = ground arith
    go (some d) e = elim (Bool-cases (d.ident == c.ident)) [
      | inl same ↦ ground arith
      | inr other ↦ ground (arith, tracked_survives c d cs (rw e at h) other)
    ]

reap-IsSound :
    (s : System) (c : Cmd) (err : Option String)
    → Waits c s.waiting
    → IsSound s
    → IsSound (record s {
      manager = reaped c err s.manager;
      waiting = keep (λ d. if d.ident == c.ident then false else true) s.waiting;
    })
unfolding reaped
reap-IsSound s c err w h = record {
  tracked = reaped-Tracked c err s.manager s.waiting h.tracked;
  idle = ground arith;
  busy = ground arith;
  fresh = Fresh-keep s.next _ s.waiting h.fresh;
}

-- In every state that calls of Start and Stop and the ends of processes reach from a sound one, the
-- tracked command, if there is one, is a process whose Wait has not returned, the start time is
-- positive exactly while a command is tracked, and the next identity is in no use.
pub Reach-IsSound : {s t : System} → IsSound s → Reach s t → IsSound t
Reach-IsSound h here = h
Reach-IsSound h (next r (do_start s w fresh now)) = start-IsSound s w fresh now (Reach-IsSound h r)
Reach-IsSound h (next r (do_stop s w)) = stop-IsSound s w (Reach-IsSound h r)
Reach-IsSound h (next r (do_reap s c err waits)) = reap-IsSound s c err waits (Reach-IsSound h r)
