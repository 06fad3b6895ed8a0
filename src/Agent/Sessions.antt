-- ===== src/Agent/Sessions.antt =====
-- The flag and the auto-stop of the daemon's captures, in internal/agent/daemon.go, and what an error of
-- a capture's goroutine leaves of them.
use mocking_box.Prelude.{
  ◌≡◌, refl, ℕ, suc, List, [], ◌∷◌, All, ◌+◌, ◌*◌, ◌≤◌, ◌<◌, Bool, true, false, Option, none, some,
  arith, Bool-cases, inl, inr, GoString, Option-cases, ◌≢◌, ◌⊎◌,
}
use mocking_box.Agent.Daemon.{
  Action, start, stop, upload, other, Command, Daemon, StartInputs, Step, command, timer_fires,
  goroutine_ends, Reachable, at_start, after, exec, start_capture, started, stop_capture,
  capture_ended, capped, minute, Later, unchanged, later,
}

-- No session after this one is cancelled, and this one is not.
abbrev Below : ℕ → List ℕ → Type 0
Below session = All (λ k. k < session)

abbrev IsTimedAt : Bool → Option ℕ → Option (ℕ × ℕ) → ℕ → List ℕ → Type 0
IsTimedAt true stop_at timer session cancelled =
    (t : ℕ) × ((stop_at ≡ some t) × ((timer ≡ some (session, t)) × Below session cancelled))
IsTimedAt false stop_at timer session cancelled =
    (stop_at ≡ none) × ((timer ≡ none) × Below (suc session) cancelled)

-- Where the flag `running` is set, there is a time to stop at, for which the newest session has its timer
-- armed, and neither it nor a later one is cancelled; where it is clear, there is neither.
abbrev pub IsTimed : Daemon → Type 0
IsTimed d = IsTimedAt (d.running) (d.stop_at) (d.timer) (d.session) (d.cancelled)

Below-suc : (n : ℕ) (ks : List ℕ) → Below n ks → Below (suc n) ks
Below-suc n [] h = tt
Below-suc n (k ∷ ks) (p, h) = (omega (arith, p), Below-suc n ks h)

IsTimed-Below : (d : Daemon) → IsTimed d → Below (suc (d.session)) (d.cancelled)
IsTimed-Below d h = elim (Bool-cases (d.running)) [
  | inl e ↦ let (t, (p, (q, b))) = rw e at h in Below-suc (d.session) (d.cancelled) b
  | inr e ↦ let (p, (q, b)) = rw e at h in b
]

stop_capture-IsTimed : (d : Daemon) → IsTimed d → IsTimed (stop_capture d)
unfolding stop_capture
stop_capture-IsTimed d h = elim (Bool-cases (d.running)) [
  | inl e ↦ rw e (refl, (refl, (omega arith, IsTimed-Below d h)))
  | inr e ↦ rw e (rw e at h)
]

start_capture-IsTimed :
    (cmd : Command) (inputs : StartInputs) (d : Daemon)
    → IsTimed d
    → IsTimed (start_capture cmd inputs d)
unfolding start_capture started
start_capture-IsTimed cmd inputs d h = elim (Bool-cases (d.running)) [
  | inl e ↦ rw e (rw e at h)
  | inr e ↦ elim (Option-cases (inputs.output_error)) [
    | inl f ↦
        rw (e, f)
          (inputs.now + capped (cmd.duration_min) * minute, (refl, (refl, IsTimed-Below d h)))
    | inr (m, f) ↦ rw (e, f) (rw e at h)
  ]
]

capture_ended-IsTimed : (e : Option GoString) (d : Daemon) → IsTimed d → IsTimed (capture_ended e d)
unfolding capture_ended
capture_ended-IsTimed none d h = h
capture_ended-IsTimed (some e) d h = (refl, (refl, IsTimed-Below d h))

true-ne_false : (b : Bool) → b ≡ true → b ≡ false → ⊥
true-ne_false b e f = cc

Action-cases : (a : Action) → (a ≡ start) ⊎ ((a ≡ stop) ⊎ ((a ≡ upload) ⊎ (a ≡ other)))
Action-cases start = inl refl
Action-cases stop = inr (inl refl)
Action-cases upload = inr (inr (inl refl))
Action-cases other = inr (inr (inr refl))

exec-IsTimed :
    (cmd : Command) (inputs : StartInputs) (d : Daemon) → IsTimed d → IsTimed (exec cmd inputs d)
unfolding exec
exec-IsTimed cmd inputs d h = elim (Action-cases (cmd.action)) [
  | inl e ↦ rw e (start_capture-IsTimed cmd inputs d h)
  | inr (inl e) ↦ rw e (stop_capture-IsTimed d h)
  | inr (inr (inl e)) ↦ rw e h
  | inr (inr (inr e)) ↦ rw e h
]

Step-IsTimed : {d d' : Daemon} → Step d d' → IsTimed d → IsTimed d'
Step-IsTimed (command cmd inputs d) h = exec-IsTimed cmd inputs d h
Step-IsTimed (timer_fires d) h = stop_capture-IsTimed d h
Step-IsTimed (goroutine_ends e d) h = capture_ended-IsTimed e d h

pub Reachable-IsTimed : {d : Daemon} → Reachable d → IsTimed d
Reachable-IsTimed at_start = (refl, (refl, tt))
Reachable-IsTimed (after r s) = Step-IsTimed s (Reachable-IsTimed r)

-- A session that is not cancelled, and that no stop can reach any more.
abbrev IsLost : ℕ → Daemon → Type 0
IsLost k d =
    All (λ c. c ≢ k) (d.cancelled) × ((k ≤ d.session) × ((d.running ≡ false) ⊎ (k < d.session)))

stop_capture-IsLost : (k : ℕ) (d : Daemon) → IsLost k d → IsLost k (stop_capture d)
unfolding stop_capture
stop_capture-IsLost k d (a, (b, c)) = elim (Bool-cases (d.running)) [
  | inr e ↦ rw e (a, (b, inl refl))
  | inl e ↦ elim c [
    | inl f ↦ absurd (true-ne_false (d.running) e f)
    | inr p ↦ rw e (((λ q. ground (arith, p, q)), a), (b, inr p))
  ]
]

start_capture-IsLost :
    (cmd : Command) (inputs : StartInputs) (d : Daemon) (k : ℕ)
    → IsLost k d
    → IsLost k (start_capture cmd inputs d)
unfolding start_capture started
start_capture-IsLost cmd inputs d k (a, (b, c)) = elim (Bool-cases (d.running)) [
  | inl e ↦ rw e (a, (b, rw e at c))
  | inr e ↦ elim (Option-cases (inputs.output_error)) [
    | inl f ↦ rw (e, f) (a, (omega (arith, b), inr (omega (arith, b))))
    | inr (m, f) ↦ rw (e, f) (a, (b, inl refl))
  ]
]

exec-IsLost :
    (cmd : Command) (inputs : StartInputs) (d : Daemon) (k : ℕ)
    → IsLost k d
    → IsLost k (exec cmd inputs d)
unfolding exec
exec-IsLost cmd inputs d k h = elim (Action-cases (cmd.action)) [
  | inl e ↦ rw e (start_capture-IsLost cmd inputs d k h)
  | inr (inl e) ↦ rw e (stop_capture-IsLost k d h)
  | inr (inr (inl e)) ↦ rw e h
  | inr (inr (inr e)) ↦ rw e h
]

capture_ended-IsLost :
    (e : Option GoString) (d : Daemon) (k : ℕ) → IsLost k d → IsLost k (capture_ended e d)
unfolding capture_ended
capture_ended-IsLost none d k h = h
capture_ended-IsLost (some e) d k (a, (b, c)) = (a, (b, inl refl))

Step-IsLost : {d d' : Daemon} (k : ℕ) → Step d d' → IsLost k d → IsLost k d'
Step-IsLost k (command cmd inputs d) h = exec-IsLost cmd inputs d k h
Step-IsLost k (timer_fires d) h = stop_capture-IsLost k d h
Step-IsLost k (goroutine_ends e d) h = capture_ended-IsLost e d k h

Later-IsLost : {d d' : Daemon} (k : ℕ) → Later d d' → IsLost k d → IsLost k d'
Later-IsLost k unchanged h = h
Later-IsLost k (later l s) h = Step-IsLost k s (Later-IsLost k l h)

Below-ne : (n : ℕ) (ks : List ℕ) → Below n ks → All (λ c. c ≢ n) ks
Below-ne n [] h = tt
Below-ne n (k ∷ ks) (p, h) = ((λ q. ground (arith, p, q)), Below-ne n ks h)

-- In a reachable state with the flag `running` set, an error that ends the goroutine of any session,
-- an earlier one included, clears the flag and disarms the timer, and then the newest session is never
-- cancelled, whatever commands, timers and ends of captures follow.
pub capture_ended-lost :
    {d d' : Daemon} (e : GoString)
    → Reachable d
    → d.running ≡ true
    → Later (capture_ended (some e) d) d'
    → ((capture_ended (some e) d).running ≡ false)
      × (((capture_ended (some e) d).timer ≡ none) × All (λ c. c ≢ d.session) (d'.cancelled))
unfolding capture_ended
capture_ended-lost {d} e r run l =
    let (t, (p, (q, b))) = rw run at (Reachable-IsTimed r) in
    let (a, _) =
      Later-IsLost (d.session) l (Below-ne (d.session) (d.cancelled) b, (omega arith, inl refl)) in
    (refl, (refl, a))
