-- ===== src/ReqWrk/Results.antt =====
-- What `main` of Lab05/src/01/req_wrk.c comes to, under every schedule of its two processes.
use esercitazioni_sistemi_di.Base.{
  ℕ, zero, suc, ◌+◌, ◌-◌, ◌≤◌, ◌<◌, ◌≡◌, ◌⊎◌, inl, inr, refl, Bool, true, false, List, [], ◌∷◌,
  ◌&&◌, arith,
}
use esercitazioni_sistemi_di.ReqWrk.{
  num, Request, generate, post_req, wait_wrk, print, request_ended, Work, wait_req, update,
  post_wrk, work_ended, System, init, move_request, move_work, Turn, parent, child, step, run,
}
use esercitazioni_sistemi_di.ReqWrk.Phases.{squares, Phase, Inv, at, run-Inv, init-Inv, Inv-step}

-- Between two accesses to the array of `request`, and of `work`.
abbrev pub request_in_array : Request → Bool
request_in_array (generate i) = true
request_in_array (print i) = true
request_in_array r = false

abbrev pub work_in_array : Work → Bool
work_in_array (update i) = true
work_in_array w = false

Phase-exclusive :
    (r : Request) (w : Work) (s : System)
    → Phase r w s
    → (request_in_array r && work_in_array w) ≡ false
unfolding Phase
Phase-exclusive (generate i) wait_req s p = refl
Phase-exclusive post_req wait_req s p = refl
Phase-exclusive wait_wrk w s p = refl
Phase-exclusive (print i) work_ended s p = refl
Phase-exclusive request_ended work_ended s p = refl
Phase-exclusive r w s p = absurd p

-- Whatever the schedule, the two processes are never in their loops over the shared array at the
-- same time.
pub exclusive :
    (ts : List Turn)
    → (let s = run ts init in (request_in_array s.request && work_in_array s.work) ≡ false)
exclusive ts =
    let s = run ts init in Phase-exclusive s.request s.work s (run-Inv ts init init-Inv).phase

Phase-printed :
    (r : Request) (w : Work) (s : System)
    → Phase r w s
    → r ≡ request_ended
    → s.printed ≡ squares num
unfolding Phase
Phase-printed request_ended work_ended s p e = p.2
Phase-printed (generate i) w s p e = absurd (ground arith)
Phase-printed post_req w s p e = absurd (ground arith)
Phase-printed wait_wrk w s p e = absurd (ground arith)
Phase-printed (print i) w s p e = absurd (ground arith)
Phase-printed r w s p e = absurd p

-- Whatever the schedule, once `request` has ended it has printed the squares of the first `NUM`
-- numbers, in their order.
pub prints_squares :
    (ts : List Turn) → (run ts init).request ≡ request_ended → (run ts init).printed ≡ squares num
prints_squares ts e =
    let s = run ts init in Phase-printed s.request s.work s (run-Inv ts init init-Inv).phase e

-- How many steps are left.
abbrev request_left : Request → ℕ
request_left (generate i) = (num - i) + (num + 4)
request_left post_req = num + 3
request_left wait_wrk = num + 2
request_left (print i) = (num - i) + 1
request_left request_ended = 0

abbrev work_left : Work → ℕ
work_left wait_req = num + 3
work_left (update i) = (num - i) + 2
work_left post_wrk = 1
work_left work_ended = 0

abbrev left : System → ℕ
left s = request_left s.request + work_left s.work

abbrev pub Ended : System → Type 0
Ended s = (s.request ≡ request_ended) × (s.work ≡ work_ended)

abbrev Moves : System → Type 0
Moves s = (t : Turn) × (left (step t s) < left s)

can_move :
    (r : Request) (w : Work) (shared : List ℕ) (a b : ℕ) (printed : List ℕ)
    → Phase r w (at r w shared a b printed)
    → Ended (at r w shared a b printed) ⊎ Moves (at r w shared a b printed)
unfolding Phase step move_request move_work
can_move (generate i) wait_req xs a b pr p = inr (parent, ground arith)
can_move post_req wait_req xs a b pr p = inr (parent, omega arith)
can_move wait_wrk wait_req xs a b pr p = inr (child, ground (arith, p.0))
can_move wait_wrk (update i) xs a b pr p = inr (child, ground arith)
can_move wait_wrk post_wrk xs a b pr p = inr (child, omega arith)
can_move wait_wrk work_ended xs a b pr p = inr (parent, ground (arith, p.1))
can_move (print i) work_ended xs a b pr p = inr (parent, ground arith)
can_move request_ended work_ended xs a b pr p = inl (refl, refl)
can_move r w xs a b pr p = absurd p

finish : (fuel : ℕ) (s : System) → Inv s → left s ≤ fuel → (ts : List Turn) × Ended (run ts s)
unfolding run
finish zero s v h =
    elim (can_move s.request s.work s.shared s.sem_req s.sem_wrk s.printed v.phase) [
      | inl e ↦ ([], e)
      | inr (t, less) ↦ absurd (omega arith)
    ]
finish (suc fuel) s v h =
    elim (can_move s.request s.work s.shared s.sem_req s.sem_wrk s.printed v.phase) [
      | inl e ↦ ([], e)
      | inr (t, less) ↦
          let (ts, e) = finish fuel (step t s) (Inv-step t s v) (omega arith) in (t ∷ ts, e)
    ]

-- The handshake never blocks for good: whatever the schedule so far, there is one by which both
-- processes end.
pub can_finish : (ts : List Turn) → (ts' : List Turn) × Ended (run ts' (run ts init))
can_finish ts = finish (left (run ts init)) (run ts init) (run-Inv ts init init-Inv) (omega arith)
