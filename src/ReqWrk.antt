-- ===== src/ReqWrk.antt =====
-- Lab05/src/01/req_wrk.c: `request` fills a shared array and waits for `work` to square it.
pub mod Phases
pub mod Results
mod Tests
use esercitazioni_sistemi_di.Base.{
  ℕ, zero, suc, ◌+◌, ◌-◌, ◌*◌, List, [], ◌∷◌, ◌++◌, set, get_or, replicate, ltb, if◌then◌else◌,
}

-- `NUM`
abbrev pub num : ℕ
num = 10

-- The place of `request`: its loops by their counter `i`, and its calls on the semaphores.
pub data Request : Type 0 where
  generate : ℕ → Request
  post_req wait_wrk : Request
  print : ℕ → Request
  request_ended : Request

-- The place of `work`.
pub data Work : Type 0 where
  wait_req : Work
  update : ℕ → Work
  post_wrk work_ended : Work

-- The shared memory and the two semaphores, the place of each process, and what `request` has
-- printed.
pub record System : Type 0 where
  pub shared : List ℕ
  pub sem_req : ℕ
  pub sem_wrk : ℕ
  pub request : Request
  pub work : Work
  pub printed : List ℕ

-- `main`: the memory is zero after `ftruncate`, the semaphores are created at 0, and `fork` starts
-- the two processes.
abbrev pub init : System
init = record {
  shared = replicate num 0;
  sem_req = 0;
  sem_wrk = 0;
  request = generate 0;
  work = wait_req;
  printed = [];
}

-- One step of `request`. A `sem_wait` on 0 leaves the state as it is.
unfoldable pub move_request : Request → System → System
move_request (generate i) s =
    if ltb i num
    then record s { shared = set s.shared i i; request = generate (i + 1) }
    else record s { request = post_req }
move_request post_req s = record s { sem_req = s.sem_req + 1; request = wait_wrk }
move_request wait_wrk s =
    if ltb 0 s.sem_wrk then record s { sem_wrk = s.sem_wrk - 1; request = print 0 } else s
move_request (print i) s =
    if ltb i num
    then record s { request = print (i + 1); printed = s.printed ++ get_or s.shared i 0 ∷ [] }
    else record s { request = request_ended }
move_request request_ended s = s

-- One step of `work`.
unfoldable pub move_work : Work → System → System
move_work wait_req s =
    if ltb 0 s.sem_req then record s { sem_req = s.sem_req - 1; work = update 0 } else s
move_work (update i) s =
    if ltb i num
    then record s {
      shared = set s.shared i (get_or s.shared i 0 * get_or s.shared i 0);
      work = update (i + 1);
    }
    else record s { work = post_wrk }
move_work post_wrk s = record s { sem_wrk = s.sem_wrk + 1; work = work_ended }
move_work work_ended s = s

-- Whose turn it is: the parent runs `request`, the child `work`.
pub data Turn : Type 0 where
  parent child : Turn

unfoldable pub step : Turn → System → System
step parent s = move_request s.request s
step child s = move_work s.work s

-- A schedule is the list of the turns.
unfoldable pub run : List Turn → System → System
unfolding step
run [] s = s
run (t ∷ ts) s = run ts (step t s)
