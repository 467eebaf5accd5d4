-- ===== src/Script/Monitor.antt =====
-- A monitor watches the requests of a script and their answers.
use gitveil.Base.{◌≡◌, refl, List, [], ◌∷◌, Outcome, ok, err}
use gitveil.Workflow.{ErrorCategory}
use gitveil.Script.{Request, Result, Script, done, step, ◌>>=◌}

pub record Monitor : Type 1 where
  pub State : Type 0
  pub Allows : State → Request → Type 0
  pub after : State → (q : Request) → Outcome ErrorCategory (Result q) → State

-- One run: the requests with their answers, in order, and the outcome.
pub data Event : Type 0 where
  asked : (q : Request) → Outcome ErrorCategory (Result q) → Event

pub data Runs {A : Type 0} : Script A → List Event → Outcome ErrorCategory A → Type 0 where
  finished : (outcome : Outcome ErrorCategory A) → Runs (done outcome) [] outcome
  answered :
      (q : Request) (k : Outcome ErrorCategory (Result q) → Script A)
      (answer : Outcome ErrorCategory (Result q)) {log : List Event}
      {outcome : Outcome ErrorCategory A}
      → Runs (k answer) log outcome
      → Runs (step q k) (asked q answer ∷ log) outcome

-- What holds of each success and of each error holds of an answer.
pub by_answer :
    {A : Type 0} (P : Outcome ErrorCategory A → Type 0)
    → ((a : A) → P (ok a))
    → ((e : ErrorCategory) → P (err e))
    → (answer : Outcome ErrorCategory A) → P answer
by_answer P good bad (ok a) = good a
by_answer P good bad (err e) = bad e

module _ (M : Monitor) where
  -- The monitor allows each request, whatever the answers; `Q` holds at the end.
  abbrev pub Follows :
      {A : Type 0} → (M.State → Outcome ErrorCategory A → Type 0) → M.State → Script A → Type 0
  Follows Q s (done outcome) = Q s outcome
  Follows Q s (step q k) =
      M.Allows s q
      × ((answer : Outcome ErrorCategory (Result q)) → Follows Q (M.after s q answer) (k answer))

  -- What a first part has to establish for what comes next.
  abbrev pub Then :
      {A B : Type 0}
      → (M.State → Outcome ErrorCategory B → Type 0)
      → (A → Script B)
      → M.State
      → Outcome ErrorCategory A
      → Type 0
  Then Q f s (ok a) = Follows Q s (f a)
  Then Q f s (err e) = Q s (err e)

  pub Follows->>= :
      {A B : Type 0} (Q : M.State → Outcome ErrorCategory B → Type 0) (s : M.State) (m : Script A)
      (f : A → Script B)
      → Follows (Then Q f) s m
      → Follows Q s (m >>= f)
  Follows->>= Q s (done (ok a)) f h = h
  Follows->>= Q s (done (err e)) f h = h
  Follows->>= Q s (step q k) f h =
      (h.0, λ answer. Follows->>= Q (M.after s q answer) (k answer) f (h.1 answer))

  -- A step that asks nothing.
  pub Follows-done :
      {A B : Type 0} (Q : M.State → Outcome ErrorCategory B → Type 0) (s : M.State)
      (outcome : Outcome ErrorCategory A) (f : A → Script B)
      → ((a : A) → outcome ≡ ok a → Follows Q s (f a))
      → ((e : ErrorCategory) → Q s (err e))
      → Follows Q s (done outcome >>= f)
  Follows-done Q s (ok a) f good bad = good a refl
  Follows-done Q s (err e) f good bad = bad e

  pub Follows-weaken :
      {A : Type 0} (P Q : M.State → Outcome ErrorCategory A → Type 0)
      → ((s : M.State) (outcome : Outcome ErrorCategory A) → P s outcome → Q s outcome)
      → (s : M.State) (m : Script A) → Follows P s m
      → Follows Q s m
  Follows-weaken P Q w s (done outcome) h = w s outcome h
  Follows-weaken P Q w s (step q k) h =
      (h.0, λ answer. Follows-weaken P Q w (M.after s q answer) (k answer) (h.1 answer))

  -- A first part with what it establishes, and what comes next.
  pub Follows-bind :
      {A B : Type 0} (P : M.State → Outcome ErrorCategory A → Type 0)
      (Q : M.State → Outcome ErrorCategory B → Type 0) (s : M.State) (m : Script A)
      (f : A → Script B)
      → ((s' : M.State) (outcome : Outcome ErrorCategory A) → P s' outcome → Then Q f s' outcome)
      → Follows P s m
      → Follows Q s (m >>= f)
  Follows-bind P Q s m f next h = Follows->>= Q s m f (Follows-weaken P (Then Q f) next s m h)

  -- The state after a run, and that the monitor allows each of its requests.
  abbrev pub state_after : M.State → List Event → M.State
  state_after s [] = s
  state_after s (asked q answer ∷ log) = state_after (M.after s q answer) log

  abbrev pub Accepts : M.State → List Event → Type 0
  Accepts s [] = Unit
  Accepts s (asked q answer ∷ log) = M.Allows s q × Accepts (M.after s q answer) log

  pub Runs-Accepts :
      {A : Type 0} (Q : M.State → Outcome ErrorCategory A → Type 0) (s : M.State) (m : Script A)
      {log : List Event} {outcome : Outcome ErrorCategory A}
      → Follows Q s m
      → Runs m log outcome
      → Accepts s log × Q (state_after s log) outcome
  Runs-Accepts Q s m h (finished outcome) = (tt, h)
  Runs-Accepts Q s m h (answered q k answer r) =
      let (accepted, last) = Runs-Accepts Q (M.after s q answer) (k answer) (h.1 answer) r in
      ((h.0, accepted), last)
