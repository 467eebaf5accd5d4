-- ===== src/Authorization/Files.antt =====
-- What one command does to the recipients of each existing ciphertext.
use gitveil.Base.{
  Bool, not, ◌&&◌, ◌||◌, List, [], ◌∷◌, ◌++◌, ◌≡◌, ◌≢◌, refl, append-nil, ◌==◌, arith, none, some,
  if◌then◌else◌, Bool-cases, Option-cases, inl, inr, eq_refl, all, filter, length, contains,
  contains-append, contains-filter, filter-eq_self, all-of-filter-length, length-append, ok,
  >>=-eq-ok, nat_eq, list_eq,
}
use gitveil.ManagedPath.{ManagedPath}
use gitveil.Recipient.{AgeRecipient, AgeRecipientPolicy}
use gitveil.Authorization.{
  RecipientMutation, add, remove, FileRecipientFacts, ConvergenceAction, already_aligned, rewrap,
  rotate, FilePlan, AuthorizationPlan, requested, first_repeat, without, manifest_effect, converge,
  file_plan, plan_files, plan_authorization,
}

-- The files that have a ciphertext, in order, each with the recipients of its envelope.
abbrev pub existing : List FileRecipientFacts → List (ManagedPath × List AgeRecipient)
existing [] = []
existing (facts ∷ rest) = elim facts.envelope_recipients [
  | none ↦ existing rest
  | some envelope ↦ (facts.path, envelope) ∷ existing rest
]

-- The two lists have one length, and what stands at one place is related.
pub data Each {ℓ κ} {A : Type ℓ} {B : Type κ} (R : A → B → Type 0)
    : List A → List B → Type (ℓ ⊔ κ) where
  nil : Each R [] []
  cons :
      {a : A} {b : B} {as' : List A} {bs : List B}
      → R a b
      → Each R as' bs
      → Each R (a ∷ as') (b ∷ bs)

pub contains-without :
    (excluded xs : List AgeRecipient) (r : AgeRecipient)
    → contains (without excluded xs) r ≡ (contains xs r && not (contains excluded r))
contains-without excluded xs r = contains-filter (λ k. not (contains excluded k)) xs r

-- What a plan says of the rest that the policy still differs by.
pub record Pending (desired : List AgeRecipient) (plan : FilePlan) : Type 0 where
  pub additions :
      (r : AgeRecipient)
      → contains plan.pending_additions r
        ≡ (contains desired r && not (contains plan.target_recipients r))
  pub removals :
      (r : AgeRecipient)
      → contains plan.pending_removals r
        ≡ (contains plan.target_recipients r && not (contains desired r))

-- The plan of one file under `add`: the envelope keeps its recipients, in their places, and gains
-- the named ones; a rewrap is planned exactly when a named one was missing.
pub record Grants (additions desired : List AgeRecipient) (file : ManagedPath × List AgeRecipient)
    (plan : FilePlan) : Type 0 where
  pub path_eq : plan.path ≡ file.0
  pub target :
      (r : AgeRecipient)
      → contains plan.target_recipients r ≡ (contains file.1 r || contains additions r)
  pub extends : plan.target_recipients ≡ file.1 ++ without file.1 additions
  pub action_eq :
      plan.action ≡ (if all (contains file.1) additions then already_aligned else rewrap)
  pub pending : Pending desired plan

-- The plan of one file under `remove`: exactly the named recipients leave, somebody stays, and a
-- rotation is planned exactly when somebody leaves.
pub record Revokes (removals desired : List AgeRecipient) (file : ManagedPath × List AgeRecipient)
    (plan : FilePlan) : Type 0 where
  pub path_eq : plan.path ≡ file.0
  pub target :
      (r : AgeRecipient)
      → contains plan.target_recipients r ≡ (contains file.1 r && not (contains removals r))
  pub target_ne_nil : plan.target_recipients ≢ []
  pub action_eq :
      plan.action
      ≡ (if all (λ r. not (contains removals r)) file.1 then already_aligned else rotate)
  pub pending : Pending desired plan

file_plan-Pending :
    (desired : List AgeRecipient) (path : ManagedPath) (c : List AgeRecipient × ConvergenceAction)
    → Pending desired (file_plan desired path c)
unfolding file_plan
file_plan-Pending desired path (target, action) = record {
  additions = contains-without target desired;
  removals = contains-without desired target;
}

-- The test on the lengths finds out whether a filter dropped something.
same_length :
    (p : AgeRecipient → Bool) (xs : List AgeRecipient)
    → (length (filter p xs) == length xs) ≡ all p xs
same_length p xs = elim (Bool-cases (all p xs)) [
  | inl every ↦ rw (filter-eq_self p xs every, every) (eq_refl (length xs))
  | inr some_out ↦ ground (arith, all-of-filter-length p xs)
]

absent_nil :
    (envelope additions : List AgeRecipient)
    → (length (envelope ++ without envelope additions) == length envelope)
      ≡ all (contains envelope) additions
unfolding all filter
absent_nil envelope [] = rw append-nil (eq_refl (length envelope))
absent_nil envelope (r ∷ rest) = ground (
  arith,
  absent_nil envelope rest,
  length-append envelope (without envelope rest),
  length-append envelope (r ∷ without envelope rest),
)

add-Grants :
    (additions desired : List AgeRecipient) (path : ManagedPath) (envelope : List AgeRecipient)
    (c : List AgeRecipient × ConvergenceAction)
    → converge (add additions) path envelope ≡ ok c
    → Grants additions desired (path, envelope) (file_plan desired path c)
unfolding converge file_plan
add-Grants additions desired path envelope (target, action) h = record {
  path_eq = refl;
  target = λ r. ground (
    arith,
    contains-append envelope (without envelope additions) r,
    contains-without envelope additions r,
  );
  extends = ground arith;
  action_eq = ground (arith, absent_nil envelope additions);
  pending = file_plan-Pending desired path (target, action);
}

remove-Revokes :
    (removals desired : List AgeRecipient) (path : ManagedPath) (envelope : List AgeRecipient)
    (c : List AgeRecipient × ConvergenceAction)
    → converge (remove removals) path envelope ≡ ok c
    → Revokes removals desired (path, envelope) (file_plan desired path c)
unfolding converge file_plan
remove-Revokes removals desired path envelope (target, action) h = record {
  path_eq = refl;
  target = λ r. ground (arith, contains-without removals envelope r);
  target_ne_nil = λ e. ground arith;
  action_eq = ground (arith, same_length (λ r. not (contains removals r)) envelope);
  pending = file_plan-Pending desired path (target, action);
}

plan_files-Each :
    (R : ManagedPath × List AgeRecipient → FilePlan → Type 0) (desired : List AgeRecipient)
    (mutation : RecipientMutation)
    → ((path : ManagedPath) (envelope : List AgeRecipient)
          (c : List AgeRecipient × ConvergenceAction)
        → converge mutation path envelope ≡ ok c
        → R (path, envelope) (file_plan desired path c))
    → (files : List FileRecipientFacts) {plans : List FilePlan}
    → plan_files desired mutation files ≡ ok plans
    → Each R (existing files) plans
unfolding plan_files
plan_files-Each R desired mutation step [] {plans} h =
    let e : ◌≡◌ {A = List FilePlan} plans [] = cc in rw e nil
plan_files-Each R desired mutation step (facts ∷ rest) {plans} h =
    elim (Option-cases facts.envelope_recipients) [
      | inl missing ↦ rw missing (plan_files-Each R desired mutation step rest (ground arith))
      | inr (envelope, found) ↦
          let (c, converged, h') =
            >>=-eq-ok (converge mutation facts.path envelope) _ (rw (found, plan_files) at h) in
          let (later, planned, h2) = >>=-eq-ok (plan_files desired mutation rest) _ h' in
          let last : ◌≡◌ {A = List FilePlan} plans (file_plan desired facts.path c ∷ later) = cc in
          rw (found, last)
            (cons (step facts.path envelope c converged)
              (plan_files-Each R desired mutation step rest planned))
    ]

-- The parts of an accepted plan.
pub record Accepted (policy : AgeRecipientPolicy) (mutation : RecipientMutation)
    (files : List FileRecipientFacts) (plan : AuthorizationPlan) : Type 0 where
  pub no_repeat : first_repeat [] (requested mutation) ≡ none
  pub effect :
      manifest_effect policy.recipients mutation files ≡ ok (plan.desired_recipients, plan.deltas)
  pub planned : plan_files plan.desired_recipients mutation files ≡ ok plan.files
  pub changed : plan.manifest_changed ≡ not (plan.desired_recipients == policy.recipients)

pub plan_authorization-Accepted :
    (policy : AgeRecipientPolicy) (mutation : RecipientMutation) (files : List FileRecipientFacts)
    {plan : AuthorizationPlan}
    → plan_authorization policy mutation files ≡ ok plan
    → Accepted policy mutation files plan
unfolding plan_authorization
plan_authorization-Accepted policy mutation files {plan} h =
    elim (Option-cases (first_repeat [] (requested mutation))) [
      | inl fresh ↦
          let (effect, made, h') =
            >>=-eq-ok (manifest_effect policy.recipients mutation files) _
              (rw (fresh, plan_authorization) at h) in
          let (plans, planned, h2) = >>=-eq-ok (plan_files effect.0 mutation files) _ h' in
          record {
            no_repeat = fresh;
            effect = ground arith;
            planned = ground arith;
            changed = ground arith;
          }
      | inr (r, repeated) ↦ absurd (cc (rw (repeated, plan_authorization) at h))
    ]

module _ (policy : AgeRecipientPolicy) (files : List FileRecipientFacts) where
  -- An accepted `add` plans every existing ciphertext, in order, and grants exactly what it names.
  pub plan_authorization-Grants :
      (additions : List AgeRecipient) {plan : AuthorizationPlan}
      → plan_authorization policy (add additions) files ≡ ok plan
      → Each (Grants additions plan.desired_recipients) (existing files) plan.files
  plan_authorization-Grants additions {plan} h =
      let accepted = plan_authorization-Accepted policy (add additions) files h in
      plan_files-Each (Grants additions plan.desired_recipients) plan.desired_recipients
        (add additions) (add-Grants additions plan.desired_recipients) files accepted.planned

  -- An accepted `remove` plans every existing ciphertext, in order, revokes exactly what it names,
  -- and leaves every ciphertext with a recipient.
  pub plan_authorization-Revokes :
      (removals : List AgeRecipient) {plan : AuthorizationPlan}
      → plan_authorization policy (remove removals) files ≡ ok plan
      → Each (Revokes removals plan.desired_recipients) (existing files) plan.files
  plan_authorization-Revokes removals {plan} h =
      let accepted = plan_authorization-Accepted policy (remove removals) files h in
      plan_files-Each (Revokes removals plan.desired_recipients) plan.desired_recipients
        (remove removals) (remove-Revokes removals plan.desired_recipients) files accepted.planned
