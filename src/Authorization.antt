-- ===== src/Authorization.antt =====
-- src/recipients/plan.rs: the plan of `gitveil recipient add` and `gitveil recipient remove`.
pub mod Files
pub mod Policy
pub mod Rejections
use gitveil.Base.{
  Bool, true, false, not, List, [], ◌∷◌, ◌++◌, ◌≡◌, ◌==◌, Option, none, some, if◌then◌else◌, any,
  filter, find?, length, is_empty, contains, Str, Outcome, ok, err, ◌>>=◌, ◌>>◌, fail_if, nat_eq,
  list_eq,
}
use gitveil.ManagedPath.{ManagedPath}
use gitveil.Recipient.{AgeRecipient, AgeRecipientPolicy}

pub data RecipientMutation : Type 0 where
  add remove : List AgeRecipient → RecipientMutation

pub record FileRecipientFacts : Type 0 where
  pub path : ManagedPath
  pub envelope_recipients : Option (List AgeRecipient)

pub data ConvergenceAction : Type 0 where
  already_aligned rewrap rotate : ConvergenceAction

pub data PolicyDelta : Type 0 where
  added_to_policy already_in_policy : AgeRecipient → PolicyDelta
  removed_from_policy removed_from_ciphertext_only : AgeRecipient → PolicyDelta

pub record FilePlan : Type 0 where
  pub path : ManagedPath
  pub action : ConvergenceAction
  pub target_recipients : List AgeRecipient
  pub pending_additions : List AgeRecipient
  pub pending_removals : List AgeRecipient

pub record AuthorizationPlan : Type 0 where
  pub desired_recipients : List AgeRecipient
  pub manifest_changed : Bool
  pub files : List FilePlan
  pub deltas : List PolicyDelta

pub data AuthorizationRejection : Type 0 where
  duplicate_request remove_not_member : AgeRecipient → AuthorizationRejection
  empty_policy : AuthorizationRejection
  empties_envelope : ManagedPath → AuthorizationRejection

-- `let requested = match mutation { .. }`
abbrev pub requested : RecipientMutation → List AgeRecipient
requested (add recipients) = recipients
requested (remove recipients) = recipients

-- `requested.iter().find(|recipient| !seen.insert(recipient))`, from the values seen so far
unfoldable pub first_repeat : List AgeRecipient → List AgeRecipient → Option AgeRecipient
first_repeat seen [] = none
first_repeat seen (r ∷ rest) = if contains seen r then some r else first_repeat (r ∷ seen) rest

abbrev pub without : List AgeRecipient → List AgeRecipient → List AgeRecipient
without excluded = filter (λ r. not (contains excluded r))

-- The loop over the additions, from the accumulated list and deltas.
unfoldable pub add_effect :
    List AgeRecipient
    → List AgeRecipient
    → List PolicyDelta
    → List AgeRecipient
    → List AgeRecipient × List PolicyDelta
add_effect current desired deltas [] = (desired, deltas)
add_effect current desired deltas (r ∷ rest) =
    let known = contains current r in
    add_effect current (if known then desired else desired ++ r ∷ [])
      (deltas ++ (if known then already_in_policy r else added_to_policy r) ∷ []) rest

-- `facts.envelope_recipients.as_deref().is_some_and(|envelope| envelope.contains(removal))`
abbrev pub on_envelope : AgeRecipient → FileRecipientFacts → Bool
on_envelope r facts = elim facts.envelope_recipients [ none ↦ false | some env ↦ contains env r ]

-- The loop over the removals, from the accumulated deltas.
unfoldable pub removal_deltas :
    List AgeRecipient
    → List FileRecipientFacts
    → List PolicyDelta
    → List AgeRecipient
    → Outcome AuthorizationRejection (List PolicyDelta)
removal_deltas current files deltas [] = ok deltas
removal_deltas current files deltas (r ∷ rest) =
    let in_policy = contains current r in
    let delta = if in_policy then removed_from_policy r else removed_from_ciphertext_only r in
    let others = removal_deltas current files (deltas ++ delta ∷ []) rest in
    if in_policy
    then others
    else if any (on_envelope r) files
    then others
    else err (remove_not_member r)

unfoldable pub manifest_effect :
    List AgeRecipient
    → RecipientMutation
    → List FileRecipientFacts
    → Outcome AuthorizationRejection (List AgeRecipient × List PolicyDelta)
unfolding add_effect removal_deltas
manifest_effect current (add additions) files = ok (add_effect current current [] additions)
manifest_effect current (remove removals) files = do
  deltas ← removal_deltas current files [] removals
  let desired = without removals current
  fail_if (is_empty desired) empty_policy
  ok (desired, deltas)

-- The `match mutation` of one round of the loop over the files: the target and the action.
unfoldable pub converge :
    RecipientMutation
    → ManagedPath
    → List AgeRecipient
    → Outcome AuthorizationRejection (List AgeRecipient × ConvergenceAction)
converge (add additions) path envelope =
    let target = envelope ++ without envelope additions in
    ok (target, if length target == length envelope then already_aligned else rewrap)
converge (remove removals) path envelope =
    let target = without removals envelope in
    if is_empty target
    then err (empties_envelope path)
    else ok (target, if length target == length envelope then already_aligned else rotate)

-- The record that one round pushes.
unfoldable pub file_plan :
    List AgeRecipient → ManagedPath → List AgeRecipient × ConvergenceAction → FilePlan
file_plan desired path (target, action) = record {
  path = path;
  action = action;
  target_recipients = target;
  pending_additions = without target desired;
  pending_removals = without desired target;
}

-- The loop over the files.
unfoldable pub plan_files :
    List AgeRecipient
    → RecipientMutation
    → List FileRecipientFacts
    → Outcome AuthorizationRejection (List FilePlan)
unfolding converge file_plan
plan_files desired mutation [] = ok []
plan_files desired mutation (facts ∷ rest) = elim facts.envelope_recipients [
  | none ↦ plan_files desired mutation rest
  | some envelope ↦ do
    converged ← converge mutation facts.path envelope
    plans ← plan_files desired mutation rest
    ok (file_plan desired facts.path converged ∷ plans)
]

-- `plan_authorization`
unfoldable pub plan_authorization :
    AgeRecipientPolicy
    → RecipientMutation
    → List FileRecipientFacts
    → Outcome AuthorizationRejection AuthorizationPlan
unfolding first_repeat manifest_effect plan_files
plan_authorization policy mutation files = elim (first_repeat [] (requested mutation)) [
  | some duplicate ↦ err (duplicate_request duplicate)
  | none ↦ do
    effect ← manifest_effect policy.recipients mutation files
    plans ← plan_files effect.0 mutation files
    ok (record {
      desired_recipients = effect.0;
      manifest_changed = not (effect.0 == policy.recipients);
      files = plans;
      deltas = effect.1;
    })
]
