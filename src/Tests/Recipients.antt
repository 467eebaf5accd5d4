-- ===== src/Tests/Recipients.antt =====
-- Recipient policies and authorization plans at small lists.
use gitveil.Base.{
  true, List, [], ◌∷◌, ◌≡◌, refl, none, some, IsUnique, codes, ok, err, contains, list_beq, nat_eq,
  list_eq, filter, any,
}
use gitveil.Recipient.{AgeRecipient, AgeRecipientPolicy, new_policy}
use gitveil.Authorization.{
  add, remove, FileRecipientFacts, AuthorizationPlan, rewrap, rotate, added_to_policy,
  removed_from_policy, remove_not_member, plan_authorization,
}
use gitveil.Authorization.Files.{
  Each, Grants, Revokes, existing, plan_authorization-Grants, plan_authorization-Revokes,
}
use gitveil.Authorization.Policy.{authorizes_after, plan_authorization-policy}
use gitveil.Authorization.Rejections.{Explains, plan_authorization-Explains}

abbrev alice : AgeRecipient
alice = codes "a"

abbrev bob : AgeRecipient
bob = codes "b"

abbrev carol : AgeRecipient
carol = codes "c"

abbrev team : AgeRecipientPolicy
team = record { name = codes "team"; recipients = alice ∷ bob ∷ [] }

abbrev facts : List FileRecipientFacts
facts =
    record { path = codes "x"; envelope_recipients = some (alice ∷ bob ∷ []) }
    ∷ record { path = codes "y"; envelope_recipients = none }
    ∷ []

abbrev added_plan : AuthorizationPlan
added_plan = record {
  desired_recipients = alice ∷ bob ∷ carol ∷ [];
  manifest_changed = true;
  files =
      record {
        path = codes "x";
        action = rewrap;
        target_recipients = alice ∷ bob ∷ carol ∷ [];
        pending_additions = [];
        pending_removals = [];
      }
      ∷ [];
  deltas = added_to_policy carol ∷ [];
}

abbrev removed_plan : AuthorizationPlan
removed_plan = record {
  desired_recipients = alice ∷ [];
  manifest_changed = true;
  files =
      record {
        path = codes "x";
        action = rotate;
        target_recipients = alice ∷ [];
        pending_additions = [];
        pending_removals = [];
      }
      ∷ [];
  deltas = removed_from_policy bob ∷ [];
}

add_runs : plan_authorization team (add (carol ∷ [])) facts ≡ ok added_plan
unfolding plan_authorization filter contains list_beq
add_runs = refl

remove_runs : plan_authorization team (remove (bob ∷ [])) facts ≡ ok removed_plan
unfolding plan_authorization filter contains list_beq
remove_runs = refl

stranger_rejected :
    plan_authorization team (remove (carol ∷ [])) facts ≡ err (remove_not_member carol)
unfolding plan_authorization filter contains list_beq any
stranger_rejected = refl

team-IsUnique : IsUnique team.recipients
unfolding contains list_beq
team-IsUnique = (refl, (refl, tt))

plan_authorization-Grants_example :
    Each (Grants (carol ∷ []) added_plan.desired_recipients) (existing facts) added_plan.files
plan_authorization-Grants_example = plan_authorization-Grants team facts (carol ∷ []) add_runs

plan_authorization-Revokes_example :
    Each (Revokes (bob ∷ []) removed_plan.desired_recipients) (existing facts) removed_plan.files
plan_authorization-Revokes_example = plan_authorization-Revokes team facts (bob ∷ []) remove_runs

plan_authorization-policy_example :
    ((r : AgeRecipient)
      → contains removed_plan.desired_recipients r
        ≡ authorizes_after (remove (bob ∷ [])) (contains team.recipients r) r)
    × (new_policy team.name removed_plan.desired_recipients
        ≡ ok (record { name = team.name; recipients = removed_plan.desired_recipients }))
plan_authorization-policy_example =
    plan_authorization-policy team (remove (bob ∷ [])) facts (λ e. cc) team-IsUnique remove_runs

plan_authorization-Explains_example :
    Explains team (remove (carol ∷ [])) facts (remove_not_member carol)
plan_authorization-Explains_example =
    plan_authorization-Explains team (remove (carol ∷ [])) facts stranger_rejected
