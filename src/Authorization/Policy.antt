-- ===== src/Authorization/Policy.antt =====
-- src/recipients/plan.rs: what one command does to the recipient list of the policy.
use gitveil.Base.{
  Bool, true, false, not, ◌&&◌, ◌||◌, List, [], ◌∷◌, ◌++◌, append-nil, append_assoc, ◌≡◌, ◌≢◌, refl,
  sym, arith, none, eq_iff, filter, is_empty, contains, contains-append, IsUnique, IsUnique-filter,
  ok, >>=-eq-ok, nat_eq, list_eq,
}
use gitveil.Recipient.{AgeRecipient, AgeRecipientPolicy, new_policy}
use gitveil.Recipient.Drift.{new_policy_iff}
use gitveil.Authorization.{
  RecipientMutation, add, remove, FileRecipientFacts, PolicyDelta, added_to_policy,
  already_in_policy, AuthorizationPlan, requested, first_repeat, without, add_effect,
  removal_deltas, manifest_effect, plan_authorization,
}
use gitveil.Authorization.Files.{contains-without, plan_authorization-Accepted}

-- Whether the policy authorizes `r` after the command, from whether it did before.
abbrev pub authorizes_after : RecipientMutation → Bool → AgeRecipient → Bool
authorizes_after (add additions) before r = before || contains additions r
authorizes_after (remove removals) before r = before && not (contains removals r)

add_effect-desired :
    (current desired : List AgeRecipient) (deltas : List PolicyDelta)
    (additions : List AgeRecipient)
    → (add_effect current desired deltas additions).0 ≡ desired ++ without current additions
unfolding add_effect filter
add_effect-desired current desired deltas [] = sym (append-nil desired)
add_effect-desired current desired deltas (r ∷ rest) = ground (
  arith,
  add_effect-desired current desired (deltas ++ already_in_policy r ∷ []) rest,
  add_effect-desired current (desired ++ r ∷ []) (deltas ++ added_to_policy r ∷ []) rest,
  append_assoc desired (r ∷ []) (without current rest),
)

IsUnique-append :
    (xs ys : List AgeRecipient)
    → IsUnique xs
    → IsUnique ys
    → ((r : AgeRecipient) → contains ys r ≡ true → contains xs r ≡ false)
    → IsUnique (xs ++ ys)
unfolding contains
IsUnique-append [] ys hx hy apart = hy
IsUnique-append (x ∷ xs) ys hx hy apart = (
  ground (arith, contains-append xs ys x, apart x, eq_iff x x),
  IsUnique-append xs ys hx.1 hy (λ r m. ground (arith, apart r)),
)

first_repeat_iff :
    (seen xs : List AgeRecipient)
    → first_repeat seen xs ≡ none
    → ((r : AgeRecipient) → contains seen r ≡ true → contains xs r ≡ false) × IsUnique xs
unfolding first_repeat contains
first_repeat_iff seen [] h = (λ r m. refl, tt)
first_repeat_iff seen (x ∷ xs) h =
    let (apart, unique) = first_repeat_iff (x ∷ seen) xs (ground arith) in
    (λ r m. ground (arith, apart r, eq_iff x r, h), (apart x (ground (arith, eq_iff x x)), unique))

without-IsUnique :
    (current additions : List AgeRecipient)
    → IsUnique current
    → IsUnique additions
    → IsUnique (current ++ without current additions)
without-IsUnique current additions hc ha =
    IsUnique-append current (without current additions) hc
      (IsUnique-filter (λ r. not (contains current r)) additions ha)
      (λ r m. ground (arith, contains-without current additions r))

-- The effect on the manifest, for each mutation.
record Desired (current : List AgeRecipient) (mutation : RecipientMutation)
    (desired : List AgeRecipient) : Type 0 where
  members :
      (r : AgeRecipient) → contains desired r ≡ authorizes_after mutation (contains current r) r
  unique : IsUnique desired
  ne_nil : desired ≢ []

append-ne-nil : (xs ys : List AgeRecipient) → xs ≢ [] → xs ++ ys ≢ []
append-ne-nil [] ys h e = h refl
append-ne-nil (x ∷ xs) ys h e = cc

manifest_effect-Desired :
    (current : List AgeRecipient) (mutation : RecipientMutation) (files : List FileRecipientFacts)
    (desired : List AgeRecipient) (deltas : List PolicyDelta)
    → current ≢ []
    → IsUnique current
    → first_repeat [] (requested mutation) ≡ none
    → manifest_effect current mutation files ≡ ok (desired, deltas)
    → Desired current mutation desired
unfolding manifest_effect
manifest_effect-Desired current (add additions) files desired deltas ne unique fresh h =
    let e : desired ≡ current ++ without current additions =
      ground (arith, add_effect-desired current current [] additions) in
    rw e (record {
      members = λ r. ground (
        arith,
        contains-append current (without current additions) r,
        contains-without current additions r,
      );
      unique = without-IsUnique current additions unique (first_repeat_iff [] additions fresh).1;
      ne_nil = append-ne-nil current (without current additions) ne;
    })
manifest_effect-Desired current (remove removals) files desired deltas ne unique fresh h =
    let (made, deltas_made, h') = >>=-eq-ok (removal_deltas current files [] removals) _ h in
    let e : desired ≡ without removals current = ground arith in
    let some_left : is_empty (without removals current) ≡ false = ground arith in
    rw e (record {
      members = λ r. contains-without removals current r;
      unique = IsUnique-filter (λ r. not (contains removals r)) current unique;
      ne_nil = λ none_left. ground arith;
    })

-- From a valid policy, an accepted command leaves a list that is a valid policy again and that
-- authorizes exactly what it did before and the named additions, or less the named removals.
pub plan_authorization-policy :
    (policy : AgeRecipientPolicy) (mutation : RecipientMutation) (files : List FileRecipientFacts)
    {plan : AuthorizationPlan}
    → policy.recipients ≢ []
    → IsUnique policy.recipients
    → plan_authorization policy mutation files ≡ ok plan
    → ((r : AgeRecipient)
        → contains plan.desired_recipients r
          ≡ authorizes_after mutation (contains policy.recipients r) r)
      × (new_policy policy.name plan.desired_recipients
          ≡ ok (record { name = policy.name; recipients = plan.desired_recipients }))
plan_authorization-policy policy mutation files {plan} ne unique h =
    let accepted = plan_authorization-Accepted policy mutation files h in
    let d =
      manifest_effect-Desired policy.recipients mutation files plan.desired_recipients plan.deltas
        ne unique accepted.no_repeat accepted.effect in
    (d.members, (new_policy_iff policy.name plan.desired_recipients).1 (d.ne_nil, d.unique))
