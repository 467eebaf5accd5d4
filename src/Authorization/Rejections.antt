-- ===== src/Authorization/Rejections.antt =====
-- src/recipients/plan.rs: why a command on the recipients is rejected.
use gitveil.Base.{
  Bool, true, false, ◌&&◌, List, [], ◌∷◌, ◌++◌, ◌≡◌, ◌≢◌, refl, ◌==◌, arith, none, some, Bool-cases,
  Option-cases, inl, inr, eq_iff, eq_refl, any, is_empty, contains, IsUnique, err, >>=-eq-err,
  nat_eq, list_eq,
}
use gitveil.ManagedPath.{ManagedPath}
use gitveil.Recipient.{AgeRecipient, AgeRecipientPolicy}
use gitveil.Authorization.{
  RecipientMutation, add, remove, FileRecipientFacts, PolicyDelta, removed_from_policy,
  removed_from_ciphertext_only, AuthorizationRejection, duplicate_request, remove_not_member,
  empty_policy, empties_envelope, requested, first_repeat, without, on_envelope, removal_deltas,
  manifest_effect, converge, plan_files, plan_authorization,
}
use gitveil.Authorization.Files.{existing}

nothing : (r : AgeRecipient) → contains [] r ≡ true → ⊥
unfolding contains
nothing r m = cc

-- The removal would leave the ciphertext of `path` with nobody able to decrypt it.
abbrev pub empties : List AgeRecipient → ManagedPath → ManagedPath × List AgeRecipient → Bool
empties removals path (p, envelope) = p == path && is_empty (without removals envelope)

-- What a rejection says of the request.
abbrev pub Explains :
    AgeRecipientPolicy
    → RecipientMutation
    → List FileRecipientFacts
    → AuthorizationRejection
    → Type 0
Explains policy mutation files (duplicate_request r) = ¬ IsUnique (requested mutation)
Explains policy (remove removals) files (remove_not_member r) =
    (contains removals r ≡ true)
    × (contains policy.recipients r ≡ false)
    × (any (on_envelope r) files ≡ false)
Explains policy (remove removals) files empty_policy = without removals policy.recipients ≡ []
Explains policy (remove removals) files (empties_envelope path) =
    any (empties removals path) (existing files) ≡ true
Explains policy (add additions) files _ = ⊥

unique_no_repeat :
    (seen xs : List AgeRecipient)
    → IsUnique xs
    → ((r : AgeRecipient) → contains seen r ≡ true → contains xs r ≡ false)
    → first_repeat seen xs ≡ none
unfolding first_repeat contains
unique_no_repeat seen [] unique apart = refl
unique_no_repeat seen (x ∷ xs) unique apart =
    let rest =
      unique_no_repeat (x ∷ seen) xs unique.1
        (λ r m. ground (arith, apart r, eq_iff x r, unique.0)) in
    ground (arith, rest, apart x, eq_iff x x)

-- The lookup of the removals fails only at a removal that is found nowhere.
removal_deltas-Explains :
    (current : List AgeRecipient) (files : List FileRecipientFacts) (deltas : List PolicyDelta)
    (removals : List AgeRecipient) (why : AuthorizationRejection)
    → removal_deltas current files deltas removals ≡ err why
    → (r : AgeRecipient) × (why ≡ remove_not_member r)
      × (contains removals r ≡ true)
      × (contains current r ≡ false)
      × (any (on_envelope r) files ≡ false)
unfolding removal_deltas contains
removal_deltas-Explains current files deltas [] why h = cc
removal_deltas-Explains current files deltas (x ∷ xs) why h =
    elim (Bool-cases (contains current x)) [
      | inl known ↦
          let (r, e, m, out, off) =
            removal_deltas-Explains current files (deltas ++ removed_from_policy x ∷ []) xs why
              (ground arith) in
          (r, e, ground arith, out, off)
      | inr unknown ↦ elim (Bool-cases (any (on_envelope x) files)) [
        | inl drift ↦
            let (r, e, m, out, off) =
              removal_deltas-Explains current files (deltas ++ removed_from_ciphertext_only x ∷ [])
                xs why (ground arith) in
            (r, e, ground arith, out, off)
        | inr nowhere ↦ (x, ground arith, ground (arith, eq_iff x x), unknown, nowhere)
      ]
    ]

-- The files fail only at an envelope that a removal would empty.
plan_files-Explains :
    (desired removals : List AgeRecipient) (files : List FileRecipientFacts)
    (why : AuthorizationRejection)
    → plan_files desired (remove removals) files ≡ err why
    → (path : ManagedPath) × (why ≡ empties_envelope path)
      × (any (empties removals path) (existing files) ≡ true)
unfolding plan_files converge any
plan_files-Explains desired removals [] why h = cc
plan_files-Explains desired removals (facts ∷ rest) why h =
    elim (Option-cases facts.envelope_recipients) [
      | inl missing ↦
          let (path, e, found) = plan_files-Explains desired removals rest why (ground arith) in
          (path, e, ground arith)
      | inr (envelope, here) ↦ elim (Bool-cases (is_empty (without removals envelope))) [
        | inl emptied ↦ (facts.path, ground arith, ground (arith, eq_refl facts.path))
        | inr kept ↦
            let (path, e, found) = plan_files-Explains desired removals rest why (ground arith) in
            (path, e, ground arith)
      ]
    ]

add-plan_files :
    (desired additions : List AgeRecipient) (files : List FileRecipientFacts)
    (why : AuthorizationRejection)
    → plan_files desired (add additions) files ≢ err why
unfolding plan_files converge
add-plan_files desired additions [] why h = cc
add-plan_files desired additions (facts ∷ rest) why h =
    ground (arith, add-plan_files desired additions rest why)

removal-Explains :
    (policy : AgeRecipientPolicy) (removals : List AgeRecipient) (files : List FileRecipientFacts)
    (why : AuthorizationRejection)
    → manifest_effect policy.recipients (remove removals) files ≡ err why
    → Explains policy (remove removals) files why
unfolding manifest_effect
removal-Explains policy removals files why h =
    elim (>>=-eq-err (removal_deltas policy.recipients files [] removals) _ h) [
      | inl failed ↦
          let (r, e, named, out, off) =
            removal_deltas-Explains policy.recipients files [] removals why failed in
          rw e (named, out, off)
      | inr (deltas, _, h') ↦ let e : why ≡ empty_policy = ground arith in rw e (ground arith)
    ]

repeat_refuted :
    (xs : List AgeRecipient) (r : AgeRecipient) → first_repeat [] xs ≡ some r → ¬ IsUnique xs
repeat_refuted xs r h unique =
    let none_twice = unique_no_repeat [] xs unique (λ k m. absurd (nothing k m)) in cc

effect-Explains :
    (policy : AgeRecipientPolicy) (mutation : RecipientMutation) (files : List FileRecipientFacts)
    (why : AuthorizationRejection)
    → manifest_effect policy.recipients mutation files ≡ err why
    → Explains policy mutation files why
unfolding manifest_effect
effect-Explains policy (add additions) files why h = cc
effect-Explains policy (remove removals) files why h = removal-Explains policy removals files why h

files-Explains :
    (policy : AgeRecipientPolicy) (mutation : RecipientMutation) (files : List FileRecipientFacts)
    (desired : List AgeRecipient) (why : AuthorizationRejection)
    → plan_files desired mutation files ≡ err why
    → Explains policy mutation files why
files-Explains policy (add additions) files desired why h =
    absurd (add-plan_files desired additions files why h)
files-Explains policy (remove removals) files desired why h =
    let (path, e, found) = plan_files-Explains desired removals files why h in rw e found

-- Every rejection says why: a name repeated in the request, a removal that is in no list, or a
-- removal that would empty the policy or an envelope; an addition is rejected for nothing but a
-- repetition.
pub plan_authorization-Explains :
    (policy : AgeRecipientPolicy) (mutation : RecipientMutation) (files : List FileRecipientFacts)
    {why : AuthorizationRejection}
    → plan_authorization policy mutation files ≡ err why
    → Explains policy mutation files why
unfolding plan_authorization
plan_authorization-Explains policy mutation files {why} h =
    elim (Option-cases (first_repeat [] (requested mutation))) [
      | inr (r, repeated) ↦
          let e : why ≡ duplicate_request r = cc (rw (repeated, plan_authorization) at h) in
          rw e (λ unique. repeat_refuted (requested mutation) r repeated unique)
      | inl fresh ↦
          elim (>>=-eq-err (manifest_effect policy.recipients mutation files) _
            (rw (fresh, plan_authorization) at h)) [
              | inl failed ↦ effect-Explains policy mutation files why failed
              | inr (effect, _, h') ↦ elim (>>=-eq-err (plan_files effect.0 mutation files) _ h') [
                | inl failed ↦ files-Explains policy mutation files effect.0 why failed
                | inr (plans, _, h2) ↦ absurd (cc h2)
              ]
            ]
    ]
