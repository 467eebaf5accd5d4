-- ===== src/Recipient/Drift.antt =====
-- Policies and recipient drift: what `AgeRecipientPolicy::new` accepts, and that a policy matches
-- an envelope exactly when both authorize the same recipients.
use gitveil.Base.{
  Bool, true, false, not, List, [], ◌∷◌, ◌≡◌, ◌≢◌, ◌↔◌, refl, arith, bool_ext, eq_iff, filter,
  length, contains, IsUnique, Str, ok, nat_eq, list_eq,
}
use gitveil.Recipient.{
  AgeRecipient, PolicyName, AgeRecipientPolicy, any_repeat, new_policy, to_set, difference, diff,
  is_aligned, matches,
}

contains-to_set : (xs : List Str) (r : Str) → contains (to_set xs) r ≡ contains xs r
unfolding to_set contains
contains-to_set [] r = refl
contains-to_set (x ∷ xs) r = ground (arith, contains-to_set xs r, contains-to_set xs x, eq_iff x r)

length-filter-zero :
    (p : Str → Bool) (xs : List Str) (r : Str)
    → length (filter p xs) ≡ 0
    → contains xs r ≡ true
    → p r ≡ false
unfolding filter contains
length-filter-zero p [] r h m = cc
length-filter-zero p (x ∷ xs) r h m = ground (arith, length-filter-zero p xs r, eq_iff x r)

length-filter-none :
    (p : Str → Bool) (xs : List Str)
    → ((r : Str) → contains xs r ≡ true → p r ≡ false)
    → length (filter p xs) ≡ 0
unfolding filter contains
length-filter-none p [] h = refl
length-filter-none p (x ∷ xs) h =
    let rest = length-filter-none p xs (λ r m. h r (ground arith)) in
    ground (arith, rest, h x (ground (arith, eq_iff x x)))

-- Every value of the first list is in the second.
abbrev Within : List Str → List Str → Type 0
Within xs ys = (r : Str) → contains xs r ≡ true → contains ys r ≡ true

difference-empty :
    (xs ys : List Str) → length (difference (to_set xs) (to_set ys)) ≡ 0 → Within xs ys
unfolding difference
difference-empty xs ys h r m = ground (
  arith,
  length-filter-zero (λ k. not (contains (to_set ys) k)) (to_set xs) r,
  contains-to_set xs r,
  contains-to_set ys r,
)

empty-difference :
    (xs ys : List Str) → Within xs ys → length (difference (to_set xs) (to_set ys)) ≡ 0
unfolding difference
empty-difference xs ys h =
    length-filter-none (λ k. not (contains (to_set ys) k)) (to_set xs)
      (λ r m. ground (arith, h r, contains-to_set xs r, contains-to_set ys r))

-- Two lists authorize the same recipients.
abbrev pub SameRecipients : List AgeRecipient → List AgeRecipient → Type 0
SameRecipients xs ys = (r : AgeRecipient) → contains xs r ≡ contains ys r

-- A policy matches the recipients of an envelope exactly when every recipient of either is a
-- recipient of both, whatever the order and the repetitions.
pub matches_iff :
    (policy : AgeRecipientPolicy) (actual : List AgeRecipient)
    → (matches policy actual ≡ true) ↔ SameRecipients policy.recipients actual
unfolding matches diff is_aligned
matches_iff policy actual = (
  λ h r.
      let none_added = difference-empty policy.recipients actual (ground arith) r in
      let none_removed = difference-empty actual policy.recipients (ground arith) r in
      bool_ext _ _ none_added none_removed,
  λ same.
      let a = empty-difference policy.recipients actual (λ r m. rw (← same r) m) in
      let b = empty-difference actual policy.recipients (λ r m. rw (same r) m) in
      ground (arith, a, b),
)

any_repeat_iff :
    (seen xs : List Str)
    → (any_repeat seen xs ≡ false)
      ↔ (((r : Str) → contains seen r ≡ true → contains xs r ≡ false) × IsUnique xs)
unfolding any_repeat contains
any_repeat_iff seen [] = (λ h. (λ r m. refl, tt), λ h. refl)
any_repeat_iff seen (x ∷ xs) =
    let ih = any_repeat_iff (x ∷ seen) xs in
    (
      λ h.
          let (apart, unique) = ih.0 (ground arith) in
          (
            λ r m. ground (arith, apart r, eq_iff x r, h),
            (apart x (ground (arith, eq_iff x x)), unique),
          ),
      λ h.
          let tail = ih.1 (λ r m. ground (arith, h.0 r, eq_iff x r, h.1.0), h.1.1) in
          ground (arith, tail, h.0 x, eq_iff x x),
    )

nothing : (r : Str) → contains [] r ≡ true → ⊥
unfolding contains
nothing r m = cc

-- `AgeRecipientPolicy::new` accepts exactly the non-empty lists without repetition, and keeps
-- the name and the order it is given.
pub new_policy_iff :
    (name : PolicyName) (recipients : List AgeRecipient)
    → (new_policy name recipients ≡ ok (record { name = name; recipients = recipients }))
      ↔ ((recipients ≢ []) × IsUnique recipients)
unfolding new_policy
new_policy_iff name [] = (λ h. cc, λ h. absurd (h.0 refl))
new_policy_iff name (x ∷ xs) =
    let repeat = any_repeat_iff [] (x ∷ xs) in
    (
      λ h. (λ e. cc, (repeat.0 (ground arith)).1),
      λ h. let none_twice = repeat.1 (λ r m. absurd (nothing r m), h.1) in ground arith,
    )
