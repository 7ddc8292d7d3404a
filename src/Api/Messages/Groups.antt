-- ===== src/Api/Messages/Groups.antt =====
-- src/api.rs: the records of `latest_messages` by partition.
use kafka_proxy.Base.{
  ℕ, zero, suc, ◌+◌, ◌-◌, ◌≡◌, refl, ◌∙◌, Bool, true, false, List, [], ◌∷◌, ◌++◌, inl, inr, arith,
  ◌==◌, length, drop, retain, unwrap_or, All, Bool-cases, length-append,
}
use kafka_proxy.Base.Map.{Map, get, insert, get-insert, Distinct, insert-Distinct}
use kafka_proxy.Base.Sort.{All-append}
use kafka_proxy.Api.Render.{ConsumerRecord}
use kafka_proxy.Api.Messages.{of_partition, push_record, group_by_partition}

module _ {ℓ} {A : Type ℓ} where
  pub length-drop : (n : ℕ) (xs : List A) → length (drop n xs) ≡ length xs - n
  length-drop zero xs = omega arith
  length-drop (suc n) [] = omega arith
  length-drop (suc n) (x ∷ xs) = length-drop n xs ∙ omega arith

  pub drop-All {κ} : (P : A → Type κ) (n : ℕ) (xs : List A) → All P xs → All P (drop n xs)
  drop-All P zero xs a = a
  drop-All P (suc n) [] a = tt
  drop-All P (suc n) (x ∷ xs) a = drop-All P n xs a.1

  pub retain-append :
      (p : A → Bool) (xs ys : List A)
      → length (retain p (xs ++ ys)) ≡ length (retain p xs) + length (retain p ys)
  retain-append p [] ys = omega arith
  retain-append p (x ∷ xs) ys = ground (arith, retain-append p xs ys)

  pub retain_all : (p : A → Bool) (xs : List A) → All (λ x. p x ≡ true) xs → retain p xs ≡ xs
  retain_all p [] a = refl
  retain_all p (x ∷ xs) (e, a) = rw (e, retain_all p xs a) refl

  pub retain_none : (p : A → Bool) (xs : List A) → All (λ x. p x ≡ false) xs → retain p xs ≡ []
  retain_none p [] a = refl
  retain_none p (x ∷ xs) (e, a) = rw (e, retain_none p xs a) refl

-- A group is a key with the records of that partition, and each record satisfies `P`.
abbrev pub IsGroup : (ConsumerRecord → Type 0) → ℕ × List ConsumerRecord → Type 0
IsGroup P (part, recs) = All (λ r. (r.partition ≡ part) × P r) recs

module _ (P : ConsumerRecord → Type 0) where
  insert-IsGroup :
      (k : ℕ) (recs : List ConsumerRecord) (m : Map (List ConsumerRecord))
      → IsGroup P (k, recs)
      → All (IsGroup P) m
      → All (IsGroup P) (insert k recs m)
  unfolding insert
  insert-IsGroup k recs [] g a = (g, tt)
  insert-IsGroup k recs ((j, old) ∷ m) g a = elim (Bool-cases (j == k)) [
    | inl e ↦ rw e (g, a.1)
    | inr e ↦ rw e (a.0, insert-IsGroup k recs m g a.1)
  ]

  get-IsGroup :
      (k : ℕ) (m : Map (List ConsumerRecord))
      → All (IsGroup P) m
      → IsGroup P (k, unwrap_or (get k m) [])
  unfolding get
  get-IsGroup k [] a = tt
  get-IsGroup k ((j, recs) ∷ m) a = elim (Bool-cases (j == k)) [
    | inl e ↦ let same : j ≡ k = ground arith in rw e (rw (← same) a.0)
    | inr e ↦ rw e (get-IsGroup k m a.1)
  ]

  pub group_by_partition-IsGroup :
      (rs : List ConsumerRecord) (m : Map (List ConsumerRecord))
      → All P rs
      → All (IsGroup P) m
      → Distinct m
      → All (IsGroup P) (group_by_partition rs m) × Distinct (group_by_partition rs m)
  unfolding group_by_partition push_record
  group_by_partition-IsGroup [] m p a d = (a, d)
  group_by_partition-IsGroup (r ∷ rs) m (h, p) a d =
      group_by_partition-IsGroup rs (push_record r m) p
        (insert-IsGroup r.partition (unwrap_or (get r.partition m) [] ++ (r ∷ [])) m
          (All-append _ (unwrap_or (get r.partition m) []) (r ∷ []) (get-IsGroup r.partition m a)
            ((refl, h), tt))
          a)
        (insert-Distinct r.partition (unwrap_or (get r.partition m) [] ++ (r ∷ [])) m d)

-- How many records of a partition are in its group.
pub group_by_partition-length :
    (p : ℕ) (rs : List ConsumerRecord) (m : Map (List ConsumerRecord))
    → length (unwrap_or (get p (group_by_partition rs m)) [])
      ≡ length (unwrap_or (get p m) []) + length (retain (of_partition p) rs)
unfolding group_by_partition push_record
group_by_partition-length p [] m = omega arith
group_by_partition-length p (r ∷ rs) m =
    group_by_partition-length p rs (push_record r m)
    ∙ ground (
      arith,
      get-insert r.partition p (unwrap_or (get r.partition m) [] ++ (r ∷ [])) m,
      length-append (unwrap_or (get r.partition m) []) (r ∷ []),
    )
