-- ===== src/Gqlmin/Validate/Names.antt =====
-- The rule on the names of operations.
use magna.Base.{
  ◌<◌, ◌≡◌, ◌↔◌, refl, sym, inl, inr, Bool, true, false, if◌then◌else◌, ltb, List, [], ◌∷◌, ◌++◌,
  append_assoc, append-nil_iff, Option, none, some, length, All, Memᴰ, mem-cons_cases, mem_cast,
  contains, mem_of_contains, not_mem_of_contains, IsDistinct, Bytes, bytes_eq, arith, Bool-cases,
}
use magna.Gqlmin.Ast.{Name, OperationDefinition}
use magna.Gqlmin.Validate.{
  ValidationError, anonymous_errors, reused_errors, check_unique_operation_names,
}

abbrev with_name : Option Name → List Bytes → List Bytes
with_name none names = names
with_name (some n) names = n.value ∷ names

abbrev pub operation_names : List OperationDefinition → List Bytes
operation_names [] = []
operation_names (op ∷ ops) = with_name op.name (operation_names ops)

abbrev pub HasName : OperationDefinition → Type 0
HasName op = (n : Name) × (op.name ≡ some n)

-- No name is used twice, and only a sole operation has none.
abbrev pub HasUniqueNames : List OperationDefinition → Type 0
HasUniqueNames ops = IsDistinct (operation_names ops) × (1 < length ops → All HasName ops)

anonymous_errors_iff :
    (ops : List OperationDefinition) → (anonymous_errors ops ≡ []) ↔ All HasName ops
unfolding anonymous_errors
anonymous_errors_iff [] = (λ h. tt, λ h. refl)
anonymous_errors_iff (op ∷ ops) = by_name op.name refl (anonymous_errors_iff ops)
  where
    by_name :
        (o : Option Name)
        → op.name ≡ o
        → ((anonymous_errors ops ≡ []) ↔ All HasName ops)
        → (anonymous_errors (op ∷ ops) ≡ []) ↔ All HasName (op ∷ ops)
    by_name none e ih = rw e (λ h. cc, λ h. cc (h.0.1))
    by_name (some n) e ih = rw e (λ h. ((n, refl), ih.0 h), λ h. ih.1 h.1)

-- The names are distinct, and none was seen before.
abbrev AreNew : List Bytes → List Bytes → Type 0
AreNew seen names = IsDistinct names × ((x : Bytes) → Memᴰ x names → ¬ Memᴰ x seen)

AreNew-cons_iff :
    (seen names : List Bytes) (n : Bytes)
    → ¬ Memᴰ n seen
    → AreNew (n ∷ seen) names ↔ AreNew seen (n ∷ names)
AreNew-cons_iff seen names n new = (
  λ h. (
    (λ a m e. h.1 a m (Memᴰ.head (sym e)), h.0),
    λ x m old. elim (mem-cons_cases x n names m) [
      | inl e ↦ new (mem_cast e old)
      | inr k ↦ h.1 x k (Memᴰ.tail old)
    ],
  ),
  λ h. (
    h.0.1,
    λ x m old. elim (mem-cons_cases x n seen old) [
      | inl e ↦ h.0.0 x m (sym e)
      | inr k ↦ h.1 x (Memᴰ.tail m) k
    ],
  ),
)

reused_errors_iff :
    (seen : List Bytes) (ops : List OperationDefinition)
    → (reused_errors seen ops ≡ []) ↔ AreNew seen (operation_names ops)
unfolding reused_errors
reused_errors_iff seen [] = (λ h. (tt, λ x m. elim m [ ]), λ h. refl)
reused_errors_iff seen (op ∷ ops) = by_name op.name refl (λ s. reused_errors_iff s ops)
  where
    by_name :
        (o : Option Name)
        → op.name ≡ o
        → ((s : List Bytes) → (reused_errors s ops ≡ []) ↔ AreNew s (operation_names ops))
        → (reused_errors seen (op ∷ ops) ≡ [])
          ↔ AreNew seen (with_name op.name (operation_names ops))
    by_name none e ih = rw e (ih seen)
    by_name (some n) e ih = rw e (elim (Bool-cases (contains seen n.value)) [
      | inl old ↦
          rw old
            (λ h. cc, λ h. absurd (h.1 n.value (Memᴰ.head refl) (mem_of_contains seen n.value old)))
      | inr new ↦
          let same =
            AreNew-cons_iff seen (operation_names ops) n.value
              (not_mem_of_contains seen n.value new) in
          rw new (λ h. same.0 ((ih (n.value ∷ seen)).0 h), λ h. (ih (n.value ∷ seen)).1 (same.1 h))
    ])

-- The check only adds errors, and it adds none exactly when no two operations have the same name
-- and, if there is more than one operation, each has a name.
pub check_unique_operation_names_iff :
    (ops : List OperationDefinition) (errors : List ValidationError)
    → (added : List ValidationError) × (check_unique_operation_names ops errors ≡ errors ++ added)
      × ((added ≡ []) ↔ HasUniqueNames ops)
unfolding check_unique_operation_names
check_unique_operation_names_iff ops errors =
    let reused = reused_errors_iff [] ops in
    (
      (if ltb 1 (length ops) then anonymous_errors ops else []) ++ reused_errors [] ops,
      append_assoc errors _ _,
      (
        λ h.
            let (p, q) =
              (append-nil_iff (if ltb 1 (length ops) then anonymous_errors ops else []) _).0 h in
            ((reused.0 q).0, (by_count (ltb 1 (length ops)) refl).0 p),
        λ h.
            (append-nil_iff (if ltb 1 (length ops) then anonymous_errors ops else []) _).1
              ((by_count (ltb 1 (length ops)) refl).1 h.1, reused.1 (h.0, λ x m old. elim old [ ])),
      ),
    )
  where
    by_count :
        (b : Bool)
        → ltb 1 (length ops) ≡ b
        → ((if b then anonymous_errors ops else []) ≡ []) ↔ (1 < length ops → All HasName ops)
    by_count true e =
        let same = anonymous_errors_iff ops in
        (λ h more. same.0 h, λ h. same.1 (h (ground (arith, e))))
    by_count false e = (λ h more. absurd (ground (arith, e, more)), λ h. refl)
