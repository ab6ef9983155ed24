-- ===== src/Core/Executor/Propagation.antt =====
-- The NULL and ERROR flags of the dependencies, item by item.
use magna.Base.{
  ℕ, zero, suc, ◌<◌, ◌≡◌, refl, ap, ◌∙◌, inl, inr, Bool, true, false, not, ◌||◌, if◌then◌else◌,
  none, some, some_inj, List, [], ◌∷◌, lookup, nat_eq, length, get_elem?, arith, Bool-cases,
}
use magna.Core.Flags.{
  StepFlags, flags_none, flags_null, flags_error, is_null, is_error, is_value, join_flags,
}
use magna.Core.Step.{StepId, StepOutput}
use magna.Core.Executor.{Outputs, mark_item, mark_items, any_marked, all_flagged}

-- The flags with the given NULL and ERROR bits.
abbrev pub flags_of : Bool → Bool → StepFlags
flags_of false false = flags_none
flags_of true false = flags_null
flags_of false true = flags_error
flags_of true true = record { bits = 0b0011 }

-- Whether item `i` has a flag that passes the test.
abbrev pub flag_at : (StepFlags → Bool) → List StepFlags → ℕ → Bool
flag_at test [] i = false
flag_at test (f ∷ flags) zero = test f
flag_at test (f ∷ flags) (suc i) = flag_at test flags i

module _ {A : Type 0} where
  unfoldable pub output_flags : Outputs A → StepId → List StepFlags
  output_flags outputs d = elim (lookup outputs d) [ none ↦ [] | some o ↦ o.flags ]

  -- Whether item `i` of some dependency has a flag that passes the test.
  abbrev pub any_at : (StepFlags → Bool) → Outputs A → List StepId → ℕ → Bool
  any_at test outputs [] i = false
  any_at test outputs (d ∷ deps) i =
      flag_at test (output_flags outputs d) i || any_at test outputs deps i

module _ {A : Type 0} (test : StepFlags → Bool) (outputs : Outputs A) (d : StepId)
    (deps : List StepId) (i : ℕ) where
  pub any_at-none :
      lookup outputs d ≡ none → any_at test outputs (d ∷ deps) i ≡ any_at test outputs deps i
  unfolding output_flags
  any_at-none e =
      let own : output_flags outputs d ≡ [] = rw (e, output_flags) refl in
      ap (λ fs. flag_at test fs i || any_at test outputs deps i) own

  pub any_at-some :
      (o : StepOutput A)
      → lookup outputs d ≡ some o
      → any_at test outputs (d ∷ deps) i ≡ flag_at test o.flags i || any_at test outputs deps i
  unfolding output_flags
  any_at-some o e =
      let own : output_flags outputs d ≡ o.flags = rw (e, output_flags) refl in
      ap (λ fs. flag_at test fs i || any_at test outputs deps i) own

pub or_assoc : (a b c : Bool) → (a || b) || c ≡ a || (b || c)
or_assoc true b c = refl
or_assoc false b c = refl

pub or-false : (a : Bool) → a || false ≡ a
or-false true = refl
or-false false = refl

pub or_right : (a b : Bool) → b ≡ true → a || b ≡ true
or_right true b h = refl
or_right false b h = h

mark_item_lem :
    (f : StepFlags) (n e : Bool)
    → mark_item f (flags_of n e) ≡ flags_of (n || is_null f) (e || is_error f)
unfolding mark_item join_flags
mark_item_lem f n e = go n e (is_null f) (is_error f)
  where
    go :
        (n e a b : Bool)
        → (let marked = if a then join_flags (flags_of n e) flags_null else flags_of n e in
            if b then join_flags marked flags_error else marked)
          ≡ flags_of (n || a) (e || b)
    go false false false false = refl
    go false false false true = refl
    go false false true false = refl
    go false false true true = refl
    go false true false false = refl
    go false true false true = refl
    go false true true false = refl
    go false true true true = refl
    go true false false false = refl
    go true false false true = refl
    go true false true false = refl
    go true false true true = refl
    go true true false false = refl
    go true true false true = refl
    go true true true false = refl
    go true true true true = refl

pub mark_items-get :
    (flags result : List StepFlags) (i : ℕ) (n e : Bool)
    → get_elem? result i ≡ some (flags_of n e)
    → get_elem? (mark_items flags result) i
      ≡ some (flags_of (n || flag_at is_null flags i) (e || flag_at is_error flags i))
unfolding mark_items
mark_items-get [] result i n e h = rw (or-false n, or-false e) h
mark_items-get (f ∷ flags) [] i n e h = cc h
mark_items-get (f ∷ flags) (r ∷ result) zero n e h =
    ap some (ap (mark_item f) (some_inj h) ∙ mark_item_lem f n e)
mark_items-get (f ∷ flags) (r ∷ result) (suc i) n e h = mark_items-get flags result i n e h

pub length-mark_items :
    (flags result : List StepFlags) → length (mark_items flags result) ≡ length result
unfolding mark_items
length-mark_items [] result = refl
length-mark_items (f ∷ flags) [] = refl
length-mark_items (f ∷ flags) (r ∷ result) = ap suc (length-mark_items flags result)

pub any_marked_of :
    (flags result : List StepFlags) (i : ℕ)
    → i < length result
    → (flag_at is_null flags i || flag_at is_error flags i) ≡ true
    → any_marked flags result ≡ true
unfolding any_marked
any_marked_of [] result i lt h = cc h
any_marked_of (f ∷ flags) [] i lt h = elim lt [ ]
any_marked_of (f ∷ flags) (r ∷ result) zero lt h = ground arith
any_marked_of (f ∷ flags) (r ∷ result) (suc i) lt h =
    let ih = any_marked_of flags result i (omega (arith, lt)) h in
    or_right (is_null f || is_error f) _ ih

pub all_flagged-get :
    (flags : List StepFlags) (i : ℕ) (f : StepFlags)
    → all_flagged flags ≡ true
    → get_elem? flags i ≡ some f
    → is_value f ≡ false
unfolding all_flagged
all_flagged-get [] i f h e = cc e
all_flagged-get (g ∷ flags) zero f h e = rw (← some_inj e) (ground arith)
all_flagged-get (g ∷ flags) (suc i) f h e = all_flagged-get flags i f (ground arith) e

pub not_all_flagged :
    (flags : List StepFlags)
    → all_flagged flags ≡ false
    → (i : ℕ) × (f : StepFlags) × (get_elem? flags i ≡ some f) × (is_value f ≡ true)
unfolding all_flagged
not_all_flagged [] h = cc h
not_all_flagged (g ∷ flags) h = elim (Bool-cases (is_value g)) [
  | inl e ↦ (0, g, refl, e)
  | inr e ↦ let (i, f, at, v) = not_all_flagged flags (ground arith) in (suc i, f, at, v)
]

pub is_value-flags_of : (n e : Bool) → is_value (flags_of n e) ≡ not (n || e)
unfolding is_value
is_value-flags_of false false = refl
is_value-flags_of false true = refl
is_value-flags_of true false = refl
is_value-flags_of true true = refl
