-- ===== src/Dispatch/Child.antt =====
-- The child's event loop on a list of operations, over an ORAM that keeps its laws.
use de_part.Prelude.{
  ℕ, suc, ◌≡◌, refl, sym, ap, subst, ◌∙◌, inl, inr, true, false, List, [], ◌∷◌, ◌++◌, arith,
  if◌then◌else◌, ◌≢◌, Option, none, some, Option-cases, Bool-cases, Bytes, length, All, inc32,
}
use de_part.Epoch.Types.{OpType, Operat, is_write}
use de_part.Sending.{Access, after_answer, go_on_with, child_ops}

-- What the dispatch relies on of `access`, where the ORAM holds `h`: a read does not abort, returns
-- the content of the block and changes none; and a write that does not abort returns the empty string.
pub record OramLaws {S : Type 0} (access : Access S) : Type 1 where
  pub Holds : (ℕ → Bytes) → S → Type 0
  pub read :
      (h : ℕ → Bytes) (bid : ℕ) (v : Bytes) (s : S)
      → Holds h s
      → (s' : S) × (access bid OpType.read v s ≡ some (h bid, s')) × Holds h s'
  pub write_answer :
      (bid : ℕ) (type : OpType) (v r : Bytes) (s s' : S)
      → is_write type ≡ true
      → access bid type v s ≡ some (r, s')
      → r ≡ []

-- What an operation is answered, from the contents of the blocks.
abbrev pub answer : (ℕ → Bytes) → Operat → Bytes
answer content op = if is_write op.type then [] else content op.data_primary_key

-- Each operation that is no dummy has got its answer.
abbrev pub Answers : (ℕ → Bytes) → List Operat → List Bytes → Type 0
Answers content [] [] = Unit
Answers content [] (r ∷ rs) = ⊥
Answers content (op ∷ ops) [] = ⊥
Answers content (op ∷ ops) (r ∷ rs) =
    (op.is_dummy ≡ false → r ≡ answer content op) × Answers content ops rs

abbrev pub NoRead : Operat → Type 0
NoRead op = op.is_dummy ≡ false → is_write op.type ≡ true

-- No read, except of a dummy, follows a write.
abbrev pub ReadsFirst : List Operat → Type 0
ReadsFirst [] = Unit
ReadsFirst (op ∷ ops) = (is_write op.type ≡ true → All NoRead ops) × ReadsFirst ops

abbrev or_stay : {S : Type 0} → S → Option (Bytes × S) → Bytes × S
or_stay s none = ([], s)
or_stay s (some acc) = acc

module _ {S : Type 0} (access : Access S) where
  abbrev total : Operat → S → Bytes × S
  total op s = or_stay s (access op.data_primary_key op.type op.data_value s)

  pub results : List Operat → S → List Bytes
  results [] s = []
  results (op ∷ ops) s = (total op s).0 ∷ results ops (total op s).1

  pub after : List Operat → S → S
  after [] s = s
  after (op ∷ ops) s = after ops (total op s).1

  -- The ORAM gets through the operations without an abort.
  unfoldable pub Runs : List Operat → S → Type 0
  Runs [] s = Unit
  Runs (op ∷ ops) s =
      (access op.data_primary_key op.type op.data_value s ≢ none) × Runs ops (total op s).1

  total_lem :
      (op : Operat) (s : S)
      → access op.data_primary_key op.type op.data_value s ≢ none
      → access op.data_primary_key op.type op.data_value s ≡ some (total op s)
  total_lem op s h = elim (Option-cases (access op.data_primary_key op.type op.data_value s)) [
    | inl e ↦ absurd (h e)
    | inr (acc, e) ↦ e ∙ ap some (sym (ap (or_stay s) e))
  ]

  pub child_ops-Runs :
      (ops : List Operat) (n : ℕ) (s : S)
      → Runs ops s
      → (m : ℕ) × (child_ops access ops n s ≡ some (m, results ops s, after ops s))
  unfolding child_ops results after Runs
  child_ops-Runs [] n s r = (n, refl)
  child_ops-Runs (op ∷ ops) n s r =
      let n' = if op.is_dummy then n else inc32 n in
      let (m, e) = child_ops-Runs ops n' (total op s).1 r.1 in
      (
        m,
        ap (λ o. go_on_with o (λ s'. child_ops access ops n' s')) (total_lem op s r.0)
            ∙ ap (after_answer (total op s).0) e,
      )

  pub Runs-append_left : (xs ys : List Operat) (s : S) → Runs (xs ++ ys) s → Runs xs s
  unfolding Runs
  Runs-append_left [] ys s r = tt
  Runs-append_left (x ∷ xs) ys s r = (r.0, Runs-append_left xs ys (total x s).1 r.1)

  pub Runs-append_right : (xs ys : List Operat) (s : S) → Runs (xs ++ ys) s → Runs ys (after xs s)
  unfolding Runs after
  Runs-append_right [] ys s r = r
  Runs-append_right (x ∷ xs) ys s r = Runs-append_right xs ys (total x s).1 r.1

  pub results-nil : (s : S) → results [] s ≡ []
  unfolding results
  results-nil s = refl

  pub after-nil : (s : S) → after [] s ≡ s
  unfolding after
  after-nil s = refl

  pub after-append : (xs ys : List Operat) (s : S) → after (xs ++ ys) s ≡ after ys (after xs s)
  unfolding after
  after-append [] ys s = refl
  after-append (x ∷ xs) ys s = after-append xs ys (total x s).1

  pub results-append :
      (xs ys : List Operat) (s : S) → results (xs ++ ys) s ≡ results xs s ++ results ys (after xs s)
  unfolding results after
  results-append [] ys s = refl
  results-append (x ∷ xs) ys s = ap (λ rs. (total x s).0 ∷ rs) (results-append xs ys (total x s).1)

  pub length-results : (ops : List Operat) (s : S) → length (results ops s) ≡ length ops
  unfolding results
  length-results [] s = refl
  length-results (op ∷ ops) s = ap suc (length-results ops (total op s).1)

  module _ (laws : OramLaws access) where
    open laws use {Holds, read, write_answer}

    writes-Answers :
        (h : ℕ → Bytes) (ops : List Operat) (s : S)
        → Runs ops s
        → All NoRead ops
        → Answers h ops (results ops s)
    unfolding results Runs
    writes-Answers h [] s g w = tt
    writes-Answers h (op ∷ ops) s g w = (
      λ real.
          write_answer op.data_primary_key op.type op.data_value _ s _ (w.0 real)
            (total_lem op s g.0)
          ∙ ground (arith, w.0 real),
      writes-Answers h ops _ g.1 w.1,
    )

    read_lem :
        (h : ℕ → Bytes) (op : Operat) (s : S)
        → Holds h s
        → is_write op.type ≡ false
        → (access op.data_primary_key op.type op.data_value s ≢ none)
          × ((total op s).0 ≡ h op.data_primary_key)
          × Holds h (total op s).1
    read_lem h op s g e = of_type op.type e
      where
        of_type :
            (type : OpType)
            → is_write type ≡ false
            → let acc = access op.data_primary_key type op.data_value s in
              (acc ≢ none) × ((or_stay s acc).0 ≡ h op.data_primary_key) × Holds h (or_stay s acc).1
        of_type OpType.read q =
            let (s', f, g') = read h op.data_primary_key op.data_value s g in
            subst
              (λ (acc : Option (Bytes × S)).
                (acc ≢ none)
                × ((or_stay s acc).0 ≡ h op.data_primary_key)
                × Holds h (or_stay s acc).1)
              (sym f) ((λ n. cc), refl, g')
        of_type OpType.update q = cc
        of_type OpType.insert q = cc

    -- An ORAM gets through reads.
    pub reads-Runs :
        (h : ℕ → Bytes) (ops : List Operat) (s : S)
        → Holds h s
        → All (λ op. is_write op.type ≡ false) ops
        → Runs ops s
    unfolding Runs
    reads-Runs h [] s g r = tt
    reads-Runs h (op ∷ ops) s g r =
        let (runs, same, g') = read_lem h op s g r.0 in (runs, reads-Runs h ops _ g' r.1)

    -- Reads before writes are answered from the contents at the start.
    pub child-Answers :
        (h : ℕ → Bytes) (ops : List Operat) (s : S)
        → Holds h s
        → Runs ops s
        → ReadsFirst ops
        → Answers h ops (results ops s)
    unfolding results Runs
    child-Answers h [] s g runs r = tt
    child-Answers h (op ∷ ops) s g runs r = elim (Bool-cases (is_write op.type)) [
      | inl e ↦ (
        λ real.
            write_answer op.data_primary_key op.type op.data_value _ s _ e (total_lem op s runs.0)
            ∙ ground (arith, e),
        writes-Answers h ops _ runs.1 (r.0 e),
      )
      | inr e ↦
          let (ok, same, g') = read_lem h op s g e in
          (λ real. same ∙ ground (arith, e), child-Answers h ops _ g' runs.1 r.1)
    ]
