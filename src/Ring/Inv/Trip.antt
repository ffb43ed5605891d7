-- ===== src/Ring/Inv/Trip.antt =====
-- ReadPath over a whole path: it never runs out of dummies, and the block it is asked for is in the
-- stash afterwards.
use de_part.Prelude.{
  ℕ, ◌+◌, ◌<◌, ◌≡◌, refl, sym, ap, subst, ◌∙◌, ◌⊎◌, inl, inr, List, [], ◌∷◌, Option, none, some,
  lookup, Bytes, Member, Distinct, All, Option-cases,
}
use de_part.Ring.State.{ChunkKey, chunk_key_order, Env, Config, Oram}
use de_part.Ring.Path.{path}
use de_part.Ring.Path.Nodes.{path-Distinct, path-in_tree}
use de_part.Ring.Bucket.{read_node, read_nodes, read_path}
use de_part.Ring.Inv.{Ensures, Ensures-bind, Ensures-mono, Sized, Inv, Ready, entry, total}
use de_part.Ring.Inv.Read.{entry_of}
use de_part.Ring.Inv.Node.{Reading, read_node-Reading}

pub All_at : (P : ℕ → Type 0) (i : ℕ) (xs : List ℕ) → All P xs → Member i xs → P i
All_at P i [] a m = absurd m
All_at P i (x ∷ xs) (p, a) (inl e) = subst P (sym e) p
All_at P i (x ∷ xs) (p, a) (inr m) = All_at P i xs a m

module _ (env : Env) (config : Config) (known : List ChunkKey) (at : ChunkKey → Option ℕ)
    (content : ChunkKey → Bytes) where
  Reading-refl :
      (s : Oram) (k : ChunkKey) (found : Bytes)
      → (found ≡ []) ⊎ (found ≡ content k)
      → Inv env config known at content s
      → Reading env config known at content k s s [] found
  Reading-refl s k found f v = record {
    inv = v;
    gone = λ i m. absurd m;
    others = λ j h. refl;
    counts = λ j m. absurd m;
    positions = refl;
    answer = f;
  }

  Reading-trans :
      (k : ChunkKey) (s s1 s2 : Oram) (i : ℕ) (is : List ℕ) (f1 f2 : Bytes)
      → (¬ Member i is)
      → Reading env config known at content k s s1 (i ∷ []) f1
      → Reading env config known at content k s1 s2 is f2
      → Reading env config known at content k s s2 (i ∷ is) f2
  Reading-trans k s s1 s2 i is f1 f2 new a b = record {
    inv = b.inv;
    gone = λ j m. gone_at j m;
    others = λ j h. b.others j (λ m. h (inr m)) ∙ a.others j (λ m. h (head_only j m));
    counts = λ j m. count_at j m;
    positions = b.positions ∙ a.positions;
    answer = b.answer;
  }
    where
      head_only : (j : ℕ) → Member j (i ∷ []) → Member j (i ∷ is)
      head_only j (inl e) = inl e
      head_only j (inr m) = absurd m

      gone_at : (j : ℕ) → Member j (i ∷ is) → entry s2 j k ≡ none
      gone_at j (inl e) =
          subst (λ x. entry s2 x k ≡ none) (sym e)
            (ap (λ x. entry_of x k) (b.others i new) ∙ a.gone i (inl refl))
      gone_at j (inr m) = b.gone j m

      apart : (j : ℕ) → Member j is → Member j (i ∷ []) → ⊥
      apart j m (inl e) = new (subst (λ x. Member x is) e m)
      apart j m (inr n) = n

      count_at :
          (j : ℕ)
          → Member j (i ∷ is)
          → (s2.bucket_blockdata j).count ≡ (s.bucket_blockdata j).count + 1
      count_at j (inl e) =
          ap (λ x. x.count) (b.others j (λ m. new (subst (λ x. Member x is) e m)))
          ∙ a.counts j (inl e)
      count_at j (inr m) = b.counts j m ∙ ap (λ x. x.count + 1) (a.others j (apart j m))

  read_nodes-Reading :
      (is : List ℕ) (s : Oram) (k : ChunkKey) (leaf : ℕ) (found : Bytes)
      → Distinct is
      → All (λ i. i < total config) is
      → at k ≡ some leaf
      → ((i : ℕ) → Member i is → (s.bucket_blockdata i).count < config.dummies_S)
      → (found ≡ []) ⊎ (found ≡ content k)
      → Inv env config known at content s
      → Ensures
          (read_nodes env config is k found s)
          (λ r s'. Reading env config known at content k s s' is r)
  unfolding read_nodes
  read_nodes-Reading [] s k leaf found d a here few f v = Reading-refl s k found f v
  read_nodes-Reading (i ∷ is) s k leaf found (new, d) (hi, a) here few f v =
      Ensures-bind (read_node env config i k found s) (read_nodes env config is k)
        (λ r s1. Reading env config known at content k s s1 (i ∷ []) r)
        (λ r s'. Reading env config known at content k s s' (i ∷ is) r)
        (read_node-Reading env config known at content s i k leaf found hi here (few i (inl refl)) f
          v)
        (λ f1 s1 first.
          Ensures-mono (read_nodes env config is k f1 s1)
            (λ r s'. Reading env config known at content k s1 s' is r)
            (λ r s'. Reading env config known at content k s s' (i ∷ is) r)
            (read_nodes-Reading is s1 k leaf f1 d a here
              (λ j m.
                subst (λ x. x.count < config.dummies_S) (sym (first.others j (λ n. apart j m n)))
                  (few j (inr m)))
              first.answer first.inv)
            (λ f2 s2 rest. Reading-trans k s s1 s2 i is f1 f2 new first rest))
    where
      apart : (j : ℕ) → Member j is → Member j (i ∷ []) → ⊥
      apart j m (inl e) = new (subst (λ x. Member x is) e m)
      apart j m (inr n) = n

  -- In a sized configuration, if the invariant holds, every bucket has been read less than S times
  -- and the chunk is kept under the leaf, then the read of the leaf's path ends without a fault;
  -- afterwards the invariant holds, the chunk is in the stash with its bytes and in no bucket of
  -- the path, the answer is empty or these bytes, the position map and the other buckets are as
  -- before, and each bucket of the path has been counted once.
  pub read_path-Reading :
      (s : Oram) (k : ChunkKey) (leaf : ℕ)
      → Sized config
      → at k ≡ some leaf
      → Ready config s
      → Inv env config known at content s
      → Ensures (read_path env config leaf k s) (λ r s'.
        Reading env config known at content k s s' (path config.height leaf) r
        × (lookup k s'.stash ≡ some (content k)))
  unfolding read_path
  read_path-Reading s k leaf sized here ready v =
      let is = path config.height leaf in
      let below = subst (λ n. leaf < n) sized.leaves (v.placed k leaf here).1 in
      let inside = path-in_tree config.height leaf below in
      Ensures-mono (read_nodes env config is k [] s)
        (λ r s'. Reading env config known at content k s s' is r)
        (λ r s'.
          Reading env config known at content k s s' is r × (lookup k s'.stash ≡ some (content k)))
        (read_nodes-Reading is s k leaf [] (path-Distinct config.height leaf below) inside here
          (λ i m. ready i (All_at (λ b. b < total config) i is inside m)) (inl refl) v)
        (λ r s' done'. (done', in_stash s' done'.inv (λ i m. done'.gone i m)))
    where
      in_stash :
          (s' : Oram)
          → Inv env config known at content s'
          → ((i : ℕ) → Member i (path config.height leaf) → entry s' i k ≡ none)
          → lookup k s'.stash ≡ some (content k)
      in_stash s' v' gone = elim (v'.held k leaf here) [
        | inr (i, m, slot, e) ↦ absurd (clash (entry s' i k) slot (gone i m) e)
        | inl h ↦ elim (Option-cases (lookup k s'.stash)) [
          | inl e ↦ absurd (h e)
          | inr (c, e) ↦ e ∙ ap some (v'.stash_content k c e).0
        ]
      ]
        where
          clash : (o : Option ℕ) (slot : ℕ) → o ≡ none → o ≡ some slot → ⊥
          clash o slot e f = cc
