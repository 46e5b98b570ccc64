-- ===== src/Cli/Trie.antt =====
-- cli/trie: the words that complete what was typed.
use structuredb.Base.{
  ℕ, ◌≡◌, refl, sym, ap, ◌∙◌, Bool, true, false, ◌||◌, List, [], ◌∷◌, ◌++◌, arith, ◌==◌, ==_iff,
  if◌then◌else◌, Bool-cases, inl, inr, Option, none, some,
}
use structuredb.Base.Str.{Str, str_eq, str_eq_refl}
use mathlib.Core.List.{append_assoc, append-nil}

-- `Trie::Node`. The children are a list in the order they were added in; the theorems do not look at
-- the order of an `unordered_map`.
mutual
  pub data Node : Type 0 where
    node : Bool → Children → Node

  pub data Children : Type 0 where
    no_child : Children
    child : ℕ → Node → Children → Children

abbrev pub empty : Node
empty = node false no_child

-- `children.find(ch)`.
unfoldable pub find_child : ℕ → Children → Option Node
find_child ch no_child = none
find_child ch (child c n children) = if c == ch then some n else find_child ch children

-- `try_emplace(ch, Node{})` for a missing child, then the rest of the loop at `children[ch]`.
unfoldable pub at_child : ℕ → (Node → Node) → Children → Children
at_child ch rest no_child = child ch (rest empty) no_child
at_child ch rest (child c n children) =
    let behind = at_child ch rest children in
    if c == ch then child c (rest n) children else child c n behind

-- `Trie::Add`.
unfoldable pub add : Str → Node → Node
add [] (node is_end_of_word children) = node true children
add (ch ∷ word) (node is_end_of_word children) =
    node is_end_of_word (at_child ch (add word) children)

-- `CollectSuffixes`.
unfoldable mutual
  pub collect_suffixes : Str → Node → List Str
  collect_suffixes suffix (node is_end_of_word children) =
      let results = collect_children suffix children in
      if is_end_of_word then suffix ∷ results else results

  pub collect_children : Str → Children → List Str
  collect_children suffix no_child = []
  collect_children suffix (child ch n children) =
      collect_suffixes (suffix ++ ch ∷ []) n ++ collect_children suffix children

-- The loop of `FindCompletion` over the prefix.
unfoldable pub descend : Str → Node → Option Node
descend [] current = some current
descend (ch ∷ prefix) (node is_end_of_word children) = elim (find_child ch children) [
  | none ↦ none
  | some current ↦ descend prefix current
]

unfoldable pub find_completion : Str → Node → List Str
find_completion prefix root_ = elim (descend prefix root_) [
  | none ↦ []
  | some current ↦ collect_suffixes prefix current
]

-- Whether a word ends at the node.
unfoldable pub ends : Option Node → Bool
ends none = false
ends (some (node is_end_of_word children)) = is_end_of_word

or_empty : Option Node → Node
or_empty none = empty
or_empty (some n) = n

abbrev descend_from : Str → Option Node → Option Node
descend_from v none = none
descend_from v (some n) = descend v n

find-same :
    (c k : ℕ) (f : Node → Node) (cs : Children)
    → (k == c) ≡ true
    → find_child c (at_child k f cs) ≡ some (f (or_empty (find_child c cs)))
unfolding find_child at_child or_empty
find-same c k f no_child h = rw h refl
find-same c k f (child j n cs) h = elim (Bool-cases (j == k)) [
  | inl b ↦ let d : (j == c) ≡ true = ground arith in rw (b, d) refl
  | inr b ↦ let d : (j == c) ≡ false = ground arith in rw (b, d) (find-same c k f cs h)
]

find-other :
    (c k : ℕ) (f : Node → Node) (cs : Children)
    → (k == c) ≡ false
    → find_child c (at_child k f cs) ≡ find_child c cs
unfolding find_child at_child
find-other c k f no_child h = rw h refl
find-other c k f (child j n cs) h = elim (Bool-cases (j == k)) [
  | inl b ↦ let d : (j == c) ≡ false = ground arith in rw (b, d) refl
  | inr b ↦ rw b (ap (λ o. if j == c then some n else o) (find-other c k f cs h))
]

ends-empty : (v : Str) → ends (descend v empty) ≡ false
unfolding ends descend find_child
ends-empty [] = refl
ends-empty (c ∷ v) = refl

ends-or_empty :
    (v : Str) (o : Option Node) → ends (descend v (or_empty o)) ≡ ends (descend_from v o)
unfolding ends or_empty
ends-or_empty v none = ends-empty v
ends-or_empty v (some n) = refl

-- The words of a trie to which a word is added are that one and those it had.
pub ends-add :
    (v w : Str) (t : Node) → ends (descend v (add w t)) ≡ (str_eq w v || ends (descend v t))
unfolding ends descend add str_eq
ends-add [] [] (node e cs) = refl
ends-add (c ∷ v) [] (node e cs) = refl
ends-add [] (k ∷ w) (node e cs) = refl
ends-add (c ∷ v) (k ∷ w) (node e cs) = elim (Bool-cases (k == c)) [
  | inl b ↦ rw b (
      ap (λ o. ends (descend_from v o)) (find-same c k (add w) cs b)
      ∙ ends-add v w (or_empty (find_child c cs))
      ∙ ap (str_eq w v ||◌) (ends-or_empty v (find_child c cs)))
  | inr b ↦ rw b (ap (λ o. ends (descend_from v o)) (find-other c k (add w) cs b))
]

unfoldable pub offered : Str → List Str → Bool
offered word [] = false
offered word (w ∷ words) = str_eq w word || offered word words

descend_from-append :
    (p u : Str) (o : Option Node) → descend_from (p ++ u) o ≡ descend_from u (descend_from p o)
unfolding descend
descend_from-append p u none = refl
descend_from-append [] u (some n) = refl
descend_from-append (c ∷ p) u (some (node e cs)) = descend_from-append p u (find_child c cs)

offered-append :
    (w : Str) (xs ys : List Str) → offered w (xs ++ ys) ≡ (offered w xs || offered w ys)
unfolding offered
offered-append w [] ys = refl
offered-append w (x ∷ xs) ys = ground (arith, offered-append w xs ys)

children-offers :
    (c : ℕ) (u s : Str)
    → ((r : Str) (n : Node)
        → ends (descend u n) ≡ true
        → offered (r ++ u) (collect_suffixes r n) ≡ true)
    → (cs : Children) → ends (descend_from u (find_child c cs)) ≡ true
    → offered (s ++ c ∷ u) (collect_children s cs) ≡ true
unfolding ends find_child collect_suffixes
children-offers c u s rec no_child h = cc
children-offers c u s rec (child j n cs) h =
    offered-append (s ++ c ∷ u) (collect_suffixes (s ++ j ∷ []) n) (collect_children s cs)
    ∙ elim (Bool-cases (j == c)) [
      | inl b ↦
          let here =
            sym (ap (λ x. ends (descend_from u (if x then some n else find_child c cs))) b) ∙ h in
          let word =
            ap (λ k. s ++ k ∷ u) (sym ((==_iff j c).0 b)) ∙ sym (append_assoc s (j ∷ []) u) in
          ap (λ x. x || offered (s ++ c ∷ u) (collect_children s cs))
            (ap (λ w. offered w (collect_suffixes (s ++ j ∷ []) n)) word ∙ rec (s ++ j ∷ []) n here)
      | inr b ↦
          let there =
            sym (ap (λ x. ends (descend_from u (if x then some n else find_child c cs))) b) ∙ h in
          ground (arith, children-offers c u s rec cs there)
    ]

collect-offers :
    (u s : Str) (n : Node)
    → ends (descend u n) ≡ true
    → offered (s ++ u) (collect_suffixes s n) ≡ true
unfolding ends descend collect_suffixes offered
collect-offers [] s (node e cs) h = rw (h, append-nil s) (ground (arith, str_eq_refl s))
collect-offers (c ∷ u) s (node e cs) h =
    let below = children-offers c u s (collect-offers u) cs h in
    elim (Bool-cases e) [ inl b ↦ rw b (ground (arith, below)) | inr b ↦ rw b below ]

completions-offer :
    (p u : Str) (o : Option Node)
    → ends (descend_from u o) ≡ true
    → offered (p ++ u) (elim o [ none ↦ [] | some n ↦ collect_suffixes p n ]) ≡ true
unfolding ends
completions-offer p u none h = cc
completions-offer p u (some n) h = collect-offers u p n h

-- Every word of a trie that begins with a prefix is among the completions of the prefix.
pub find_completion-offers :
    (p u : Str) (t : Node)
    → ends (descend (p ++ u) t) ≡ true
    → offered (p ++ u) (find_completion p t) ≡ true
unfolding find_completion
find_completion-offers p u t h =
    completions-offer p u (descend p t) (sym (ap ends (descend_from-append p u (some t))) ∙ h)

-- A word that was added is among the completions of each of its prefixes.
pub find_completion-add :
    (p u : Str) (t : Node) → offered (p ++ u) (find_completion p (add (p ++ u) t)) ≡ true
find_completion-add p u t =
    find_completion-offers p u (add (p ++ u) t) (
      ends-add (p ++ u) (p ++ u) t
      ∙ ap (λ b. b || ends (descend (p ++ u) t)) (str_eq_refl (p ++ u)))
