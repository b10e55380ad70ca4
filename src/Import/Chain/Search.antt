-- ===== src/Import/Chain/Search.antt =====
-- The search of `_chain` ends, with a shortest chain or with none.
use mathlib.Core.Path.{subst}
use mathlib.Core.Option.{some-injective}
use shopsystem_kb.Base.{
  In-append_left, ℕ, suc, ◌≤◌, ◌<◌, String, ◌≡◌, sym, ap, ◌∙◌, false, some, List, [], ◌∷◌, ◌++◌,
  contains, string_eq, length, In, All, ◌⊎◌, inl, inr, arith,
}
use shopsystem_kb.Base.Dict.{Dict, lookup}
use shopsystem_kb.Import.Chain.{targets, chain}
use shopsystem_kb.Import.Chain.Scan.{Scans, length-concat}

module _ (leads : Dict String (List String)) (broken : List String) (start : String) where
  -- The chains of files that lead from the first to a file, each by what the one before leads to.
  pub data Leads : List String → String → Type 0 where
    alone : Leads (start ∷ []) start
    onward :
        {c : List String} {file to : String}
        → Leads c file
        → In to (targets leads file)
        → Leads (c ++ to ∷ []) to

  abbrev pub Held : Dict String (List String) → String → ℕ → Type 0
  Held chains x n = (c : List String) × (lookup x chains ≡ some c) × (length c ≤ n)

  -- The queue holds files of the chains, by the lengths of their chains, from a length on.
  abbrev pub Rising : Dict String (List String) → ℕ → List String → Type 0
  Rising chains n [] = Unit
  Rising chains n (x ∷ xs) =
      (c : List String) × (lookup x chains ≡ some c) × (n ≤ length c) × Rising chains (length c) xs

  -- What a file leads to is in the chains, and at most one further.
  abbrev pub Passed : Dict String (List String) → String → ℕ → Type 0
  Passed chains x n = (y : String) → In y (targets leads x) → Held chains y (suc n)

  -- The state of the search, at chains of a length.
  pub record Inv (n : ℕ) (chains : Dict String (List String)) (waiting : List String) : Type 0 where
    pub first : lookup start chains ≡ some (start ∷ [])
    pub real : (x : String) (c : List String) → lookup x chains ≡ some c → Leads c x
    pub sound :
        (x : String) (c : List String) → lookup x chains ≡ some c → contains broken x ≡ false
    pub near : (x : String) (c : List String) → lookup x chains ≡ some c → length c ≤ suc n
    pub rising : Rising chains n waiting
    pub passed :
        (x : String) (c : List String)
        → lookup x chains ≡ some c
        → In x waiting ⊎ Passed chains x (length c)

  Held-mono :
      (chains : Dict String (List String)) (x : String) (n m : ℕ)
      → n ≤ m
      → Held chains x n
      → Held chains x m
  Held-mono chains x n m le (c, e, h) = (c, e, omega arith)

  Rising-kept :
      (chains chains' : Dict String (List String))
      → ((x : String) (c : List String) → lookup x chains ≡ some c → lookup x chains' ≡ some c)
      → (n : ℕ) (xs : List String) → Rising chains n xs
      → Rising chains' n xs
  Rising-kept chains chains' kept n [] r = tt
  Rising-kept chains chains' kept n (x ∷ xs) (c, e, le, r) =
      (c, kept x c e, le, Rising-kept chains chains' kept (length c) xs r)

  Rising-added :
      (chains : Dict String (List String)) (chain : List String) (n : ℕ) (xs : List String)
      → n ≤ suc (length chain)
      → All (λ x. lookup x chains ≡ some (chain ++ x ∷ [])) xs
      → Rising chains n xs
  Rising-added chains chain n [] le every = tt
  Rising-added chains chain n (x ∷ xs) le (e, every) = (
    chain ++ x ∷ [],
    e,
    omega (arith, length-concat x chain),
    Rising-added chains chain (length (chain ++ x ∷ [])) xs (omega (arith, length-concat x chain))
        every,
  )

  Rising-append :
      (chains : Dict String (List String)) (chain : List String) (n : ℕ) (xs ys : List String)
      → ((x : String) (c : List String) → lookup x chains ≡ some c → length c ≤ suc (length chain))
      → n ≤ suc (length chain)
      → Rising chains n xs
      → All (λ x. lookup x chains ≡ some (chain ++ x ∷ [])) ys
      → Rising chains n (xs ++ ys)
  Rising-append chains chain n [] ys near le r every = Rising-added chains chain n ys le every
  Rising-append chains chain n (x ∷ xs) ys near le (c, e, low, r) every =
      (c, e, low, Rising-append chains chain (length c) xs ys near (near x c e) r every)

  -- What waits stands no nearer than the first of the queue.
  Rising-le :
      (chains : Dict String (List String)) (n : ℕ) (xs : List String) (x : String) (c : List String)
      → Rising chains n xs
      → In x xs
      → lookup x chains ≡ some c
      → n ≤ length c
  Rising-le chains n [] x c r m e = absurd m.1
  Rising-le chains n (y ∷ ys) x c (d, e', le, r) (inl same) e =
      let d_is_c : some d ≡ some c = sym e' ∙ ap (λ z. lookup z chains) (sym same) ∙ e in
      ground arith
  Rising-le chains n (y ∷ ys) x c (d, e', le, r) (inr m) e =
      omega (arith, Rising-le chains (length d) ys x c r m e)

  -- What is nearer than a length is in the chains, where all files nearer than that are passed.
  pub reached :
      (chains : Dict String (List String)) (n : ℕ)
      → lookup start chains ≡ some (start ∷ [])
      → ((x : String) (c : List String)
          → lookup x chains ≡ some c
          → length c < n
          → Passed chains x (length c))
      → {c : List String} {x : String} → Leads c x
      → length c ≤ n
      → Held chains x (length c)
  reached chains n first passed alone le = (start ∷ [], first, omega arith)
  reached chains n first passed (onward {c} {file} {to} l m) le =
      let longer = length-concat to c in
      let (d, e, near) = reached chains n first passed l (omega arith) in
      let held = passed file d e (omega arith) to m in
      Held-mono chains to (suc (length d)) (length (c ++ to ∷ [])) (omega arith) held

  -- Nothing nearer than the length of the state's chains is broken.
  pub near_sound :
      (n m : ℕ) (chains : Dict String (List String)) (waiting : List String)
      → Inv n chains waiting
      → Rising chains m waiting
      → {c : List String} {x : String} → Leads c x
      → length c ≤ m
      → contains broken x ≡ false
  near_sound n m chains waiting v r l le =
      let (d, e, _) =
        reached chains m v.first
          (λ x c e near. elim (v.passed x c e) [
            | inl waits ↦ absurd (beyond (Rising-le chains m waiting x c r waits e) near)
            | inr p ↦ p
          ])
          l le in
      v.sound _ d e
    where
      beyond : {a b : ℕ} → a ≤ b → b < a → ⊥
      beyond h k = omega arith

  -- A round of the outer loop that finds nothing.
  pub Inv-scan :
      (n : ℕ) (chains chains' : Dict String (List String)) (file : String)
      (rest waiting' c : List String)
      → Inv n chains (file ∷ rest)
      → lookup file chains ≡ some c
      → n ≤ length c
      → Rising chains (length c) rest
      → Scans broken c (targets leads file) chains rest chains' waiting'
      → Inv (length c) chains' waiting'
  Inv-scan n chains chains' file rest waiting' c v held le r s =
      let (added, queue, every) = s.queued in
      let near' : (x : String) (d : List String)
          → lookup x chains' ≡ some d
          → length d ≤ suc (length c) =
        λ x d e. elim (s.new x d e) [
          | inl before ↦ omega (arith, v.near x d before)
          | inr (_, made, _, _) ↦ omega (arith, ap length made, length-concat x c)
        ] in
      record {
        first = s.kept start (start ∷ []) v.first;
        real = λ x d e. elim (s.new x d e) [
          | inl before ↦ v.real x d before
          | inr (_, made, one_of, _) ↦ rw made (onward (v.real file c held) one_of)
        ];
        sound = λ x d e. elim (s.new x d e) [
          | inl before ↦ v.sound x d before
          | inr (_, _, _, fine) ↦ fine
        ];
        near = near';
        rising = rw queue (
            Rising-append chains' c (length c) rest added near' (omega arith)
              (Rising-kept chains chains' s.kept (length c) rest r) every);
        passed = λ x d e. elim (s.new x d e) [
          | inr (queued, _, _, _) ↦ inl queued
          | inl before ↦ elim (v.passed x d before) [
            | inl (inr waits) ↦ inl (rw queue (In-append_left x rest added waits))
            | inl (inl same) ↦
                let d_is_c : some d ≡ some c = sym before ∙ ap (λ z. lookup z chains) same ∙ held in
                inr (λ y m.
                  let (g, e) = s.covered y (subst (λ z. In y (targets leads z)) same m) in
                  let same_chain = sym (some-injective d c d_is_c) in
                  (g, e, subst (λ k. length g ≤ suc (length k)) same_chain (near' y g e)))
            | inr p ↦ inr (λ y m. let (g, e, h) = p y m in (g, s.kept y g e, h))
          ]
        ];
      }
