-- ===== src/Import/Chain/Scan.antt =====
-- The inner loop of `_chain`: what it puts in the chains and in the queue.
use shopsystem_kb.Base.{
  ℕ, suc, ◌+◌, ◌≤◌, String, ◌≡◌, refl, sym, ap, ◌∙◌, true, false, none, some, Option-cases,
  Bool-cases, List, [], ◌∷◌, ◌++◌, ◌==◌, ==_iff, contains, string_eq, length, In, All, ◌⊎◌, inl,
  inr, In-append_left, In-append_right, arith,
}
use shopsystem_kb.Base.Dict.{Dict, lookup, insert, lookup-insert}
use shopsystem_kb.Import.Chain.{found, going, scan}

-- How many of some files the chains do not hold.
abbrev pub unseen : Dict String (List String) → List String → ℕ
unseen chains [] = 0
unseen chains (x ∷ xs) = elim (lookup x chains) [
  | none ↦ suc (unseen chains xs)
  | some _ ↦ unseen chains xs
]

unseen-insert_le :
    (to : String) (c : List String) (chains : Dict String (List String)) (xs : List String)
    → unseen (insert to c chains) xs ≤ unseen chains xs
unseen-insert_le to c chains [] = omega arith
unseen-insert_le to c chains (x ∷ xs) =
    ground (arith, lookup-insert x to c chains, unseen-insert_le to c chains xs)

unseen-insert :
    (to : String) (c : List String) (chains : Dict String (List String)) (xs : List String)
    → lookup to chains ≡ none
    → In to xs
    → suc (unseen (insert to c chains) xs) ≤ unseen chains xs
unseen-insert to c chains [] h m = absurd m.1
unseen-insert to c chains (x ∷ xs) h m = ground (
  arith,
  lookup-insert x to c chains,
  unseen-insert to c chains xs,
  unseen-insert_le to c chains xs,
)

lookup-insert_kept :
    (x to : String) (c d : List String) (chains : Dict String (List String))
    → lookup to chains ≡ none
    → lookup x chains ≡ some d
    → lookup x (insert to c chains) ≡ some d
lookup-insert_kept x to c d chains free h = ground (arith, lookup-insert x to c chains)

insert_same :
    (x to : String) (c d : List String) (chains : Dict String (List String))
    → x ≡ to
    → lookup x (insert to c chains) ≡ some d
    → d ≡ c
insert_same x to c d chains e h = ground (arith, lookup-insert x to c chains)

insert_other :
    (x to : String) (c d : List String) (chains : Dict String (List String))
    → (x == to) ≡ false
    → lookup x (insert to c chains) ≡ some d
    → lookup x chains ≡ some d
insert_other x to c d chains e h = ground (arith, lookup-insert x to c chains)

pub length-concat : (x : String) (xs : List String) → length (xs ++ x ∷ []) ≡ suc (length xs)
length-concat x [] = refl
length-concat x (y ∷ xs) = ap suc (length-concat x xs)

-- What the inner loop leaves, of the chains and the queue that it is given.
pub record Scans (broken chain files : List String) (chains : Dict String (List String))
    (waiting : List String) (chains' : Dict String (List String)) (waiting' : List String)
    : Type 0 where
  pub kept : (x : String) (c : List String) → lookup x chains ≡ some c → lookup x chains' ≡ some c
  pub new :
      (x : String) (c : List String)
      → lookup x chains' ≡ some c
      → (lookup x chains ≡ some c)
        ⊎ (In x waiting' × (c ≡ chain ++ x ∷ []) × In x files × (contains broken x ≡ false))
  pub covered : (x : String) → In x files → (c : List String) × (lookup x chains' ≡ some c)
  pub queued :
      (added : List String) × (waiting' ≡ waiting ++ added)
      × All (λ x. lookup x chains' ≡ some (chain ++ x ∷ [])) added
  pub fewer :
      (all : List String)
      → ((x : String) → In x files → In x all)
      → unseen chains' all + length waiting' ≤ unseen chains all + length waiting

pub append_one : (x : String) (xs ys : List String) → (xs ++ x ∷ []) ++ ys ≡ xs ++ x ∷ ys
append_one x [] ys = refl
append_one x (y ∷ xs) ys = ap (λ r. y ∷ r) (append_one x xs ys)

pub append_nothing : (xs : List String) → xs ++ [] ≡ xs
append_nothing [] = refl
append_nothing (x ∷ xs) = ap (λ r. x ∷ r) (append_nothing xs)

module _ (broken chain : List String) where
  -- A file that the chains hold already is passed over.
  Scans-held :
      (to : String) (files : List String) (chains chains' : Dict String (List String))
      (waiting waiting' : List String) (c : List String)
      → lookup to chains ≡ some c
      → Scans broken chain files chains waiting chains' waiting'
      → Scans broken chain (to ∷ files) chains waiting chains' waiting'
  Scans-held to files chains chains' waiting waiting' c held s = record {
    kept = s.kept;
    new = λ x d e. elim (s.new x d e) [
      | inl before ↦ inl before
      | inr (queue, made, one_of, sound) ↦ inr (queue, made, inr one_of, sound)
    ];
    covered = λ x m. elim m [
      | inl e ↦ (c, ap (λ y. lookup y chains') e ∙ s.kept to c held)
      | inr n ↦ s.covered x n
    ];
    queued = s.queued;
    fewer = λ all inside. s.fewer all (λ x m. inside x (inr m));
  }

  -- A file that they do not hold is put in the chains and in the queue.
  Scans-new :
      (to : String) (files : List String) (chains chains' : Dict String (List String))
      (waiting waiting' : List String)
      → lookup to chains ≡ none
      → contains broken to ≡ false
      → Scans broken chain files
          (insert to (chain ++ to ∷ []) chains)
          (waiting ++ to ∷ [])
          chains'
          waiting'
      → Scans broken chain (to ∷ files) chains waiting chains' waiting'
  Scans-new to files chains chains' waiting waiting' free sound s =
      let own : lookup to chains' ≡ some (chain ++ to ∷ []) =
        s.kept to (chain ++ to ∷ [])
          (ground (arith, lookup-insert to to (chain ++ to ∷ []) chains)) in
      let (added, queue, every) = s.queued in
      let waiting_so = queue ∙ append_one to waiting added in
      record {
        kept = λ x c e. s.kept x c (lookup-insert_kept x to (chain ++ to ∷ []) c chains free e);
        new = λ x d e. elim (s.new x d e) [
          | inl before ↦ elim (Bool-cases (x == to)) [
            | inl same ↦
                let is = (==_iff x to).0 same in
                let here =
                  In-append_left to (waiting ++ to ∷ []) added
                    (In-append_right to waiting (to ∷ []) (inl refl)) in
                inr (
                  rw is (rw queue here),
                  insert_same x to (chain ++ to ∷ []) d chains is before ∙ rw is,
                  inl is,
                  ap (contains broken) is ∙ sound,
                )
            | inr other ↦ inl (insert_other x to (chain ++ to ∷ []) d chains other before)
          ]
          | inr (queued, made, one_of, fine) ↦ inr (queued, made, inr one_of, fine)
        ];
        covered = λ x m. elim m [
          | inl e ↦ (chain ++ to ∷ [], ap (λ y. lookup y chains') e ∙ own)
          | inr n ↦ s.covered x n
        ];
        queued = (to ∷ added, waiting_so, (own, every));
        fewer = λ all inside. omega (
          arith,
          s.fewer all (λ x m. inside x (inr m)),
          length-concat to waiting,
          unseen-insert to (chain ++ to ∷ []) chains all free (inside to (inl refl)),
        );
      }

  Scans-none :
      (chains : Dict String (List String)) (waiting : List String)
      → Scans broken chain [] chains waiting chains waiting
  Scans-none chains waiting = record {
    kept = λ x c e. e;
    new = λ x c e. inl e;
    covered = λ x m. absurd m.1;
    queued = ([], sym (append_nothing waiting), tt);
    fewer = λ all inside. omega arith;
  }

  module _ (to : String) (files : List String) (chains : Dict String (List String))
      (waiting : List String) where
    scan-held :
        (c : List String)
        → lookup to chains ≡ some c
        → scan broken chain (to ∷ files) chains waiting ≡ scan broken chain files chains waiting
    unfolding scan
    scan-held c h = ground arith

    scan-broken :
        lookup to chains ≡ none
        → contains broken to ≡ true
        → scan broken chain (to ∷ files) chains waiting ≡ found (chain ++ to ∷ [])
    unfolding scan
    scan-broken h b = ground arith

    scan-new :
        lookup to chains ≡ none
        → contains broken to ≡ false
        → scan broken chain (to ∷ files) chains waiting
          ≡ scan broken chain files (insert to (chain ++ to ∷ []) chains) (waiting ++ to ∷ [])
    unfolding scan
    scan-new h b = ground arith

  -- The inner loop finds a broken file that it was given, or it is over.
  pub scan_cases :
      (files : List String) (chains : Dict String (List String)) (waiting : List String)
      → ((to : String) × (scan broken chain files chains waiting ≡ found (chain ++ to ∷ []))
          × In to files
          × (contains broken to ≡ true))
        ⊎ ((chains' : Dict String (List String)) × (waiting' : List String) × (scan broken chain
                files chains waiting
              ≡ going chains' waiting')
            × Scans broken chain files chains waiting chains' waiting')
  unfolding scan
  scan_cases [] chains waiting = inr (chains, waiting, refl, Scans-none chains waiting)
  scan_cases (to ∷ files) chains waiting = elim (Option-cases (lookup to chains)) [
    | inr (c, held) ↦
        let skip = scan-held to files chains waiting c held in
        elim (scan_cases files chains waiting) [
          | inl (x, e, m, b) ↦ inl (x, skip ∙ e, inr m, b)
          | inr (chains', waiting', e, s) ↦ inr (
            chains',
            waiting',
            skip ∙ e,
            Scans-held to files chains chains' waiting waiting' c held s,
          )
        ]
    | inl free ↦ elim (Bool-cases (contains broken to)) [
      | inl b ↦ inl (to, scan-broken to files chains waiting free b, inl refl, b)
      | inr sound ↦
          let goes = scan-new to files chains waiting free sound in
          elim (scan_cases files (insert to (chain ++ to ∷ []) chains) (waiting ++ to ∷ [])) [
            | inl (x, e, m, b) ↦ inl (x, goes ∙ e, inr m, b)
            | inr (chains', waiting', e, s) ↦ inr (
              chains',
              waiting',
              goes ∙ e,
              Scans-new to files chains chains' waiting waiting' free sound s,
            )
          ]
    ]
  ]
